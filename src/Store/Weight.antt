-- ===== src/Store/Weight.antt =====
-- What a record weighs in the cache (src/store/mod.rs): `proof_weight` has three `expect`s.
use pulsar_verifier.Prelude.{
  [], some, false, ◌∷◌, ◌≡◌, ◌+◌, ◌≤◌, ◌<◌, List, ℕ, length, is_none, u32_limit, arith, none, refl,
  Option,
}
use pulsar_verifier.Error.{ok}
use pulsar_verifier.Identity.{VerificationId}
use pulsar_verifier.Proof.{Prost, Sha256, encoded_bytes_len, encoded_len, payload_len, Proof}
use pulsar_verifier.Store.Limits.{
  maximum_weight, check_config, proof_weight, ProofStoreConfig, failure_weight, payload_weight,
}
use pulsar_verifier.Store.Record.{ProofRecord, VerificationState}
use pulsar_verifier.Store.Validity.{IsValid, IsAccepted, IsBoundedState}

module _ ⦃prost : Prost⦄ where
  encoded_bytes_len-ge : (b : List ℕ) → length b ≤ encoded_bytes_len b
  unfolding encoded_bytes_len
  encoded_bytes_len-ge [] = omega arith
  encoded_bytes_len-ge (x ∷ b) = omega arith

  payload_len-le :
      (p : Proof) (limit : ℕ)
      → encoded_len p ≤ limit
      → limit < u32_limit
      → (n : ℕ) × (payload_len p ≡ some n) × (n ≤ limit)
  unfolding encoded_len payload_len
  payload_len-le p limit h l = (
    length p.proof + length p.public_inputs + length p.verification_key,
    ground (
      arith,
      encoded_bytes_len-ge p.proof,
      encoded_bytes_len-ge p.public_inputs,
      encoded_bytes_len-ge p.verification_key,
    ),
    omega (
      arith,
      encoded_bytes_len-ge p.proof,
      encoded_bytes_len-ge p.public_inputs,
      encoded_bytes_len-ge p.verification_key,
    ),
  )

  maximum_weight-bound :
      (max_proof_bytes : ℕ)
      → is_none (maximum_weight max_proof_bytes) ≡ false
      → max_proof_bytes + 576 < u32_limit
  unfolding maximum_weight
  maximum_weight-bound m h = ground arith

  check_config-bound :
      (c : ProofStoreConfig) → check_config c ≡ ok tt → c.max_proof_bytes + 576 < u32_limit
  unfolding check_config
  check_config-bound c h = maximum_weight-bound c.max_proof_bytes (ground arith)

failure_weight-le : (v : Option VerificationState) → IsBoundedState v → failure_weight v ≤ 320
unfolding failure_weight
failure_weight-le none b = omega arith
failure_weight-le (some VerificationState.queued) b = omega arith
failure_weight-le (some VerificationState.verifying) b = omega arith
failure_weight-le (some (VerificationState.completed v)) b = omega arith
failure_weight-le (some (VerificationState.failed f)) b = omega arith

module _ ⦃sha : Sha256⦄ ⦃prost : Prost⦄ where
  payload_weight-le :
      (o : Option Proof) (id : VerificationId) (limit : ℕ)
      → IsAccepted limit id o
      → limit < u32_limit
      → (n : ℕ) × (payload_weight o ≡ some n) × (n ≤ limit)
  unfolding payload_weight
  payload_weight-le none id limit h l = (0, refl, omega arith)
  payload_weight-le (some p) id limit h l = payload_len-le p limit h.0 l

  -- Under a configuration that `ProofStore::new` accepts, `proof_weight` panics on no valid record:
  -- the weight exists, fits `u32`, and is at most the proof limit with the 576 bytes that the check
  -- of the configuration reserves for metadata and a failure.
  pub proof_weight_fits :
      (c : ProofStoreConfig) (id : VerificationId) (r : ProofRecord)
      → check_config c ≡ ok tt
      → IsValid c.max_proof_bytes id r
      → (w : ℕ) × (proof_weight r ≡ some w) × (w ≤ c.max_proof_bytes + 576) × (w < u32_limit)
  unfolding proof_weight
  proof_weight_fits c id r h v =
      let bound = check_config-bound c h in
      let (n, weighed, small) =
        payload_weight-le r.proof id c.max_proof_bytes v.content (omega arith) in
      let extra = failure_weight-le r.verification v.failure in
      (n + 256 + failure_weight r.verification, ground arith, omega arith, omega arith)
