-- ===== src/Chain/Descriptor.antt =====
-- src/chain/descriptor.rs, with the messages that it reads, generated from
-- crates/pulsar-verifier-proto/proto/pulsarchain/verification/v1. Of a formatted diagnostic the
-- model keeps the fixed part.
use pulsar_verifier.Prelude.{
  ℕ, if◌then◌else◌, none, some, true, false, ◌||◌, ◌==◌, List, Option, String, nat_beq, not, length,
  Bool, nat_eq, leb,
}
use pulsar_verifier.Error.{
  Result, ◌>>=◌, ◌>>◌, ok, err, invalid_chain_contract, verification_id_mismatch,
}
use pulsar_verifier.Identity.{VerificationId, id_eq}
use pulsar_verifier.Prelude.Int.{ℤ}
use pulsar_verifier.Proof.{Sha256, type_of_wire, id_of_bytes, from_component_hashes}

abbrev pub component_hash_len : ℕ
component_hash_len = 32

abbrev pub max_proofs_per_block : ℕ
max_proofs_per_block = 256

pub record ProofKey : Type 0 where
  pub submission_height : ℕ
  pub index_in_block : ℕ

-- `chain_v1::ProofRecord`.
pub record PendingRecord : Type 0 where
  pub proof_hash : List ℕ
  pub proof_type : ℤ
  pub public_inputs_hash : List ℕ
  pub verification_key_hash : List ℕ
  pub verification_id : List ℕ

pub record FinalProofResult : Type 0 where
  pub proof_hash : List ℕ
  pub proof_type : ℤ
  pub status : ℤ
  pub valid_voting_power : ℤ
  pub invalid_voting_power : ℤ
  pub total_voting_power : ℤ
  pub voting_power_threshold : ℤ
  pub submission_height : ℕ
  pub finalized_height : ℕ
  pub public_inputs_hash : List ℕ
  pub verification_key_hash : List ℕ
  pub verification_id : List ℕ

pub data State : Type 0 where
  pending : PendingRecord → State
  final_result : FinalProofResult → State

pub record QueryProofResponse : Type 0 where
  pub proof_key : Option ProofKey
  pub state : Option State

pub record ChainProof : Type 0 where
  pub verification_id : VerificationId
  pub submission_height : ℕ
  pub index_in_block : ℕ

unfoldable pub component_hash : String → List ℕ → Result (List ℕ)
component_hash name bytes =
    if length bytes == component_hash_len then ok bytes else err (invalid_chain_contract name)

unfoldable pub validate_position : ℕ → ℕ → ℕ → Result (Unit {0})
validate_position submission_height index_in_block expected_height =
    if nat_beq submission_height 0 || not (nat_beq submission_height expected_height)
    then err (invalid_chain_contract "invalid proof submission height")
    else if leb max_proofs_per_block index_in_block
    then err (invalid_chain_contract "proof index exceeds the per-block contract limit")
    else ok tt

unfoldable pub validate_final_position : FinalProofResult → ℕ → ℕ → Result (Unit {0})
validate_final_position r submission_height index_in_block =
    if not (nat_beq r.submission_height submission_height)
    then err (invalid_chain_contract "final proof result disagrees with its proof key height")
    else ok tt

module _ ⦃sha : Sha256⦄ where
  unfoldable pub validate_descriptor : ℤ → List ℕ → List ℕ → List ℕ → List ℕ → Result VerificationId
  unfolding component_hash
  validate_descriptor wire_type proof_hash public_inputs_hash verification_key_hash id = do
    proof_type ← type_of_wire wire_type
    proof_digest ← component_hash "proof_hash" proof_hash
    inputs_digest ← component_hash "public_inputs_hash" public_inputs_hash
    key_digest ← component_hash "verification_key_hash" verification_key_hash
    expected ← id_of_bytes id
    let computed = from_component_hashes proof_type proof_digest inputs_digest key_digest
    if not (computed == expected) then err (verification_id_mismatch expected) else ok expected

  unfoldable pub validate_pending_descriptor : PendingRecord → Result VerificationId
  unfolding validate_descriptor
  validate_pending_descriptor r =
      validate_descriptor r.proof_type r.proof_hash r.public_inputs_hash r.verification_key_hash
        r.verification_id

  unfoldable pub validate_final_descriptor : FinalProofResult → Result VerificationId
  unfolding validate_descriptor
  validate_final_descriptor r =
      validate_descriptor r.proof_type r.proof_hash r.public_inputs_hash r.verification_key_hash
        r.verification_id

  -- The match on the state: the identity, and whether it is pending.
  unfoldable pub validate_state : ProofKey → Option State → Result (VerificationId × Bool)
  unfolding validate_pending_descriptor validate_final_descriptor validate_final_position
  validate_state key none = err (invalid_chain_contract "proof query response has no state")
  validate_state key (some state) = elim state [
    | State.pending r ↦ validate_pending_descriptor r >>= λ id. ok (id, true)
    | State.final_result r ↦
        validate_final_position r key.submission_height key.index_in_block
        >> (validate_final_descriptor r >>= λ id. ok (id, false))
  ]

  unfoldable pub validate_keyed : ProofKey → Option State → ℕ → Result (Option ChainProof)
  unfolding validate_state validate_position
  validate_keyed key state requested_height =
      validate_position key.submission_height key.index_in_block requested_height
      >> (validate_state key state >>= λ found. ok (
          if found.1
          then some (record {
            verification_id = found.0;
            submission_height = key.submission_height;
            index_in_block = key.index_in_block;
          })
          else none))

  unfoldable pub validate_query_proof : QueryProofResponse → ℕ → Result (Option ChainProof)
  unfolding validate_keyed
  validate_query_proof response requested_height = elim response.proof_key [
    | none ↦ err (invalid_chain_contract "proof query response is missing proof_key")
    | some key ↦ validate_keyed key response.state requested_height
  ]
