-- ===== src/Chain/Acceptance.antt =====
-- Which descriptors and query responses src/chain/descriptor.rs accepts.
use pulsar_verifier.Prelude.{
  ℕ, ◌≡◌, List, length, arith, none, some, refl, ◌<◌, ◌↔◌, subst, Option, inl, inr,
}
use pulsar_verifier.Chain.Descriptor.{
  validate_descriptor, component_hash, QueryProofResponse, validate_query_proof, ChainProof,
  PendingRecord, State, ProofKey, validate_pending_descriptor, validate_keyed, validate_state,
  validate_position,
}
use pulsar_verifier.Error.{Result, ok, err, Result-cases}
use pulsar_verifier.Identity.{VerificationId, ProofType, id_eq}
use pulsar_verifier.Prelude.Int.{ℤ, pos}
use pulsar_verifier.Proof.{
  Sha256, id_of_bytes, type_of_wire, from_component_hashes, verification_id, Proof, type_number,
}

type_of_wire-type_number : (t : ProofType) → type_of_wire (pos (type_number t)) ≡ ok t
unfolding type_of_wire
type_of_wire-type_number ProofType.mina_pickles = refl
type_of_wire-type_number ProofType.noir_barretenberg = refl

module _ ⦃sha : Sha256⦄ where
  -- Component hashes of 32 bytes, whose identity is the one that is given.
  pub record IsDescriptor (wire_type : ℤ)
      (proof_hash public_inputs_hash verification_key_hash id : List ℕ) (v : VerificationId)
      : Type 0 where
    pub proof_type : ProofType
    pub known : type_of_wire wire_type ≡ ok proof_type
    pub proof_size : length proof_hash ≡ 32
    pub inputs_size : length public_inputs_hash ≡ 32
    pub key_size : length verification_key_hash ≡ 32
    pub given : v.bytes ≡ id
    pub computed :
        from_component_hashes proof_type proof_hash public_inputs_hash verification_key_hash ≡ v

  IsDescriptor-sound :
      (t : ℤ) (a b c id : List ℕ) (v : VerificationId) (r : Result ProofType)
      → type_of_wire t ≡ r
      → validate_descriptor t a b c id ≡ ok v
      → IsDescriptor t a b c id v
  unfolding validate_descriptor component_hash id_of_bytes
  IsDescriptor-sound t a b c id v (err e) k h = absurd (ground arith)
  IsDescriptor-sound t a b c id v (ok p) k h = record {
    proof_type = p;
    known = k;
    proof_size = ground arith;
    inputs_size = ground arith;
    key_size = ground arith;
    given = ground arith;
    computed = (id_eq.beq_iff (from_component_hashes p a b c) v).0 (ground arith);
  }

  length-from_component_hashes :
      (p : ProofType) (a b c : List ℕ) → length (from_component_hashes p a b c).bytes ≡ 32
  unfolding from_component_hashes
  length-from_component_hashes p a b c = sha.digest_length _

  IsDescriptor-complete :
      (t : ℤ) (a b c id : List ℕ) (v : VerificationId)
      → IsDescriptor t a b c id v
      → validate_descriptor t a b c id ≡ ok v
  unfolding validate_descriptor component_hash id_of_bytes
  IsDescriptor-complete t a b c id v d =
      let size = rw d.computed at (length-from_component_hashes d.proof_type a b c) in
      let same = (id_eq.beq_iff (from_component_hashes d.proof_type a b c) v).1 d.computed in
      subst (λ bytes. validate_descriptor t a b c bytes ≡ ok v) d.given
        (ground (arith, d.known, d.proof_size, d.inputs_size, d.key_size, same, size))

  -- A descriptor is accepted, as `v`, exactly when its proof type is known, its three component
  -- hashes have 32 bytes, and the identity that it gives is `v` and is the one that these hashes
  -- and this type determine.
  pub validate_descriptor_iff :
      (t : ℤ) (a b c id : List ℕ) (v : VerificationId)
      → (validate_descriptor t a b c id ≡ ok v) ↔ IsDescriptor t a b c id v
  validate_descriptor_iff t a b c id v =
      (IsDescriptor-sound t a b c id v (type_of_wire t) refl, IsDescriptor-complete t a b c id v)

  -- What the chain publishes of a proof is accepted under the identity of that proof.
  pub validate_descriptor-verification_id :
      (p : Proof)
      → validate_descriptor
          (pos (type_number p.proof_type))
          (sha.digest p.proof)
          (sha.digest p.public_inputs)
          (sha.digest p.verification_key)
          (verification_id p).bytes
        ≡ ok (verification_id p)
  unfolding verification_id
  validate_descriptor-verification_id p =
      IsDescriptor-complete _ _ _ _ _ (verification_id p) (record {
        proof_type = p.proof_type;
        known = type_of_wire-type_number p.proof_type;
        proof_size = sha.digest_length p.proof;
        inputs_size = sha.digest_length p.public_inputs;
        key_size = sha.digest_length p.verification_key;
        given = refl;
        computed = refl;
      })

  -- A pending proof of the requested height, within the limits of a block.
  pub record IsPending (response : QueryProofResponse) (height : ℕ) (c : ChainProof) : Type 0 where
    pub descriptor : PendingRecord
    pub keyed :
        response.proof_key
        ≡ some
            (record { submission_height = c.submission_height; index_in_block = c.index_in_block })
    pub state : response.state ≡ some (State.pending descriptor)
    pub requested : c.submission_height ≡ height
    pub committed_block : 0 < height
    pub in_block : c.index_in_block < 256
    pub valid : validate_pending_descriptor descriptor ≡ ok c.verification_id

  IsPending-sound :
      (response : QueryProofResponse) (height : ℕ) (c : ChainProof) (key : Option ProofKey)
      (state : Option State)
      → response.proof_key ≡ key
      → response.state ≡ state
      → validate_query_proof response height ≡ ok (some c)
      → IsPending response height c
  unfolding validate_query_proof validate_keyed validate_state validate_position
  IsPending-sound response height c none state k s h = absurd (ground arith)
  IsPending-sound response height c (some key) none k s h = absurd (ground arith)
  IsPending-sound response height c (some key) (some (State.final_result r)) k s h =
      absurd (ground arith)
  IsPending-sound response height c (some key) (some (State.pending r)) k s h =
      elim (Result-cases (validate_pending_descriptor r)) [
        | inr (e, refused) ↦ absurd (ground arith)
        | inl (v, accepted) ↦ record {
          descriptor = r;
          keyed = ground arith;
          state = s;
          requested = ground arith;
          committed_block = ground arith;
          in_block = ground arith;
          valid = ground arith;
        }
      ]

  IsPending-complete :
      (response : QueryProofResponse) (height : ℕ) (c : ChainProof)
      → IsPending response height c
      → validate_query_proof response height ≡ ok (some c)
  unfolding validate_query_proof validate_keyed validate_state validate_position
  IsPending-complete response height c p =
      ground (arith, p.keyed, p.state, p.requested, p.committed_block, p.in_block, p.valid)

  -- A query response yields a proof to follow exactly when its state is a pending record with an
  -- acceptable descriptor, under a key of the requested non-zero height with an index below 256; the
  -- proof has the identity of the descriptor and the position of the key. A finalized proof is
  -- never followed.
  pub validate_query_proof_iff :
      (response : QueryProofResponse) (height : ℕ) (c : ChainProof)
      → (validate_query_proof response height ≡ ok (some c)) ↔ IsPending response height c
  validate_query_proof_iff response height c = (
    IsPending-sound response height c response.proof_key response.state refl refl,
    IsPending-complete response height c,
  )
