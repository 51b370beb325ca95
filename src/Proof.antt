-- ===== src/Proof.antt =====
-- src/proof.rs: the verification input, its canonical identity and its wire form.
-- SHA-256 (`sha2`) and the varint length of `prost` are third-party code: instances of the records
-- below, whose laws are what those crates document.
pub mod Binding
pub mod Wire
use pulsar_verifier.Prelude.{
  ℕ, ◌+◌, ◌/◌, ◌%◌, ◌≤◌, ◌≡◌, Option, none, some, List, [], ◌∷◌, ◌++◌, length, is_empty, ◌==◌,
  if◌then◌else◌, checked_add, usize_limit, nat_eq,
}
use pulsar_verifier.Prelude.Int.{ℤ, pos}
use pulsar_verifier.Identity.{VerificationId, ProofType, mina_pickles, noir_barretenberg}
use pulsar_verifier.Error.{Result, ok, err, ◌>>=◌, invalid_verification_id, unsupported_proof_type}

-- `Sha256::digest`: a digest has 32 bytes.
pub record Sha256 : Type 0 where
  pub digest : List ℕ → List ℕ
  pub digest_length : (b : List ℕ) → length (digest b) ≡ 32

-- `prost::encoding::encoded_len_varint`: a varint has at least one byte.
pub record Prost : Type 0 where
  pub encoded_len_varint : ℕ → ℕ
  pub varint_positive : (n : ℕ) → 1 ≤ encoded_len_varint n

-- b"pulsar/verification/v1\0"
abbrev pub verification_id_domain : List ℕ
verification_id_domain =
    b'p' ∷ b'u' ∷ b'l' ∷ b's' ∷ b'a' ∷ b'r' ∷ b'/' ∷ b'v' ∷ b'e' ∷ b'r' ∷ b'i' ∷ b'f' ∷ b'i' ∷ b'c'
    ∷ b'a' ∷ b't' ∷ b'i' ∷ b'o' ∷ b'n' ∷ b'/' ∷ b'v' ∷ b'1' ∷ 0 ∷ []

-- `u32::from(proof_type)` and `i32::from(proof_type)`.
abbrev pub type_number : ProofType → ℕ
type_number mina_pickles = 1
type_number noir_barretenberg = 2

-- `u32::to_be_bytes`.
abbrev pub to_be_bytes : ℕ → List ℕ
to_be_bytes n = (n / 16777216) % 256 ∷ (n / 65536) % 256 ∷ (n / 256) % 256 ∷ n % 256 ∷ []

-- `TryFrom<i32> for ProofType`, through the generated `WireProofType::try_from`.
unfoldable pub type_of_wire : ℤ → Result ProofType
type_of_wire (pos n) =
    if n == 1
    then ok mina_pickles
    else if n == 2
    then ok noir_barretenberg
    else err (unsupported_proof_type (pos n))
type_of_wire value = err (unsupported_proof_type value)

-- `TryFrom<&[u8]> for VerificationId`.
unfoldable pub id_of_bytes : List ℕ → Result VerificationId
id_of_bytes value =
    if length value == 32 then ok (record { bytes = value }) else err invalid_verification_id

pub record Proof : Type 0 where
  pub proof_type : ProofType
  pub proof : List ℕ
  pub public_inputs : List ℕ
  pub verification_key : List ℕ

-- The wire message `Proof` of proto/pulsar/verifier/v1/proof.proto.
pub record WireProof : Type 0 where
  pub proof_type : ℤ
  pub proof : List ℕ
  pub public_inputs : List ℕ
  pub verification_key : List ℕ

module _ ⦃sha : Sha256⦄ where
  unfoldable pub from_component_hashes : ProofType → List ℕ → List ℕ → List ℕ → VerificationId
  from_component_hashes proof_type proof_hash public_inputs_hash verification_key_hash = record {
    bytes = sha.digest (
        verification_id_domain
        ++ (to_be_bytes (type_number proof_type)
            ++ (proof_hash ++ (public_inputs_hash ++ verification_key_hash))));
  }

  unfoldable pub verification_id : Proof → VerificationId
  verification_id p =
      from_component_hashes p.proof_type (sha.digest p.proof) (sha.digest p.public_inputs)
        (sha.digest p.verification_key)

module _ ⦃prost : Prost⦄ where
  unfoldable pub encoded_bytes_len : List ℕ → ℕ
  encoded_bytes_len bytes =
      if is_empty bytes then 0 else 1 + prost.encoded_len_varint (length bytes) + length bytes

  unfoldable pub encoded_len : Proof → ℕ
  unfolding encoded_bytes_len
  encoded_len p =
      2
      + encoded_bytes_len p.proof
      + encoded_bytes_len p.public_inputs
      + encoded_bytes_len p.verification_key

unfoldable pub payload_len : Proof → Option ℕ
payload_len p = elim (checked_add usize_limit (length p.proof) (length p.public_inputs)) [
  | none ↦ none
  | some n ↦ checked_add usize_limit n (length p.verification_key)
]

-- `From<&Proof> for WireProof`.
unfoldable pub to_wire : Proof → WireProof
to_wire p = record {
  proof_type = pos (type_number p.proof_type);
  proof = p.proof;
  public_inputs = p.public_inputs;
  verification_key = p.verification_key;
}

-- `TryFrom<WireProof> for Proof`.
unfoldable pub of_wire : WireProof → Result Proof
of_wire value = do
  proof_type ← type_of_wire value.proof_type
  ok (record {
    proof_type = proof_type;
    proof = value.proof;
    public_inputs = value.public_inputs;
    verification_key = value.verification_key;
  })
