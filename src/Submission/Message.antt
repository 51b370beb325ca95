-- ===== src/Submission/Message.antt =====
-- src/submission.rs: the validation of a submission. The decoders of `prost` and the messages that
-- they make are those of crates/pulsar-verifier-proto/proto; of a message the model keeps the fields
-- that the code reads. A text is the list of its characters.
use pulsar_verifier.Prelude.{
  if◌then◌else◌, [], none, some, ◌∷◌, ◌&&◌, ◌||◌, ◌==◌, List, String, ℕ, every, Bool, Option, leb,
  length, nat_beq, not, is_empty, nat_eq, string_eq, ltb, bytes_eq,
}
use pulsar_verifier.Error.{
  ok, err, ◌>>◌, ◌>>=◌, Result, Error, invalid_submission, proof_too_large, transaction_too_large,
  verification_id_mismatch,
}
use pulsar_verifier.Identity.{VerificationId, type_eq, id_eq}
use pulsar_verifier.Prelude.Int.{ℤ}
use pulsar_verifier.Proof.{
  Sha256, Proof, Prost, type_of_wire, verification_id, from_component_hashes, encoded_len,
}

-- `cosmos.tx.v1beta1.TxRaw`.
pub record TxRaw : Type 0 where
  pub body_bytes : List ℕ
  pub auth_info_bytes : List ℕ
  pub signatures : List (List ℕ)

-- `google.protobuf.Any`.
pub record Any : Type 0 where
  pub type_url : String
  pub value : List ℕ

-- `cosmos.tx.v1beta1.TxBody`.
pub record TxBody : Type 0 where
  pub messages : List Any

-- `cosmos.tx.v1beta1.AuthInfo`, whose signer infos are only counted.
pub record AuthInfo : Type 0 where
  pub signer_infos : ℕ

-- `pulsarchain.verification.v1.MsgSubmitProof`.
pub record MsgSubmitProof : Type 0 where
  pub signer : List ℕ
  pub proof_hash : List ℕ
  pub proof_type : ℤ
  pub public_inputs_hash : List ℕ
  pub verification_key_hash : List ℕ

-- `prost::Message::decode` of these messages: a message, or an error for other bytes.
pub record Decoders : Type 0 where
  pub tx_raw : List ℕ → Option TxRaw
  pub tx_body : List ℕ → Option TxBody
  pub auth_info : List ℕ → Option AuthInfo
  pub msg_submit_proof : List ℕ → Option MsgSubmitProof

abbrev pub msg_submit_proof_type_url : String
msg_submit_proof_type_url = "/pulsarchain.verification.v1.MsgSubmitProof"

-- `char::is_whitespace`.
unfoldable pub is_whitespace : ℕ → Bool
is_whitespace c =
    (leb 9 c && leb c 13)
    || nat_beq c 32
    || nat_beq c 133
    || nat_beq c 160
    || nat_beq c 5760
    || (leb 8192 c && leb c 8202)
    || nat_beq c 8232
    || nat_beq c 8233
    || nat_beq c 8239
    || nat_beq c 8287
    || nat_beq c 12288

-- `trim().is_empty()`.
unfoldable pub is_blank : List ℕ → Bool
unfolding every is_whitespace
is_blank text = every is_whitespace text

pub record ValidatedSubmission : Type 0 where
  pub verification_id : VerificationId
  pub transaction_hash : List ℕ
  pub proof : Proof
  pub tx_raw : List ℕ

unfoldable pub refuse_if : Bool → Error → Result (Unit {0})
refuse_if refused e = if refused then err e else ok tt

unfoldable pub decoded : {A : Type 0} → String → Option A → Result A
decoded message none = err (invalid_submission message)
decoded message (some a) = ok a

unfoldable pub component_hash : String → List ℕ → Result (List ℕ)
component_hash name bytes = if length bytes == 32 then ok bytes else err (invalid_submission name)

-- The signatures against the signers, of one signer at least.
unfoldable pub check_signatures : List (List ℕ) → AuthInfo → Result (Unit {0})
unfolding refuse_if every
check_signatures signatures auth =
    refuse_if (nat_beq auth.signer_infos 0)
      (invalid_submission "AuthInfo must contain at least one signer_info")
    >> refuse_if (not (nat_beq (length signatures) auth.signer_infos))
        (invalid_submission "signature count does not match signer_info count")
    >> refuse_if (not (every (λ s. not (is_empty s)) signatures))
        (invalid_submission "transaction signatures must not be empty")

-- The only message of a transaction.
unfoldable pub single_message : List Any → Result Any
single_message (message ∷ []) = ok message
single_message messages = err (invalid_submission "TxBody must contain exactly one MsgSubmitProof")

module _ ⦃decoders : Decoders⦄ where
  unfoldable pub decode_message : Any → Result MsgSubmitProof
  unfolding refuse_if decoded is_blank
  decode_message any = do
    refuse_if (not (any.type_url == msg_submit_proof_type_url))
        (invalid_submission "unexpected transaction message type")
    message ← decoded "invalid MsgSubmitProof" (decoders.msg_submit_proof any.value)
    refuse_if (is_blank message.signer)
        (invalid_submission "MsgSubmitProof signer must not be empty")
    ok message

  -- The structural checks on the signed transaction.
  unfoldable pub decode_transaction : List ℕ → Result MsgSubmitProof
  unfolding refuse_if decoded check_signatures single_message decode_message
  decode_transaction tx_raw = do
    tx ← decoded "invalid TxRaw" (decoders.tx_raw tx_raw)
    refuse_if (is_empty tx.body_bytes) (invalid_submission "TxRaw body_bytes must not be empty")
    refuse_if (is_empty tx.auth_info_bytes)
        (invalid_submission "TxRaw auth_info_bytes must not be empty")
    body ← decoded "invalid TxBody" (decoders.tx_body tx.body_bytes)
    auth ← decoded "invalid AuthInfo" (decoders.auth_info tx.auth_info_bytes)
    check_signatures tx.signatures auth
    any ← single_message body.messages
    decode_message any

module _ ⦃sha : Sha256⦄ where
  -- The proof against the hashes and the type that the message registers; the identity that these
  -- have on the chain.
  unfoldable pub bind_components : Proof → MsgSubmitProof → Result VerificationId
  unfolding refuse_if component_hash
  bind_components p message = do
    message_type ← type_of_wire message.proof_type
    refuse_if (not (message_type == p.proof_type))
        (invalid_submission "proof type does not match MsgSubmitProof")
    proof_hash ← component_hash "proof_hash" message.proof_hash
    public_inputs_hash ← component_hash "public_inputs_hash" message.public_inputs_hash
    verification_key_hash ← component_hash "verification_key_hash" message.verification_key_hash
    refuse_if (not (proof_hash == sha.digest p.proof))
        (invalid_submission "proof bytes do not match proof_hash")
    refuse_if (not (public_inputs_hash == sha.digest p.public_inputs))
        (invalid_submission "public input bytes do not match public_inputs_hash")
    refuse_if (not (verification_key_hash == sha.digest p.verification_key))
        (invalid_submission "verification key bytes do not match verification_key_hash")
    ok (from_component_hashes message_type proof_hash public_inputs_hash verification_key_hash)

module _ ⦃sha : Sha256⦄ ⦃prost : Prost⦄ ⦃decoders : Decoders⦄ where
  unfoldable pub validate_submission : Proof → List ℕ → ℕ → ℕ → Result ValidatedSubmission
  unfolding refuse_if decode_transaction bind_components
  validate_submission p tx_raw max_proof_bytes max_transaction_bytes = do
    let id = verification_id p
    refuse_if (ltb max_proof_bytes (encoded_len p))
        (proof_too_large id (encoded_len p) max_proof_bytes)
    refuse_if (ltb max_transaction_bytes (length tx_raw))
        (transaction_too_large (length tx_raw) max_transaction_bytes)
    message ← decode_transaction tx_raw
    descriptor_id ← bind_components p message
    refuse_if (not (descriptor_id == id)) (verification_id_mismatch descriptor_id)
    ok (record {
      verification_id = id;
      transaction_hash = sha.digest tx_raw;
      proof = p;
      tx_raw = tx_raw;
    })
