-- ===== src/Submission/Binding.antt =====
-- What the validation of src/submission.rs accepts.
use pulsar_verifier.Prelude.{
  [], some, true, false, ◌∷◌, ◌≡◌, ◌≤◌, List, ℕ, is_empty, length, every, not, bytes_eq, arith,
  none, inl, inr, ==_refl, Option, string_eq, Option-cases, refl, ◌⊎◌,
}
use pulsar_verifier.Error.{ok, err, Result, invalid_submission}
use pulsar_verifier.Identity.{VerificationId, ProofType, type_eq}
use pulsar_verifier.Proof.{Sha256, Prost, Proof, type_of_wire, verification_id}
use pulsar_verifier.Submission.Message.{
  Decoders, bind_components, decode_transaction, MsgSubmitProof, refuse_if, decode_message, TxRaw,
  component_hash, decoded, TxBody, check_signatures, AuthInfo, single_message, Any,
  msg_submit_proof_type_url, is_blank,
}

module _ ⦃sha : Sha256⦄ ⦃prost : Prost⦄ ⦃decoders : Decoders⦄ where
  -- The signed bytes decode to a transaction with one submission message, one non-empty signature for
  -- each signer and at least one signer.
  pub record IsSigned (tx_raw : List ℕ) (message : MsgSubmitProof) : Type 0 where
    pub tx : TxRaw
    pub body : TxBody
    pub auth : AuthInfo
    pub any : Any
    pub tx_decodes : decoders.tx_raw tx_raw ≡ some tx
    pub body_present : is_empty tx.body_bytes ≡ false
    pub auth_present : is_empty tx.auth_info_bytes ≡ false
    pub body_decodes : decoders.tx_body tx.body_bytes ≡ some body
    pub auth_decodes : decoders.auth_info tx.auth_info_bytes ≡ some auth
    pub signed : 1 ≤ auth.signer_infos
    pub counted : length tx.signatures ≡ auth.signer_infos
    pub filled : every (λ s. not (is_empty s)) tx.signatures ≡ true
    pub single : body.messages ≡ any ∷ []
    pub typed : any.type_url ≡ msg_submit_proof_type_url
    pub message_decodes : decoders.msg_submit_proof any.value ≡ some message
    pub signer : is_blank message.signer ≡ false

  pub record IsBound (p : Proof) (message : MsgSubmitProof) : Type 0 where
    pub proof_type : type_of_wire message.proof_type ≡ ok p.proof_type
    pub proof_hash : message.proof_hash ≡ sha.digest p.proof
    pub public_inputs_hash : message.public_inputs_hash ≡ sha.digest p.public_inputs
    pub verification_key_hash : message.verification_key_hash ≡ sha.digest p.verification_key

  pub IsBound-complete :
      (p : Proof) (message : MsgSubmitProof)
      → IsBound p message
      → bind_components p message ≡ ok (verification_id p)
  unfolding bind_components refuse_if component_hash verification_id
  IsBound-complete p message b =
      rw (b.proof_type, b.proof_hash, b.public_inputs_hash, b.verification_key_hash)
        (ground (
          arith,
          ==_refl p.proof_type,
          ==_refl (sha.digest p.proof),
          ==_refl (sha.digest p.public_inputs),
          ==_refl (sha.digest p.verification_key),
          sha.digest_length p.proof,
          sha.digest_length p.public_inputs,
          sha.digest_length p.verification_key,
        ))

  pub IsBound-sound :
      (p : Proof) (message : MsgSubmitProof) (id : VerificationId) (r : Result ProofType)
      → type_of_wire message.proof_type ≡ r
      → bind_components p message ≡ ok id
      → IsBound p message
  unfolding bind_components refuse_if component_hash verification_id
  IsBound-sound p message id (err e) k h = absurd (ground arith)
  IsBound-sound p message id (ok t) k h =
      let same = (type_eq.beq_iff t p.proof_type).0 (ground arith) in
      let a = (bytes_eq.beq_iff message.proof_hash (sha.digest p.proof)).0 (ground arith) in
      let b =
        (bytes_eq.beq_iff message.public_inputs_hash (sha.digest p.public_inputs)).0
          (ground arith) in
      let c =
        (bytes_eq.beq_iff message.verification_key_hash (sha.digest p.verification_key)).0
          (ground arith) in
      record {
        proof_type = rw same at k;
        proof_hash = a;
        public_inputs_hash = b;
        verification_key_hash = c;
      }

  single_message-cases :
      (messages : List Any)
      → ((any : Any) × (messages ≡ any ∷ []))
        ⊎ (single_message messages
            ≡ err (invalid_submission "TxBody must contain exactly one MsgSubmitProof"))
  unfolding single_message
  single_message-cases [] = inr refl
  single_message-cases (any ∷ []) = inl (any, refl)
  single_message-cases (any ∷ other ∷ more) = inr refl

  pub IsSigned-by :
      (tx_raw : List ℕ) (message : MsgSubmitProof) (t : Option TxRaw)
      → decoders.tx_raw tx_raw ≡ t
      → decode_transaction tx_raw ≡ ok message
      → IsSigned tx_raw message
  unfolding decode_transaction decode_message decoded refuse_if check_signatures single_message
  IsSigned-by tx_raw message none d h = absurd (ground arith)
  IsSigned-by tx_raw message (some tx) d h = elim (Option-cases (decoders.tx_body tx.body_bytes)) [
    | inl nob ↦ absurd (ground (arith))
    | inr (body, b) ↦ elim (Option-cases (decoders.auth_info tx.auth_info_bytes)) [
      | inl noa ↦ absurd (ground (arith))
      | inr (auth, a) ↦ elim (single_message-cases body.messages) [
        | inr many ↦ absurd (ground (arith))
        | inl (any, one) ↦ elim (Option-cases (decoders.msg_submit_proof any.value)) [
          | inl nom ↦ absurd (ground (arith))
          | inr (m, decodes) ↦ record {
            tx = tx;
            body = body;
            auth = auth;
            any = any;
            tx_decodes = d;
            body_present = ground arith;
            auth_present = ground arith;
            body_decodes = b;
            auth_decodes = a;
            signed = ground arith;
            counted = ground arith;
            filled = ground arith;
            single = one;
            typed = (string_eq.beq_iff any.type_url msg_submit_proof_type_url).0 (ground arith);
            message_decodes = ground arith;
            signer = ground arith;
          }
        ]
      ]
    ]
  ]

  pub IsSigned-complete :
      (tx_raw : List ℕ) (message : MsgSubmitProof)
      → IsSigned tx_raw message
      → decode_transaction tx_raw ≡ ok message
  unfolding decode_transaction decode_message decoded refuse_if check_signatures single_message
  IsSigned-complete tx_raw message v = ground (
    arith,
    v.tx_decodes,
    v.body_present,
    v.auth_present,
    v.body_decodes,
    v.auth_decodes,
    v.signed,
    v.counted,
    v.filled,
    v.single,
    (string_eq.beq_iff v.any.type_url msg_submit_proof_type_url).1 v.typed,
    v.message_decodes,
    v.signer,
  )
