-- ===== src/Submission/Acceptance.antt =====
-- Which submissions the validation of src/submission.rs accepts.
use pulsar_verifier.Prelude.{
  inl, inr, refl, ◌≡◌, ◌≤◌, ◌↔◌, ◌∙◌, List, ℕ, arith, length, ==_refl, sym, ap,
}
use pulsar_verifier.Error.{ok, err, Result, ok_inj, Result-cases}
use pulsar_verifier.Identity.{id_eq}
use pulsar_verifier.Proof.{Sha256, Prost, Proof, encoded_len, verification_id, type_of_wire}
use pulsar_verifier.Submission.Binding.{
  IsSigned-complete, IsBound-complete, IsSigned, IsBound, IsSigned-by, IsBound-sound,
}
use pulsar_verifier.Submission.Message.{
  Decoders, validate_submission, refuse_if, ValidatedSubmission, decode_transaction, MsgSubmitProof,
  bind_components,
}

module _ ⦃sha : Sha256⦄ ⦃prost : Prost⦄ ⦃decoders : Decoders⦄ where
  pub record IsAccepted (p : Proof) (tx_raw : List ℕ) (max_proof_bytes max_transaction_bytes : ℕ)
      : Type 0 where
    pub proof_fits : encoded_len p ≤ max_proof_bytes
    pub transaction_fits : length tx_raw ≤ max_transaction_bytes
    pub message : MsgSubmitProof
    pub signed : IsSigned tx_raw message
    pub bound : IsBound p message

  abbrev pub validated : Proof → List ℕ → ValidatedSubmission
  validated p tx_raw = record {
    verification_id = verification_id p;
    transaction_hash = sha.digest tx_raw;
    proof = p;
    tx_raw = tx_raw;
  }

  IsAccepted-complete :
      (p : Proof) (tx_raw : List ℕ) (m n : ℕ)
      → IsAccepted p tx_raw m n
      → validate_submission p tx_raw m n ≡ ok (validated p tx_raw)
  unfolding validate_submission refuse_if
  IsAccepted-complete p tx_raw m n a = ground (
    arith,
    a.proof_fits,
    a.transaction_fits,
    IsSigned-complete tx_raw a.message a.signed,
    IsBound-complete p a.message a.bound,
    ==_refl (verification_id p),
  )

  IsAccepted-sound :
      (p : Proof) (tx_raw : List ℕ) (m n : ℕ) (v : ValidatedSubmission) (d : Result MsgSubmitProof)
      → decode_transaction tx_raw ≡ d
      → validate_submission p tx_raw m n ≡ ok v
      → IsAccepted p tx_raw m n
  unfolding validate_submission refuse_if
  IsAccepted-sound p tx_raw m n v (err e) d h = absurd (ground arith)
  IsAccepted-sound p tx_raw m n v (ok message) d h =
      elim (Result-cases (bind_components p message)) [
        | inr (e, b) ↦ absurd (ground arith)
        | inl (id, b) ↦ record {
          proof_fits = ground arith;
          transaction_fits = ground arith;
          message = message;
          signed = IsSigned-by tx_raw message (decoders.tx_raw tx_raw) refl d;
          bound = IsBound-sound p message id (type_of_wire message.proof_type) refl b;
        }
      ]

  -- A submission is accepted exactly when proof and transaction are within their limits and the signed
  -- bytes decode to one well-formed submission message that registers the proof's own type and the
  -- digests of its own three parts; what is accepted is the proof and the transaction as they were
  -- given, under the proof's identity and the digest of the transaction.
  pub validate_submission_iff :
      (p : Proof) (tx_raw : List ℕ) (m n : ℕ) (v : ValidatedSubmission)
      → (validate_submission p tx_raw m n ≡ ok v)
        ↔ (IsAccepted p tx_raw m n × (v ≡ validated p tx_raw))
  validate_submission_iff p tx_raw m n v = (
    λ h.
        let a = IsAccepted-sound p tx_raw m n v (decode_transaction tx_raw) refl h in
        (a, ok_inj (sym h ∙ IsAccepted-complete p tx_raw m n a)),
    λ h. IsAccepted-complete p tx_raw m n h.0 ∙ ap ok (sym h.1),
  )
