-- ===== src/Rpc/Ingress.antt =====
-- The answers of src/rpc/submission.rs to clients.
use pulsar_verifier.Prelude.{
  true, false, refl, ◌≡◌, Bool, inl, inr, ℕ, List, suc, Option-cases, zero, clash_bool, sym,
}
use pulsar_verifier.Error.{Error, ok, err, Result}
use pulsar_verifier.Proof.{Sha256, Prost, WireProof, Proof, of_wire}
use pulsar_verifier.Rpc.Submission.{
  Code, submission_status, invalid_argument, resource_exhausted, Answer, submit_wire, serve, call,
  submit_proof, SubmitProofRequest, answered_by,
}
use pulsar_verifier.Store.Moka.{Moka}
use pulsar_verifier.Store.Record.{Arc, ProofRecord}
use pulsar_verifier.Submission.Message.{Decoders}
use pulsar_verifier.Submission.Relay.{IsRelayError, rejected, no_contact, other_hash}
use pulsar_verifier.Submission.Service.{Receipts, Node, SubmissionService, submit}
use pulsar_verifier.Submission.Submit.{
  invalid, repeated, not_inserted, not_accepted, accepted, submit-Submitted,
}

-- The codes that say that the request itself was not taken.
abbrev pub is_refusal : Code → Bool
is_refusal invalid_argument = true
is_refusal resource_exhausted = true
is_refusal code = false

status_inj :
    {A : Type 0} {c d : Code} → ◌≡◌ {A = Answer A} (Answer.status c) (Answer.status d) → c ≡ d
status_inj h = cc

answer_clash :
    {A : Type 0} {a : A} {c : Code} → ◌≡◌ {A = Answer A} (Answer.response a) (Answer.status c) → ⊥
answer_clash h = cc

module _ ⦃moka : Moka (Arc ProofRecord)⦄ ⦃cache : Receipts⦄ ⦃sha : Sha256⦄ ⦃prost : Prost⦄
    ⦃decoders : Decoders⦄ where
  relay_status : (e : Error) → IsRelayError e → is_refusal (submission_status e) ≡ false
  unfolding submission_status
  relay_status e no_contact = refl
  relay_status e other_hash = refl
  relay_status e (rejected hash code) = refl

  submit_wire_ok :
      (now : ℕ) (node : Node) (wire : WireProof) (tx_raw : List ℕ) (s : SubmissionService)
      (p : Proof)
      → of_wire wire ≡ ok p
      → submit_wire now node wire tx_raw s
        ≡ (answered_by (submit now node p tx_raw s).0, (submit now node p tx_raw s).1)
  unfolding submit_wire
  submit_wire_ok now node wire tx_raw s p w = rw (submit_wire, w) refl

  submit-refused :
      (now : ℕ) (node : Node) (p : Proof) (tx_raw : List ℕ) (s : SubmissionService) (code : Code)
      → answered_by (submit now node p tx_raw s).0 ≡ Answer.status code
      → is_refusal code ≡ true
      → (submit now node p tx_raw s).1.relayed ≡ s.relayed
  submit-refused now node p tx_raw s code h q = elim (submit-Submitted now node p tx_raw s) [
    | invalid e same ↦ rw same refl
    | repeated k m v held kept same ↦ rw same refl
    | not_inserted e m kept same ↦ rw same refl
    | not_accepted x e m i kind kept same ↦
        absurd (clash_bool (relay_status e kind) (rw (sym (status_inj (rw same at h))) at q))
    | accepted x response m v n i b hash good kept same ↦ absurd (answer_clash (rw same at h))
  ]

  submit_wire-refused :
      (now : ℕ) (node : Node) (wire : WireProof) (tx_raw : List ℕ) (s : SubmissionService)
      (code : Code) (r : Result Proof)
      → of_wire wire ≡ r
      → (submit_wire now node wire tx_raw s).0 ≡ Answer.status code
      → is_refusal code ≡ true
      → (submit_wire now node wire tx_raw s).1.relayed ≡ s.relayed
  unfolding submit_wire
  submit_wire-refused now node wire tx_raw s code (err e) w h q = rw (submit_wire, w) refl
  submit_wire-refused now node wire tx_raw s code (ok p) w h q =
      let given = submit_wire_ok now node wire tx_raw s p w in
      rw given (submit-refused now node p tx_raw s code (rw given at h) q)

  -- A client that is told that its request was invalid or too large, or that the endpoint is busy, can
  -- send it again: the transaction has not been handed to the node.
  pub serve-refused :
      (now : ℕ) (node : Node) (request : SubmitProofRequest) (permits : ℕ) (s : SubmissionService)
      (code : Code)
      → (serve now node request permits s).0 ≡ Answer.status code
      → is_refusal code ≡ true
      → (serve now node request permits s).1.relayed ≡ s.relayed
  unfolding serve call submit_proof
  serve-refused now node request zero s code h q = refl
  serve-refused now node request (suc permits) s code h q = elim (Option-cases request.proof) [
    | inl missing ↦ rw missing refl
    | inr (wire, given) ↦ rw given (
        submit_wire-refused now node wire request.tx_raw s code (of_wire wire) refl (rw given at h)
          q)
  ]
