-- ===== src/Rpc/Submission.antt =====
-- src/rpc/submission.rs: the submission endpoint. The semaphore of tokio is its number of free permits.
use pulsar_verifier.Prelude.{
  if◌then◌else◌, none, some, true, ℕ, Bool, List, Option, suc, checked_add, usize_limit, zero,
}
use pulsar_verifier.Error.{
  ok, err, Error, Result, invalid_submission, unsupported_proof_type, verification_id_mismatch,
  invalid_config, proof_too_large, transaction_too_large, check_tx_rejected, chain,
}
use pulsar_verifier.Proof.{WireProof, Sha256, Prost, of_wire}
use pulsar_verifier.Store.Moka.{Moka}
use pulsar_verifier.Store.Record.{Arc, ProofRecord}
use pulsar_verifier.Submission.Message.{Decoders}
use pulsar_verifier.Submission.Service.{
  Receipts, SubmissionReceipt, Node, SubmissionService, submit,
}

-- The codes of tonic's `Status` that the endpoint answers with.
pub data Code : Type 0 where
  invalid_argument resource_exhausted failed_precondition unavailable internal : Code

pub data Answer (A : Type 0) : Type 0 where
  response : A → Answer A
  status : Code → Answer A

abbrev pub protobuf_envelope_overhead : ℕ
protobuf_envelope_overhead = 16

-- The limit of `SubmissionRpcServer::start` on a decoded request.
unfoldable pub request_limit : ℕ → ℕ → Result ℕ
request_limit max_proof_bytes max_transaction_bytes =
    elim (checked_add usize_limit max_proof_bytes max_transaction_bytes) [
      | none ↦ err (invalid_config "submission request limit overflows usize")
      | some limit ↦ elim (checked_add usize_limit limit protobuf_envelope_overhead) [
        | none ↦ err (invalid_config "submission request limit overflows usize")
        | some n ↦ ok n
      ]
    ]

-- `SubmitProofRequest`, and whether the interceptor has put a permit into its extensions.
pub record SubmitProofRequest : Type 0 where
  pub permit : Bool
  pub proof : Option WireProof
  pub tx_raw : List ℕ

pub record SubmitProofResponse : Type 0 where
  pub verification_id : List ℕ
  pub transaction_hash : List ℕ

-- `SubmissionAdmission::call`, with the permits that are left.
unfoldable pub call : ℕ → SubmitProofRequest → Answer SubmitProofRequest × ℕ
call zero request = (Answer.status resource_exhausted, zero)
call (suc permits) request = (Answer.response (record request { permit = true }), permits)

unfoldable pub submission_status : Error → Code
submission_status (invalid_submission message) = invalid_argument
submission_status (unsupported_proof_type n) = invalid_argument
submission_status (verification_id_mismatch id) = invalid_argument
submission_status (proof_too_large id actual maximum) = resource_exhausted
submission_status (transaction_too_large actual maximum) = resource_exhausted
submission_status (check_tx_rejected hash code) = failed_precondition
submission_status chain = unavailable
submission_status e = internal

module _ ⦃moka : Moka (Arc ProofRecord)⦄ ⦃cache : Receipts⦄ ⦃sha : Sha256⦄ ⦃prost : Prost⦄
    ⦃decoders : Decoders⦄ where
  abbrev pub answered_by : Result SubmissionReceipt → Answer SubmitProofResponse
  answered_by (err e) = Answer.status (submission_status e)
  answered_by (ok receipt) = Answer.response (record {
    verification_id = receipt.verification_id.bytes;
    transaction_hash = receipt.transaction_hash;
  })

  -- The rest of `submit_proof` for a request that carries a proof.
  unfoldable pub submit_wire :
      ℕ
      → Node
      → WireProof
      → List ℕ
      → SubmissionService
      → Answer SubmitProofResponse × SubmissionService
  unfolding submission_status
  submit_wire now node wire tx_raw s = elim (of_wire wire) [
    | err e ↦ (Answer.status (submission_status e), s)
    | ok p ↦ let (r, t) = submit now node p tx_raw s in (answered_by r, t)
  ]

  unfoldable pub submit_proof :
      ℕ
      → Node
      → SubmitProofRequest
      → SubmissionService
      → Answer SubmitProofResponse × SubmissionService
  unfolding submit_wire
  submit_proof now node request s =
      if request.permit
      then elim request.proof [
        | none ↦ (Answer.status invalid_argument, s)
        | some wire ↦ submit_wire now node wire request.tx_raw s
      ]
      else (Answer.status internal, s)

  -- A request through the interceptor; its permit is free again afterwards.
  unfoldable pub serve :
      ℕ
      → Node
      → SubmitProofRequest
      → ℕ
      → SubmissionService
      → Answer SubmitProofResponse × SubmissionService
  unfolding call submit_proof
  serve now node request permits s = elim (call permits request).0 [
    | Answer.status code ↦ (Answer.status code, s)
    | Answer.response admitted ↦ submit_proof now node admitted s
  ]
