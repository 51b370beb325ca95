-- ===== src/Samples/Submissions.antt =====
-- The theorems on src/submission.rs and src/rpc/submission.rs, applied to the submission of one small
-- proof: a decoder that knows one transaction, receipts in an association list, and a node that
-- accepts what it is given.
use pulsar_verifier.Prelude.{
  if◌then◌else◌, [], none, some, true, false, refl, ◌∷◌, ◌++◌, ◌≡◌, ◌≤◌, ◌==◌, ◌↔◌, ◌⊎◌, List,
  length, ℕ, bytes_eq, every,
}
use pulsar_verifier.Chain.Client.{
  bounded_text, BroadcastReceipt, is_char_boundary, broadcast_tx_sync,
}
use pulsar_verifier.Chain.Texts.{bounded_text_lem}
use pulsar_verifier.Error.{ok, err, chain}
use pulsar_verifier.Prelude.Int.{pos}
use pulsar_verifier.Proof.{
  to_wire, verification_id, encoded_len, type_of_wire, from_component_hashes, of_wire,
}
use pulsar_verifier.Rpc.Ingress.{serve-refused}
use pulsar_verifier.Rpc.Submission.{
  call, SubmitProofRequest, serve, Answer, invalid_argument, submit_proof, submit_wire,
  submission_status,
}
use pulsar_verifier.Samples.Assoc.{compute_entry, find}
use pulsar_verifier.Samples.Platform.{
  fit, sample_proof, sample_moka, empty_store, sample_id, sample_sha, sample_prost,
}
use pulsar_verifier.Samples.Receipts.{find_receipt, sample_receipts, get_at, try_at}
use pulsar_verifier.Store.Entries.{validate_proof, insert_entry}
use pulsar_verifier.Store.History.{evicts, run}
use pulsar_verifier.Store.Moka.{RemovalCause}
use pulsar_verifier.Store.Operations.{insert_local_proof, transition, announce}
use pulsar_verifier.Store.Record.{rpc}
use pulsar_verifier.Store.Spec.{view, supplied}
use pulsar_verifier.Submission.Acceptance.{validated, IsAccepted, validate_submission_iff}
use pulsar_verifier.Submission.Guarantees.{submit-receipt, submit-relayed}
use pulsar_verifier.Submission.Holding.{Request, Any, IsReceiptOf, held-IsReceiptOf, submit_all}
use pulsar_verifier.Submission.Message.{
  MsgSubmitProof, Decoders, validate_submission, msg_submit_proof_type_url, decode_transaction,
  decode_message, decoded, refuse_if, check_signatures, single_message, is_blank, is_whitespace,
  bind_components, component_hash,
}
use pulsar_verifier.Submission.Service.{
  Node, SubmissionService, SubmissionReceipt, submit, relay, accept, receipt_cache_ttl,
  with_receipt, new,
}
use pulsar_verifier.Submission.Submit.{receipt_of}

abbrev signed_bytes : List ℕ
signed_bytes = 10 ∷ 2 ∷ 1 ∷ 2 ∷ []

abbrev sample_message : MsgSubmitProof
sample_message = record {
  signer = b'c' ∷ b'o' ∷ b's' ∷ [];
  proof_hash = fit 32 sample_proof.proof;
  proof_type = pos 2;
  public_inputs_hash = fit 32 sample_proof.public_inputs;
  verification_key_hash = fit 32 sample_proof.verification_key;
}

instance abbrev sample_decoders : Decoders
sample_decoders = record {
  tx_raw = λ bytes.
      if bytes == signed_bytes
      then some
          (record { body_bytes = 1 ∷ []; auth_info_bytes = 2 ∷ []; signatures = (9 ∷ []) ∷ [] })
      else none;
  tx_body = λ bytes.
      if bytes == (1 ∷ [])
      then some (record {
        messages = record { type_url = msg_submit_proof_type_url; value = 3 ∷ [] } ∷ [];
      })
      else none;
  auth_info = λ bytes. if bytes == (2 ∷ []) then some (record { signer_infos = 1 }) else none;
  msg_submit_proof = λ bytes. if bytes == (3 ∷ []) then some sample_message else none;
}

abbrev accepting : Node
accepting tx_raw = some (record { hash = fit 32 tx_raw; code = 0; codespace = []; log = [] })

abbrev sample_service : SubmissionService
sample_service = record {
  store = empty_store;
  relayed = [];
  max_proof_bytes = 1024;
  max_transaction_bytes = 64;
  receipts = (receipt_cache_ttl, []);
}

abbrev sample_receipt : SubmissionReceipt
sample_receipt = record { verification_id = sample_id; transaction_hash = fit 32 signed_bytes }

submitted : (submit 5 accepting sample_proof signed_bytes sample_service).0 ≡ ok sample_receipt
unfolding submit validate_submission encoded_len decode_transaction decode_message decoded refuse_if
    check_signatures single_message is_blank is_whitespace every bind_components component_hash
    type_of_wire verification_id from_component_hashes fit find_receipt get_at try_at with_receipt
    relay insert_local_proof validate_proof transition compute_entry find insert_entry accept
    announce broadcast_tx_sync bounded_text
submitted = refl

submit-relayed_example :
    ((submit 5 accepting sample_proof signed_bytes sample_service).1.relayed ≡ [])
    ⊎ (((submit 5 accepting sample_proof signed_bytes sample_service).1.relayed ≡ signed_bytes ∷ [])
        × (view
              (submit 5 accepting sample_proof signed_bytes sample_service).1.store
              (verification_id sample_proof)
            ≡ some (supplied sample_proof rpc 5 (view empty_store (verification_id sample_proof)))))
submit-relayed_example = submit-relayed 5 accepting sample_proof signed_bytes sample_service

submit-receipt_example :
    (sample_receipts.get 5 (receipt_cache_ttl, []) (fit 32 signed_bytes) ≡ some sample_receipt)
    ⊎ ((sample_receipt ≡ receipt_of sample_proof signed_bytes)
        × (response : BroadcastReceipt) × (broadcast_tx_sync (accepting signed_bytes) ≡ ok response)
        × (response.transaction_hash ≡ fit 32 signed_bytes)
        × (response.code ≡ 0))
submit-receipt_example =
    submit-receipt 5 accepting sample_proof signed_bytes sample_service sample_receipt submitted

abbrev after_receipt : SubmissionService
after_receipt = (submit 5 accepting sample_proof signed_bytes sample_service).1

abbrev two_requests : List Request
two_requests =
    record { others = []; now = 5; node = accepting; proof = sample_proof; tx_raw = signed_bytes }
    ∷ record {
      others = evicts (verification_id sample_proof) RemovalCause.size ∷ [];
      now = 6;
      node = λ tx. none;
      proof = sample_proof;
      tx_raw = signed_bytes;
    }
    ∷ []

receipt_held :
    sample_receipts.get 7
      (submit_all two_requests (new empty_store 1024 64)).receipts
      (fit 32 signed_bytes)
    ≡ some sample_receipt
unfolding submit validate_submission encoded_len decode_transaction decode_message decoded refuse_if
    check_signatures single_message is_blank is_whitespace every bind_components component_hash
    type_of_wire verification_id from_component_hashes fit find_receipt get_at try_at with_receipt
    relay insert_local_proof validate_proof transition compute_entry find insert_entry accept
    announce broadcast_tx_sync bounded_text new submit_all run
receipt_held = refl

held-IsReceiptOf_example :
    Any (λ x. IsReceiptOf x 7 (fit 32 signed_bytes) sample_receipt) two_requests
held-IsReceiptOf_example =
    held-IsReceiptOf two_requests empty_store 1024 64 7 (fit 32 signed_bytes) sample_receipt
      receipt_held

refused_by_node : (submit 5 (λ tx. none) sample_proof signed_bytes sample_service).0 ≡ err chain
unfolding submit validate_submission encoded_len decode_transaction decode_message decoded refuse_if
    check_signatures single_message is_blank is_whitespace every bind_components component_hash
    type_of_wire verification_id from_component_hashes fit find_receipt get_at try_at with_receipt
    relay insert_local_proof validate_proof transition compute_entry find insert_entry accept
    announce broadcast_tx_sync bounded_text
refused_by_node = refl

validate_submission_iff_example :
    (validate_submission sample_proof signed_bytes 1024 64
      ≡ ok (validated sample_proof signed_bytes))
    ↔ (IsAccepted sample_proof signed_bytes 1024 64
        × (validated sample_proof signed_bytes ≡ validated sample_proof signed_bytes))
validate_submission_iff_example =
    validate_submission_iff sample_proof signed_bytes 1024 64 (validated sample_proof signed_bytes)

abbrev foreign_request : SubmitProofRequest
foreign_request = record { permit = false; proof = some (to_wire sample_proof); tx_raw = 0 ∷ [] }

foreign_refused :
    (serve 5 accepting foreign_request 1 sample_service).0 ≡ Answer.status invalid_argument
unfolding submit validate_submission encoded_len decode_transaction decode_message decoded refuse_if
    check_signatures single_message is_blank is_whitespace every bind_components component_hash
    type_of_wire verification_id from_component_hashes fit find_receipt get_at try_at with_receipt
    relay insert_local_proof validate_proof transition compute_entry find insert_entry accept
    announce broadcast_tx_sync bounded_text serve call submit_proof submit_wire of_wire to_wire
    submission_status
foreign_refused = refl

serve-refused_example : (serve 5 accepting foreign_request 1 sample_service).1.relayed ≡ []
serve-refused_example =
    serve-refused 5 accepting foreign_request 1 sample_service invalid_argument foreign_refused refl

bounded_text_lem_example :
    (length (bounded_text (226 ∷ 130 ∷ 172 ∷ []) 2) ≤ 2)
    × ((rest : List ℕ) × ((226 ∷ 130 ∷ 172 ∷ []) ≡ bounded_text (226 ∷ 130 ∷ 172 ∷ []) 2 ++ rest))
    × (is_char_boundary (226 ∷ 130 ∷ 172 ∷ []) (length (bounded_text (226 ∷ 130 ∷ 172 ∷ []) 2))
        ≡ true)
    × (3 ≤ 2 → bounded_text (226 ∷ 130 ∷ 172 ∷ []) 2 ≡ 226 ∷ 130 ∷ 172 ∷ [])
bounded_text_lem_example = bounded_text_lem (226 ∷ 130 ∷ 172 ∷ []) 2
