-- ===== src/Samples/Requests.antt =====
-- The theorems on src/rpc/contract.rs, applied to a request for one known identity.
use pulsar_verifier.Prelude.{[], none, refl, ◌∷◌, ◌≡◌, ◌≤◌, ◌↔◌, List, length, All, contains}
use pulsar_verifier.Error.{ok, ◌>>=◌}
use pulsar_verifier.Proof.{id_of_bytes}
use pulsar_verifier.Rpc.Contract.{
  parse_ids, get_verification_results, get_proof_statuses, ProofVerificationStatus, wire_fields,
}
use pulsar_verifier.Rpc.Requests.{raw_bytes, IsFixed, IsDistinct, parse_ids_iff}
use pulsar_verifier.Rpc.Responses.{status_ids, verdicts_of, statuses_cover, results-statuses}
use pulsar_verifier.Samples.Assoc.{find}
use pulsar_verifier.Samples.Platform.{sample_id, ready_store, sample_moka}
use pulsar_verifier.Store.Views.{statuses}

parse_ids_iff_example : (parse_ids (sample_id.bytes ∷ []) ≡ ok (sample_id ∷ [])) ↔ (
    (length (sample_id.bytes ∷ []) ≤ 512)
    × (raw_bytes (sample_id ∷ []) ≡ sample_id.bytes ∷ [])
    × All IsFixed (sample_id ∷ [])
    × IsDistinct (sample_id ∷ []))
parse_ids_iff_example = parse_ids_iff (sample_id.bytes ∷ []) (sample_id ∷ [])

results-statuses_example : get_verification_results ready_store (sample_id.bytes ∷ []) ≡ (
    get_proof_statuses ready_store (sample_id.bytes ∷ []) >>= λ response. ok (verdicts_of response))
results-statuses_example = results-statuses ready_store (sample_id.bytes ∷ [])

abbrev queued_response : List ProofVerificationStatus
queued_response = wire_fields sample_id 2 0 none ∷ []

request_answered : get_proof_statuses ready_store (sample_id.bytes ∷ []) ≡ ok queued_response
unfolding get_proof_statuses parse_ids statuses id_of_bytes find contains
request_answered = refl

statuses_cover_example : status_ids queued_response ≡ sample_id.bytes ∷ []
statuses_cover_example =
    statuses_cover ready_store (sample_id.bytes ∷ []) queued_response request_answered
