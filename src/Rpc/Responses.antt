-- ===== src/Rpc/Responses.antt =====
-- What the responses of src/rpc/contract.rs say of the store.
use pulsar_verifier.Prelude.{
  if◌then◌else◌, [], none, some, refl, ◌∷◌, ◌≡◌, List, Option, nat_beq, ℕ, map, arith, inl, inr, ap,
}
use pulsar_verifier.Error.{ok, ◌>>=◌, Result-cases}
use pulsar_verifier.Identity.{VerificationId}
use pulsar_verifier.Rpc.Contract.{
  ProofVerificationStatus, WireResult, get_verification_results, get_proof_statuses, wire_result,
  wire_status, parse_ids,
}
use pulsar_verifier.Rpc.Requests.{raw_bytes, parse_ids_iff}
use pulsar_verifier.Store.Moka.{Moka}
use pulsar_verifier.Store.Operations.{ProofStore}
use pulsar_verifier.Store.Record.{Arc, ProofRecord}
use pulsar_verifier.Store.Views.{completed_results, statuses}

-- The verdict that a wire status carries, where its phase is COMPLETED.
abbrev pub verdict_of : ProofVerificationStatus → Option WireResult
verdict_of s =
    if nat_beq s.phase 4
    then some (record { verification_id = s.verification_id; verdict = s.verdict })
    else none

-- The completed part of a list of statuses, in its order.
abbrev pub verdicts_of : List ProofVerificationStatus → List WireResult
verdicts_of [] = []
verdicts_of (s ∷ ss) = elim (verdict_of s) [ none ↦ verdicts_of ss | some r ↦ r ∷ verdicts_of ss ]

abbrev pub status_ids : List ProofVerificationStatus → List (List ℕ)
status_ids = map (λ s. s.verification_id)

module _ ⦃moka : Moka (Arc ProofRecord)⦄ where
  verdicts-statuses :
      (s : ProofStore) (ids : List VerificationId)
      → map wire_result (completed_results s ids) ≡ verdicts_of (map wire_status (statuses s ids))
  unfolding completed_results statuses
  verdicts-statuses s [] = refl
  verdicts-statuses s (id ∷ ids) = ground (arith, verdicts-statuses s ids)

  -- The consensus-facing response is the completed part of the diagnostic one, in the order of the
  -- request: whatever the store holds, both accept the same requests, with the same errors, and a
  -- verdict is reported exactly for the identities whose status is COMPLETED.
  pub results-statuses :
      (s : ProofStore) (raw : List (List ℕ))
      → get_verification_results s raw
        ≡ (get_proof_statuses s raw >>= λ response. ok (verdicts_of response))
  unfolding get_verification_results get_proof_statuses
  results-statuses s raw = elim (Result-cases (parse_ids raw)) [
    | inl (ids, e) ↦ rw e (ap ok (verdicts-statuses s ids))
    | inr (e, refused) ↦ rw refused refl
  ]

  statuses-raw :
      (s : ProofStore) (ids : List VerificationId)
      → status_ids (map wire_status (statuses s ids)) ≡ raw_bytes ids
  unfolding statuses
  statuses-raw s [] = refl
  statuses-raw s (id ∷ ids) = ground (arith, statuses-raw s ids)

  -- An accepted request is answered with one status for each identity, in the order of the request.
  pub statuses_cover :
      (s : ProofStore) (raw : List (List ℕ)) (response : List ProofVerificationStatus)
      → get_proof_statuses s raw ≡ ok response
      → status_ids response ≡ raw
  unfolding get_proof_statuses
  statuses_cover s raw response h = elim (Result-cases (parse_ids raw)) [
    | inl (ids, e) ↦ let m = (parse_ids_iff raw ids).0 e in ground (arith, statuses-raw s ids, m.1)
    | inr (e, refused) ↦ absurd (ground arith)
  ]
