-- ===== src/Store/Views.antt =====
-- The read-only methods of src/store/mod.rs: statuses, completed results and snapshots.
use pulsar_verifier.Prelude.{
  if◌then◌else◌, [], none, some, ◌∷◌, ◌&&◌, Option, Bool, List, is_some, is_none,
}
use pulsar_verifier.Identity.{VerificationId}
use pulsar_verifier.Store.Moka.{Moka}
use pulsar_verifier.Store.Operations.{get, ProofStore}
use pulsar_verifier.Store.Record.{
  Arc, ProofRecord, VerificationState, VerificationStatus, StoredVerificationStatus,
  VerificationVerdict, CompletedVerification, StoredProof, is_queued,
}

module _ ⦃moka : Moka (Arc ProofRecord)⦄ where
  abbrev pub status_of_state : Option VerificationState → VerificationStatus
  status_of_state none = VerificationStatus.unavailable
  status_of_state (some state) = elim state [
    | VerificationState.queued ↦ VerificationStatus.queued
    | VerificationState.verifying ↦ VerificationStatus.verifying
    | VerificationState.completed v ↦ VerificationStatus.completed v
    | VerificationState.failed f ↦ VerificationStatus.failed f
  ]

  unfoldable pub status : ProofStore → VerificationId → VerificationStatus
  unfolding get
  status s id = elim (get s id) [
    | none ↦ VerificationStatus.unavailable
    | some entry ↦ status_of_state entry.value.verification
  ]

  unfoldable pub statuses : ProofStore → List VerificationId → List StoredVerificationStatus
  unfolding status
  statuses s [] = []
  statuses s (id ∷ ids) = record { verification_id = id; status = status s id } ∷ statuses s ids

  -- The verdict that the loop of `completed_results` pushes for one identity, if any.
  unfoldable pub completed_verdict : ProofStore → VerificationId → Option VerificationVerdict
  unfolding get
  completed_verdict s id = elim (get s id) [
    | none ↦ none
    | some entry ↦ elim entry.value.verification [
      | none ↦ none
      | some state ↦ elim state [ VerificationState.completed v ↦ some v | _ ↦ none ]
    ]
  ]

  unfoldable pub completed_results : ProofStore → List VerificationId → List CompletedVerification
  unfolding completed_verdict
  completed_results s [] = []
  completed_results s (id ∷ ids) =
      let rest = completed_results s ids in
      elim (completed_verdict s id) [
        | none ↦ rest
        | some v ↦ record { verification_id = id; verdict = v } ∷ rest
      ]

  unfoldable pub stored_proofs :
      (ProofRecord → Bool) → List (VerificationId × Arc ProofRecord) → List StoredProof
  stored_proofs predicate [] = []
  stored_proofs predicate ((id, entry) ∷ rest) =
      let others = stored_proofs predicate rest in
      if predicate entry.value
      then record { verification_id = id; stored = entry } ∷ others
      else others

  unfoldable pub snapshot : ProofStore → (ProofRecord → Bool) → List StoredProof
  unfolding stored_proofs
  snapshot s predicate = stored_proofs predicate (moka.entries s.records)

  abbrev pub waits_for_content : ProofRecord → Bool
  waits_for_content r = is_some r.chain_observed_at && is_none r.proof

  abbrev pub is_ready : ProofRecord → Bool
  is_ready r = is_some r.chain_observed_at && (is_some r.proof && is_queued r.verification)

  unfoldable pub records_waiting_for_content : ProofStore → List StoredProof
  unfolding snapshot
  records_waiting_for_content s = snapshot s waits_for_content

  unfoldable pub records_ready_for_verification : ProofStore → List StoredProof
  unfolding snapshot
  records_ready_for_verification s = snapshot s is_ready

  unfoldable pub locally_available_proofs : ProofStore → List StoredProof
  unfolding snapshot
  locally_available_proofs s = snapshot s (λ r. is_some r.proof)
