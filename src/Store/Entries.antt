-- ===== src/Store/Entries.antt =====
-- The closures of src/store/mod.rs that decide each transition of one record, and what their results
-- mean for the caller.
use pulsar_verifier.Prelude.{
  if◌then◌else◌, none, some, true, false, ◌&&◌, ◌||◌, ℕ, is_some, Option, is_none, not, Bool, ◌==◌,
  ltb,
}
use pulsar_verifier.Error.{
  ok, err, Result, proof_not_observed, invalid_verification_transition, proof_too_large,
  verification_id_mismatch,
}
use pulsar_verifier.Identity.{VerificationId, id_eq}
use pulsar_verifier.Proof.{Proof, Sha256, Prost, encoded_len, verification_id}
use pulsar_verifier.Store.Moka.{CompResult, Op}
use pulsar_verifier.Store.Record.{
  ProofRecord, Arc, VerificationState, StoreChange, ProofSource, is_queued, ptr_eq, is_verifying,
  VerificationOutcome, VerificationJob,
}

abbrev pub store_change : CompResult (Arc ProofRecord) → StoreChange
store_change (CompResult.inserted e) = StoreChange.inserted
store_change (CompResult.replaced_with e) = StoreChange.updated
store_change result = StoreChange.unchanged

abbrev pub result_state : CompResult (Arc ProofRecord) → Option VerificationState
result_state (CompResult.inserted e) = e.value.verification
result_state (CompResult.replaced_with e) = e.value.verification
result_state (CompResult.unchanged e) = e.value.verification
result_state (CompResult.removed e) = none
result_state CompResult.still_none = none

-- `queue_if_ready`.
unfoldable pub queue_if_ready : ProofRecord → ProofRecord
queue_if_ready r =
    if is_some r.chain_observed_at && is_some r.proof && is_none r.verification
    then record r { metadata = record r.metadata { verification = some VerificationState.queued } }
    else r

-- The closures that the methods pass to `and_try_compute_with`: the address is that of the `Arc`
-- which the closure allocates.
abbrev pub arc : ℕ → ProofRecord → Op (Arc ProofRecord)
arc address r = Op.put (record { address = address; value = r })

unfoldable pub observe_entry : ℕ → ℕ → Option (Arc ProofRecord) → Result (Op (Arc ProofRecord))
unfolding queue_if_ready
observe_entry address observed_at none = ok (
    arc address (record {
      metadata = record {
        chain_observed_at = some observed_at;
        content_source = none;
        content_stored_at = none;
        verification = none;
        completed_at = none;
      };
      proof = none;
    }))
observe_entry address observed_at (some entry) =
    let current = entry.value in
    if is_some current.chain_observed_at
    then ok Op.nop
    else ok (
        arc address (
          queue_if_ready (record current {
            metadata = record current.metadata { chain_observed_at = some observed_at };
          })))

-- The record with the content, queued if it is ready.
unfoldable pub with_content : ProofRecord → Proof → ProofSource → ℕ → ProofRecord
unfolding queue_if_ready
with_content current p source stored_at = queue_if_ready (record current {
  metadata = record current.metadata {
    content_source = some source;
    content_stored_at = some stored_at;
  };
  proof = some p;
})

unfoldable pub insert_entry :
    ℕ → Proof → ProofSource → ℕ → Option (Arc ProofRecord) → Result (Op (Arc ProofRecord))
unfolding with_content
insert_entry address p source stored_at none = ok (
    arc address (record {
      metadata = record {
        chain_observed_at = none;
        content_source = some source;
        content_stored_at = some stored_at;
        verification = none;
        completed_at = none;
      };
      proof = some p;
    }))
insert_entry address p source stored_at (some entry) =
    if is_some entry.value.proof
    then ok Op.nop
    else ok (arc address (with_content entry.value p source stored_at))

unfoldable pub attach_entry :
    ℕ
    → VerificationId
    → Proof
    → ProofSource
    → ℕ
    → Option (Arc ProofRecord)
    → Result (Op (Arc ProofRecord))
unfolding with_content
attach_entry address expected_id p source stored_at none = err (proof_not_observed expected_id)
attach_entry address expected_id p source stored_at (some entry) =
    if is_none entry.value.chain_observed_at
    then err (proof_not_observed expected_id)
    else if is_some entry.value.proof
    then ok Op.nop
    else ok (arc address (with_content entry.value p source stored_at))

abbrev pub with_state : ProofRecord → VerificationState → ProofRecord
with_state r state = record r { metadata = record r.metadata { verification = some state } }

unfoldable pub begin_entry : ℕ → Option (Arc ProofRecord) → Result (Op (Arc ProofRecord))
begin_entry address none = ok Op.nop
begin_entry address (some entry) =
    if is_none entry.value.chain_observed_at
      || is_none entry.value.proof
      || not (is_queued entry.value.verification)
    then ok Op.nop
    else ok (arc address (with_state entry.value VerificationState.verifying))

unfoldable pub finish_entry :
    ℕ
    → VerificationId
    → Arc ProofRecord
    → VerificationState
    → Option ℕ
    → Option (Arc ProofRecord)
    → Result (Op (Arc ProofRecord))
finish_entry address id claim committed completed_at none = ok Op.nop
finish_entry address id claim committed completed_at (some entry) =
    if not (ptr_eq entry claim)
    then ok Op.nop
    else if not (is_verifying entry.value.verification)
    then err (invalid_verification_transition id)
    else ok (
        arc address (record entry.value {
          metadata = record entry.value.metadata {
            verification = some committed;
            completed_at = completed_at;
          };
        }))

-- The match of `retry_verification` on the current state.
unfoldable pub retry_state : VerificationId → Option VerificationState → Result Bool
retry_state id none = err (invalid_verification_transition id)
retry_state id (some state) = elim state [
  | VerificationState.failed f ↦
      if f.retryable then ok true else err (invalid_verification_transition id)
  | VerificationState.queued ↦ ok false
  | _ ↦ err (invalid_verification_transition id)
]

unfoldable pub retry_entry :
    ℕ → VerificationId → Option (Arc ProofRecord) → Result (Op (Arc ProofRecord))
unfolding retry_state
retry_entry address id none = err (invalid_verification_transition id)
retry_entry address id (some entry) = elim (retry_state id entry.value.verification) [
  | err e ↦ err e
  | ok requeue ↦
      if requeue
      then ok (
          arc address (record entry.value {
            metadata = record entry.value.metadata {
              verification = some VerificationState.queued;
              completed_at = none;
            };
          }))
      else ok Op.nop
]

-- The `next` and `completed_at` of `finish_verification`.
abbrev pub next_state : VerificationOutcome → VerificationState
next_state (VerificationOutcome.completed v) = VerificationState.completed v
next_state (VerificationOutcome.failed f) = VerificationState.failed f

-- `matches!(&next, Completed(_)).then(Instant::now)`
abbrev pub completion_time : ℕ → VerificationOutcome → Option ℕ
completion_time now (VerificationOutcome.completed v) = some now
completion_time now (VerificationOutcome.failed f) = none

-- The closure of `finish_verification`.
abbrev pub finish_closure :
    ℕ
    → VerificationJob
    → VerificationOutcome
    → ℕ
    → Option (Arc ProofRecord)
    → Result (Op (Arc ProofRecord))
finish_closure now job outcome a =
    finish_entry a job.verification_id job.claim (next_state outcome) (completion_time now outcome)

module _ ⦃sha : Sha256⦄ ⦃prost : Prost⦄ where
  unfoldable pub validate_proof : ℕ → VerificationId → Proof → Result (Unit {0})
  validate_proof max_proof_bytes expected_id p =
      if ltb max_proof_bytes (encoded_len p)
      then err (proof_too_large expected_id (encoded_len p) max_proof_bytes)
      else if not (verification_id p == expected_id)
      then err (verification_id_mismatch expected_id)
      else ok tt
