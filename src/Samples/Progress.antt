-- ===== src/Samples/Progress.antt =====
-- The theorems on what the worker of src/verification/worker.rs loses, applied to two proofs and
-- workers with one slot and with two slots.
use pulsar_verifier.Prelude.{
  [], true, false, refl, ◌∷◌, ◌++◌, ◌≡◌, ◌≤◌, ◌⊎◌, List, contains, length, set_insert, ℕ,
}
use pulsar_verifier.Error.{ok}
use pulsar_verifier.Identity.{noir_barretenberg, id_eq}
use pulsar_verifier.Proof.{Proof, verification_id, from_component_hashes, encoded_len}
use pulsar_verifier.Samples.Assoc.{compute_entry, find, current}
use pulsar_verifier.Samples.Platform.{
  sample_moka, sample_config, sample_sha, empty_store, sample_proof, sample_prost, fit,
}
use pulsar_verifier.Store.Announced.{is_ready_at, waits}
use pulsar_verifier.Store.Entries.{
  observe_entry, insert_entry, validate_proof, queue_if_ready, begin_entry,
}
use pulsar_verifier.Store.Event.{ProofStoreEvent}
use pulsar_verifier.Store.History.{Call, step, inserts, run, observes}
use pulsar_verifier.Store.Limits.{check_config, maximum_weight}
use pulsar_verifier.Store.Operations.{
  new as new_store, observe_chain_verification, insert_local_proof, transition, announce,
  begin_verification,
}
use pulsar_verifier.Store.Record.{rpc}
use pulsar_verifier.Store.Views.{records_ready_for_verification}
use pulsar_verifier.Verification.Attempts.{VerificationConfig}
use pulsar_verifier.Verification.Progress.{started_at, ready-IsFollowed, start_ready_jobs-covered}
use pulsar_verifier.Verification.Starting.{never}
use pulsar_verifier.Verification.Tracking.{IsFollowed}
use pulsar_verifier.Verification.Turns.{Turns, Turn}
use pulsar_verifier.Verification.Worker.{Worker, start_ready_jobs, reconcile_ready_records, new}

abbrev one_slot : VerificationConfig
one_slot = record {
  max_concurrent_jobs = 1;
  job_timeout = 30000000000;
  max_retries = 2;
  retry_backoff = 250000000;
}

abbrev other_proof : Proof
other_proof = record {
  proof_type = noir_barretenberg;
  proof = 5 ∷ [];
  public_inputs = 6 ∷ [];
  verification_key = [];
}

abbrev sees : Proof → List Call
sees p = inserts 1 p rpc ∷ observes 2 (verification_id p) ∷ []

config_opens : new_store sample_config ≡ ok empty_store
unfolding new_store check_config maximum_weight
config_opens = refl

-- The first record is seen before the worker starts, the second one while it runs.
abbrev at_start : Worker
at_start = started_at (run (sees sample_proof) empty_store) [] [] one_slot

abbrev seen_later : Worker
seen_later = record at_start {
  store =
      step (observes 4 (verification_id other_proof))
        (step (inserts 3 other_proof rpc) at_start.store);
}

later : Turns at_start seen_later
later = Turns.goes at_start _ seen_later (Turn.others (inserts 3 other_proof rpc)) (
    Turns.goes _ seen_later seen_later (Turn.others (observes 4 (verification_id other_proof)))
      (Turns.stays seen_later))

later-ready : is_ready_at seen_later.store (verification_id other_proof) ≡ true
unfolding run is_ready_at observe_chain_verification insert_local_proof transition compute_entry
    find verification_id from_component_hashes fit observe_entry insert_entry validate_proof
    encoded_len queue_if_ready announce set_insert contains reconcile_ready_records
    records_ready_for_verification current new
later-ready = refl

ready-IsFollowed_example :
    (unread : List ProofStoreEvent) × (seen_later.store.events ≡ seen_later.received ++ unread)
    × IsFollowed seen_later unread (verification_id other_proof)
ready-IsFollowed_example =
    ready-IsFollowed sample_config empty_store (sees sample_proof) [] [] one_slot seen_later
      config_opens later (verification_id other_proof) later-ready

-- While the worker claims the first record, the second one becomes ready and a slot stays free.
abbrev meanwhile : ℕ → List Call
meanwhile n = sees other_proof

abbrev two_slots : VerificationConfig
two_slots = record one_slot { max_concurrent_jobs = 2 }

abbrev with_two_slots : Worker
with_two_slots = started_at (run (sees sample_proof) empty_store) [] [] two_slots

one_started : (start_ready_jobs never meanwhile with_two_slots).0 ≡ ok tt
unfolding run is_ready_at observe_chain_verification insert_local_proof transition compute_entry
    find verification_id from_component_hashes fit observe_entry insert_entry validate_proof
    encoded_len queue_if_ready announce set_insert contains start_ready_jobs reconcile_ready_records
    records_ready_for_verification begin_verification begin_entry current new
one_started = refl

meanwhile-ready :
    is_ready_at
      (start_ready_jobs never meanwhile with_two_slots).1.store
      (verification_id other_proof)
    ≡ true
unfolding run is_ready_at observe_chain_verification insert_local_proof transition compute_entry
    find verification_id from_component_hashes fit observe_entry insert_entry validate_proof
    encoded_len queue_if_ready announce set_insert contains start_ready_jobs reconcile_ready_records
    records_ready_for_verification begin_verification begin_entry current new
meanwhile-ready = refl

start_ready_jobs-covered_example :
    (contains
        (start_ready_jobs never meanwhile with_two_slots).1.active_ids
        (verification_id other_proof)
      ≡ true)
    ⊎ (((start_ready_jobs never meanwhile with_two_slots).1.config.max_concurrent_jobs
          ≤ length (start_ready_jobs never meanwhile with_two_slots).1.jobs)
        ⊎ ((unread : List ProofStoreEvent) × ((start_ready_jobs never meanwhile
                with_two_slots).1.store.events
              ≡ (start_ready_jobs never meanwhile with_two_slots).1.received ++ unread)
            × (waits (verification_id other_proof) false unread ≡ true)))
start_ready_jobs-covered_example =
    start_ready_jobs-covered sample_config empty_store (sees sample_proof) [] [] two_slots
      with_two_slots meanwhile config_opens (Turns.stays with_two_slots) one_started
      (verification_id other_proof) meanwhile-ready
