-- ===== src/Samples/Stores.antt =====
-- The theorems on identities and on the store, applied to small stores and proofs.
use pulsar_verifier.Prelude.{
  if◌then◌else◌, [], some, refl, ◌∷◌, ◌≡◌, ◌+◌, ◌≤◌, ◌<◌, ◌&&◌, ◌==◌, ◌↔◌, ◌⊎◌, List, ℕ, arith, leb,
  u32_limit, true, ◌++◌,
}
use pulsar_verifier.Error.{ok, err, proof_too_large}
use pulsar_verifier.Identity.{id_eq}
use pulsar_verifier.Proof.{verification_id, of_wire, encoded_len, from_component_hashes, to_wire}
use pulsar_verifier.Proof.Binding.{Collision, verification_id-inj}
use pulsar_verifier.Proof.Wire.{of_wire-to_wire}
use pulsar_verifier.Samples.Assoc.{find, compute_entry}
use pulsar_verifier.Samples.Platform.{
  sample_proof, empty_store, sample_job, sample_config, fit, sample_outcome, sample_id,
  queued_record, ready_store, sample_sha, sample_moka, sample_prost,
}
use pulsar_verifier.Store.Announced.{is_ready_at, waits}
use pulsar_verifier.Store.Entries.{
  begin_entry, observe_entry, insert_entry, validate_proof, queue_if_ready,
}
use pulsar_verifier.Store.Event.{ProofStoreEvent}
use pulsar_verifier.Store.History.{Call, run, evicts, observes, run-Inv, inserts, begins}
use pulsar_verifier.Store.Insertion.{insertion_change, insertion_events, insert_local_proof_lem}
use pulsar_verifier.Store.Invariant.{Inv}
use pulsar_verifier.Store.Jobs.{IsCommitted, IsIgnored, finish-begin}
use pulsar_verifier.Store.Limits.{check_config, proof_weight}
use pulsar_verifier.Store.Merge.{observe-insert_comm, attached, view-attach}
use pulsar_verifier.Store.Moka.{RemovalCause}
use pulsar_verifier.Store.Operations.{
  begin_verification, transition, insert_local_proof, attach_downloaded_proof,
  observe_chain_verification, announce,
}
use pulsar_verifier.Store.Readers.{run-waits}
use pulsar_verifier.Store.Record.{rpc, peer}
use pulsar_verifier.Store.Spec.{view, supplied}
use pulsar_verifier.Store.Validity.{IsValid}
use pulsar_verifier.Store.Weight.{proof_weight_fits}

id_computed : verification_id sample_proof ≡ sample_id
unfolding verification_id from_component_hashes fit
id_computed = refl

verification_id-inj_example : (sample_proof ≡ sample_proof) ⊎ Collision
verification_id-inj_example = verification_id-inj sample_proof sample_proof refl

of_wire-to_wire_example :
    (of_wire (to_wire sample_proof) ≡ ok sample_proof)
    ↔ (to_wire sample_proof ≡ to_wire sample_proof)
of_wire-to_wire_example = of_wire-to_wire sample_proof (to_wire sample_proof)

empty_store-Inv : Inv empty_store
unfolding find
empty_store-Inv id a e = absurd (ground arith)

job_begun : (begin_verification sample_id ready_store).0 ≡ ok (some sample_job)
unfolding begin_verification transition begin_entry compute_entry
job_begun = refl

-- The record is evicted and observed again while the job runs.
abbrev lost_calls : List Call
lost_calls = evicts sample_id RemovalCause.size ∷ observes 5 sample_id ∷ []

finish-begin_example :
    IsCommitted sample_job 9 sample_outcome
      (run lost_calls (begin_verification sample_id ready_store).1)
    ⊎ IsIgnored sample_job 9 sample_outcome
        (run lost_calls (begin_verification sample_id ready_store).1)
finish-begin_example =
    finish-begin ready_store sample_id sample_job lost_calls 9 sample_outcome job_begun

abbrev calls : List Call
calls = observes 1 sample_id ∷ inserts 2 sample_proof rpc ∷ begins sample_id ∷ []

run-Inv_example : Inv (run calls empty_store)
run-Inv_example = run-Inv calls empty_store (tt, (tt, (tt, tt))) empty_store-Inv

observe-insert_comm_example :
    view
      (insert_local_proof 2 sample_proof rpc
        (observe_chain_verification 1 (verification_id sample_proof) empty_store).1).1
      sample_id
    ≡ view
        (observe_chain_verification 1
          (verification_id sample_proof)
          (insert_local_proof 2 sample_proof rpc empty_store).1).1
        sample_id
observe-insert_comm_example = observe-insert_comm 1 2 sample_proof rpc sample_id empty_store

insert_local_proof_lem_example :
    ((insert_local_proof 2 sample_proof rpc empty_store).0 ≡ (
      if leb (encoded_len sample_proof) 1024
      then ok (
        verification_id sample_proof,
        insertion_change (view empty_store (verification_id sample_proof)),
      )
      else err (proof_too_large (verification_id sample_proof) (encoded_len sample_proof) 1024)))
    × ((insert_local_proof 2 sample_proof rpc empty_store).1.events ≡ (
        if leb (encoded_len sample_proof) 1024
        then insertion_events
            (verification_id sample_proof)
            rpc
            (supplied sample_proof rpc 2 (view empty_store (verification_id sample_proof)))
            (view empty_store (verification_id sample_proof))
        else []))
    × (view (insert_local_proof 2 sample_proof rpc empty_store).1 sample_id ≡ (
        if leb (encoded_len sample_proof) 1024 && (verification_id sample_proof == sample_id)
        then some (supplied sample_proof rpc 2 (view empty_store (verification_id sample_proof)))
        else view empty_store sample_id))
insert_local_proof_lem_example = insert_local_proof_lem 2 sample_proof rpc sample_id empty_store

view-attach_example :
    view
      (attach_downloaded_proof 2 sample_id sample_proof (record { bytes = 1 ∷ [] }) empty_store).1
      sample_id
    ≡ (if leb (encoded_len sample_proof) 1024
          && ((verification_id sample_proof == sample_id) && (sample_id == sample_id))
        then attached sample_proof (peer (record { bytes = 1 ∷ [] })) 2 (view empty_store sample_id)
        else view empty_store sample_id)
view-attach_example =
    view-attach 2 sample_id sample_proof (record { bytes = 1 ∷ [] }) sample_id empty_store

config_accepted : check_config sample_config ≡ ok tt
unfolding check_config
config_accepted = refl

queued_record-IsValid : IsValid 1024 sample_id queued_record
unfolding encoded_len verification_id from_component_hashes fit
queued_record-IsValid = record {
  lifecycle = refl;
  completion = refl;
  origin = refl;
  stored = refl;
  content = (omega arith, refl);
  failure = tt;
}

proof_weight_fits_example :
    (w : ℕ) × (proof_weight queued_record ≡ some w) × (w ≤ 1024 + 576) × (w < u32_limit)
proof_weight_fits_example =
    proof_weight_fits sample_config sample_id queued_record config_accepted queued_record-IsValid

abbrev ready_calls : List Call
ready_calls = inserts 1 sample_proof rpc ∷ observes 2 sample_id ∷ []

ready_at_end : is_ready_at (run ready_calls empty_store) sample_id ≡ true
unfolding run is_ready_at observe_chain_verification insert_local_proof transition compute_entry
    find verification_id from_component_hashes fit observe_entry insert_entry validate_proof
    encoded_len queue_if_ready announce
ready_at_end = refl

run-waits_example :
    (sent : List ProofStoreEvent) × ((run ready_calls empty_store).events
      ≡ empty_store.events ++ sent)
    × (waits sample_id (is_ready_at empty_store sample_id) sent ≡ true)
run-waits_example = run-waits ready_calls empty_store sample_id ready_at_end
