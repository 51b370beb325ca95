-- ===== src/Verification/Queue.antt =====
-- Consistency of the queue and of the running jobs of src/verification/worker.rs.
use pulsar_verifier.Prelude.{
  true, false, inl, inr, ◌≡◌, ◌≤◌, map, set_insert, contains, Bool-cases, is_distinct, subst,
  length, arith, is_distinct-snoc, ap, ==_cases, without, is_distinct-without, [], refl, ◌∷◌, ◌++◌,
  ◌⊎◌, List, sym, without_absent, contains-without, snoc_other,
}
use pulsar_verifier.Identity.{VerificationId, id_eq}
use pulsar_verifier.Store.Event.{ProofStoreEvent}
use pulsar_verifier.Store.Moka.{Moka}
use pulsar_verifier.Store.Record.{Arc, ProofRecord, StoredProof, VerificationState}
use pulsar_verifier.Store.Views.{records_ready_for_verification}
use pulsar_verifier.Verification.Worker.{
  Worker, enqueue, remove_pending, task_id, cleared, enqueue_all, handle_store_result,
  reconcile_ready_records, Received,
}

module _ ⦃moka : Moka (Arc ProofRecord)⦄ where
  -- No identity is queued or run twice, none is queued while it runs, the sets hold what their
  -- queues hold, and the running jobs stay within the limit.
  pub record IsSound (w : Worker) : Type 0 where
    pub mirror : w.pending_ids ≡ w.pending
    pub running : w.active_ids ≡ map task_id w.jobs
    pub pending_once : is_distinct w.pending ≡ true
    pub active_once : is_distinct w.active_ids ≡ true
    pub apart :
        (id : VerificationId) → contains w.pending id ≡ true → contains w.active_ids id ≡ false
    pub bounded : length w.jobs ≤ w.config.max_concurrent_jobs

  abbrev pub queued : VerificationId → Worker → Worker
  queued id w = record w {
    pending = w.pending ++ (id ∷ []);
    pending_ids = w.pending_ids ++ (id ∷ []);
  }

  pub enqueue-cases :
      (id : VerificationId) (w : Worker)
      → ((enqueue id w ≡ w)
          × ((contains w.active_ids id ≡ true) ⊎ (contains w.pending_ids id ≡ true)))
        ⊎ ((enqueue id w ≡ queued id w)
            × (contains w.active_ids id ≡ false)
            × (contains w.pending_ids id ≡ false))
  unfolding enqueue set_insert
  enqueue-cases id w = elim (Bool-cases (contains w.active_ids id)) [
    | inl active ↦ inl (rw active refl, inl active)
    | inr idle ↦ elim (Bool-cases (contains w.pending_ids id)) [
      | inl known ↦ inl (rw (idle, known) refl, inr known)
      | inr new ↦ inr (rw (idle, new) refl, idle, new)
    ]
  ]

  queued-IsSound :
      (id : VerificationId) (w : Worker)
      → contains w.active_ids id ≡ false
      → contains w.pending_ids id ≡ false
      → IsSound w
      → IsSound (queued id w)
  queued-IsSound id w idle new v = record {
    mirror = ap (λ (xs : List VerificationId). xs ++ (id ∷ [])) v.mirror;
    running = v.running;
    pending_once = is_distinct-snoc w.pending id (rw v.mirror at new) v.pending_once;
    active_once = v.active_once;
    apart = λ j h. elim (==_cases id j) [
      | inl (same, t) ↦ rw same at idle
      | inr (other, t) ↦ v.apart j (snoc_other w.pending id j t h)
    ];
    bounded = v.bounded;
  }

  pub enqueue-IsSound : (id : VerificationId) (w : Worker) → IsSound w → IsSound (enqueue id w)
  enqueue-IsSound id w v = elim (enqueue-cases id w) [
    | inl (same, h) ↦ subst IsSound (sym same) v
    | inr (grown, idle, new) ↦ subst IsSound (sym grown) (queued-IsSound id w idle new v)
  ]

  abbrev pub dequeued : VerificationId → Worker → Worker
  dequeued id w = record w {
    pending = without id w.pending;
    pending_ids = without id w.pending_ids;
  }

  -- An identity that is not queued is nothing to remove.
  pub remove_pending-dequeued :
      (id : VerificationId) (w : Worker) → IsSound w → remove_pending id w ≡ dequeued id w
  unfolding remove_pending
  remove_pending-dequeued id w v = elim (Bool-cases (contains w.pending_ids id)) [
    | inl known ↦ rw known refl
    | inr new ↦
        rw
          (
            new,
            without_absent id w.pending_ids new,
            without_absent id w.pending (rw v.mirror at new),
          )
          refl
  ]

  dequeued-IsSound : (id : VerificationId) (w : Worker) → IsSound w → IsSound (dequeued id w)
  dequeued-IsSound id w v = record {
    mirror = ap (without id) v.mirror;
    running = v.running;
    pending_once = is_distinct-without id w.pending v.pending_once;
    active_once = v.active_once;
    apart = λ j h. v.apart j (ground (arith, contains-without id w.pending j));
    bounded = v.bounded;
  }

  pub cleared-IsSound : (w : Worker) → IsSound w → IsSound (cleared w)
  unfolding is_distinct contains
  cleared-IsSound w v = record {
    mirror = refl;
    running = v.running;
    pending_once = refl;
    active_once = v.active_once;
    apart = λ j h. cc;
    bounded = v.bounded;
  }

  enqueue_all-IsSound :
      (ps : List StoredProof) (w : Worker) → IsSound w → IsSound (enqueue_all ps w)
  unfolding enqueue_all
  enqueue_all-IsSound [] w v = v
  enqueue_all-IsSound (p ∷ ps) w v =
      enqueue_all-IsSound ps (enqueue p.verification_id w) (enqueue-IsSound p.verification_id w v)

  pub handle_store_result-IsSound :
      (r : Received) (w : Worker) → IsSound w → IsSound (handle_store_result r w).1
  unfolding handle_store_result reconcile_ready_records
  handle_store_result-IsSound Received.closed w v = v
  handle_store_result-IsSound (Received.lagged n) w v =
      enqueue_all-IsSound (records_ready_for_verification w.store) (cleared w) (cleared-IsSound w v)
  handle_store_result-IsSound (Received.event (ProofStoreEvent.verification_observed id)) w v = v
  handle_store_result-IsSound (Received.event (ProofStoreEvent.proof_stored id source)) w v = v
  handle_store_result-IsSound (Received.event (ProofStoreEvent.proof_evicted id cause)) w v =
      subst IsSound (sym (remove_pending-dequeued id w v)) (dequeued-IsSound id w v)
  handle_store_result-IsSound
        (Received.event (ProofStoreEvent.verification_changed id VerificationState.queued)) w v =
      enqueue-IsSound id w v
  handle_store_result-IsSound
        (Received.event (ProofStoreEvent.verification_changed id VerificationState.verifying)) w v =
      v
  handle_store_result-IsSound
        (Received.event (ProofStoreEvent.verification_changed id (VerificationState.completed c))) w
        v =
      v
  handle_store_result-IsSound
        (Received.event (ProofStoreEvent.verification_changed id (VerificationState.failed f))) w
        v =
      v

  -- A worker that has taken other events.
  pub received-IsSound :
      (w : Worker) (events : List ProofStoreEvent)
      → IsSound w
      → IsSound (record w { received = events })
  received-IsSound w events v = record {
    mirror = v.mirror;
    running = v.running;
    pending_once = v.pending_once;
    active_once = v.active_once;
    apart = v.apart;
    bounded = v.bounded;
  }
