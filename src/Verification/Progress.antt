-- ===== src/Verification/Progress.antt =====
-- No ready record is lost by the worker of src/verification/worker.rs.
use pulsar_verifier.Prelude.{
  ◌∷◌, ◌++◌, ◌≡◌, ℕ, List, inl, inr, subst, sym, arith, contains-without, true, false, ◌≤◌, ◌⊎◌,
  clash_bool, contains, length,
}
use pulsar_verifier.Error.{ok}
use pulsar_verifier.Identity.{ProofType, id_eq, VerificationId}
use pulsar_verifier.Proof.{Sha256, Prost}
use pulsar_verifier.Store.Announced.{Announced, is_ready_at, waits}
use pulsar_verifier.Store.Broadcast.{Announced-trans}
use pulsar_verifier.Store.Event.{ProofStoreEvent}
use pulsar_verifier.Store.History.{Call, step, run}
use pulsar_verifier.Store.Limits.{ProofStoreConfig}
use pulsar_verifier.Store.Moka.{Moka}
use pulsar_verifier.Store.Operations.{finish_verification, ProofStore, new as new_store}
use pulsar_verifier.Store.Readers.{finish-Announced, run-Announced, step-Announced, new-not_ready}
use pulsar_verifier.Store.Record.{Arc, ProofRecord, VerificationOutcome}
use pulsar_verifier.Verification.Attempts.{JobCompletion, Verifier, VerificationConfig}
use pulsar_verifier.Verification.Completion.{
  settled_by, with_store-IsSound, left_by, left_by-IsSound, commit_completion-Committed, done,
  Committed,
}
use pulsar_verifier.Verification.Following.{lagged-IsTracked, reconcile-same, reconcile-IsKnown}
use pulsar_verifier.Verification.Handling.{
  enqueue_if_queued-same, received-IsTracked, looked_up-follows,
}
use pulsar_verifier.Verification.Queue.{IsSound, handle_store_result-IsSound}
use pulsar_verifier.Verification.Starting.{
  start_ready_jobs-IsTracked, refused_ok, never, start_ready_jobs-IsIdle,
}
use pulsar_verifier.Verification.Tracking.{
  IsTracked, with_store-IsTracked, moved-IsTracked, told_ever-Announced, IsFollowed, waits-suffix,
}
use pulsar_verifier.Verification.Turns.{Turn, Turns, Turn-IsSound, new-IsSound}
use pulsar_verifier.Verification.Worker.{
  Task, Worker, commit_completion, task_id, enqueue_if_queued, handle_store_result, new,
  reconcile_ready_records, Received, start_ready_jobs,
}

module _ ⦃sha : Sha256⦄ ⦃prost : Prost⦄ ⦃moka : Moka (Arc ProofRecord)⦄ where
  completed-IsTracked :
      (now : ℕ) (calls : List Call) (before after : List Task) (t : Task)
      (outcome : VerificationOutcome) (w : Worker)
      → w.jobs ≡ before ++ (t ∷ after)
      → (commit_completion now calls
          (ok (record { job = t.job; outcome = outcome }))
          (record w { jobs = before ++ after })).0
        ≡ ok tt
      → IsSound w
      → IsTracked w
      → IsTracked
          (commit_completion now calls
            (ok (record { job = t.job; outcome = outcome }))
            (record w { jobs = before ++ after })).1
  completed-IsTracked now calls before after t outcome w e finished v k =
      let c : JobCompletion = record { job = t.job; outcome = outcome } in
      let w1 : Worker = record w { jobs = before ++ after } in
      let settled = settled_by now calls c w1 in
      let id = task_id t in
      let sound : IsSound settled =
        with_store-IsSound (left_by t (before ++ after) w) settled.store
          (left_by-IsSound before after t w e v) in
      let (s, r) = enqueue_if_queued-same id settled in
      let grown =
        Announced-trans w.store _ settled.store (finish-Announced now t.job outcome w.store)
          (run-Announced calls (finish_verification now t.job outcome w.store).1) in
      elim (commit_completion-Committed now calls c w1) [
        | Committed.refused x h same ↦ absurd (refused_ok _ h finished)
        | done same ↦ subst IsTracked (sym same) (
            moved-IsTracked w (enqueue_if_queued id settled)
              (subst (Announced w.store) (sym s) grown) r
              (λ unread j h ever f.
                looked_up-follows id j settled unread sound (rw s at h) ever (λ n. elim f [
                  | inl active ↦ inl (ground (arith, contains-without id w.active_ids j))
                  | inr waiting ↦ inr waiting
                ]))
              k)
      ]

  pub Turn-IsTracked : (w u : Worker) → Turn w u → IsSound w → IsTracked w → IsTracked u
  unfolding handle_store_result reconcile_ready_records
  Turn-IsTracked w u (Turn.others c) v k =
      with_store-IsTracked w (step c w.store) (step-Announced c w.store) k
  Turn-IsTracked w u (Turn.starts stops calls) v k = start_ready_jobs-IsTracked stops calls w k
  Turn-IsTracked w u (Turn.receives e rest p) v k = received-IsTracked e rest w p v k
  Turn-IsTracked w u (Turn.lags skipped rest p) v k = lagged-IsTracked skipped rest w p v k
  Turn-IsTracked w u (Turn.completes now calls before after t outcome p q) v k =
      completed-IsTracked now calls before after t outcome w p q v k

  Turns-IsTracked : (w u : Worker) → Turns w u → IsSound w → IsTracked w → IsTracked u
  Turns-IsTracked w u (Turns.stays x) v k = k
  Turns-IsTracked w u (Turns.goes x y z t ts) v k =
      Turns-IsTracked y u ts (Turn-IsSound w y t v) (Turn-IsTracked w y t v k)

  -- The worker that starts: the store has been used, and other tasks use it until the worker looks at
  -- it for the first time.
  abbrev pub started_at :
      ProofStore → List Call → List (ProofType × Verifier) → VerificationConfig → Worker
  started_at s calls registry config =
      reconcile_ready_records (record (new s registry config) { store = run calls s })

  started-IsSound :
      (s : ProofStore) (calls : List Call) (registry : List (ProofType × Verifier))
      (config : VerificationConfig)
      → IsSound (started_at s calls registry config)
  unfolding handle_store_result
  started-IsSound s calls registry config =
      handle_store_result-IsSound (Received.lagged 0) _
        (with_store-IsSound (new s registry config) (run calls s) (new-IsSound s registry config))

  started-IsTracked :
      (c : ProofStoreConfig) (s0 : ProofStore) (cs calls : List Call)
      (registry : List (ProofType × Verifier)) (config : VerificationConfig)
      → new_store c ≡ ok s0
      → IsTracked (started_at (run cs s0) calls registry config)
  unfolding new
  started-IsTracked c s0 cs calls registry config h =
      let s = run cs s0 in
      let a = run-Announced calls s in
      let before : Worker = record (new s registry config) { store = run calls s } in
      let (kept, taken) = reconcile-same before in
      let ever = told_ever-Announced s (run calls s) a (
        told_ever-Announced s0 s (run-Announced cs s0)
          (λ id ready. absurd (clash_bool (new-not_ready c s0 id h) ready))) in
      record {
        told_ever = λ id ready. rw kept (ever id (rw kept at ready));
        unread = a.added;
        position = rw (kept, taken) a.sent;
        followed = λ id ready.
            elim (reconcile-IsKnown before id
              (with_store-IsSound (new s registry config) (run calls s)
                (new-IsSound s registry config))
              (rw kept at ready)) [
                | inl active ↦ inl active
                | inr pending ↦ inr (
                    rw pending (
                      waits-suffix id s.events a.added (
                        subst (λ es. waits id false es ≡ true) a.sent
                          (ever id (rw kept at ready)))))
              ];
      }

  -- Whatever turns the worker takes after its start, with any calls of other tasks before, between and
  -- at the `await`s of them: at every point each record that is ready for verification has a job of the worker, or is
  -- known from the worker's queue and the events that it has not read yet.
  pub ready-IsFollowed :
      (c : ProofStoreConfig) (s0 : ProofStore) (cs calls : List Call)
      (registry : List (ProofType × Verifier)) (config : VerificationConfig) (w : Worker)
      → new_store c ≡ ok s0
      → Turns (started_at (run cs s0) calls registry config) w
      → (id : VerificationId) → is_ready_at w.store id ≡ true
      → (unread : List ProofStoreEvent) × (w.store.events ≡ w.received ++ unread)
        × IsFollowed w unread id
  ready-IsFollowed c s0 cs calls registry config w h ts id ready =
      let k =
        Turns-IsTracked _ w ts (started-IsSound (run cs s0) calls registry config)
          (started-IsTracked c s0 cs calls registry config h) in
      (k.unread, k.position, k.followed id ready)

  -- When the loop of starting jobs ends without an error and without being told to stop, whatever
  -- other tasks have done at its `await`s: each record that is ready has a job, or every slot is taken,
  -- or an event that the worker has not read yet tells of it.
  pub start_ready_jobs-covered :
      (c : ProofStoreConfig) (s0 : ProofStore) (cs calls : List Call)
      (registry : List (ProofType × Verifier)) (config : VerificationConfig) (w : Worker)
      (others : ℕ → List Call)
      → new_store c ≡ ok s0
      → Turns (started_at (run cs s0) calls registry config) w
      → (start_ready_jobs never others w).0 ≡ ok tt
      → (id : VerificationId) → is_ready_at (start_ready_jobs never others w).1.store id ≡ true
      → (contains (start_ready_jobs never others w).1.active_ids id ≡ true)
        ⊎ (((start_ready_jobs never others w).1.config.max_concurrent_jobs
              ≤ length (start_ready_jobs never others w).1.jobs)
            ⊎ ((unread : List ProofStoreEvent) × ((start_ready_jobs never others w).1.store.events
                  ≡ (start_ready_jobs never others w).1.received ++ unread)
                × (waits id false unread ≡ true)))
  unfolding contains
  start_ready_jobs-covered c s0 cs calls registry config w others h ts finished id ready =
      let u = (start_ready_jobs never others w).1 in
      let k =
        Turns-IsTracked _ w ts (started-IsSound (run cs s0) calls registry config)
          (started-IsTracked c s0 cs calls registry config h) in
      let v = start_ready_jobs-IsTracked never others w k in
      elim (v.followed id ready) [
        | inl active ↦ inl active
        | inr waiting ↦ elim (start_ready_jobs-IsIdle others w finished) [
          | inr full ↦ inr (inl full)
          | inl empty ↦ inr (inr (v.unread, v.position, rw empty at waiting))
        ]
      ]
