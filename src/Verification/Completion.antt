-- ===== src/Verification/Completion.antt =====
-- Consistency of the worker (src/verification/worker.rs) when it completes jobs.
use pulsar_verifier.Prelude.{
  ℕ, some, false, inl, inr, refl, ◌∷◌, ◌++◌, ◌≡◌, ◌⊎◌, ◌∙◌, List, without, ap, subst, map,
  Option-cases, sym, Bool-cases, arith, map-append, without_middle, is_distinct-without,
  contains-without, length, length-append,
}
use pulsar_verifier.Error.{ok, err, Error, Result}
use pulsar_verifier.Identity.{VerificationId, id_eq}
use pulsar_verifier.Proof.{Sha256, Prost}
use pulsar_verifier.Store.History.{Call, run}
use pulsar_verifier.Store.Moka.{Moka}
use pulsar_verifier.Store.Operations.{ProofStore, finish_verification}
use pulsar_verifier.Store.Record.{Arc, ProofRecord, is_queued, VerificationOutcome, StoreChange}
use pulsar_verifier.Verification.Attempts.{JobCompletion}
use pulsar_verifier.Verification.Queue.{IsSound, enqueue-IsSound}
use pulsar_verifier.Verification.Worker.{
  Worker, Task, enqueue_if_queued, commit_completion, task_id, enqueue,
}

module _ ⦃moka : Moka (Arc ProofRecord)⦄ where
  -- A worker whose store alone differs.
  pub with_store-IsSound :
      (w : Worker) (s : ProofStore) → IsSound w → IsSound (record w { store = s })
  with_store-IsSound w s v = record {
    mirror = v.mirror;
    running = v.running;
    pending_once = v.pending_once;
    active_once = v.active_once;
    apart = v.apart;
    bounded = v.bounded;
  }

  -- A job that has ended leaves the set of jobs, and then the set of active identities.
  abbrev pub left_by : Task → List Task → Worker → Worker
  left_by t others w = record w { active_ids = without (task_id t) w.active_ids; jobs = others }

  pub left_by-IsSound :
      (before after : List Task) (t : Task) (w : Worker)
      → w.jobs ≡ before ++ (t ∷ after)
      → IsSound w
      → IsSound (left_by t (before ++ after) w)
  left_by-IsSound before after t w e v =
      let parts = v.running ∙ ap (map task_id) e ∙ map-append task_id before (t ∷ after) in
      record {
        mirror = v.mirror;
        running =
            ap (without (task_id t)) parts
            ∙ without_middle (map task_id before) (task_id t) (map task_id after)
                (rw parts at v.active_once)
            ∙ sym (map-append task_id before after);
        pending_once = v.pending_once;
        active_once = is_distinct-without (task_id t) w.active_ids v.active_once;
        apart = λ j h. ground (arith, contains-without (task_id t) w.active_ids j, v.apart j h);
        bounded = ground (
          arith,
          v.bounded,
          ap length e,
          length-append before (t ∷ after),
          length-append before after,
        );
      }

  -- The worker looks the identity up again, and queues it if it is queued in the store.
  pub enqueue_if_queued-cases :
      (id : VerificationId) (w : Worker)
      → ((enqueue_if_queued id w ≡ w)
          × ((a : Arc ProofRecord)
              → moka.get w.store.records id ≡ some a
              → is_queued a.value.verification ≡ false))
        ⊎ (enqueue_if_queued id w ≡ enqueue id w)
  unfolding enqueue_if_queued
  enqueue_if_queued-cases id w = elim (Option-cases (moka.get w.store.records id)) [
    | inl gone ↦ inl (rw (enqueue_if_queued, gone) refl, λ b h. cc)
    | inr (a, held) ↦ elim (Bool-cases (is_queued a.value.verification)) [
      | inl is ↦ inr (rw (enqueue_if_queued, held, is) refl)
      | inr isnt ↦
          inl (rw (enqueue_if_queued, held, isnt) refl, λ b h. ground (arith, sym held ∙ h))
    ]
  ]

  pub enqueue_if_queued-IsSound :
      (id : VerificationId) (w : Worker) → IsSound w → IsSound (enqueue_if_queued id w)
  enqueue_if_queued-IsSound id w v = elim (enqueue_if_queued-cases id w) [
    | inl (same, h) ↦ subst IsSound (sym same) v
    | inr same ↦ subst IsSound (sym same) (enqueue-IsSound id w v)
  ]

module _ ⦃sha : Sha256⦄ ⦃prost : Prost⦄ ⦃moka : Moka (Arc ProofRecord)⦄ where
  -- The worker after the store call of `commit_completion`, and after what other tasks did then.
  abbrev pub finished_by : ℕ → JobCompletion → Worker → Worker
  finished_by now c w = record w {
    store = (finish_verification now c.job c.outcome w.store).1;
    active_ids = without c.job.verification_id w.active_ids;
  }

  abbrev pub settled_by : ℕ → List Call → JobCompletion → Worker → Worker
  settled_by now others c w = record w {
    store = run others (finish_verification now c.job c.outcome w.store).1;
    active_ids = without c.job.verification_id w.active_ids;
  }

  -- `commit_completion` passes an error of the store on, or looks the identity up again.
  pub data Committed (now : ℕ) (others : List Call) (c : JobCompletion) (w : Worker) : Type 0 where
    refused :
        (e : Error)
        → (commit_completion now others (ok c) w).0 ≡ err e
        → (commit_completion now others (ok c) w).1 ≡ finished_by now c w
        → Committed now others c w
    done :
        (commit_completion now others (ok c) w).1
          ≡ enqueue_if_queued c.job.verification_id (settled_by now others c w)
        → Committed now others c w

  Committed-by :
      (now : ℕ) (others : List Call) (c : JobCompletion) (w : Worker) (r : Result StoreChange)
      → (finish_verification now c.job c.outcome w.store).0 ≡ r
      → Committed now others c w
  unfolding commit_completion
  Committed-by now others c w (err e) h = refused e (ground (arith, h)) (ground (arith, h))
  Committed-by now others c w (ok x) h = done (ground (arith, h))

  pub commit_completion-Committed :
      (now : ℕ) (others : List Call) (c : JobCompletion) (w : Worker) → Committed now others c w
  commit_completion-Committed now others c w =
      Committed-by now others c w (finish_verification now c.job c.outcome w.store).0 refl

  pub commit_completion-IsSound :
      (now : ℕ) (others : List Call) (before after : List Task) (t : Task)
      (outcome : VerificationOutcome) (w : Worker)
      → w.jobs ≡ before ++ (t ∷ after)
      → IsSound w
      → IsSound
          (commit_completion now others
            (ok (record { job = t.job; outcome = outcome }))
            (record w { jobs = before ++ after })).1
  commit_completion-IsSound now others before after t outcome w e v =
      let c : JobCompletion = record { job = t.job; outcome = outcome } in
      let u = left_by-IsSound before after t w e v in
      elim (commit_completion-Committed now others c (record w { jobs = before ++ after })) [
        | refused x h same ↦
            subst IsSound (sym same) (with_store-IsSound (left_by t (before ++ after) w) _ u)
        | done same ↦ subst IsSound (sym same) (
            enqueue_if_queued-IsSound (task_id t) _
              (with_store-IsSound (left_by t (before ++ after) w) _ u))
      ]
