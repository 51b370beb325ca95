-- ===== src/Verification/Capacity.antt =====
-- Consistency of the worker (src/verification/worker.rs) when it starts jobs.
use pulsar_verifier.Prelude.{
  ℕ, [], none, some, true, false, inl, inr, refl, ◌∷◌, ◌++◌, ◌≡◌, ◌<◌, List, ap, is_distinct,
  contains, Bool-cases, length, Option, arith, is_distinct-snoc, length-append, set_insert-new,
  without_head, ==_cases, Bool, clash_bool, snoc_absent, ◌||◌, suc, not, subst, ltb, sym,
  map-append,
}
use pulsar_verifier.Error.{ok, err, Result}
use pulsar_verifier.Exec.{>>=-err, >>=-ok}
use pulsar_verifier.Identity.{VerificationId, id_eq}
use pulsar_verifier.Proof.{Sha256, Prost}
use pulsar_verifier.Store.History.{Call, run}
use pulsar_verifier.Store.Jobs.{begin-IsClaim}
use pulsar_verifier.Store.Moka.{Moka}
use pulsar_verifier.Store.Operations.{begin_verification}
use pulsar_verifier.Store.Record.{Arc, ProofRecord, VerificationJob}
use pulsar_verifier.Verification.Completion.{with_store-IsSound}
use pulsar_verifier.Verification.Queue.{IsSound}
use pulsar_verifier.Verification.Registry.{get}
use pulsar_verifier.Verification.Worker.{
  start_job, spawn, Worker, spawn_claimed, popped, Task, task_id, start_from, start_ready_jobs,
  used_by,
}

module _ ⦃sha : Sha256⦄ ⦃prost : Prost⦄ ⦃moka : Moka (Arc ProofRecord)⦄ where
  abbrev pub begun_by : VerificationId → Worker → Worker
  begun_by id w = record w { store = (begin_verification id w.store).1 }

  -- What starting a job comes to: the identity is running already, there was nothing to claim, or
  -- the claimed job runs. After the claim other tasks act, unless it failed.
  pub data Started (id : VerificationId) (others : List Call) (w : Worker) : Type 0 where
    was_active :
        contains w.active_ids id ≡ true → (start_job id others w).1 ≡ w → Started id others w
    not_claimed :
        (calls : List Call)
        → contains w.active_ids id ≡ false
        → (start_job id others w).1 ≡ used_by calls (begun_by id w)
        → Started id others w
    claimed_job :
        contains w.active_ids id ≡ false
        → (job : VerificationJob) → (begin_verification id w.store).0 ≡ ok (some job)
        → (start_job id others w).1 ≡ spawn id job (used_by others (begun_by id w))
        → Started id others w

  begun-Started :
      (id : VerificationId) (others : List Call) (w : Worker) (r : Result (Option VerificationJob))
      → contains w.active_ids id ≡ false
      → (begin_verification id w.store).0 ≡ r
      → Started id others w
  unfolding start_job spawn_claimed run
  begun-Started id others w (err e) idle h = not_claimed [] idle (ground arith)
  begun-Started id others w (ok none) idle h = not_claimed others idle (ground arith)
  begun-Started id others w (ok (some job)) idle h = claimed_job idle job h (ground arith)

  pub start_job-Started :
      (id : VerificationId) (others : List Call) (w : Worker) → Started id others w
  unfolding start_job
  start_job-Started id others w = elim (Bool-cases (contains w.active_ids id)) [
    | inl active ↦ was_active active (ground arith)
    | inr idle ↦ begun-Started id others w (begin_verification id w.store).0 idle refl
  ]

  abbrev pub task_of : VerificationJob → Worker → Task
  task_of job w = record { job = job; verifier = get w.registry job.proof.proof_type }

  abbrev pub spawned : VerificationId → VerificationJob → Worker → Worker
  spawned id job w = record w {
    active_ids = w.active_ids ++ (id ∷ []);
    jobs = w.jobs ++ (task_of job w ∷ []);
  }

  pub spawn-spawned :
      (id : VerificationId) (job : VerificationJob) (w : Worker)
      → contains w.active_ids id ≡ false
      → spawn id job w ≡ spawned id job w
  unfolding spawn
  spawn-spawned id job w idle = rw (set_insert-new id w.active_ids idle) refl

  spawned-IsSound :
      (id : VerificationId) (job : VerificationJob) (w : Worker)
      → job.verification_id ≡ id
      → contains w.active_ids id ≡ false
      → contains w.pending id ≡ false
      → length w.jobs < w.config.max_concurrent_jobs
      → IsSound w
      → IsSound (spawned id job w)
  spawned-IsSound id job w same idle new room v = record {
    mirror = v.mirror;
    running = rw (map-append task_id w.jobs (task_of job w ∷ []), v.running, same) refl;
    pending_once = v.pending_once;
    active_once = is_distinct-snoc w.active_ids id idle v.active_once;
    apart = λ j h. elim (==_cases id j) [
      | inl (p, t) ↦ absurd (clash_bool (rw p at new) h)
      | inr (n, t) ↦ snoc_absent w.active_ids id j t (v.apart j h)
    ];
    bounded = omega (arith, length-append w.jobs (task_of job w ∷ []));
  }

  pub popped-IsSound :
      (id : VerificationId) (rest : List VerificationId) (w : Worker)
      → w.pending ≡ id ∷ rest
      → IsSound w
      → IsSound (popped id rest w) × (contains rest id ≡ false)
  unfolding is_distinct contains
  popped-IsSound id rest w e v =
      let once = rw e at v.pending_once in
      (
        record {
          mirror = rw (v.mirror, e) (without_head id rest once);
          running = v.running;
          pending_once = ground (arith, once);
          active_once = v.active_once;
          apart = λ j h. v.apart j (rw e (ground (arith, h)));
          bounded = v.bounded;
        },
        ground (arith, once),
      )

  -- A worker with the queue and the limits of another one.
  SameQueue : Worker → Worker → Type 0
  SameQueue w w' = (w'.pending ≡ w.pending) × (w'.config ≡ w.config)

  start_job-IsSound :
      (id : VerificationId) (others : List Call) (w : Worker)
      → contains w.pending id ≡ false
      → length w.jobs < w.config.max_concurrent_jobs
      → IsSound w
      → IsSound (start_job id others w).1 × SameQueue w (start_job id others w).1
  unfolding SameQueue
  start_job-IsSound id others w new room v = elim (start_job-Started id others w) [
    | was_active active same ↦ rw same (v, (refl, refl))
    | not_claimed calls idle same ↦
        rw same (with_store-IsSound w (used_by calls (begun_by id w)).store v, (refl, refl))
    | claimed_job idle job h same ↦
        let u = used_by others (begun_by id w) in
        rw (same, spawn-spawned id job u idle)
          (
            spawned-IsSound id job u (begin-IsClaim w.store id job h).1 idle new room
                (with_store-IsSound w u.store v),
            (refl, refl),
          )
  ]

  -- The loop stops at once, or takes one identity and ends there by an error or goes on.
  pub data Looped (stops : ℕ → Bool) (others : ℕ → List Call) (n : ℕ) (id : VerificationId)
      (rest : List VerificationId) (w : Worker) : Type 0 where
    at_once : (start_from stops others n (id ∷ rest) w).1 ≡ w → Looped stops others n id rest w
    failed_at :
        length w.jobs < w.config.max_concurrent_jobs
        → (start_from stops others n (id ∷ rest) w).1
          ≡ (start_job id (others n) (popped id rest w)).1
        → Looped stops others n id rest w
    goes_on :
        length w.jobs < w.config.max_concurrent_jobs
        → (start_from stops others n (id ∷ rest) w).1
          ≡ (start_from stops others (suc n) rest (start_job id (others n) (popped id rest w)).1).1
        → Looped stops others n id rest w

  Looped-by :
      (stops : ℕ → Bool) (others : ℕ → List Call) (n : ℕ) (id : VerificationId)
      (rest : List VerificationId) (w : Worker) (r : Result (Unit {0}))
      → (not (ltb (length w.jobs) w.config.max_concurrent_jobs) || stops n) ≡ false
      → (start_job id (others n) (popped id rest w)).0 ≡ r
      → Looped stops others n id rest w
  unfolding start_from
  Looped-by stops others n id rest w (err e) h r = failed_at (ground arith) (
      rw h (
        >>=-err (start_job id (others n)) (λ _. start_from stops others (suc n) rest)
          (popped id rest w) e r))
  Looped-by stops others n id rest w (ok u) h r = goes_on (ground arith) (
      rw h (
        ap (λ (q : Result (Unit {0}) × Worker). q.1)
          (>>=-ok (start_job id (others n)) (λ _. start_from stops others (suc n) rest)
            (popped id rest w) u r)))

  pub start_from-Looped :
      (stops : ℕ → Bool) (others : ℕ → List Call) (n : ℕ) (id : VerificationId)
      (rest : List VerificationId) (w : Worker)
      → Looped stops others n id rest w
  unfolding start_from
  start_from-Looped stops others n id rest w =
      elim (Bool-cases (not (ltb (length w.jobs) w.config.max_concurrent_jobs) || stops n)) [
        | inl full ↦ at_once (rw full refl)
        | inr room ↦
            Looped-by stops others n id rest w (start_job id (others n) (popped id rest w)).0 room
              refl
      ]

  start_from-IsSound :
      (stops : ℕ → Bool) (others : ℕ → List Call) (n : ℕ) (ids : List VerificationId) (w : Worker)
      → w.pending ≡ ids
      → IsSound w
      → IsSound (start_from stops others n ids w).1
  unfolding SameQueue start_from
  start_from-IsSound stops others n [] w e v = v
  start_from-IsSound stops others n (id ∷ rest) w e v =
      let (u, absent) = popped-IsSound id rest w e v in
      elim (start_from-Looped stops others n id rest w) [
        | at_once same ↦ subst IsSound (sym same) v
        | failed_at room same ↦
            subst IsSound (sym same)
              (start_job-IsSound id (others n) (popped id rest w) absent room u).0
        | goes_on room same ↦
            let (t, p) = start_job-IsSound id (others n) (popped id rest w) absent room u in
            subst IsSound (sym same) (
              start_from-IsSound stops others (suc n) rest
                (start_job id (others n) (popped id rest w)).1 p.0 t)
      ]

  pub start_ready_jobs-IsSound :
      (stops : ℕ → Bool) (others : ℕ → List Call) (w : Worker)
      → IsSound w
      → IsSound (start_ready_jobs stops others w).1
  unfolding start_ready_jobs
  start_ready_jobs-IsSound stops others w v = start_from-IsSound stops others 0 w.pending w refl v
