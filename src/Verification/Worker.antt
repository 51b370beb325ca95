-- ===== src/Verification/Worker.antt =====
-- src/verification/worker.rs: the worker that follows the store's events and runs a bounded set of
-- jobs. `received` is what it has taken from its subscription; a set of spawned jobs (`JoinSet`) is the
-- list of those whose completion has not been taken. Other tasks run at an `await`: what they do
-- between two store calls of one method is an argument of it.
use pulsar_verifier.Prelude.{
  ℕ, if◌then◌else◌, [], none, some, ◌∷◌, ◌++◌, ◌&&◌, ◌||◌, Option, set_insert, List, contains, Bool,
  not, suc, ltb, length, without,
}
use pulsar_verifier.Error.{ok, err, proof_store, Result}
use pulsar_verifier.Exec.{◌>>=◌, ◌>>◌, Exec, modify, pure, raise}
use pulsar_verifier.Identity.{VerificationId, ProofType, id_eq}
use pulsar_verifier.Proof.{Sha256, Prost}
use pulsar_verifier.Store.Event.{ProofStoreEvent}
use pulsar_verifier.Store.History.{Call, run}
use pulsar_verifier.Store.Moka.{Moka}
use pulsar_verifier.Store.Operations.{ProofStore, begin_verification, finish_verification}
use pulsar_verifier.Store.Record.{
  VerificationJob, Arc, ProofRecord, is_queued, StoredProof, VerificationState,
}
use pulsar_verifier.Store.Views.{records_ready_for_verification}
use pulsar_verifier.Verification.Attempts.{Verifier, VerificationConfig, JobCompletion}
use pulsar_verifier.Verification.Registry.{get}

pub data Received : Type 0 where
  event : ProofStoreEvent → Received
  lagged : ℕ → Received
  closed : Received

pub record Task : Type 0 where
  pub job : VerificationJob
  pub verifier : Option Verifier

abbrev pub task_id : Task → VerificationId
task_id t = t.job.verification_id

module _ ⦃moka : Moka (Arc ProofRecord)⦄ where
  pub record Worker : Type 0 where
    pub store : ProofStore
    pub received : List ProofStoreEvent
    pub registry : List (ProofType × Verifier)
    pub config : VerificationConfig
    pub pending : List VerificationId
    pub pending_ids : List VerificationId
    pub active_ids : List VerificationId
    pub jobs : List Task

  -- `VerificationWorker::new`: a subscription starts at the events that are sent after it.
  unfoldable pub new : ProofStore → List (ProofType × Verifier) → VerificationConfig → Worker
  new store registry config = record {
    store = store;
    received = store.events;
    registry = registry;
    config = config;
    pending = [];
    pending_ids = [];
    active_ids = [];
    jobs = [];
  }

  unfoldable pub enqueue : VerificationId → Worker → Worker
  unfolding set_insert
  enqueue id w =
      if not (contains w.active_ids id) && not (contains w.pending_ids id)
      then record w { pending = w.pending ++ (id ∷ []); pending_ids = set_insert id w.pending_ids }
      else w

  unfoldable pub remove_pending : VerificationId → Worker → Worker
  unfolding without
  remove_pending id w =
      if contains w.pending_ids id
      then record w { pending = without id w.pending; pending_ids = without id w.pending_ids }
      else w

  unfoldable pub enqueue_all : List StoredProof → Worker → Worker
  unfolding enqueue
  enqueue_all [] w = w
  enqueue_all (p ∷ rest) w = enqueue_all rest (enqueue p.verification_id w)

  abbrev pub cleared : Worker → Worker
  cleared w = record w { pending = []; pending_ids = [] }

  unfoldable pub reconcile_ready_records : Worker → Worker
  unfolding enqueue_all
  reconcile_ready_records w = enqueue_all (records_ready_for_verification w.store) (cleared w)

  unfoldable pub handle_store_result : Received → Exec Worker (Unit {0})
  unfolding enqueue remove_pending reconcile_ready_records
  handle_store_result closed = raise (proof_store "proof store event channel closed")
  handle_store_result (lagged skipped) = modify reconcile_ready_records
  handle_store_result (event e) = elim e [
    | ProofStoreEvent.verification_changed id state ↦ elim state [
      | VerificationState.queued ↦ modify (enqueue id)
      | _ ↦ pure tt
    ]
    | ProofStoreEvent.proof_evicted id cause ↦ modify (remove_pending id)
    | _ ↦ pure tt
  ]

  -- A method of the shared store.
  abbrev pub on_store : {A : Type 0} → Exec ProofStore A → Exec Worker A
  on_store m w = let (r, s) = m w.store in (r, record w { store = s })

  -- `active_ids.insert` and `jobs.spawn`.
  unfoldable pub spawn : VerificationId → VerificationJob → Worker → Worker
  unfolding set_insert get
  spawn id job w = record w {
    active_ids = set_insert id w.active_ids;
    jobs = w.jobs ++ (record { job = job; verifier = get w.registry job.proof.proof_type } ∷ []);
  }

  unfoldable pub spawn_claimed : VerificationId → Option VerificationJob → Exec Worker (Unit {0})
  unfolding spawn
  spawn_claimed id none = pure tt
  spawn_claimed id (some job) = modify (spawn id job)

  -- What `pop_front` and `pending_ids.remove` leave.
  abbrev pub popped : VerificationId → List VerificationId → Worker → Worker
  popped id rest w = record w { pending = rest; pending_ids = without id w.pending_ids }

  -- The last test of `commit_completion`.
  unfoldable pub enqueue_if_queued : VerificationId → Worker → Worker
  unfolding enqueue
  enqueue_if_queued id w = elim (moka.get w.store.records id) [
    | none ↦ w
    | some entry ↦ if is_queued entry.value.verification then enqueue id w else w
  ]

  abbrev pub forget : VerificationId → Worker → Worker
  forget id w = record w { active_ids = without id w.active_ids }

  module _ ⦃sha : Sha256⦄ ⦃prost : Prost⦄ where
    -- What other tasks do to the store.
    abbrev pub used_by : List Call → Worker → Worker
    used_by calls w = record w { store = run calls w.store }

    -- One iteration of `start_ready_jobs` after `pop_front`; `others` is what other tasks do to the
    -- store at its `await`, after `begin_verification` has been done.
    unfoldable pub start_job : VerificationId → List Call → Exec Worker (Unit {0})
    unfolding spawn_claimed
    start_job id others w =
        if contains w.active_ids id
        then (ok tt, w)
        else (on_store (begin_verification id) >>= λ claimed.
              modify (used_by others) >> spawn_claimed id claimed)
            w

    -- The loop of `start_ready_jobs` on what is left of the queue; `stops` is what
    -- `stop.is_cancelled()` answers in each iteration, `others` what other tasks do to the store
    -- in it.
    unfoldable pub start_from :
        (ℕ → Bool) → (ℕ → List Call) → ℕ → List VerificationId → Exec Worker (Unit {0})
    unfolding start_job
    start_from stops others n [] w = (ok tt, w)
    start_from stops others n (id ∷ rest) w =
        let next = start_from stops others (suc n) rest in
        if not (ltb (length w.jobs) w.config.max_concurrent_jobs) || stops n
        then (ok tt, w)
        else (start_job id (others n) >> next) (popped id rest w)

    unfoldable pub start_ready_jobs : (ℕ → Bool) → (ℕ → List Call) → Exec Worker (Unit {0})
    unfolding start_from
    start_ready_jobs stops others w = start_from stops others 0 w.pending w

    -- `others` is what other tasks do to the store between `finish_verification` and `get`.
    unfoldable pub commit_completion : ℕ → List Call → Result JobCompletion → Exec Worker (Unit {0})
    unfolding enqueue_if_queued
    commit_completion now others (err e) = raise e
    commit_completion now others (ok c) =
        modify (forget c.job.verification_id)
        >> on_store (finish_verification now c.job c.outcome)
        >> modify (used_by others)
        >> modify (enqueue_if_queued c.job.verification_id)
