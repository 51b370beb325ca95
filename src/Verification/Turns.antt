-- ===== src/Verification/Turns.antt =====
-- The loop of `VerificationWorker::run` (src/verification/worker.rs) as steps: what one turn of the
-- loop does, and what other tasks do to the store between the turns and at the `await`s of a turn. A
-- receiver that lags loses the events that it has not read, up to one that the channel still holds. A
-- commit that fails ends the loop, so it is no turn.
use pulsar_verifier.Prelude.{
  ℕ, [], refl, ◌∷◌, ◌++◌, ◌≡◌, List, is_distinct, contains, Bool, length, arith,
}
use pulsar_verifier.Error.{ok}
use pulsar_verifier.Identity.{ProofType}
use pulsar_verifier.Proof.{Sha256, Prost}
use pulsar_verifier.Store.Event.{ProofStoreEvent}
use pulsar_verifier.Store.History.{Call, step}
use pulsar_verifier.Store.Moka.{Moka}
use pulsar_verifier.Store.Operations.{ProofStore}
use pulsar_verifier.Store.Record.{Arc, ProofRecord, VerificationOutcome}
use pulsar_verifier.Verification.Attempts.{Verifier, VerificationConfig}
use pulsar_verifier.Verification.Capacity.{start_ready_jobs-IsSound}
use pulsar_verifier.Verification.Completion.{with_store-IsSound, commit_completion-IsSound}
use pulsar_verifier.Verification.Queue.{IsSound, handle_store_result-IsSound, received-IsSound}
use pulsar_verifier.Verification.Worker.{
  Worker, new, start_ready_jobs, handle_store_result, Received, Task, commit_completion,
}

module _ ⦃sha : Sha256⦄ ⦃prost : Prost⦄ ⦃moka : Moka (Arc ProofRecord)⦄ where
  pub data Turn (w : Worker) : Worker → Type 0 where
    others : (c : Call) → Turn w (record w { store = step c w.store })
    starts : (stops : ℕ → Bool) (calls : ℕ → List Call) → Turn w (start_ready_jobs stops calls w).1
    receives :
        (e : ProofStoreEvent) (rest : List ProofStoreEvent)
        → w.store.events ≡ w.received ++ (e ∷ rest)
        → Turn w
            (handle_store_result
              (Received.event e)
              (record w { received = w.received ++ (e ∷ []) })).1
    lags :
        (skipped rest : List ProofStoreEvent)
        → w.store.events ≡ w.received ++ (skipped ++ rest)
        → Turn w
            (handle_store_result
              (Received.lagged (length skipped))
              (record w { received = w.received ++ skipped })).1
    completes :
        (now : ℕ) (calls : List Call) (before after : List Task) (t : Task)
        (outcome : VerificationOutcome)
        → w.jobs ≡ before ++ (t ∷ after)
        → (commit_completion now calls
            (ok (record { job = t.job; outcome = outcome }))
            (record w { jobs = before ++ after })).0
          ≡ ok tt
        → Turn w
            (commit_completion now calls
              (ok (record { job = t.job; outcome = outcome }))
              (record w { jobs = before ++ after })).1

  -- Any number of turns.
  pub data Turns : Worker → Worker → Type 0 where
    stays : (w : Worker) → Turns w w
    goes : (w u v : Worker) → Turn w u → Turns u v → Turns w v

  pub Turn-IsSound : (w u : Worker) → Turn w u → IsSound w → IsSound u
  Turn-IsSound w u (others c) v = with_store-IsSound w (step c w.store) v
  Turn-IsSound w u (starts stops calls) v = start_ready_jobs-IsSound stops calls w v
  Turn-IsSound w u (receives e rest p) v =
      handle_store_result-IsSound (Received.event e) _ (received-IsSound w _ v)
  Turn-IsSound w u (lags skipped rest p) v =
      handle_store_result-IsSound (Received.lagged (length skipped)) _ (received-IsSound w _ v)
  Turn-IsSound w u (completes now calls before after t outcome p q) v =
      commit_completion-IsSound now calls before after t outcome w p v

  -- Whatever the worker does, in any order and with any calls of other tasks in between, it stays
  -- consistent: no identity is queued twice, run twice at a time, or queued while it runs; the two
  -- sets of identities hold what the queue and the running jobs hold; and at most
  -- `max_concurrent_jobs` jobs run.
  pub Turns-IsSound : (w u : Worker) → Turns w u → IsSound w → IsSound u
  Turns-IsSound w u (stays x) v = v
  Turns-IsSound w u (goes x y z t ts) v = Turns-IsSound y u ts (Turn-IsSound w y t v)

  pub new-IsSound :
      (s : ProofStore) (registry : List (ProofType × Verifier)) (config : VerificationConfig)
      → IsSound (new s registry config)
  unfolding new is_distinct contains
  new-IsSound s registry config = record {
    mirror = refl;
    running = refl;
    pending_once = refl;
    active_once = refl;
    apart = λ id h. cc;
    bounded = omega arith;
  }
