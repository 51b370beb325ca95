-- ===== src/Verification/Starting.antt =====
-- Starting jobs (src/verification/worker.rs) and what the worker knows of the records that are ready.
use pulsar_verifier.Prelude.{
  ℕ, [], true, false, inl, inr, refl, ◌∷◌, ◌≡◌, ◌≤◌, ◌==◌, ◌⊎◌, contains, List, Bool, arith, length,
  sym, subst, ==_cases, clash_bool, contains-append, suc, ◌||◌, Bool-cases, not, ltb,
}
use pulsar_verifier.Error.{ok, err, Result, Error}
use pulsar_verifier.Exec.{>>=-failed, >>=-ok}
use pulsar_verifier.Identity.{VerificationId, id_eq}
use pulsar_verifier.Proof.{Sha256, Prost}
use pulsar_verifier.Store.Announced.{Announced}
use pulsar_verifier.Store.Broadcast.{same-Announced}
use pulsar_verifier.Store.Event.{ProofStoreEvent}
use pulsar_verifier.Store.History.{Call, run}
use pulsar_verifier.Store.Moka.{Moka}
use pulsar_verifier.Store.Operations.{begin_verification}
use pulsar_verifier.Store.Readers.{begin-Announced, run-Announced}
use pulsar_verifier.Store.Record.{Arc, ProofRecord, VerificationJob}
use pulsar_verifier.Verification.Capacity.{
  start_from-Looped, start_job-Started, was_active, not_claimed, begun_by, claimed_job, at_once,
  failed_at, goes_on, spawn-spawned, spawned,
}
use pulsar_verifier.Verification.Tracking.{
  IsTracked, IsFollowed, moved-IsTracked, begin-not_ready_lem, with_store-IsTracked,
}
use pulsar_verifier.Verification.Worker.{
  Worker, start_from, start_ready_jobs, popped, start_job, used_by,
}

-- The worker is not told to stop.
abbrev pub never : ℕ → Bool
never i = false

module _ ⦃sha : Sha256⦄ ⦃prost : Prost⦄ ⦃moka : Moka (Arc ProofRecord)⦄ where
  other-contains :
      (id j : VerificationId) (ids rest : List VerificationId)
      → ids ≡ id ∷ rest
      → (id == j) ≡ false
      → contains ids j ≡ contains rest j
  unfolding contains
  other-contains id j ids rest e n = ground (arith, e, n)

  -- An identity is taken from the queue; another one stays followed.
  IsFollowed-other :
      (w u : Worker) (unread : List ProofStoreEvent) (id j : VerificationId)
      (rest : List VerificationId)
      → w.pending ≡ id ∷ rest
      → u.pending ≡ rest
      → (contains w.active_ids j ≡ true → contains u.active_ids j ≡ true)
      → (id == j) ≡ false
      → IsFollowed w unread j
      → IsFollowed u unread j
  IsFollowed-other w u unread id j rest p q grows n (inl active) = inl (grows active)
  IsFollowed-other w u unread id j rest p q grows n (inr waiting) =
      inr (rw (q, sym (other-contains id j w.pending rest p n)) waiting)

  popped-IsTracked :
      (id : VerificationId) (rest : List VerificationId) (w : Worker)
      → w.pending ≡ id ∷ rest
      → contains w.active_ids id ≡ true
      → IsTracked w
      → IsTracked (popped id rest w)
  popped-IsTracked id rest w p active k =
      moved-IsTracked w (popped id rest w) (same-Announced w.store) refl
        (λ unread j h q f. elim (==_cases id j) [
          | inl (same, t) ↦ inl (rw same at active)
          | inr (other, n) ↦
              IsFollowed-other w (popped id rest w) unread id j rest p refl (λ a. a) n f
        ])
        k

  -- An identity is taken from the queue, and after the claim the record is not ready.
  claimed-IsTracked :
      (id : VerificationId) (rest : List VerificationId) (w u : Worker)
      → w.pending ≡ id ∷ rest
      → u.pending ≡ rest
      → u.received ≡ w.received
      → u.store ≡ (begin_verification id w.store).1
      → ((j : VerificationId) → contains w.active_ids j ≡ true → contains u.active_ids j ≡ true)
      → IsTracked w
      → IsTracked u
  claimed-IsTracked id rest w u p q r s grows k =
      moved-IsTracked w u (subst (Announced w.store) (sym s) (begin-Announced id w.store)) r
        (λ unread j h ever f. elim (==_cases id j) [
          | inl (same, t) ↦
              absurd (clash_bool (begin-not_ready_lem id w.store) (rw (s, sym same) at h))
          | inr (other, n) ↦ IsFollowed-other w u unread id j rest p q (grows j) n f
        ])
        k

  -- The worker after its claim and what other tasks have done then.
  abbrev begun_with : VerificationId → List VerificationId → List Call → Worker → Worker
  begun_with id rest calls w = used_by calls (begun_by id (popped id rest w))

  begun_with-IsTracked :
      (id : VerificationId) (rest : List VerificationId) (calls : List Call) (w : Worker)
      → w.pending ≡ id ∷ rest
      → IsTracked w
      → IsTracked (begun_with id rest calls w)
  begun_with-IsTracked id rest calls w p k =
      let u = begun_by id (popped id rest w) in
      with_store-IsTracked u (run calls u.store) (run-Announced calls u.store)
        (claimed-IsTracked id rest w u p refl refl refl (λ j a. a) k)

  -- One more identity is active.
  spawned-IsTracked :
      (id : VerificationId) (job : VerificationJob) (w : Worker)
      → IsTracked w
      → IsTracked (spawned id job w)
  spawned-IsTracked id job w k =
      moved-IsTracked w (spawned id job w) (same-Announced w.store) refl
        (λ unread j h ever f. elim f [
          | inl active ↦ inl (ground (arith, contains-append w.active_ids (id ∷ []) j))
          | inr waiting ↦ inr waiting
        ])
        k

  start_job-IsTracked :
      (id : VerificationId) (rest : List VerificationId) (others : List Call) (w : Worker)
      → w.pending ≡ id ∷ rest
      → IsTracked w
      → IsTracked (start_job id others (popped id rest w)).1
        × ((start_job id others (popped id rest w)).1.pending ≡ rest)
  start_job-IsTracked id rest others w p k = elim (start_job-Started id others (popped id rest w)) [
    | was_active active same ↦ rw same (popped-IsTracked id rest w p active k, refl)
    | not_claimed calls idle same ↦ rw same (begun_with-IsTracked id rest calls w p k, refl)
    | claimed_job idle job h same ↦
        let u = begun_with id rest others w in
        rw (same, spawn-spawned id job u idle)
          (spawned-IsTracked id job u (begun_with-IsTracked id rest others w p k), refl)
  ]

  start_from-IsTracked :
      (stops : ℕ → Bool) (others : ℕ → List Call) (n : ℕ) (ids : List VerificationId) (w : Worker)
      → w.pending ≡ ids
      → IsTracked w
      → IsTracked (start_from stops others n ids w).1
  unfolding start_from
  start_from-IsTracked stops others n [] w e k = k
  start_from-IsTracked stops others n (id ∷ rest) w e k =
      let (t, p) = start_job-IsTracked id rest (others n) w e k in
      elim (start_from-Looped stops others n id rest w) [
        | at_once same ↦ subst IsTracked (sym same) k
        | failed_at room same ↦ subst IsTracked (sym same) t
        | goes_on room same ↦ subst IsTracked (sym same) (
            start_from-IsTracked stops others (suc n) rest
              (start_job id (others n) (popped id rest w)).1 p t)
      ]

  pub start_ready_jobs-IsTracked :
      (stops : ℕ → Bool) (others : ℕ → List Call) (w : Worker)
      → IsTracked w
      → IsTracked (start_ready_jobs stops others w).1
  unfolding start_ready_jobs
  start_ready_jobs-IsTracked stops others w k =
      start_from-IsTracked stops others 0 w.pending w refl k

  start_job-pending :
      (id : VerificationId) (others : List Call) (w : Worker)
      → (start_job id others w).1.pending ≡ w.pending
  start_job-pending id others w = elim (start_job-Started id others w) [
    | was_active active same ↦ rw same refl
    | not_claimed calls idle same ↦ rw same refl
    | claimed_job idle job h same ↦
        rw (same, spawn-spawned id job (used_by others (begun_by id w)) idle) refl
  ]

  -- Nothing is left to start: the queue is empty, or every slot is taken.
  abbrev pub IsIdle : Worker → Type 0
  IsIdle w = (w.pending ≡ []) ⊎ (w.config.max_concurrent_jobs ≤ length w.jobs)

  pub refused_ok : (r : Result (Unit {0})) {e : Error} → r ≡ err e → r ≡ ok tt → ⊥
  refused_ok r p q = cc

  abbrev Ends : (ℕ → List Call) → ℕ → List VerificationId → Worker → Type 0
  Ends others n ids w =
      (start_from never others n ids w).0 ≡ ok tt → IsIdle (start_from never others n ids w).1

  Ends-by :
      (others : ℕ → List Call) (n : ℕ) (id : VerificationId) (rest : List VerificationId)
      (w : Worker) (r : Result (Unit {0}))
      → (not (ltb (length w.jobs) w.config.max_concurrent_jobs) || false) ≡ false
      → (start_job id (others n) (popped id rest w)).0 ≡ r
      → Ends others (suc n) rest (start_job id (others n) (popped id rest w)).1
      → Ends others n (id ∷ rest) w
  unfolding start_from
  Ends-by others n id rest w (err e) room r next h = absurd (
      refused_ok _
        (>>=-failed (start_job id (others n)) (λ _. start_from never others (suc n) rest)
          (popped id rest w) e r)
        (rw room at h))
  Ends-by others n id rest w (ok u) room r next h =
      let same =
        >>=-ok (start_job id (others n)) (λ _. start_from never others (suc n) rest)
          (popped id rest w) u r in
      rw (room, same) (next (rw (room, same) at h))

  start_from-Ends :
      (others : ℕ → List Call) (n : ℕ) (ids : List VerificationId) (w : Worker)
      → w.pending ≡ ids
      → Ends others n ids w
  unfolding start_from
  start_from-Ends others n [] w e h = inl e
  start_from-Ends others n (id ∷ rest) w e h =
      elim (Bool-cases (not (ltb (length w.jobs) w.config.max_concurrent_jobs) || false)) [
        | inl full ↦ rw full (inr (ground arith))
        | inr room ↦
            Ends-by others n id rest w (start_job id (others n) (popped id rest w)).0 room refl
              (start_from-Ends others (suc n) rest (start_job id (others n) (popped id rest w)).1
                (start_job-pending id (others n) (popped id rest w)))
              h
      ]

  -- If the loop ends without an error and is never told to stop, nothing is left to start.
  pub start_ready_jobs-IsIdle :
      (others : ℕ → List Call) (w : Worker)
      → (start_ready_jobs never others w).0 ≡ ok tt
      → IsIdle (start_ready_jobs never others w).1
  unfolding start_ready_jobs
  start_ready_jobs-IsIdle others w h = start_from-Ends others 0 w.pending w refl h
