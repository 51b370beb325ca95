-- ===== src/Verification/Handling.antt =====
-- One event and one completed job of src/verification/worker.rs, for the records that are ready.
use pulsar_verifier.Prelude.{
  [], some, true, false, inl, inr, refl, ◌∷◌, ◌++◌, ◌≡◌, ◌==◌, ◌∙◌, List, Option-cases, ==_cases,
  arith, clash_bool, subst, ap, sym, contains-without,
}
use pulsar_verifier.Identity.{VerificationId, id_eq}
use pulsar_verifier.Store.Announced.{waits, is_ready_at, told}
use pulsar_verifier.Store.Event.{
  ProofStoreEvent, verification_changed, ProofEvictionCause, proof_evicted,
}
use pulsar_verifier.Store.Moka.{Moka}
use pulsar_verifier.Store.Operations.{ProofStore}
use pulsar_verifier.Store.Record.{Arc, ProofRecord, is_queued, VerificationState}
use pulsar_verifier.Verification.Completion.{enqueue_if_queued-cases}
use pulsar_verifier.Verification.Following.{enqueue-IsKnown, enqueue-same, enqueue-other}
use pulsar_verifier.Verification.Queue.{IsSound, remove_pending-dequeued, received-IsSound}
use pulsar_verifier.Verification.Tracking.{IsFollowed, IsTracked, read-IsTracked}
use pulsar_verifier.Verification.Worker.{
  handle_store_result, Worker, enqueue_if_queued, enqueue, Received, remove_pending,
}

module _ ⦃moka : Moka (Arc ProofRecord)⦄ where
  -- An identity that is put into the queue.
  enqueue-follows :
      (id : VerificationId) (rest : List ProofStoreEvent) (w : Worker)
      → IsSound w
      → waits id true rest ≡ true
      → IsFollowed (enqueue id w) rest id
  enqueue-follows id rest w v ever = elim (enqueue-IsKnown id w v) [
    | inl active ↦ inl active
    | inr pending ↦ inr (rw pending ever)
  ]

  abbrev Follows :
      ProofStoreEvent → List ProofStoreEvent → Worker → Worker → VerificationId → Type 0
  Follows e rest w u id =
      waits id true rest ≡ true → IsFollowed w (e ∷ rest) id → IsFollowed u rest id

  queued-Follows :
      (j id : VerificationId) (rest : List ProofStoreEvent) (w : Worker)
      → IsSound w
      → Follows (verification_changed j VerificationState.queued) rest w (enqueue j w) id
  unfolding waits told
  queued-Follows j id rest w v ever f = elim (==_cases j id) [
    | inl (same, t) ↦
        subst (λ (x : VerificationId). IsFollowed (enqueue x w) rest id) (sym same)
          (enqueue-follows id rest w v ever)
    | inr (other, n) ↦
        enqueue-other j id w rest n
          (elim f [ inl active ↦ inl active | inr waiting ↦ inr (rw n at waiting) ])
  ]

  evicted-Follows :
      (j id : VerificationId) (cause : ProofEvictionCause) (rest : List ProofStoreEvent)
      (w : Worker)
      → IsSound w
      → Follows (proof_evicted j cause) rest w (remove_pending j w) id
  unfolding waits told
  evicted-Follows j id cause rest w v ever f =
      subst (λ (u : Worker). IsFollowed u rest id) (sym (remove_pending-dequeued j w v))
        (elim f [
          | inl active ↦ inl active
          | inr waiting ↦ elim (==_cases j id) [
            | inl (same, t) ↦ inr (rw (contains-without j w.pending id, t) (rw t at waiting))
            | inr (other, n) ↦ inr (rw (contains-without j w.pending id, n) (rw n at waiting))
          ]
        ])

  handled-Follows :
      (e : ProofStoreEvent) (rest : List ProofStoreEvent) (w : Worker) (id : VerificationId)
      → IsSound w
      → Follows e rest w (handle_store_result (Received.event e) w).1 id
  unfolding handle_store_result waits told
  handled-Follows (ProofStoreEvent.verification_observed j) rest w id v ever f = f
  handled-Follows (ProofStoreEvent.proof_stored j source) rest w id v ever f = f
  handled-Follows (ProofStoreEvent.proof_evicted j cause) rest w id v ever f =
      evicted-Follows j id cause rest w v ever f
  handled-Follows (ProofStoreEvent.verification_changed j VerificationState.queued) rest w id v ever
        f =
      queued-Follows j id rest w v ever f
  handled-Follows (ProofStoreEvent.verification_changed j VerificationState.verifying) rest w id v
        ever f =
      f
  handled-Follows (ProofStoreEvent.verification_changed j (VerificationState.completed c)) rest w id
        v ever f =
      f
  handled-Follows (ProofStoreEvent.verification_changed j (VerificationState.failed c)) rest w id v
        ever f =
      f

  handled-same :
      (e : ProofStoreEvent) (w : Worker)
      → IsSound w
      → ((handle_store_result (Received.event e) w).1.store ≡ w.store)
        × ((handle_store_result (Received.event e) w).1.received ≡ w.received)
  unfolding handle_store_result
  handled-same (ProofStoreEvent.verification_observed j) w v = (refl, refl)
  handled-same (ProofStoreEvent.proof_stored j source) w v = (refl, refl)
  handled-same (ProofStoreEvent.proof_evicted j cause) w v =
      rw (remove_pending-dequeued j w v) (refl, refl)
  handled-same (ProofStoreEvent.verification_changed j VerificationState.queued) w v =
      let (s, r, a) = enqueue-same j w in (s, r)
  handled-same (ProofStoreEvent.verification_changed j VerificationState.verifying) w v =
      (refl, refl)
  handled-same (ProofStoreEvent.verification_changed j (VerificationState.completed c)) w v =
      (refl, refl)
  handled-same (ProofStoreEvent.verification_changed j (VerificationState.failed c)) w v =
      (refl, refl)

  pub received-IsTracked :
      (e : ProofStoreEvent) (rest : List ProofStoreEvent) (w : Worker)
      → w.store.events ≡ w.received ++ (e ∷ rest)
      → IsSound w
      → IsTracked w
      → IsTracked
          (handle_store_result
            (Received.event e)
            (record w { received = w.received ++ (e ∷ []) })).1
  received-IsTracked e rest w p v k =
      let before : Worker = record w { received = w.received ++ (e ∷ []) } in
      let sound = received-IsSound w before.received v in
      let (s, r) = handled-same e before sound in
      read-IsTracked w (handle_store_result (Received.event e) before).1 (e ∷ []) rest p s r
        (λ id h ever f. handled-Follows e rest before id sound ever f) k

  pub enqueue_if_queued-same :
      (id : VerificationId) (w : Worker)
      → ((enqueue_if_queued id w).store ≡ w.store)
        × ((enqueue_if_queued id w).received ≡ w.received)
  enqueue_if_queued-same id w = elim (enqueue_if_queued-cases id w) [
    | inl (same, h) ↦ rw same (refl, refl)
    | inr same ↦
        let (s, r, a) = enqueue-same id w in
        (ap (λ (u : Worker). u.store) same ∙ s, ap (λ (u : Worker). u.received) same ∙ r)
  ]

  not_queued-not_ready :
      (s : ProofStore) (id : VerificationId)
      → ((a : Arc ProofRecord)
          → moka.get s.records id ≡ some a
          → is_queued a.value.verification ≡ false)
      → is_ready_at s id ≡ false
  unfolding is_ready_at
  not_queued-not_ready s id n = elim (Option-cases (moka.get s.records id)) [
    | inl gone ↦ rw (is_ready_at, gone) refl
    | inr (a, held) ↦ rw (is_ready_at, held) (ground (arith, n a held))
  ]

  -- After a job the identity is looked up again.
  pub looked_up-follows :
      (id j : VerificationId) (w : Worker) (unread : List ProofStoreEvent)
      → IsSound w
      → is_ready_at w.store j ≡ true
      → waits j true unread ≡ true
      → ((id == j) ≡ false → IsFollowed w unread j)
      → IsFollowed (enqueue_if_queued id w) unread j
  looked_up-follows id j w unread v h ever other = elim (==_cases id j) [
    | inl (same, t) ↦ elim (enqueue_if_queued-cases id w) [
      | inl (stays, n) ↦
          absurd (clash_bool (not_queued-not_ready w.store id n) (rw (sym same) at h))
      | inr grown ↦ rw grown (
          subst (λ (x : VerificationId). IsFollowed (enqueue x w) unread j) (sym same)
            (enqueue-follows j unread w v ever))
    ]
    | inr (differ, n) ↦ elim (enqueue_if_queued-cases id w) [
      | inl (stays, q) ↦ rw stays (other n)
      | inr grown ↦ rw grown (enqueue-other id j w unread n (other n))
    ]
  ]
