-- ===== src/Verification/Following.antt =====
-- The queue of src/verification/worker.rs after an event, after a reconciliation and after a completed
-- job, for the records that are ready.
use pulsar_verifier.Prelude.{
  [], true, false, inl, inr, refl, ◌∷◌, ◌≡◌, ◌==◌, ◌⊎◌, ◌∙◌, contains, List, Bool, Holds, subst,
  contains-snoc_self, sym, ap, arith, snoc_same, Bool-cases, Option-cases, contains-append, ◌++◌,
}
use pulsar_verifier.Identity.{VerificationId, id_eq}
use pulsar_verifier.Store.Announced.{is_ready_at}
use pulsar_verifier.Store.Event.{ProofStoreEvent}
use pulsar_verifier.Store.Moka.{Moka}
use pulsar_verifier.Store.Operations.{ProofStore}
use pulsar_verifier.Store.Record.{Arc, ProofRecord, StoredProof}
use pulsar_verifier.Store.Views.{stored_proofs, records_ready_for_verification, snapshot, is_ready}
use pulsar_verifier.Verification.Queue.{
  IsSound, enqueue-cases, enqueue-IsSound, cleared-IsSound, received-IsSound,
}
use pulsar_verifier.Verification.Tracking.{IsFollowed, IsTracked, read-IsTracked}
use pulsar_verifier.Verification.Worker.{
  Worker, enqueue_all, reconcile_ready_records, enqueue, cleared,
}

module _ ⦃moka : Moka (Arc ProofRecord)⦄ where
  abbrev pub IsKnown : Worker → VerificationId → Type 0
  IsKnown w id = (contains w.active_ids id ≡ true) ⊎ (contains w.pending id ≡ true)

  pub enqueue-IsKnown : (id : VerificationId) (w : Worker) → IsSound w → IsKnown (enqueue id w) id
  enqueue-IsKnown id w v = elim (enqueue-cases id w) [
    | inl (same, inl active) ↦ rw same (inl active)
    | inl (same, inr pending) ↦ rw same (inr (rw v.mirror at pending))
    | inr (grown, idle, new) ↦ rw grown (inr (contains-snoc_self w.pending id))
  ]

  enqueue-keeps : (id j : VerificationId) (w : Worker) → IsKnown w j → IsKnown (enqueue id w) j
  enqueue-keeps id j w known = elim (enqueue-cases id w) [
    | inl (same, h) ↦ subst (λ u. IsKnown u j) (sym same) known
    | inr (grown, idle, new) ↦ rw grown (elim known [
      | inl active ↦ inl active
      | inr pending ↦ inr (ground (arith, contains-append w.pending (id ∷ []) j))
    ])
  ]

  pub enqueue-other :
      (id j : VerificationId) (w : Worker) (unread : List ProofStoreEvent)
      → (id == j) ≡ false
      → IsFollowed w unread j
      → IsFollowed (enqueue id w) unread j
  unfolding contains
  enqueue-other id j w unread n f = elim (enqueue-cases id w) [
    | inl (same, h) ↦ subst (λ u. IsFollowed u unread j) (sym same) f
    | inr (grown, idle, new) ↦ rw grown (elim f [
      | inl active ↦ inl active
      | inr waiting ↦ inr (rw (snoc_same w.pending id j n) waiting)
    ])
  ]

  enqueue_all-keeps :
      (ps : List StoredProof) (j : VerificationId) (w : Worker)
      → IsKnown w j
      → IsKnown (enqueue_all ps w) j
  unfolding enqueue_all
  enqueue_all-keeps [] j w known = known
  enqueue_all-keeps (p ∷ ps) j w known =
      enqueue_all-keeps ps j (enqueue p.verification_id w)
        (enqueue-keeps p.verification_id j w known)

  enqueue_all-IsKnown :
      (ps : List StoredProof) (p : StoredProof) (w : Worker)
      → Holds p ps
      → IsSound w
      → IsKnown (enqueue_all ps w) p.verification_id
  unfolding enqueue_all
  enqueue_all-IsKnown [] p w here v = absurd here
  enqueue_all-IsKnown (q ∷ ps) p w (inl same) v =
      enqueue_all-keeps ps p.verification_id (enqueue q.verification_id w) (
        subst (λ (x : StoredProof). IsKnown (enqueue q.verification_id w) x.verification_id)
          (sym same) (enqueue-IsKnown q.verification_id w v))
  enqueue_all-IsKnown (q ∷ ps) p w (inr later) v =
      enqueue_all-IsKnown ps p (enqueue q.verification_id w) later
        (enqueue-IsSound q.verification_id w v)

  pub enqueue-same :
      (id : VerificationId) (w : Worker)
      → ((enqueue id w).store ≡ w.store)
        × ((enqueue id w).received ≡ w.received)
        × ((enqueue id w).active_ids ≡ w.active_ids)
  enqueue-same id w = elim (enqueue-cases id w) [
    | inl (same, h) ↦ rw same (refl, refl, refl)
    | inr (grown, idle, new) ↦ rw grown (refl, refl, refl)
  ]

  enqueue_all-same :
      (ps : List StoredProof) (w : Worker)
      → ((enqueue_all ps w).store ≡ w.store) × ((enqueue_all ps w).received ≡ w.received)
  unfolding enqueue_all
  enqueue_all-same [] w = (refl, refl)
  enqueue_all-same (p ∷ ps) w =
      let (s, r) = enqueue_all-same ps (enqueue p.verification_id w) in
      let (t, q, a) = enqueue-same p.verification_id w in (s ∙ t, r ∙ q)

  stored_proofs-Holds :
      (predicate : ProofRecord → Bool) (xs : List (VerificationId × Arc ProofRecord))
      (id : VerificationId) (a : Arc ProofRecord)
      → Holds (id, a) xs
      → predicate a.value ≡ true
      → Holds (record { verification_id = id; stored = a }) (stored_proofs predicate xs)
  unfolding stored_proofs
  stored_proofs-Holds predicate [] id a here h = absurd here
  stored_proofs-Holds predicate ((j, b) ∷ xs) id a (inl same) h =
      rw (ap (λ (x : VerificationId × Arc ProofRecord). predicate x.1.value) (sym same) ∙ h) (
        inl (
          ap
            (λ (x : VerificationId × Arc ProofRecord). record {
              verification_id = x.0;
              stored = x.1;
            })
            same))
  stored_proofs-Holds predicate ((j, b) ∷ xs) id a (inr later) h =
      elim (Bool-cases (predicate b.value)) [
        | inl p ↦ rw p (inr (stored_proofs-Holds predicate xs id a later h))
        | inr p ↦ rw p (stored_proofs-Holds predicate xs id a later h)
      ]

  -- A record that is ready is in the snapshot that the worker starts from again.
  ready-Holds :
      (s : ProofStore) (id : VerificationId)
      → is_ready_at s id ≡ true
      → (p : StoredProof) × (p.verification_id ≡ id) × Holds p (records_ready_for_verification s)
  unfolding is_ready_at records_ready_for_verification snapshot
  ready-Holds s id h = elim (Option-cases (moka.get s.records id)) [
    | inl gone ↦ absurd (ground (arith, gone))
    | inr (a, held) ↦ (
      record { verification_id = id; stored = a },
      refl,
      stored_proofs-Holds is_ready (moka.entries s.records) id a
          ((moka.entries_iff s.records id a).1 held) (rw (is_ready_at, held) at h),
    )
  ]

  pub reconcile-IsKnown :
      (w : Worker) (id : VerificationId)
      → IsSound w
      → is_ready_at w.store id ≡ true
      → IsKnown (reconcile_ready_records w) id
  unfolding reconcile_ready_records
  reconcile-IsKnown w id v h =
      let (p, same, here) = ready-Holds w.store id h in
      subst (IsKnown (reconcile_ready_records w)) same (
        enqueue_all-IsKnown (records_ready_for_verification w.store) p (cleared w) here
          (cleared-IsSound w v))

  pub reconcile-same :
      (w : Worker)
      → ((reconcile_ready_records w).store ≡ w.store)
        × ((reconcile_ready_records w).received ≡ w.received)
  unfolding reconcile_ready_records
  reconcile-same w = enqueue_all-same (records_ready_for_verification w.store) (cleared w)

  -- A receiver that lags starts from the records that are ready.
  pub lagged-IsTracked :
      (skipped rest : List ProofStoreEvent) (w : Worker)
      → w.store.events ≡ w.received ++ (skipped ++ rest)
      → IsSound w
      → IsTracked w
      → IsTracked (reconcile_ready_records (record w { received = w.received ++ skipped }))
  unfolding reconcile_ready_records
  lagged-IsTracked skipped rest w p v k =
      let before : Worker = record w { received = w.received ++ skipped } in
      let (s, r) = enqueue_all-same (records_ready_for_verification w.store) (cleared before) in
      read-IsTracked w (reconcile_ready_records before) skipped rest p s r
        (λ id h ever f. elim (reconcile-IsKnown before id (received-IsSound w _ v) h) [
          | inl active ↦ inl active
          | inr pending ↦ inr (rw pending ever)
        ])
        k
