-- ===== src/Verification/Tracking.antt =====
-- What the worker of src/verification/worker.rs knows of the records that are ready: those that it
-- runs, those in its queue, and those of which the events that it has not read yet tell.
use pulsar_verifier.Prelude.{
  none, some, true, false, inl, inr, ◌++◌, ◌≡◌, ◌⊎◌, ◌∙◌, List, Bool, contains, ap, append_assoc,
  Option, arith, ==_refl, refl, append_inj, sym, subst,
}
use pulsar_verifier.Identity.{VerificationId, id_eq}
use pulsar_verifier.Store.Announced.{waits, is_ready_at, Announced, waits-any, waits-append}
use pulsar_verifier.Store.Entries.{begin_entry, with_state}
use pulsar_verifier.Store.Event.{ProofStoreEvent}
use pulsar_verifier.Store.Moka.{Moka}
use pulsar_verifier.Store.Operations.{ProofStore, begin_verification, claimed, publish}
use pulsar_verifier.Store.Record.{Arc, ProofRecord, VerificationState}
use pulsar_verifier.Store.Transition.{transition-settled}
use pulsar_verifier.Verification.Worker.{Worker}

-- A reader that has once known of an identity, whatever it knew before.
pub waits-suffix :
    (id : VerificationId) (xs ys : List ProofStoreEvent)
    → waits id false (xs ++ ys) ≡ true
    → waits id true ys ≡ true
waits-suffix id xs ys h =
    known_suffix id (waits id false xs) ys (rw (waits-append id false xs ys) at h)
  where
    known_suffix :
        (id : VerificationId) (b : Bool) (es : List ProofStoreEvent)
        → waits id b es ≡ true
        → waits id true es ≡ true
    known_suffix id true es h = h
    known_suffix id false es h = waits-any id true es h

module _ ⦃moka : Moka (Arc ProofRecord)⦄ where
  -- Where a ready identity is: with a job, or with a reader of the unread events that starts from
  -- the queue.
  abbrev pub IsFollowed : Worker → List ProofStoreEvent → VerificationId → Type 0
  IsFollowed w unread id =
      (contains w.active_ids id ≡ true) ⊎ (waits id (contains w.pending id) unread ≡ true)

  pub record IsTracked (w : Worker) : Type 0 where
    pub told_ever :
        (id : VerificationId) → is_ready_at w.store id ≡ true → waits id false w.store.events ≡ true
    pub unread : List ProofStoreEvent
    pub position : w.store.events ≡ w.received ++ unread
    pub followed : (id : VerificationId) → is_ready_at w.store id ≡ true → IsFollowed w unread id

  -- What has been announced of a store since the worker looked at it.
  pub told_ever-Announced :
      (s t : ProofStore)
      → Announced s t
      → ((id : VerificationId) → is_ready_at s id ≡ true → waits id false s.events ≡ true)
      → (id : VerificationId) → is_ready_at t id ≡ true
      → waits id false t.events ≡ true
  told_ever-Announced s t a ever id h = elim (a.kept id h) [
    | inl (old, held) ↦ rw (a.sent, waits-append id false s.events a.added, ever id old) held
    | inr new ↦
        rw (a.sent, waits-append id false s.events a.added)
          (waits-any id (waits id false s.events) a.added new)
  ]

  pub IsFollowed-Announced :
      (w : Worker) (s t : ProofStore) (unread : List ProofStoreEvent) (a : Announced s t)
      (id : VerificationId)
      → (is_ready_at s id ≡ true → IsFollowed w unread id)
      → is_ready_at t id ≡ true
      → IsFollowed w (unread ++ a.added) id
  IsFollowed-Announced w s t unread a id f h = elim (a.kept id h) [
    | inr new ↦ inr (
        rw (waits-append id (contains w.pending id) unread a.added)
          (waits-any id (waits id (contains w.pending id) unread) a.added new))
    | inl (old, held) ↦ elim (f old) [
      | inl active ↦ inl active
      | inr waiting ↦
          inr (rw (waits-append id (contains w.pending id) unread a.added, waiting) held)
    ]
  ]

  with_store-position :
      (w : Worker) (t : ProofStore) (a : Announced w.store t) (k : IsTracked w)
      → t.events ≡ w.received ++ (k.unread ++ a.added)
  with_store-position w t a k =
      a.sent ∙ ap (λ es. es ++ a.added) k.position ∙ append_assoc w.received k.unread a.added

  -- Other tasks use the store.
  pub with_store-IsTracked :
      (w : Worker) (t : ProofStore)
      → Announced w.store t
      → IsTracked w
      → IsTracked (record w { store = t })
  with_store-IsTracked w t a k = record {
    told_ever = told_ever-Announced w.store t a k.told_ever;
    unread = k.unread ++ a.added;
    position = with_store-position w t a k;
    followed = λ id h. IsFollowed-Announced w w.store t k.unread a id (k.followed id) h;
  }

  begin-not_ready :
      (id : VerificationId) (s : ProofStore) (old : Option (Arc ProofRecord))
      → moka.get s.records id ≡ old
      → is_ready_at (begin_verification id s).1 id ≡ false
  unfolding begin_verification claimed publish is_ready_at begin_entry
  begin-not_ready id s none h = ground (arith, transition-settled s id begin_entry)
  begin-not_ready id s (some a) h = ground (
    arith,
    transition-settled s id begin_entry,
    moka.get-insert s.records id id (record {
      address = s.next_address;
      value = with_state a.value VerificationState.verifying;
    }),
    ==_refl id,
  )

  pub begin-not_ready_lem :
      (id : VerificationId) (s : ProofStore) → is_ready_at (begin_verification id s).1 id ≡ false
  begin-not_ready_lem id s = begin-not_ready id s (moka.get s.records id) refl

  -- A step of the worker that leaves no ready identity behind.
  pub moved-IsTracked :
      (w u : Worker) (a : Announced w.store u.store)
      → u.received ≡ w.received
      → ((unread : List ProofStoreEvent) (id : VerificationId)
          → is_ready_at u.store id ≡ true
          → waits id true unread ≡ true
          → IsFollowed w unread id
          → IsFollowed u unread id)
      → IsTracked w
      → IsTracked u
  moved-IsTracked w u a same move k =
      let ever = told_ever-Announced w.store u.store a k.told_ever in
      let position = with_store-position w u.store a k in
      record {
        told_ever = ever;
        unread = k.unread ++ a.added;
        position = rw same position;
        followed = λ id h.
            move (k.unread ++ a.added) id h
              (waits-suffix id w.received (k.unread ++ a.added)
                (subst (λ es. waits id false es ≡ true) position (ever id h)))
              (IsFollowed-Announced w w.store u.store k.unread a id (k.followed id) h);
      }

  -- The events that are not among the first ones that it has taken.
  pub read-IsTracked :
      (w u : Worker) (skipped rest : List ProofStoreEvent)
      → w.store.events ≡ w.received ++ (skipped ++ rest)
      → u.store ≡ w.store
      → u.received ≡ w.received ++ skipped
      → ((id : VerificationId)
          → is_ready_at w.store id ≡ true
          → waits id true rest ≡ true
          → IsFollowed w (skipped ++ rest) id
          → IsFollowed u rest id)
      → IsTracked w
      → IsTracked u
  read-IsTracked w u skipped rest p same taken move k =
      let unread =
        (append_inj w.received w.received k.unread (skipped ++ rest) refl (sym k.position ∙ p)).1 in
      let position = p ∙ sym (append_assoc w.received skipped rest) in
      record {
        told_ever = λ id h. rw same (k.told_ever id (rw same at h));
        unread = rest;
        position = rw (same, taken) position;
        followed = λ id h.
            move id (rw same at h)
              (waits-suffix id (w.received ++ skipped) rest
                (subst (λ es. waits id false es ≡ true) position (k.told_ever id (rw same at h))))
              (subst (λ es. IsFollowed w es id) unread (k.followed id (rw same at h)));
      }
