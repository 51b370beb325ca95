-- ===== src/Store/Announced.antt =====
-- What a reader of the events of src/store/mod.rs can tell of the records that are ready.
use pulsar_verifier.Prelude.{
  ℕ, if◌then◌else◌, [], none, some, true, false, inl, inr, refl, ◌∷◌, ◌++◌, ◌≡◌, ◌==◌, ◌⊎◌, Bool,
  List, Option, arith, ==_cases, ◌∙◌, Bool-cases, ==_refl, ap, sym, subst, append-nil, append_assoc,
}
use pulsar_verifier.Error.{ok, err, Result, Error}
use pulsar_verifier.Identity.{VerificationId, id_eq}
use pulsar_verifier.Store.Entries.{store_change, result_state}
use pulsar_verifier.Store.Event.{ProofStoreEvent, verification_changed}
use pulsar_verifier.Store.Moka.{Moka, CompResult, Op}
use pulsar_verifier.Store.Operations.{ProofStore, announce, transition}
use pulsar_verifier.Store.Record.{Arc, VerificationState, ProofRecord, is_changed, is_queued}
use pulsar_verifier.Store.Transition.{settled, transition-settled}
use pulsar_verifier.Store.Views.{is_ready}

-- Whether an identity is to be verified, for a reader that starts from `known` and takes one event.
unfoldable pub told : VerificationId → ProofStoreEvent → Bool → Bool
told id (ProofStoreEvent.verification_changed j VerificationState.queued) known =
    if j == id then true else known
told id (ProofStoreEvent.proof_evicted j cause) known = if j == id then false else known
told id e known = known

unfoldable pub waits : VerificationId → Bool → List ProofStoreEvent → Bool
waits id known [] = known
waits id known (e ∷ es) = waits id (told id e known) es

pub waits-append :
    (id : VerificationId) (known : Bool) (xs ys : List ProofStoreEvent)
    → waits id known (xs ++ ys) ≡ waits id (waits id known xs) ys
unfolding waits
waits-append id known [] ys = refl
waits-append id known (e ∷ xs) ys = waits-append id (told id e known) xs ys

told_cases :
    (id : VerificationId) (e : ProofStoreEvent)
    → (told id e false ≡ told id e true) ⊎ ((told id e false ≡ false) × (told id e true ≡ true))
unfolding told
told_cases id (ProofStoreEvent.verification_observed j) = inr (refl, refl)
told_cases id (ProofStoreEvent.proof_stored j source) = inr (refl, refl)
told_cases id (ProofStoreEvent.verification_changed j VerificationState.queued) = ground arith
told_cases id (ProofStoreEvent.verification_changed j VerificationState.verifying) =
    inr (refl, refl)
told_cases id (ProofStoreEvent.verification_changed j (VerificationState.completed v)) =
    inr (refl, refl)
told_cases id (ProofStoreEvent.verification_changed j (VerificationState.failed f)) =
    inr (refl, refl)
told_cases id (ProofStoreEvent.proof_evicted j cause) = ground arith

waits-known :
    (id : VerificationId) (es : List ProofStoreEvent)
    → waits id false es ≡ true
    → waits id true es ≡ true
unfolding waits
waits-known id [] h = refl
waits-known id (e ∷ es) h = elim (told_cases id e) [
  | inl same ↦ rw (sym same) h
  | inr (off, on) ↦ rw on (waits-known id es (rw off at h))
]

pub waits-any :
    (id : VerificationId) (known : Bool) (es : List ProofStoreEvent)
    → waits id false es ≡ true
    → waits id known es ≡ true
waits-any id false es h = h
waits-any id true es h = waits-known id es h

module _ ⦃moka : Moka (Arc ProofRecord)⦄ where
  unfoldable pub is_ready_at : ProofStore → VerificationId → Bool
  is_ready_at s id = elim (moka.get s.records id) [ none ↦ false | some a ↦ is_ready a.value ]

  -- Between two stores the records that are ready have been announced, or were ready before and are
  -- not announced as gone.
  pub record Announced (s t : ProofStore) : Type 0 where
    pub added : List ProofStoreEvent
    pub sent : t.events ≡ s.events ++ added
    pub kept :
        (id : VerificationId)
        → is_ready_at t id ≡ true
        → ((is_ready_at s id ≡ true) × (waits id true added ≡ true)) ⊎ (waits id false added ≡ true)

  -- Where a ready record of a settled transition comes from.
  settled-is_ready_at :
      (s : ProofStore) (id : VerificationId) (old : Option (Arc ProofRecord))
      (answer : Result (Op (Arc ProofRecord))) (j : VerificationId)
      → is_ready_at (settled s id old answer).1 j ≡ true
      → (is_ready_at s j ≡ true)
        ⊎ ((b : Arc ProofRecord) × (answer ≡ ok (Op.put b)) × (id ≡ j) × (is_ready b.value ≡ true))
  unfolding is_ready_at
  settled-is_ready_at s id old (err e) j h = inl h
  settled-is_ready_at s id none (ok Op.nop) j h = inl h
  settled-is_ready_at s id (some a) (ok Op.nop) j h = inl h
  settled-is_ready_at s id none (ok Op.remove) j h = inl h
  settled-is_ready_at s id (some a) (ok Op.remove) j h =
      inl (ground (arith, moka.get-invalidate s.records id j))
  settled-is_ready_at s id none (ok (Op.put b)) j h = elim (==_cases id j) [
    | inl (same, t) ↦ inr (b, refl, same, ground (arith, moka.get-insert s.records id j b))
    | inr (other, t) ↦ inl (ground (arith, moka.get-insert s.records id j b))
  ]
  settled-is_ready_at s id (some a) (ok (Op.put b)) j h = elim (==_cases id j) [
    | inl (same, t) ↦ inr (b, refl, same, ground (arith, moka.get-insert s.records id j b))
    | inr (other, t) ↦ inl (ground (arith, moka.get-insert s.records id j b))
  ]

  -- The event that `announce` sends first tells nothing of what is to be verified.
  abbrev pub IsNeutral : ProofStoreEvent → Type 0
  IsNeutral e = (id : VerificationId) (known : Bool) → told id e known ≡ known

  -- What `announce` sends.
  unfoldable pub announced :
      VerificationId → ProofStoreEvent → CompResult (Arc ProofRecord) → List ProofStoreEvent
  announced id e r =
      if is_changed (store_change r)
      then e
        ∷ (if is_queued (result_state r)
            then verification_changed id VerificationState.queued ∷ []
            else [])
      else []

  pub announce_lem :
      (id : VerificationId) (e : ProofStoreEvent) (r : CompResult (Arc ProofRecord))
      (s : ProofStore)
      → (announce id e r s).1 ≡ record s { events = s.events ++ announced id e r }
  unfolding announce announced
  announce_lem id e r s = elim (Bool-cases (is_changed (store_change r))) [
    | inr no_change ↦
        rw no_change
          (ap (λ (es : List ProofStoreEvent). record s { events = es }) (sym (append-nil s.events)))
    | inl change ↦ elim (Bool-cases (is_queued (result_state r))) [
      | inr rests ↦ rw (change, rests) refl
      | inl starts ↦
          rw (change, starts)
            (ap (λ (es : List ProofStoreEvent). record s { events = es })
              (append_assoc s.events (e ∷ []) _))
    ]
  ]

  announced-harmless :
      (id : VerificationId) (e : ProofStoreEvent) (r : CompResult (Arc ProofRecord))
      (j : VerificationId)
      → IsNeutral e
      → waits j true (announced id e r) ≡ true
  unfolding announced waits told
  announced-harmless id e r j n = ground (arith, n j true)

  announced-ready :
      (s : ProofStore) (id : VerificationId) (e : ProofStoreEvent)
      (r : CompResult (Arc ProofRecord)) (old : Option (Arc ProofRecord)) (b : Arc ProofRecord)
      → is_ready b.value ≡ true
      → (settled s id old (ok (Op.put b))).0 ≡ ok r
      → waits id false (announced id e r) ≡ true
  unfolding announced waits told
  announced-ready s id e r none b h q = ground (arith, ==_refl id)
  announced-ready s id e r (some a) b h q = ground (arith, ==_refl id)

  settled-events :
      (s : ProofStore) (id : VerificationId) (old : Option (Arc ProofRecord))
      (answer : Result (Op (Arc ProofRecord)))
      → (settled s id old answer).1.events ≡ s.events
  settled-events s id old (err e) = refl
  settled-events s id none (ok Op.nop) = refl
  settled-events s id (some a) (ok Op.nop) = refl
  settled-events s id none (ok Op.remove) = refl
  settled-events s id (some a) (ok Op.remove) = refl
  settled-events s id none (ok (Op.put b)) = refl
  settled-events s id (some a) (ok (Op.put b)) = refl

  settled_put :
      (s : ProofStore) (id : VerificationId) (old : Option (Arc ProofRecord)) (b : Arc ProofRecord)
      (x : Error)
      → (settled s id old (ok (Op.put b))).0 ≡ err x
      → ⊥
  settled_put s id none b x q = cc
  settled_put s id (some a) b x q = cc

  -- A settled transition, and what is sent right after it.
  pub settled-Announced :
      (s t : ProofStore) (id : VerificationId) (old : Option (Arc ProofRecord))
      (answer : Result (Op (Arc ProofRecord))) (added : List ProofStoreEvent)
      → t ≡ record ((settled s id old answer).1) { events = s.events ++ added }
      → ((j : VerificationId) → waits j true added ≡ true)
      → ((b : Arc ProofRecord)
          → answer ≡ ok (Op.put b)
          → is_ready b.value ≡ true
          → waits id false added ≡ true)
      → Announced s t
  unfolding is_ready_at
  settled-Announced s t id old answer added same harmless ready = record {
    added = added;
    sent = ap (λ (x : ProofStore). x.events) same;
    kept = λ j h. elim (settled-is_ready_at s id old answer j (rw same at h)) [
      | inl before ↦ inl (before, harmless j)
      | inr (b, put, here, now) ↦
          inr (subst (λ k. waits k false added ≡ true) here (ready b put now))
    ];
  }

  -- A transition that succeeds, and what is sent right after it.
  pub transition-Announced :
      (s t : ProofStore) (id : VerificationId)
      (f : ℕ → Option (Arc ProofRecord) → Result (Op (Arc ProofRecord)))
      (added : List ProofStoreEvent)
      → t ≡ record ((transition id f s).1) { events = (transition id f s).1.events ++ added }
      → ((j : VerificationId) → waits j true added ≡ true)
      → ((b : Arc ProofRecord)
          → f s.next_address (moka.get s.records id) ≡ ok (Op.put b)
          → is_ready b.value ≡ true
          → waits id false added ≡ true)
      → Announced s t
  transition-Announced s t id f added same harmless ready =
      let old = moka.get s.records id in
      let answer = f s.next_address old in
      settled-Announced s t id old answer added
        (same
          ∙ ap
              (λ (x : Result (CompResult (Arc ProofRecord)) × ProofStore). record (x.1) {
                events = x.1.events ++ added;
              })
              (transition-settled s id f)
          ∙ ap
              (λ (es : List ProofStoreEvent). record ((settled s id old answer).1) {
                events = es ++ added;
              })
              (settled-events s id old answer))
        harmless ready

  pub announce-Announced :
      (s t : ProofStore) (id : VerificationId)
      (f : ℕ → Option (Arc ProofRecord) → Result (Op (Arc ProofRecord))) (e : ProofStoreEvent)
      (r : CompResult (Arc ProofRecord))
      → IsNeutral e
      → (transition id f s).0 ≡ ok r
      → t ≡ (announce id e r (transition id f s).1).1
      → Announced s t
  announce-Announced s t id f e r n q same =
      let old = moka.get s.records id in
      transition-Announced s t id f (announced id e r)
        (same ∙ announce_lem id e r (transition id f s).1) (λ j. announced-harmless id e r j n)
        (λ b put h.
          announced-ready s id e r old b h
            (subst (λ a. (settled s id old a).0 ≡ ok r) put (rw (transition-settled s id f) at q)))

  -- A refused transition sends nothing.
  pub refused-Announced :
      (s t : ProofStore) (id : VerificationId)
      (f : ℕ → Option (Arc ProofRecord) → Result (Op (Arc ProofRecord))) (x : Error)
      → (transition id f s).0 ≡ err x
      → t ≡ (transition id f s).1
      → Announced s t
  unfolding waits
  refused-Announced s t id f x q same =
      let old = moka.get s.records id in
      let answer = f s.next_address old in
      let path = transition-settled s id f in
      settled-Announced s t id old answer []
        (same
          ∙ ap (λ (y : Result (CompResult (Arc ProofRecord)) × ProofStore). y.1) path
          ∙ ap (λ (es : List ProofStoreEvent). record ((settled s id old answer).1) { events = es })
              (settled-events s id old answer ∙ sym (append-nil s.events)))
        (λ j. refl)
        (λ b put h. absurd (
          settled_put s id old b x
            (subst (λ a. (settled s id old a).0 ≡ err x) put (rw path at q))))
