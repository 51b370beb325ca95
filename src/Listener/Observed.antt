-- ===== src/Listener/Observed.antt =====
-- What the listener of src/listener.rs has observed in the store.
use pulsar_verifier.Prelude.{
  [], none, some, true, false, inl, inr, refl, ◌∷◌, ◌≡◌, ◌∙◌, Option, ℕ, Bool, List, contains,
  is_some, arith, Holds, ==_cases, suc, ==_refl, sym, subst, nat_eq, ◌≤◌,
}
use pulsar_verifier.Error.{ok, Result-cases, ok_inj}
use pulsar_verifier.Exec.{◌>>=◌, ◌>>◌, >>=-eq-ok, Exec, >>=-ok, lift, >>=-err}
use pulsar_verifier.Identity.{VerificationId, id_eq}
use pulsar_verifier.Listener.Blocks.{Listener, observe_all, reconcile_heights, Answers, on_store}
use pulsar_verifier.Store.Moka.{Moka}
use pulsar_verifier.Store.Operations.{ProofStore, observe_chain_verification}
use pulsar_verifier.Store.Record.{Arc, ProofRecord}
use pulsar_verifier.Store.Spec.{observed, view, view-observe}

module _ ⦃moka : Moka (Arc ProofRecord)⦄ where
  abbrev is_observed : Option ProofRecord → Bool
  is_observed none = false
  is_observed (some r) = is_some r.chain_observed_at

  -- The store knows that the chain has committed the request of an identity.
  abbrev pub IsObserved : ProofStore → VerificationId → Type 0
  IsObserved s id = is_observed (view s id) ≡ true

  observed_value : (now : ℕ) (o : Option ProofRecord) → is_observed (some (observed now o)) ≡ true
  observed_value now none = refl
  observed_value now (some r) = ground arith

  observe-IsObserved :
      (now : ℕ) (id : VerificationId) (s : ProofStore)
      → IsObserved (observe_chain_verification now id s).1 id
  observe-IsObserved now id s =
      rw (view-observe now id id s, ==_refl id) (observed_value now (view s id))

  observe_keeps :
      (now : ℕ) (id j : VerificationId) (s : ProofStore)
      → IsObserved s j
      → IsObserved (observe_chain_verification now id s).1 j
  observe_keeps now id j s h = elim (==_cases id j) [
    | inl (same, t) ↦ rw (sym same) (observe-IsObserved now id s)
    | inr (other, n) ↦ rw (view-observe now id j s, n) h
  ]

  -- The order of heights, with no height before all others.
  abbrev pub IsAtMost : Option ℕ → Option ℕ → Type 0
  IsAtMost none b = Unit
  IsAtMost (some m) none = ⊥
  IsAtMost (some m) (some n) = m ≤ n

  pub IsAtMost-refl : (a : Option ℕ) → IsAtMost a a
  IsAtMost-refl none = tt
  IsAtMost-refl (some m) = omega arith

  IsAtMost-trans : (a b c : Option ℕ) → IsAtMost a b → IsAtMost b c → IsAtMost a c
  IsAtMost-trans none b c p q = tt
  IsAtMost-trans (some m) none c p q = absurd p
  IsAtMost-trans (some m) (some n) none p q = q
  IsAtMost-trans (some m) (some n) (some k) p q = omega arith

  -- A method of the listener that forgets no observation and does not go back to a lower height.
  pub record Keeps (l u : Listener) : Type 0 where
    pub kept : (j : VerificationId) → IsObserved l.store j → IsObserved u.store j
    pub forward : IsAtMost l.state.last_height u.state.last_height

  pub Keeps-refl : (l : Listener) → Keeps l l
  Keeps-refl l = record { kept = λ j h. h; forward = IsAtMost-refl l.state.last_height }

  pub Keeps-trans : (l u v : Listener) → Keeps l u → Keeps u v → Keeps l v
  Keeps-trans l u v a b = record {
    kept = λ j h. b.kept j (a.kept j h);
    forward = IsAtMost-trans _ _ _ a.forward b.forward;
  }

  -- What a sequence of two such methods leaves, however the first one ends.
  pub >>=-Keeps :
      {X Y : Type 0} (action : Exec Listener X) (next : X → Exec Listener Y) (l : Listener)
      → Keeps l (action l).1
      → ((x : X) → Keeps (action l).1 (next x (action l).1).1)
      → Keeps l ((action >>= next) l).1
  >>=-Keeps action next l a b = elim (Result-cases (action l).0) [
    | inl (x, h) ↦
        rw (>>=-ok action next l x h) (Keeps-trans l (action l).1 (next x (action l).1).1 a (b x))
    | inr (e, h) ↦ rw (>>=-err action next l e h) a
  ]

  observe_once-Keeps :
      (now : ℕ) (id : VerificationId) (l : Listener)
      → Keeps l (on_store (observe_chain_verification now id) l).1
  observe_once-Keeps now id l = record {
    kept = λ j h. observe_keeps now id j l.store h;
    forward = IsAtMost-refl l.state.last_height;
  }

  pub observe_all-Keeps :
      (clock : ℕ → ℕ) (n : ℕ) (ids : List VerificationId) (l : Listener)
      → Keeps l (observe_all clock n ids l).1
  unfolding observe_all
  observe_all-Keeps clock n [] l = Keeps-refl l
  observe_all-Keeps clock n (id ∷ ids) l =
      >>=-Keeps (on_store (observe_chain_verification (clock n) id))
        (λ _. observe_all clock (suc n) ids) l (observe_once-Keeps (clock n) id l)
        (λ x.
          observe_all-Keeps clock (suc n) ids
            (on_store (observe_chain_verification (clock n) id) l).1)

  -- A walk over identities that succeeds has observed each of them.
  pub observe_all-IsObserved :
      (clock : ℕ → ℕ) (n : ℕ) (ids : List VerificationId) (l : Listener) (id : VerificationId)
      → (observe_all clock n ids l).0 ≡ ok tt
      → Holds id ids
      → IsObserved (observe_all clock n ids l).1.store id
  unfolding observe_all
  observe_all-IsObserved clock n [] l id h here = absurd here
  observe_all-IsObserved clock n (j ∷ ids) l id h here =
      let (x, good, same) =
        >>=-eq-ok (on_store (observe_chain_verification (clock n) j))
          (λ _. observe_all clock (suc n) ids) l tt h in
      let u = (on_store (observe_chain_verification (clock n) j) l).1 in
      rw same (elim here [
        | inl first ↦
            (observe_all-Keeps clock (suc n) ids u).kept id
              (rw first (observe-IsObserved (clock n) j l.store))
        | inr later ↦ observe_all-IsObserved clock (suc n) ids u id (rw same at h) later
      ])

  pub reconcile_heights-Keeps :
      (clock : ℕ → ℕ) (answers : Answers) (heights : List ℕ) (l : Listener)
      → Keeps l (reconcile_heights clock answers heights l).1
  unfolding reconcile_heights
  reconcile_heights-Keeps clock answers [] l = Keeps-refl l
  reconcile_heights-Keeps clock answers (height ∷ heights) l =
      >>=-Keeps (lift (answers.proofs_by_height height))
        (λ ids. observe_all clock 0 ids >> reconcile_heights clock answers heights) l (Keeps-refl l)
        (λ ids.
          >>=-Keeps (observe_all clock 0 ids) (λ _. reconcile_heights clock answers heights) l
            (observe_all-Keeps clock 0 ids l)
            (λ x. reconcile_heights-Keeps clock answers heights (observe_all clock 0 ids l).1))

  -- A recovery that succeeds has observed every proof of every height that it was given.
  pub reconcile_heights-IsObserved :
      (clock : ℕ → ℕ) (answers : Answers) (heights : List ℕ) (l : Listener) (height : ℕ)
      (ids : List VerificationId) (id : VerificationId)
      → (reconcile_heights clock answers heights l).0 ≡ ok tt
      → contains heights height ≡ true
      → answers.proofs_by_height height ≡ ok ids
      → Holds id ids
      → IsObserved (reconcile_heights clock answers heights l).1.store id
  unfolding reconcile_heights contains
  reconcile_heights-IsObserved clock answers [] l height ids id h here q mine =
      absurd (ground arith)
  reconcile_heights-IsObserved clock answers (k ∷ heights) l height ids id h here q mine =
      let rest = λ (_ : Unit {0}). reconcile_heights clock answers heights in
      let (js, found, same) =
        >>=-eq-ok (lift (answers.proofs_by_height k))
          (λ js. observe_all clock 0 js >> reconcile_heights clock answers heights) l tt h in
      let (x, good, then_) = >>=-eq-ok (observe_all clock 0 js) rest l tt (rw same at h) in
      let u = (observe_all clock 0 js l).1 in
      rw (same, then_)
        (elim (==_cases k height) [
          | inl (first, t) ↦ (reconcile_heights-Keeps clock answers heights u).kept id (
              observe_all-IsObserved clock 0 js l id good
                (subst (Holds id) (ok_inj (sym q ∙ (rw first at found))) mine))
          | inr (other, t) ↦
              reconcile_heights-IsObserved clock answers heights u height ids id
                (rw (same, then_) at h) (ground (arith, here)) q mine
        ])
