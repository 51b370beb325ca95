-- ===== src/Prelude/Sets.antt =====
-- Lists without repetitions, for hash sets and queues that mirror them.
use mathlib.Core.Path.{◌≡◌, refl, ap, sym, ◌∙◌}
use mathlib.Core.Bool.{Bool, true, false, not, ◌&&◌, ◌||◌}
use mathlib.Core.List.{List, [], ◌∷◌, ◌++◌}
use mathlib.Core.Logic.{inl, inr}
use native.Mathlib.Omega.{arith}
use pulsar_verifier.Prelude.Tests.{if◌then◌else◌}
use pulsar_verifier.Prelude.Lists.{keep}
use pulsar_verifier.Prelude.Equality.{Eq, ◌==◌, ==_refl, ==_cases, contains}

module _ {ℓ} {A : Type ℓ} ⦃e : Eq A⦄ where
  -- `HashSet::insert`, which leaves a present element, and `HashSet::remove`.
  unfoldable pub set_insert : A → List A → List A
  set_insert x xs = if contains xs x then xs else xs ++ (x ∷ [])

  unfoldable pub without : A → List A → List A
  unfolding keep
  without x xs = keep (λ y. not (y == x)) xs

  unfoldable pub is_distinct : List A → Bool
  is_distinct [] = true
  is_distinct (x ∷ xs) = not (contains xs x) && is_distinct xs

  pub ==_sym : (a b : A) → (a == b) ≡ (b == a)
  ==_sym a b = elim (==_cases a b) [
    | inl (p, t) ↦ ground (arith, (e.beq_iff b a).1 (sym p))
    | inr (n, t) ↦ elim (==_cases b a) [
      | inl (q, u) ↦ absurd (n (sym q))
      | inr (m, u) ↦ ground arith
    ]
  ]

  clash : (y a x : A) → ¬ (y ≡ x) → (y == a) ≡ true → (x == a) ≡ false
  clash y a x n h = elim (==_cases x a) [
    | inl (p, t) ↦ absurd (n ((e.beq_iff y a).0 h ∙ sym p))
    | inr (m, t) ↦ t
  ]

  pub contains-append :
      (xs ys : List A) (a : A) → contains (xs ++ ys) a ≡ contains xs a || contains ys a
  unfolding contains
  contains-append [] ys a = refl
  contains-append (x ∷ xs) ys a = ground (arith, contains-append xs ys a)

  pub contains-without :
      (x : A) (xs : List A) (a : A) → contains (without x xs) a ≡ (not (x == a) && contains xs a)
  unfolding contains without
  contains-without x [] a = ground arith
  contains-without x (y ∷ ys) a = elim (==_cases y x) [
    | inl (same, t) ↦ ground (arith, ap (λ (z : A). z == a) same, contains-without x ys a)
    | inr (other, t) ↦ ground (arith, contains-without x ys a, clash y a x other)
  ]

  pub contains-snoc_self : (xs : List A) (a : A) → contains (xs ++ (a ∷ [])) a ≡ true
  unfolding contains
  contains-snoc_self [] a = ground (arith, ==_refl a)
  contains-snoc_self (x ∷ xs) a = ground (arith, contains-snoc_self xs a)

  pub snoc_other :
      (xs : List A) (a b : A)
      → (a == b) ≡ false
      → contains (xs ++ (a ∷ [])) b ≡ true
      → contains xs b ≡ true
  unfolding contains
  snoc_other xs a b n h = ground (arith, contains-append xs (a ∷ []) b)

  pub snoc_same :
      (xs : List A) (a b : A) → (a == b) ≡ false → contains (xs ++ (a ∷ [])) b ≡ contains xs b
  unfolding contains
  snoc_same xs a b n = ground (arith, contains-append xs (a ∷ []) b)

  pub set_insert-new :
      (x : A) (xs : List A) → contains xs x ≡ false → set_insert x xs ≡ xs ++ (x ∷ [])
  unfolding set_insert
  set_insert-new x xs h = rw h refl

  pub snoc_absent :
      (xs : List A) (a b : A)
      → (a == b) ≡ false
      → contains xs b ≡ false
      → contains (xs ++ (a ∷ [])) b ≡ false
  unfolding contains
  snoc_absent xs a b n h = ground (arith, contains-append xs (a ∷ []) b)

  pub without_absent : (x : A) (xs : List A) → contains xs x ≡ false → without x xs ≡ xs
  unfolding contains without
  without_absent x [] h = refl
  without_absent x (y ∷ ys) h = ground (arith, without_absent x ys)

  pub without_head : (x : A) (xs : List A) → is_distinct (x ∷ xs) ≡ true → without x (x ∷ xs) ≡ xs
  unfolding without is_distinct
  without_head x xs h = ground (arith, ==_refl x, without_absent x xs)

  pub is_distinct-without :
      (x : A) (xs : List A) → is_distinct xs ≡ true → is_distinct (without x xs) ≡ true
  unfolding without is_distinct
  is_distinct-without x [] h = refl
  is_distinct-without x (y ∷ ys) h =
      ground (arith, is_distinct-without x ys, contains-without x ys y)

  pub is_distinct-snoc :
      (xs : List A) (a : A)
      → contains xs a ≡ false
      → is_distinct xs ≡ true
      → is_distinct (xs ++ (a ∷ [])) ≡ true
  unfolding contains is_distinct
  is_distinct-snoc [] a n h = refl
  is_distinct-snoc (x ∷ xs) a n h =
      ground (arith, ==_sym x a, contains-append xs (a ∷ []) x, is_distinct-snoc xs a)

  -- The only occurrence of an element, taken out.
  pub without_middle :
      (xs : List A) (x : A) (ys : List A)
      → is_distinct (xs ++ (x ∷ ys)) ≡ true
      → without x (xs ++ (x ∷ ys)) ≡ xs ++ ys
  unfolding contains without is_distinct
  without_middle [] x ys h = without_head x ys h
  without_middle (z ∷ zs) x ys h =
      ground (arith, without_middle zs x ys, contains-append zs (x ∷ ys) z, ==_sym z x)

pub clash_bool : {b : Bool} → b ≡ false → b ≡ true → ⊥
clash_bool p q = ground (arith, sym p ∙ q)
