-- ===== src/Samples/Assoc.antt =====
-- A cache that meets the laws of Store/Moka.antt: an association list whose newest entry counts.
use pulsar_verifier.Prelude.{
  if◌then◌else◌, [], none, some, refl, ◌∷◌, ◌≡◌, ◌≢◌, ◌==◌, ◌↔◌, List, Option, arith, Holds, inl,
  inr, ◌∙◌, ==_cases, sym, ap,
}
use pulsar_verifier.Error.{Result}
use pulsar_verifier.Identity.{VerificationId, id_eq}
use pulsar_verifier.Store.Moka.{Moka, Op, CompResult, computed}

module _ {V : Type 0} where
  unfoldable pub find : List (VerificationId × V) → VerificationId → Option V
  find [] k = none
  find ((j, v) ∷ m) k = let rest = find m k in if j == k then some v else rest

  unfoldable pub without : VerificationId → List (VerificationId × V) → List (VerificationId × V)
  without k [] = []
  without k ((j, v) ∷ m) = let rest = without k m in if j == k then rest else (j, v) ∷ rest

  -- Every key once, with its newest value.
  unfoldable pub current : List (VerificationId × V) → List (VerificationId × V)
  unfolding without
  current [] = []
  current ((j, v) ∷ m) = (j, v) ∷ without j (current m)

  unfoldable pub store_entry :
      List (VerificationId × V) → VerificationId → V → List (VerificationId × V)
  store_entry m k v = (k, v) ∷ m

  pub find-without :
      (m : List (VerificationId × V)) (k j : VerificationId)
      → find (without k m) j ≡ (if k == j then none else find m j)
  unfolding find without
  find-without [] k j = ground arith
  find-without ((i, v) ∷ m) k j =
      ground (arith, find-without m k j, id_eq.beq_iff i k, id_eq.beq_iff i j, id_eq.beq_iff k j)

  key : {i j : VerificationId} {v w : V} → ◌≡◌ {A = VerificationId × V} (j, v) (i, w) → j ≡ i
  key p = λ k. (p k).0

  value : {i j : VerificationId} {v w : V} → ◌≡◌ {A = VerificationId × V} (j, v) (i, w) → v ≡ w
  value p = λ k. (p k).1

  pair :
      {i j : VerificationId} {v w : V} → j ≡ i → v ≡ w → ◌≡◌ {A = VerificationId × V} (j, v) (i, w)
  pair p q = λ k. (p k, q k)

  Holds-without :
      (m : List (VerificationId × V)) (k j : VerificationId) (v : V)
      → Holds (j, v) (without k m) ↔ (Holds (j, v) m × (k ≢ j))
  unfolding without
  Holds-without [] k j v = (λ h. absurd h, λ h. h.0)
  Holds-without ((i, w) ∷ m) k j v =
      let ih = Holds-without m k j v in
      elim (==_cases i k) [
        | inl (e, t) ↦ rw t (
          λ h. let (a, b) = ih.0 h in (inr a, b),
          λ h. elim (h.0) [ inl p ↦ absurd (h.1 (sym e ∙ sym (key p))) | inr q ↦ ih.1 (q, h.1) ],
        )
        | inr (n, t) ↦ rw t (
          λ h. elim h [
            | inl p ↦ (inl p, λ q. n (sym (q ∙ key p)))
            | inr r ↦ let (a, b) = ih.0 r in (inr a, b)
          ],
          λ h. elim (h.0) [ inl p ↦ inl p | inr q ↦ inr (ih.1 (q, h.1)) ],
        )
      ]

  pub find-current :
      (m : List (VerificationId × V)) (j : VerificationId) (v : V)
      → Holds (j, v) (current m) ↔ (find m j ≡ some v)
  unfolding find current
  find-current [] j v = (λ h. absurd h, λ h. cc)
  find-current ((i, w) ∷ m) j v =
      let ih = find-current m j v in
      elim (==_cases i j) [
        | inl (e, t) ↦ rw t (
          λ h. elim h [
            | inl p ↦ ap some (sym (value p))
            | inr r ↦ absurd (((Holds-without (current m) i j v).0 r).1 e)
          ],
          λ h. inl (pair (sym e) (cc)),
        )
        | inr (n, t) ↦ rw t (
          λ h. elim h [
            | inl p ↦ absurd (n (sym (key p)))
            | inr r ↦ ih.0 ((Holds-without (current m) i j v).0 r).0
          ],
          λ h. inr ((Holds-without (current m) i j v).1 (ih.1 h, n)),
        )
      ]

  -- The documented answer of `and_try_compute_with`.
  unfoldable pub compute_entry :
      List (VerificationId × V)
      → VerificationId
      → (Option V → Result (Op V))
      → Result (List (VerificationId × V) × CompResult V)
  unfolding find without store_entry
  compute_entry m k f = computed store_entry (λ n i. without i n) m k (find m k) (f (find m k))

  pub find-empty : (k : VerificationId) → find [] k ≡ none
  unfolding find
  find-empty k = refl

  pub find-store :
      (m : List (VerificationId × V)) (k j : VerificationId) (v : V)
      → find (store_entry m k v) j ≡ (if k == j then some v else find m j)
  unfolding find store_entry
  find-store m k j v = refl

  pub compute_entry_lem :
      (m : List (VerificationId × V)) (k : VerificationId) (f : Option V → Result (Op V))
      → compute_entry m k f
        ≡ computed store_entry (λ n i. without i n) m k (find m k) (f (find m k))
  unfolding compute_entry
  compute_entry_lem m k f = refl

  abbrev pub assoc_cache : Moka V
  assoc_cache = record {
    Map = List (VerificationId × V);
    empty = [];
    get = find;
    insert = store_entry;
    invalidate = λ m k. without k m;
    entries = current;
    compute = compute_entry;
    get-empty = find-empty;
    get-insert = find-store;
    get-invalidate = find-without;
    entries_iff = λ m k v. find-current m k v;
    compute_lem = compute_entry_lem;
  }
