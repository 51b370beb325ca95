-- ===== src/Chain/Texts.antt =====
-- The texts that src/chain/client.rs keeps of the node's answers.
use pulsar_verifier.Prelude.{
  [], true, inl, inr, refl, ◌∷◌, ◌++◌, ◌≡◌, ◌≤◌, List, ℕ, arith, suc, length, zero, Bool-cases, ap,
  leb, leb→le, sym, append-nil,
}
use pulsar_verifier.Chain.Client.{boundary_from, is_char_boundary, truncate, bounded_text}

boundary_from-le : (value : List ℕ) (n : ℕ) → boundary_from value n ≤ n
unfolding boundary_from
boundary_from-le value zero = omega arith
boundary_from-le value (suc n) = ground (arith, boundary_from-le value n)

is_char_boundary-boundary_from :
    (value : List ℕ) (n : ℕ) → is_char_boundary value (boundary_from value n) ≡ true
unfolding boundary_from is_char_boundary
is_char_boundary-boundary_from [] zero = refl
is_char_boundary-boundary_from (b ∷ bytes) zero = refl
is_char_boundary-boundary_from value (suc n) = elim (Bool-cases (is_char_boundary value (suc n))) [
  | inl here ↦ rw here here
  | inr there ↦ rw there (is_char_boundary-boundary_from value n)
]

is_char_boundary-length : (value : List ℕ) → is_char_boundary value (length value) ≡ true
unfolding is_char_boundary
is_char_boundary-length [] = refl
is_char_boundary-length (b ∷ []) = refl
is_char_boundary-length (b ∷ c ∷ bytes) = is_char_boundary-length (c ∷ bytes)

length-truncate : (n : ℕ) (value : List ℕ) → n ≤ length value → length (truncate n value) ≡ n
unfolding truncate
length-truncate zero value h = refl
length-truncate (suc n) [] h = absurd (omega arith)
length-truncate (suc n) (b ∷ value) h = ap suc (length-truncate n value (omega arith))

truncate-rest : (n : ℕ) (value : List ℕ) → (rest : List ℕ) × (value ≡ truncate n value ++ rest)
unfolding truncate
truncate-rest zero value = (value, refl)
truncate-rest (suc n) [] = ([], refl)
truncate-rest (suc n) (b ∷ value) =
    let (rest, same) = truncate-rest n value in (rest, ap (λ bytes. b ∷ bytes) same)

-- A bounded text is within its limit, is a first part of the text, and cuts no character in two; a
-- text within the limit is kept whole.
pub bounded_text_lem :
    (value : List ℕ) (max_bytes : ℕ)
    → (length (bounded_text value max_bytes) ≤ max_bytes)
      × ((rest : List ℕ) × (value ≡ bounded_text value max_bytes ++ rest))
      × (is_char_boundary value (length (bounded_text value max_bytes)) ≡ true)
      × (length value ≤ max_bytes → bounded_text value max_bytes ≡ value)
unfolding bounded_text
bounded_text_lem value n = elim (Bool-cases (leb (length value) n)) [
  | inl fits ↦
      rw fits
        (leb→le _ _ fits, ([], sym (append-nil value)), is_char_boundary-length value, λ h. refl)
  | inr large ↦
      let shorter = boundary_from-le value n in
      let size = length-truncate (boundary_from value n) value (ground (arith, large, shorter)) in
      rw large (
        rw size shorter,
        truncate-rest (boundary_from value n) value,
        rw size (is_char_boundary-boundary_from value n),
        λ h. absurd (ground arith),
      )
]
