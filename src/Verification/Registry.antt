-- ===== src/Verification/Registry.antt =====
-- src/verification/mod.rs: the routing table from proof types to backends. The hash map is an
-- association list whose front hides what is behind it.
use pulsar_verifier.Prelude.{
  if◌then◌else◌, [], none, some, inl, inr, ◌∷◌, ◌≡◌, ◌==◌, List, Option, arith, Holds, is_some,
  ==_cases, refl, ap, ==_refl,
}
use pulsar_verifier.Error.{ok, err, Result, duplicate_verifier}
use pulsar_verifier.Identity.{ProofType, type_eq}
use pulsar_verifier.Verification.Attempts.{Verifier}

unfoldable pub get : List (ProofType × Verifier) → ProofType → Option Verifier
get [] t = none
get ((u, v) ∷ rest) t = let found = get rest t in if u == t then some v else found

-- The loop of `VerifierRegistry::new`, with what it has inserted.
unfoldable pub new_from :
    List (ProofType × Verifier) → List (ProofType × Verifier) → Result (List (ProofType × Verifier))
unfolding get
new_from registry [] = ok registry
new_from registry ((t, v) ∷ rest) =
    let inserted = new_from ((t, v) ∷ registry) rest in
    if is_some (get registry t) then err (duplicate_verifier t) else inserted

unfoldable pub new : List (ProofType × Verifier) → Result (List (ProofType × Verifier))
unfolding new_from
new verifiers = new_from [] verifiers

new_from-keeps :
    (registry verifiers r : List (ProofType × Verifier)) (t : ProofType) (v : Verifier)
    → new_from registry verifiers ≡ ok r
    → get registry t ≡ some v
    → get r t ≡ some v
unfolding new_from
new_from-keeps registry [] r t v h g = ground arith
new_from-keeps registry ((u, w) ∷ rest) r t v h g = elim (==_cases u t) [
  | inl (same, e) ↦ absurd (ground arith)
  | inr (other, e) ↦ new_from-keeps ((u, w) ∷ registry) rest r t v (ground arith) (ground arith)
]

new_from-finds :
    (registry verifiers r : List (ProofType × Verifier)) (t : ProofType) (v : Verifier)
    → new_from registry verifiers ≡ ok r
    → Holds (t, v) verifiers
    → get r t ≡ some v
unfolding new_from
new_from-finds registry [] r t v h m = absurd m
new_from-finds registry ((u, w) ∷ rest) r t v h (inl here) =
    new_from-keeps ((u, w) ∷ registry) rest r t v (ground arith) (
      rw
        (
          ap (λ (e : ProofType × Verifier). e.0) here,
          ap (λ (e : ProofType × Verifier). e.1) here,
          ==_refl u,
        )
        refl)
new_from-finds registry ((u, w) ∷ rest) r t v h (inr later) =
    new_from-finds ((u, w) ∷ registry) rest r t v (ground arith) later

-- An accepted registry routes every proof type to the backend that was given for it, whatever the
-- order in which the backends were given.
pub get-new :
    (verifiers r : List (ProofType × Verifier)) (t : ProofType) (v : Verifier)
    → new verifiers ≡ ok r
    → Holds (t, v) verifiers
    → get r t ≡ some v
unfolding new
get-new verifiers r t v h m = new_from-finds [] verifiers r t v h m
