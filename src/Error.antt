-- ===== src/Error.antt =====
-- src/error.rs: the errors that the modelled code returns. A constructor keeps the fields that the
-- code can act on; the free text of a diagnostic is kept only where it is a literal of the source.
use pulsar_verifier.Prelude.{◌⊎◌, inl, inr, ℕ, ◌≡◌, String, List, [], ◌∷◌, refl}
use pulsar_verifier.Identity.{VerificationId, ProofType}
use pulsar_verifier.Prelude.Int.{ℤ}

pub data Error : Type 0 where
  invalid_config : String → Error
  task : Error
  p2p_authorization : String → Error
  p2p_protocol : Error
  p2p_draining : Error
  p2p_driver_closed : Error
  chain : Error
  invalid_submission : String → Error
  transaction_too_large : ℕ → ℕ → Error
  check_tx_rejected : List ℕ → ℕ → Error
  transaction_hash_mismatch : Error
  chain_id_mismatch : Error
  invalid_chain_contract : String → Error
  local_validator_removed : Error
  invalid_verification_id : Error
  unsupported_proof_type : ℤ → Error
  proof_store : String → Error
  proof_too_large : VerificationId → ℕ → ℕ → Error
  verification_id_mismatch : VerificationId → Error
  proof_not_observed : VerificationId → Error
  invalid_verification_transition : VerificationId → Error
  invalid_verification_failure : String → Error
  duplicate_verifier : ProofType → Error
  invalid_verification_request : String → Error

pub data Result {ℓ} (A : Type ℓ) : Type ℓ where
  ok : A → Result A
  err : Error → Result A

-- `?` on a result.
module _ {κ μ} {X : Type κ} {Y : Type μ} where
  infixl 5 ◌>>=◌ ◌>>◌
  abbrev pub ◌>>=◌ : Result X → (X → Result Y) → Result Y
  ◌>>=◌ (err failed) next = err failed
  ◌>>=◌ (ok value) next = next value

  abbrev pub ◌>>◌ : Result X → Result Y → Result Y
  first >> second = first >>= λ _. second

  pub >>=-eq-ok :
      (r : Result X) (next : X → Result Y) {y : Y}
      → (r >>= next) ≡ ok y
      → (x : X) × (r ≡ ok x) × (next x ≡ ok y)
  >>=-eq-ok (err failed) next p = cc
  >>=-eq-ok (ok value) next p = (value, refl, p)

module _ {ℓ κ} {A : Type ℓ} {B : Type κ} where
  -- `iter().map(f).collect::<Result<Vec<_>>>()`: the first error ends the walk.
  unfoldable pub collect : (A → Result B) → List A → Result (List B)
  collect f [] = ok []
  collect f (x ∷ xs) = let rest = collect f xs in f x >>= λ y. rest >>= λ ys. ok (y ∷ ys)

pub Result-cases {ℓ} :
    {A : Type ℓ} (r : Result A) → ((a : A) × (r ≡ ok a)) ⊎ ((e : Error) × (r ≡ err e))
Result-cases (ok a) = inl (a, refl)
Result-cases (err e) = inr (e, refl)

pub ok_inj {ℓ} : {A : Type ℓ} {a b : A} → ok a ≡ ok b → a ≡ b
ok_inj h = cc

pub err_inj {ℓ} : {A : Type ℓ} {e f : Error} → ◌≡◌ {A = Result A} (err e) (err f) → e ≡ f
err_inj h = cc

pub ok_err {ℓ} : {A : Type ℓ} {a : A} {e : Error} → ok a ≡ err e → ⊥
ok_err h = cc
