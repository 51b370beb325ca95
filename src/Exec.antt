-- ===== src/Exec.antt =====
-- Methods on `&mut self` that return a `Result`: the state comes back beside an error too, because
-- what was written before it stays written.
use pulsar_verifier.Prelude.{◌≡◌, refl, arith}
use pulsar_verifier.Error.{ok, err, Result, Error}

abbrev pub Exec {ℓ} : Type ℓ → Type ℓ → Type ℓ
Exec S A = S → Result A × S

module _ {ℓ} {S A : Type ℓ} where
  abbrev pub pure : A → Exec S A
  pure a s = (ok a, s)

  abbrev pub raise : Error → Exec S A
  raise e s = (err e, s)

  abbrev pub lift : Result A → Exec S A
  lift r s = (r, s)

  abbrev pub gets : (S → A) → Exec S A
  gets f s = (ok (f s), s)

abbrev pub modify {ℓ} : {S : Type ℓ} → (S → S) → S → Result (Unit {ℓ}) × S
modify f s = (ok tt, f s)

module _ {κ} {S X Y : Type κ} where
  abbrev pub continue : (X → Exec S Y) → Result X × S → Result Y × S
  continue next (err failed, s) = (err failed, s)
  continue next (ok x, s) = next x s

  continue-err :
      (next : X → Exec S Y) (p : Result X × S) (failed : Error)
      → p.0 ≡ err failed
      → (continue next p).1 ≡ p.1
  continue-err next (err e, s) failed h = refl
  continue-err next (ok x, s) failed h = cc

  continue-failed :
      (next : X → Exec S Y) (p : Result X × S) (failed : Error)
      → p.0 ≡ err failed
      → (continue next p).0 ≡ err failed
  continue-failed next (err e, s) failed h = ground arith
  continue-failed next (ok x, s) failed h = cc

  continue-eq-ok :
      (next : X → Exec S Y) (p : Result X × S) (y : Y)
      → (continue next p).0 ≡ ok y
      → (x : X) × (p.0 ≡ ok x) × (continue next p ≡ next x p.1)
  continue-eq-ok next (err e, s) y h = cc
  continue-eq-ok next (ok x, s) y h = (x, refl, refl)

  continue-ok :
      (next : X → Exec S Y) (p : Result X × S) (x : X) → p.0 ≡ ok x → continue next p ≡ next x p.1
  continue-ok next (err e, s) x h = cc
  continue-ok next (ok y, s) x h = ground arith

  infixl 10 ◌>>=◌ ◌>>◌
  abbrev pub ◌>>=◌ : Exec S X → (X → Exec S Y) → Exec S Y
  ◌>>=◌ action next s = continue next (action s)

  abbrev pub ◌>>◌ : Exec S X → Exec S Y → Exec S Y
  first >> second = first >>= λ _. second

  -- What a sequence leaves, by the result of its first action.
  pub >>=-err :
      (action : Exec S X) (next : X → Exec S Y) (s : S) (failed : Error)
      → (action s).0 ≡ err failed
      → ((action >>= next) s).1 ≡ (action s).1
  >>=-err action next s failed h = continue-err next (action s) failed h

  pub >>=-ok :
      (action : Exec S X) (next : X → Exec S Y) (s : S) (x : X)
      → (action s).0 ≡ ok x
      → (action >>= next) s ≡ next x (action s).1
  >>=-ok action next s x h = continue-ok next (action s) x h

  pub >>=-failed :
      (action : Exec S X) (next : X → Exec S Y) (s : S) (failed : Error)
      → (action s).0 ≡ err failed
      → ((action >>= next) s).0 ≡ err failed
  >>=-failed action next s failed h = continue-failed next (action s) failed h

  -- A sequence that succeeds: its first action succeeds, and the rest goes on from there.
  pub >>=-eq-ok :
      (action : Exec S X) (next : X → Exec S Y) (s : S) (y : Y)
      → ((action >>= next) s).0 ≡ ok y
      → (x : X) × ((action s).0 ≡ ok x) × ((action >>= next) s ≡ next x (action s).1)
  >>=-eq-ok action next s y h = continue-eq-ok next (action s) y h
