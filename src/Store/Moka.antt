-- ===== src/Store/Moka.antt =====
-- The third-party concurrent cache (`moka::future::Cache`) behind the laws that the store relies
-- on. What the cache evicts by itself is not a law: it is a step of its own, `evict` of Store.antt.
use pulsar_verifier.Prelude.{Option, List, ◌≡◌, none, some, if◌then◌else◌, ◌==◌, ◌↔◌, Holds}
use pulsar_verifier.Error.{Result, err, ok}
use pulsar_verifier.Identity.{VerificationId, id_eq}

-- `moka::ops::compute::{Op, CompResult}`.
pub data Op {ℓ} (V : Type ℓ) : Type ℓ where
  nop : Op V
  put : V → Op V
  remove : Op V

pub data CompResult {ℓ} (V : Type ℓ) : Type ℓ where
  inserted replaced_with unchanged removed : V → CompResult V
  still_none : CompResult V

-- `moka::notification::RemovalCause`.
pub data RemovalCause : Type 0 where
  expired explicit replaced size : RemovalCause

-- What `entry(k).and_try_compute_with(f)` documents, for the entry that it finds and for what `f`
-- answers: an error changes nothing, and a value is written or removed in one step.
abbrev pub computed {ℓ} :
    {M K V : Type ℓ}
    → (M → K → V → M)
    → (M → K → M)
    → M
    → K
    → Option V
    → Result (Op V)
    → Result (M × CompResult V)
computed insert invalidate m k old (err e) = err e
computed insert invalidate m k none (ok nop) = ok (m, still_none)
computed insert invalidate m k (some v) (ok nop) = ok (m, unchanged v)
computed insert invalidate m k none (ok (put w)) = ok (insert m k w, inserted w)
computed insert invalidate m k (some v) (ok (put w)) = ok (insert m k w, replaced_with w)
computed insert invalidate m k none (ok remove) = ok (m, still_none)
computed insert invalidate m k (some v) (ok remove) = ok (invalidate m k, removed v)

pub record Moka (V : Type 0) : Type 1 where
  pub Map : Type 0
  pub empty : Map
  pub get : Map → VerificationId → Option V
  pub insert : Map → VerificationId → V → Map
  pub invalidate : Map → VerificationId → Map
  pub entries : Map → List (VerificationId × V)
  pub compute : Map → VerificationId → (Option V → Result (Op V)) → Result (Map × CompResult V)
  pub get-empty : (k : VerificationId) → get empty k ≡ none
  pub get-insert :
      (m : Map) (k j : VerificationId) (v : V)
      → get (insert m k v) j ≡ (if k == j then some v else get m j)
  pub get-invalidate :
      (m : Map) (k j : VerificationId) → get (invalidate m k) j ≡ (if k == j then none else get m j)
  pub entries_iff :
      (m : Map) (k : VerificationId) (v : V) → Holds (k, v) (entries m) ↔ (get m k ≡ some v)
  pub compute_lem :
      (m : Map) (k : VerificationId) (f : Option V → Result (Op V))
      → compute m k f ≡ computed insert invalidate m k (get m k) (f (get m k))
