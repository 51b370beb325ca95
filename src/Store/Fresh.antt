-- ===== src/Store/Fresh.antt =====
-- The addresses of the records that the closures of src/store/mod.rs write.
use pulsar_verifier.Prelude.{none, some, refl, ◌≡◌, ℕ, Option, arith}
use pulsar_verifier.Error.{ok, Result}
use pulsar_verifier.Identity.{VerificationId}
use pulsar_verifier.Proof.{Proof}
use pulsar_verifier.Store.Entries.{
  observe_entry, insert_entry, attach_entry, begin_entry, finish_entry, retry_entry,
}
use pulsar_verifier.Store.Moka.{Op}
use pulsar_verifier.Store.Record.{Arc, ProofSource, ProofRecord, VerificationState}

module _ (address : ℕ) where
  -- A record that a closure writes is freshly allocated.
  abbrev pub IsFresh : Result (Op (Arc ProofRecord)) → Type 0
  IsFresh (ok (Op.put a)) = a.address ≡ address
  IsFresh answer = Unit {0}

  pub observe_entry-IsFresh :
      (now : ℕ) (old : Option (Arc ProofRecord)) → IsFresh (observe_entry address now old)
  unfolding observe_entry
  observe_entry-IsFresh now none = refl
  observe_entry-IsFresh now (some a) = ground arith

  pub insert_entry-IsFresh :
      (p : Proof) (source : ProofSource) (now : ℕ) (old : Option (Arc ProofRecord))
      → IsFresh (insert_entry address p source now old)
  unfolding insert_entry
  insert_entry-IsFresh p source now none = refl
  insert_entry-IsFresh p source now (some a) = ground arith

  pub attach_entry-IsFresh :
      (id : VerificationId) (p : Proof) (source : ProofSource) (now : ℕ)
      (old : Option (Arc ProofRecord))
      → IsFresh (attach_entry address id p source now old)
  unfolding attach_entry
  attach_entry-IsFresh id p source now none = tt
  attach_entry-IsFresh id p source now (some a) = ground arith

  pub begin_entry-IsFresh : (old : Option (Arc ProofRecord)) → IsFresh (begin_entry address old)
  unfolding begin_entry
  begin_entry-IsFresh none = tt
  begin_entry-IsFresh (some a) = ground arith

  pub finish_entry-IsFresh :
      (id : VerificationId) (claim : Arc ProofRecord) (next : VerificationState) (at : Option ℕ)
      (old : Option (Arc ProofRecord))
      → IsFresh (finish_entry address id claim next at old)
  unfolding finish_entry
  finish_entry-IsFresh id claim next at none = tt
  finish_entry-IsFresh id claim next at (some a) = ground arith

  pub retry_entry-IsFresh :
      (id : VerificationId) (old : Option (Arc ProofRecord)) → IsFresh (retry_entry address id old)
  unfolding retry_entry
  retry_entry-IsFresh id none = tt
  retry_entry-IsFresh id (some a) = ground arith
