-- ===== src/Store/Transition.antt =====
-- One `and_try_compute_with` of src/store/mod.rs, computed through the law of the cache.
use pulsar_verifier.Prelude.{none, some, ◌≡◌, suc, Option, ℕ, refl, ◌∙◌, ap}
use pulsar_verifier.Error.{ok, err, Result}
use pulsar_verifier.Identity.{VerificationId}
use pulsar_verifier.Store.Moka.{Moka, Op, CompResult, computed}
use pulsar_verifier.Store.Operations.{ProofStore, transition, committed}
use pulsar_verifier.Store.Record.{Arc, ProofRecord}

module _ ⦃moka : Moka (Arc ProofRecord)⦄ where
  abbrev pub claimed_address : ProofStore → ProofStore
  claimed_address s = record s { next_address = suc s.next_address }

  abbrev pub written : ProofStore → VerificationId → Arc ProofRecord → ProofStore
  written s id a = record s {
    records = moka.insert s.records id a;
    next_address = suc s.next_address;
  }

  abbrev pub dropped : ProofStore → VerificationId → ProofStore
  dropped s id = record s { records = moka.invalidate s.records id }

  -- The result of a transition, by the entry that it finds and by what its closure answers.
  abbrev pub settled :
      ProofStore
      → VerificationId
      → Option (Arc ProofRecord)
      → Result (Op (Arc ProofRecord))
      → Result (CompResult (Arc ProofRecord)) × ProofStore
  settled s id old (err e) = (err e, s)
  settled s id none (ok Op.nop) = (ok CompResult.still_none, claimed_address s)
  settled s id (some a) (ok Op.nop) = (ok (CompResult.unchanged a), claimed_address s)
  settled s id none (ok (Op.put b)) = (ok (CompResult.inserted b), written s id b)
  settled s id (some a) (ok (Op.put b)) = (ok (CompResult.replaced_with b), written s id b)
  settled s id none (ok Op.remove) = (ok CompResult.still_none, claimed_address s)
  settled s id (some a) (ok Op.remove) = (
    ok (CompResult.removed a),
    record s { records = moka.invalidate s.records id; next_address = suc s.next_address },
  )

  committed-computed :
      (s : ProofStore) (id : VerificationId) (old : Option (Arc ProofRecord))
      (answer : Result (Op (Arc ProofRecord)))
      → committed s (computed moka.insert moka.invalidate s.records id old answer)
        ≡ settled s id old answer
  committed-computed s id old (err e) = refl
  committed-computed s id none (ok Op.nop) = refl
  committed-computed s id (some a) (ok Op.nop) = refl
  committed-computed s id none (ok (Op.put b)) = refl
  committed-computed s id (some a) (ok (Op.put b)) = refl
  committed-computed s id none (ok Op.remove) = refl
  committed-computed s id (some a) (ok Op.remove) = refl

  pub transition-settled :
      (s : ProofStore) (id : VerificationId)
      (f : ℕ → Option (Arc ProofRecord) → Result (Op (Arc ProofRecord)))
      → transition id f s
        ≡ settled s id (moka.get s.records id) (f s.next_address (moka.get s.records id))
  unfolding transition
  transition-settled s id f =
      ap (committed s) (moka.compute_lem s.records id (f s.next_address))
      ∙ committed-computed s id (moka.get s.records id) (f s.next_address (moka.get s.records id))
