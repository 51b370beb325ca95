-- ===== src/Store/Claims.antt =====
-- Identity of records in src/store/mod.rs: the addresses that a store has handed out, over its
-- history.
use pulsar_verifier.Prelude.{
  [], none, some, inl, inr, ◌∷◌, ◌≡◌, ◌≤◌, ◌<◌, ◌==◌, ◌⊎◌, arith, List, ℕ, Option, Bool-cases,
}
use pulsar_verifier.Error.{ok, err, Result}
use pulsar_verifier.Identity.{VerificationId, id_eq}
use pulsar_verifier.Proof.{Sha256, Prost}
use pulsar_verifier.Store.Atomic.{SameCore, Atomic, refused, step-Atomic, moved, forgot}
use pulsar_verifier.Store.Fresh.{IsFresh}
use pulsar_verifier.Store.History.{run, Call, step}
use pulsar_verifier.Store.Moka.{Moka, Op}
use pulsar_verifier.Store.Operations.{ProofStore}
use pulsar_verifier.Store.Record.{Arc, ProofRecord}
use pulsar_verifier.Store.Transition.{claimed_address, written, settled, dropped}

module _ ⦃moka : Moka (Arc ProofRecord)⦄ where
  -- The records that a store may hold later: its own, at most as they are, or fresh ones.
  pub record Follows (s t : ProofStore) : Type 0 where
    pub grows : s.next_address ≤ t.next_address
    pub kept :
        (id : VerificationId) (a : Arc ProofRecord)
        → moka.get t.records id ≡ some a
        → (moka.get s.records id ≡ some a)
          ⊎ ((s.next_address ≤ a.address) × (a.address < t.next_address))

  pub Follows-refl : (s : ProofStore) → Follows s s
  Follows-refl s = record { grows = omega arith; kept = λ id a e. inl e }

  Follows-trans : (s t u : ProofStore) → Follows s t → Follows t u → Follows s u
  Follows-trans s t u f g = record {
    grows = omega arith;
    kept = λ id a e. elim (g.kept id a e) [
      | inl old ↦ elim (f.kept id a old) [
        | inl older ↦ inl older
        | inr (l, m) ↦ inr (l, omega arith)
      ]
      | inr (l, m) ↦ inr (omega arith, m)
    ];
  }

  Follows-core : (s t u : ProofStore) → Follows s t → SameCore t u → Follows s u
  Follows-core s t u f c = record {
    grows = omega (arith, f.grows, c.address);
    kept = λ id a e. rw c.address (f.kept id a (rw c.records at e));
  }

  written-Follows :
      (s : ProofStore) (id : VerificationId) (b : Arc ProofRecord)
      → b.address ≡ s.next_address
      → Follows s (written s id b)
  written-Follows s id b fresh = record {
    grows = omega arith;
    kept = λ j a e. elim (Bool-cases (id == j)) [
      | inl hit ↦ inr (
        ground (arith, moka.get-insert s.records id j b),
        ground (arith, moka.get-insert s.records id j b),
      )
      | inr miss ↦ inl (ground (arith, moka.get-insert s.records id j b))
    ];
  }

  dropped-Follows :
      (s : ProofStore) (id : VerificationId) (n : ℕ)
      → s.next_address ≤ n
      → Follows s (record s { records = moka.invalidate s.records id; next_address = n })
  dropped-Follows s id n h = record {
    grows = h;
    kept = λ j a e. inl (ground (arith, moka.get-invalidate s.records id j));
  }

  reserved-Follows : (s : ProofStore) → Follows s (claimed_address s)
  reserved-Follows s = record { grows = omega arith; kept = λ j a e. inl e }

  settled-Follows :
      (s : ProofStore) (id : VerificationId) (old : Option (Arc ProofRecord))
      (answer : Result (Op (Arc ProofRecord)))
      → IsFresh s.next_address answer
      → Follows s (settled s id old answer).1
  settled-Follows s id old (err e) h = Follows-refl s
  settled-Follows s id none (ok Op.nop) h = reserved-Follows s
  settled-Follows s id (some a) (ok Op.nop) h = reserved-Follows s
  settled-Follows s id none (ok (Op.put b)) h = written-Follows s id b h
  settled-Follows s id (some a) (ok (Op.put b)) h = written-Follows s id b h
  settled-Follows s id none (ok Op.remove) h = reserved-Follows s
  settled-Follows s id (some a) (ok Op.remove) h = dropped-Follows s id _ (omega arith)

  pub Atomic-Follows : (s t : ProofStore) → Atomic s t → Follows s t
  Atomic-Follows s t (refused c) = Follows-core s s t (Follows-refl s) c
  Atomic-Follows s t (moved id f fresh c) =
      Follows-core s _ t
        (settled-Follows s id (moka.get s.records id) (f s.next_address (moka.get s.records id))
          fresh)
        c
  Atomic-Follows s t (forgot id c) =
      Follows-core s (dropped s id) t (dropped-Follows s id s.next_address (omega arith)) c

module _ ⦃sha : Sha256⦄ ⦃prost : Prost⦄ ⦃moka : Moka (Arc ProofRecord)⦄ where
  -- After any calls a record is the one that was there before, or freshly allocated.
  pub run-Follows : (cs : List Call) (s : ProofStore) → Follows s (run cs s)
  unfolding run
  run-Follows [] s = Follows-refl s
  run-Follows (c ∷ cs) s =
      Follows-trans s (step c s) (run cs (step c s)) (Atomic-Follows s (step c s) (step-Atomic c s))
        (run-Follows cs (step c s))
