-- ===== src/Store/Spec.antt =====
-- The store (src/store/mod.rs) as a map from identities to records: what it promises to a client
-- that knows nothing of addresses, caches and closures.
use pulsar_verifier.Prelude.{
  if◌then◌else◌, none, some, inl, inr, refl, ◌≡◌, ◌&&◌, ◌==◌, ℕ, Option, is_some, is_none, arith,
  ==_cases,
}
use pulsar_verifier.Error.{ok, err, Result}
use pulsar_verifier.Identity.{VerificationId, id_eq}
use pulsar_verifier.Proof.{Proof}
use pulsar_verifier.Store.Entries.{observe_entry}
use pulsar_verifier.Store.Moka.{Moka, Op}
use pulsar_verifier.Store.Operations.{ProofStore, observe_chain_verification, transition}
use pulsar_verifier.Store.Record.{ProofRecord, ProofSource, Arc, VerificationState}
use pulsar_verifier.Store.Transition.{settled, transition-settled}

-- The record of an identity that was observed on chain.
abbrev pub observed : ℕ → Option ProofRecord → ProofRecord
observed now none = record {
  metadata = record {
    chain_observed_at = some now;
    content_source = none;
    content_stored_at = none;
    verification = none;
    completed_at = none;
  };
  proof = none;
}
observed now (some r) = if is_some r.chain_observed_at then r else record {
  metadata = record {
    chain_observed_at = some now;
    content_source = r.content_source;
    content_stored_at = r.content_stored_at;
    verification =
        if is_some r.proof && is_none r.verification
        then some VerificationState.queued
        else r.verification;
    completed_at = r.completed_at;
  };
  proof = r.proof;
}

-- The record of an identity whose content was supplied.
abbrev pub supplied : Proof → ProofSource → ℕ → Option ProofRecord → ProofRecord
supplied p source now none = record {
  metadata = record {
    chain_observed_at = none;
    content_source = some source;
    content_stored_at = some now;
    verification = none;
    completed_at = none;
  };
  proof = some p;
}
supplied p source now (some r) = if is_some r.proof then r else record {
  metadata = record {
    chain_observed_at = r.chain_observed_at;
    content_source = some source;
    content_stored_at = some now;
    verification =
        if is_some r.chain_observed_at && is_none r.verification
        then some VerificationState.queued
        else r.verification;
    completed_at = r.completed_at;
  };
  proof = some p;
}

abbrev pub value_of : Option (Arc ProofRecord) → Option ProofRecord
value_of none = none
value_of (some a) = some a.value

module _ ⦃moka : Moka (Arc ProofRecord)⦄ where
  abbrev pub view : ProofStore → VerificationId → Option ProofRecord
  view s id = value_of (moka.get s.records id)

  unfoldable pub value_after :
      Option (Arc ProofRecord) → Result (Op (Arc ProofRecord)) → Option ProofRecord
  value_after old (ok (Op.put a)) = some a.value
  value_after old (ok Op.remove) = none
  value_after old answer = value_of old

  same :
      (s : ProofStore) (id j : VerificationId) (old : Option (Arc ProofRecord))
      → moka.get s.records id ≡ old
      → view s j ≡ (if id == j then value_of old else view s j)
  same s id j old h = elim (==_cases id j) [
    | inl (e, t) ↦ rw (t, ← h, e) refl
    | inr (n, t) ↦ rw t refl
  ]

  view-settled :
      (s : ProofStore) (id j : VerificationId) (old : Option (Arc ProofRecord))
      (answer : Result (Op (Arc ProofRecord)))
      → moka.get s.records id ≡ old
      → view (settled s id old answer).1 j ≡ (if id == j then value_after old answer else view s j)
  unfolding value_after
  view-settled s id j old (err e) h = same s id j old h
  view-settled s id j none (ok Op.nop) h = same s id j none h
  view-settled s id j (some a) (ok Op.nop) h = same s id j (some a) h
  view-settled s id j none (ok (Op.put b)) h = ground (arith, moka.get-insert s.records id j b)
  view-settled s id j (some a) (ok (Op.put b)) h = ground (arith, moka.get-insert s.records id j b)
  view-settled s id j none (ok Op.remove) h = same s id j none h
  view-settled s id j (some a) (ok Op.remove) h = ground (arith, moka.get-invalidate s.records id j)

  pub view-transition :
      (s : ProofStore) (id j : VerificationId)
      (f : ℕ → Option (Arc ProofRecord) → Result (Op (Arc ProofRecord)))
      → view (transition id f s).1 j ≡ (
          if id == j
          then value_after (moka.get s.records id) (f s.next_address (moka.get s.records id))
          else view s j)
  view-transition s id j f = rw (transition-settled s id f) (view-settled s id j _ _ refl)

  observed_value :
      (address now : ℕ) (old : Option (Arc ProofRecord))
      → value_after old (observe_entry address now old) ≡ some (observed now (value_of old))
  unfolding value_after observe_entry
  observed_value address now none = refl
  observed_value address now (some a) = ground arith

  -- An observation writes its own identity's record and no other, whatever was there.
  pub view-observe :
      (now : ℕ) (id j : VerificationId) (s : ProofStore)
      → view (observe_chain_verification now id s).1 j
        ≡ (if id == j then some (observed now (view s id)) else view s j)
  unfolding observe_chain_verification
  view-observe now id j s = ground (
    arith,
    view-transition s id j (λ a. observe_entry a now),
    observed_value s.next_address now (moka.get s.records id),
  )
