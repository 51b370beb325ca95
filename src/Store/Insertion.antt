-- ===== src/Store/Insertion.antt =====
-- The whole of `ProofStore::insert_local_proof` (src/store/mod.rs) against its specification: what it
-- returns, what it announces and what it writes.
use pulsar_verifier.Prelude.{
  if◌then◌else◌, [], none, some, inl, inr, refl, ◌≡◌, ◌∷◌, ◌++◌, ◌&&◌, ◌==◌, ℕ, Option, is_some,
  arith, leb, Bool-cases, leb→le, List, true, ◌∙◌, ap,
}
use pulsar_verifier.Error.{ok, err, proof_too_large}
use pulsar_verifier.Identity.{VerificationId, id_eq}
use pulsar_verifier.Proof.{Sha256, Prost, Proof, encoded_len, verification_id}
use pulsar_verifier.Store.Announced.{announced, announce_lem}
use pulsar_verifier.Store.Entries.{
  insert_entry, with_content, queue_if_ready, store_change, validate_proof,
}
use pulsar_verifier.Store.Event.{ProofStoreEvent, proof_stored, verification_changed}
use pulsar_verifier.Store.Merge.{validate_proof_fits, view-insert}
use pulsar_verifier.Store.Moka.{Moka, CompResult}
use pulsar_verifier.Store.Operations.{insert_local_proof, announce, ProofStore, transition}
use pulsar_verifier.Store.Record.{
  ProofRecord, StoreChange, ProofSource, Arc, is_queued, VerificationState,
}
use pulsar_verifier.Store.Spec.{value_of, supplied, view}
use pulsar_verifier.Store.Transition.{transition-settled}

-- What the method did, by the record that it found.
abbrev pub insertion_change : Option ProofRecord → StoreChange
insertion_change none = StoreChange.inserted
insertion_change (some r) = if is_some r.proof then StoreChange.unchanged else StoreChange.updated

-- What it announces: new content, and that the record with it is ready.
abbrev stored_events : VerificationId → ProofSource → ProofRecord → List ProofStoreEvent
stored_events id source r =
    proof_stored id source
    ∷ (if is_queued r.verification
        then verification_changed id VerificationState.queued ∷ []
        else [])

abbrev pub insertion_events :
    VerificationId → ProofSource → ProofRecord → Option ProofRecord → List ProofStoreEvent
insertion_events id source r none = stored_events id source r
insertion_events id source r (some old) =
    if is_some old.proof then [] else stored_events id source r

-- What the closure of the method finds out, by the entry that it is given.
abbrev answered :
    ℕ → Proof → ProofSource → ℕ → Option (Arc ProofRecord) → CompResult (Arc ProofRecord)
answered address p source now none =
    CompResult.inserted (record { address = address; value = supplied p source now none })
answered address p source now (some a) =
    if is_some a.value.proof
    then CompResult.unchanged a
    else CompResult.replaced_with
        (record { address = address; value = supplied p source now (some a.value) })

answered-change :
    (address : ℕ) (p : Proof) (source : ProofSource) (now : ℕ) (old : Option (Arc ProofRecord))
    → store_change (answered address p source now old) ≡ insertion_change (value_of old)
answered-change address p source now none = refl
answered-change address p source now (some a) = ground arith

module _ ⦃sha : Sha256⦄ ⦃prost : Prost⦄ ⦃moka : Moka (Arc ProofRecord)⦄ where
  answered-events :
      (address : ℕ) (id : VerificationId) (p : Proof) (source : ProofSource) (now : ℕ)
      (old : Option (Arc ProofRecord))
      → announced id (proof_stored id source) (answered address p source now old)
        ≡ insertion_events id source (supplied p source now (value_of old)) (value_of old)
  unfolding announced
  answered-events address id p source now none = refl
  answered-events address id p source now (some a) = elim (Bool-cases (is_some a.value.proof)) [
    | inl full ↦ rw full refl
    | inr empty ↦ rw empty refl
  ]

  insert-answered :
      (now : ℕ) (p : Proof) (source : ProofSource) (s : ProofStore) (old : Option (Arc ProofRecord))
      → moka.get s.records (verification_id p) ≡ old
      → ((transition (verification_id p) (λ a. insert_entry a p source now) s).0
          ≡ ok (answered s.next_address p source now old))
        × ((transition (verification_id p) (λ a. insert_entry a p source now) s).1.events
            ≡ s.events)
  unfolding insert_entry with_content queue_if_ready
  insert-answered now p source s none h =
      ground (arith, h, transition-settled s (verification_id p) (λ a. insert_entry a p source now))
  insert-answered now p source s (some a) h =
      ground (arith, h, transition-settled s (verification_id p) (λ a. insert_entry a p source now))

  announce-ok :
      (id : VerificationId) (e : ProofStoreEvent) (r : CompResult (Arc ProofRecord))
      (s : ProofStore)
      → (announce id e r s).0 ≡ ok tt
  unfolding announce
  announce-ok id e r s = ground arith

  fitting-insert :
      (now : ℕ) (p : Proof) (source : ProofSource) (s : ProofStore)
      (r : CompResult (Arc ProofRecord))
      → leb (encoded_len p) s.max_proof_bytes ≡ true
      → (transition (verification_id p) (λ a. insert_entry a p source now) s).0 ≡ ok r
      → ((insert_local_proof now p source s).0 ≡ ok (verification_id p, store_change r))
        × ((insert_local_proof now p source s).1.events
            ≡ (transition (verification_id p) (λ a. insert_entry a p source now) s).1.events
              ++ announced (verification_id p) (proof_stored (verification_id p) source) r)
  unfolding insert_local_proof
  fitting-insert now p source s r fits h =
      let id = verification_id p in
      let t = (transition id (λ a. insert_entry a p source now) s).1 in
      ground (
        arith,
        h,
        validate_proof_fits s.max_proof_bytes id p (leb→le _ _ fits) refl,
        announce-ok id (proof_stored id source) r t,
        announce_lem id (proof_stored id source) r t,
      )

  -- A local proof is refused if it is larger than the limit, and then it is neither announced nor
  -- written. Otherwise the result is its identity with what was done, the events are those of the new
  -- content and of the record that is ready with it, and the record of its own identity and no other
  -- is written.
  pub insert_local_proof_lem :
      (now : ℕ) (p : Proof) (source : ProofSource) (j : VerificationId) (s : ProofStore)
      → ((insert_local_proof now p source s).0 ≡ (
          if leb (encoded_len p) s.max_proof_bytes
          then ok (verification_id p, insertion_change (view s (verification_id p)))
          else err (proof_too_large (verification_id p) (encoded_len p) s.max_proof_bytes)))
        × ((insert_local_proof now p source s).1.events ≡ (
            if leb (encoded_len p) s.max_proof_bytes
            then s.events
              ++ insertion_events
                  (verification_id p)
                  source
                  (supplied p source now (view s (verification_id p)))
                  (view s (verification_id p))
            else s.events))
        × (view (insert_local_proof now p source s).1 j ≡ (
            if leb (encoded_len p) s.max_proof_bytes && (verification_id p == j)
            then some (supplied p source now (view s (verification_id p)))
            else view s j))
  insert_local_proof_lem now p source j s =
      let id = verification_id p in
      let old = moka.get s.records id in
      elim (Bool-cases (leb (encoded_len p) s.max_proof_bytes)) [
        | inr large ↦ unfold insert_local_proof in unfold validate_proof in ground arith
        | inl fits ↦
            let found_by = answered s.next_address p source now old in
            let (found, kept) = insert-answered now p source s old refl in
            let (result, sent) =
              fitting-insert now p source s (answered s.next_address p source now old) fits found in
            (
              rw fits
                  (result ∙ ap (λ c. ok (id, c)) (answered-change s.next_address p source now old)),
              rw fits (
                  sent
                  ∙ ap (λ es. es ++ announced id (proof_stored id source) found_by) kept
                  ∙ ap (λ es. s.events ++ es) (answered-events s.next_address id p source now old)),
              view-insert now p source j s,
            )
      ]
