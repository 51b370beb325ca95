-- ===== src/Store/Merge.antt =====
-- Content and observations that meet in one record (src/store/mod.rs).
use pulsar_verifier.Prelude.{
  if◌then◌else◌, none, some, inl, inr, refl, ◌≡◌, ◌≤◌, ◌&&◌, ◌==◌, ℕ, Option, is_some, arith, leb,
  Bool-cases, leb→le, ==_refl,
}
use pulsar_verifier.Error.{ok}
use pulsar_verifier.Identity.{VerificationId, PeerId, id_eq}
use pulsar_verifier.Proof.{Sha256, Prost, Proof, encoded_len, verification_id}
use pulsar_verifier.Store.Entries.{validate_proof, insert_entry, attach_entry}
use pulsar_verifier.Store.Moka.{Moka}
use pulsar_verifier.Store.Operations.{
  insert_local_proof, attach_downloaded_proof, ProofStore, observe_chain_verification, transition,
}
use pulsar_verifier.Store.Record.{Arc, ProofRecord, ProofSource, peer}
use pulsar_verifier.Store.Spec.{
  value_after, view, supplied, view-transition, value_of, observed, view-observe,
}

module _ ⦃moka : Moka (Arc ProofRecord)⦄ where
  supplied_value :
      (address : ℕ) (p : Proof) (source : ProofSource) (now : ℕ) (old : Option (Arc ProofRecord))
      → value_after old (insert_entry address p source now old)
        ≡ some (supplied p source now (value_of old))
  unfolding value_after insert_entry
  supplied_value address p source now none = refl
  supplied_value address p source now (some a) = ground arith

  -- What an attachment leaves behind: nothing changes unless the identity was observed.
  abbrev pub attached : Proof → ProofSource → ℕ → Option ProofRecord → Option ProofRecord
  attached p source now none = none
  attached p source now (some r) =
      if is_some r.chain_observed_at then some (supplied p source now (some r)) else some r

  attached_value :
      (address : ℕ) (id : VerificationId) (p : Proof) (source : ProofSource) (now : ℕ)
      (old : Option (Arc ProofRecord))
      → value_after old (attach_entry address id p source now old)
        ≡ attached p source now (value_of old)
  unfolding value_after attach_entry
  attached_value address id p source now none = refl
  attached_value address id p source now (some a) = ground arith

module _ ⦃sha : Sha256⦄ ⦃prost : Prost⦄ where
  -- What `validate_proof` accepts.
  pub validate_proof_fits :
      (maximum : ℕ) (id : VerificationId) (p : Proof)
      → encoded_len p ≤ maximum
      → verification_id p ≡ id
      → validate_proof maximum id p ≡ ok tt
  unfolding validate_proof
  validate_proof_fits maximum id p h e = ground (arith, (id_eq.beq_iff (verification_id p) id).1 e)

module _ ⦃sha : Sha256⦄ ⦃prost : Prost⦄ ⦃moka : Moka (Arc ProofRecord)⦄ where
  -- A local proof within the size limit writes the record of its own identity and no other; a
  -- larger one changes no record.
  pub view-insert :
      (now : ℕ) (p : Proof) (source : ProofSource) (j : VerificationId) (s : ProofStore)
      → view (insert_local_proof now p source s).1 j ≡ (
          if leb (encoded_len p) s.max_proof_bytes && (verification_id p == j)
          then some (supplied p source now (view s (verification_id p)))
          else view s j)
  unfolding insert_local_proof
  view-insert now p source j s = elim (Bool-cases (leb (encoded_len p) s.max_proof_bytes)) [
    | inl fits ↦ ground (
      arith,
      validate_proof_fits s.max_proof_bytes (verification_id p) p (leb→le _ _ fits) refl,
      view-transition s (verification_id p) j (λ a. insert_entry a p source now),
      supplied_value s.next_address p source now (moka.get s.records (verification_id p)),
    )
    | inr large ↦ unfold validate_proof in ground arith
  ]

  -- A downloaded proof within the size limit and with the expected identity is attached to an
  -- observed record; any other changes no record.
  pub view-attach :
      (now : ℕ) (id : VerificationId) (p : Proof) (from : PeerId) (j : VerificationId)
      (s : ProofStore)
      → view (attach_downloaded_proof now id p from s).1 j ≡ (
          if leb (encoded_len p) s.max_proof_bytes && ((verification_id p == id) && (id == j))
          then attached p (peer from) now (view s id)
          else view s j)
  unfolding attach_downloaded_proof validate_proof
  view-attach now id p from j s = ground (
    arith,
    view-transition s id j (λ a. attach_entry a id p (peer from) now),
    attached_value s.next_address id p (peer from) now (moka.get s.records id),
  )

  maximum-observe :
      (now : ℕ) (id : VerificationId) (s : ProofStore)
      → (observe_chain_verification now id s).1.max_proof_bytes ≡ s.max_proof_bytes
  unfolding observe_chain_verification transition
  maximum-observe now id s = ground (arith)

  merged :
      (observed_at stored_at : ℕ) (p : Proof) (source : ProofSource) (o : Option ProofRecord)
      → supplied p source stored_at (some (observed observed_at o))
        ≡ observed observed_at (some (supplied p source stored_at o))
  merged observed_at stored_at p source none = refl
  merged observed_at stored_at p source (some r) = ground arith

  -- The record of an identity does not depend on whether its content or its observation came
  -- first, and neither do the records of the other identities.
  pub observe-insert_comm :
      (observed_at stored_at : ℕ) (p : Proof) (source : ProofSource) (j : VerificationId)
      (s : ProofStore)
      → view
          (insert_local_proof stored_at p source
            (observe_chain_verification observed_at (verification_id p) s).1).1
          j
        ≡ view
            (observe_chain_verification observed_at
              (verification_id p)
              (insert_local_proof stored_at p source s).1).1
            j
  observe-insert_comm observed_at stored_at p source j s =
      let id = verification_id p in
      let s1 = (observe_chain_verification observed_at id s).1 in
      let s2 = (insert_local_proof stored_at p source s).1 in
      ground (
        arith,
        view-insert stored_at p source j s1,
        view-observe observed_at id j s,
        view-observe observed_at id id s,
        ==_refl id,
        view-observe observed_at id j s2,
        view-insert stored_at p source j s,
        view-insert stored_at p source id s,
        maximum-observe observed_at id s,
        merged observed_at stored_at p source (view s id),
      )
