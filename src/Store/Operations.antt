-- ===== src/Store/Operations.antt =====
-- The methods of `ProofStore` (src/store/mod.rs). An `async` method is one atomic step, as its
-- `entry(..).and_try_compute_with(..)` is, with the events that it publishes right after it.
use pulsar_verifier.Prelude.{if◌then◌else◌, [], none, some, ◌∷◌, ◌++◌, List, ℕ, Option, suc}
use pulsar_verifier.Error.{ok, err, Result, invalid_verification_transition}
use pulsar_verifier.Exec.{◌>>=◌, ◌>>◌, Exec, raise, pure, gets, lift}
use pulsar_verifier.Identity.{VerificationId, PeerId, id_eq}
use pulsar_verifier.Proof.{Sha256, Prost, Proof, verification_id}
use pulsar_verifier.Store.Entries.{
  observe_entry, begin_entry, retry_entry, insert_entry, attach_entry, store_change, result_state,
  next_state, validate_proof, finish_closure,
}
use pulsar_verifier.Store.Event.{
  ProofStoreEvent, proof_evicted, verification_observed, ProofEvictionCause, verification_changed,
  proof_stored,
}
use pulsar_verifier.Store.Limits.{ProofStoreConfig, check_config}
use pulsar_verifier.Store.Moka.{Moka, CompResult, RemovalCause, Op}
use pulsar_verifier.Store.Record.{
  Arc, ProofRecord, VerificationOutcome, VerificationState, VerificationJob, is_changed,
  StoreChange, ProofSource, is_queued, peer,
}

module _ ⦃moka : Moka (Arc ProofRecord)⦄ where
  pub record ProofStore : Type 0 where
    pub records : moka.Map
    pub events : List ProofStoreEvent
    pub max_proof_bytes : ℕ
    pub next_address : ℕ

  -- `ProofStore::new`, of a configuration that its checks accept.
  unfoldable pub new : ProofStoreConfig → Result ProofStore
  new config = elim (check_config config) [
    | err e ↦ err e
    | ok _ ↦ ok (record {
      records = moka.empty;
      events = [];
      max_proof_bytes = config.max_proof_bytes;
      next_address = 0;
    })
  ]

  unfoldable pub publish : ProofStoreEvent → Exec ProofStore (Unit {0})
  publish event s = (ok tt, record s { events = s.events ++ (event ∷ []) })

  -- The store after a computation of the cache, which may have allocated one address.
  abbrev pub committed :
      ProofStore
      → Result (moka.Map × CompResult (Arc ProofRecord))
      → Result (CompResult (Arc ProofRecord)) × ProofStore
  committed s (err e) = (err e, s)
  committed s (ok (m, r)) = (ok r, record s { records = m; next_address = suc s.next_address })

  -- One `and_try_compute_with`; the closure is given a fresh address.
  unfoldable pub transition :
      VerificationId
      → (ℕ → Option (Arc ProofRecord) → Result (Op (Arc ProofRecord)))
      → Exec ProofStore (CompResult (Arc ProofRecord))
  transition id f s = committed s (moka.compute s.records id (f s.next_address))

  -- The events of a method that may have queued the record, when it changed anything.
  unfoldable pub announce :
      VerificationId → ProofStoreEvent → CompResult (Arc ProofRecord) → Exec ProofStore (Unit {0})
  unfolding publish
  announce id event result =
      if is_changed (store_change result)
      then publish event
        >> (if is_queued (result_state result)
            then publish (verification_changed id VerificationState.queued)
            else pure tt)
      else pure tt

  unfoldable pub observe_chain_verification : ℕ → VerificationId → Exec ProofStore StoreChange
  unfolding announce
  observe_chain_verification now id = do
    result ← transition id (λ a. observe_entry a now)
    announce id (verification_observed id) result
    pure (store_change result)

  module _ ⦃sha : Sha256⦄ ⦃prost : Prost⦄ where
    unfoldable pub insert_local_proof :
        ℕ → Proof → ProofSource → Exec ProofStore (VerificationId × StoreChange)
    unfolding announce
    insert_local_proof now p source = do
      let id = verification_id p
      maximum ← gets (λ s. s.max_proof_bytes)
      lift (validate_proof maximum id p)
      result ← transition id (λ a. insert_entry a p source now)
      announce id (proof_stored id source) result
      pure (id, store_change result)

    unfoldable pub attach_downloaded_proof :
        ℕ → VerificationId → Proof → PeerId → Exec ProofStore StoreChange
    unfolding announce
    attach_downloaded_proof now expected_id p from = do
      let source = peer from
      maximum ← gets (λ s. s.max_proof_bytes)
      lift (validate_proof maximum expected_id p)
      result ← transition expected_id (λ a. attach_entry a expected_id p source now)
      announce expected_id (proof_stored expected_id source) result
      pure (store_change result)

  unfoldable pub get : ProofStore → VerificationId → Option (Arc ProofRecord)
  get s id = moka.get s.records id

  unfoldable pub get_proof : ProofStore → VerificationId → Option Proof
  unfolding get
  get_proof s id = elim (get s id) [ none ↦ none | some entry ↦ entry.value.proof ]

  -- The job of a claimed record.
  unfoldable pub claimed :
      VerificationId → Arc ProofRecord → Exec ProofStore (Option VerificationJob)
  unfolding publish
  claimed id claim = elim claim.value.proof [
    | none ↦ raise (invalid_verification_transition id)
    | some p ↦ do
      publish (verification_changed id VerificationState.verifying)
      pure (some (record { verification_id = id; proof = p; claim = claim }))
  ]

  unfoldable pub begin_verification : VerificationId → Exec ProofStore (Option VerificationJob)
  unfolding claimed
  begin_verification id = do
    result ← transition id begin_entry
    elim result [ CompResult.replaced_with entry ↦ claimed id entry | _ ↦ pure none ]

  -- The event of a method that wrote a new state, when it changed anything.
  unfoldable pub announce_state :
      VerificationId → VerificationState → CompResult (Arc ProofRecord) → Exec ProofStore (Unit {0})
  unfolding publish
  announce_state id state result =
      if is_changed (store_change result) then publish (verification_changed id state) else pure tt

  unfoldable pub finish_verification :
      ℕ → VerificationJob → VerificationOutcome → Exec ProofStore StoreChange
  unfolding announce_state
  finish_verification now job outcome = do
    result ← transition job.verification_id (finish_closure now job outcome)
    announce_state job.verification_id (next_state outcome) result
    pure (store_change result)

  unfoldable pub retry_verification : VerificationId → Exec ProofStore StoreChange
  unfolding announce_state
  retry_verification id = do
    result ← transition id (λ a. retry_entry a id)
    announce_state id VerificationState.queued result
    pure (store_change result)

  -- The eviction listener of `ProofStore::new`.
  unfoldable pub eviction_listener : VerificationId → RemovalCause → Exec ProofStore (Unit {0})
  unfolding publish
  eviction_listener id RemovalCause.expired = publish (proof_evicted id ProofEvictionCause.expired)
  eviction_listener id RemovalCause.explicit =
      publish (proof_evicted id ProofEvictionCause.explicit)
  eviction_listener id RemovalCause.size = publish (proof_evicted id ProofEvictionCause.size)
  eviction_listener id RemovalCause.replaced = pure tt

  -- The cache drops a record, if it holds one, and tells the listener.
  unfoldable pub evict : VerificationId → RemovalCause → Exec ProofStore (Unit {0})
  unfolding eviction_listener
  evict id cause s = elim (moka.get s.records id) [
    | none ↦ (ok tt, s)
    | some entry ↦ eviction_listener id cause (record s { records = moka.invalidate s.records id })
  ]

  -- `ProofStore::invalidate`.
  unfoldable pub invalidate : VerificationId → Exec ProofStore (Unit {0})
  unfolding evict
  invalidate id = evict id RemovalCause.explicit
