-- ===== src/Submission/Service.antt =====
-- src/submission.rs: the service that stores the content of a submission and relays its transaction.
use pulsar_verifier.Prelude.{
  if◌then◌else◌, [], none, some, ◌∷◌, ◌++◌, ◌≡◌, ◌==◌, List, ℕ, Option, bytes_eq, not, nat_beq, ◌+◌,
  ◌≤◌, ◌<◌, ◌⊎◌,
}
use pulsar_verifier.Chain.Client.{BroadcastResponse, BroadcastReceipt, broadcast_tx_sync}
use pulsar_verifier.Error.{ok, err, Result, transaction_hash_mismatch, check_tx_rejected}
use pulsar_verifier.Exec.{◌>>=◌, ◌>>◌, Exec, lift}
use pulsar_verifier.Identity.{VerificationId}
use pulsar_verifier.Proof.{Sha256, Prost, Proof}
use pulsar_verifier.Store.Moka.{Moka}
use pulsar_verifier.Store.Operations.{ProofStore, insert_local_proof}
use pulsar_verifier.Store.Record.{Arc, ProofRecord, rpc}
use pulsar_verifier.Submission.Message.{ValidatedSubmission, Decoders, validate_submission}

-- `SubmissionReceipt`.
pub record SubmissionReceipt : Type 0 where
  pub verification_id : VerificationId
  pub transaction_hash : List ℕ

-- `RECEIPT_CACHE_CAPACITY`, and `RECEIPT_CACHE_TTL` in nanoseconds.
abbrev pub receipt_cache_capacity : ℕ
receipt_cache_capacity = 4096

abbrev pub receipt_cache_ttl : ℕ
receipt_cache_ttl = 900000000000

-- The third-party cache of the receipts (`moka::future::Cache`). `build` takes the capacity and the
-- time to live; `get` is what is held at an instant; `try_get_with` takes the instant, the key and the
-- action. A held value is the result and the action does not run; otherwise the result is the
-- action's. Only a value of the action is new in the cache, until its time to live ends. The cache may
-- drop any value at any time, and does not get one back by itself.
pub record Receipts : Type 1 where
  pub Map : Type 0
  pub build : ℕ → ℕ → Map
  pub time_to_live : Map → ℕ
  pub get : ℕ → Map → List ℕ → Option SubmissionReceipt
  pub try_get_with :
      {S : Type 0}
      → ℕ
      → List ℕ
      → Exec S SubmissionReceipt
      → S
      → Map
      → Result SubmissionReceipt × (S × Map)
  pub time_to_live-build : (capacity ttl : ℕ) → time_to_live (build capacity ttl) ≡ ttl
  pub time_to_live-try :
      {S : Type 0} (now : ℕ) (key : List ℕ) (action : Exec S SubmissionReceipt) (s : S) (m : Map)
      → time_to_live (try_get_with now key action s m).1.1 ≡ time_to_live m
  pub get-build : (capacity ttl now : ℕ) (key : List ℕ) → get now (build capacity ttl) key ≡ none
  pub get-earlier :
      (now later : ℕ) (m : Map) (key : List ℕ) (r : SubmissionReceipt)
      → now ≤ later
      → get later m key ≡ some r
      → get now m key ≡ some r
  pub try-held :
      {S : Type 0} (now : ℕ) (key : List ℕ) (action : Exec S SubmissionReceipt) (s : S) (m : Map)
      (r : SubmissionReceipt)
      → get now m key ≡ some r
      → ((try_get_with now key action s m).0 ≡ ok r) × ((try_get_with now key action s m).1.0 ≡ s)
  pub try-missing :
      {S : Type 0} (now : ℕ) (key : List ℕ) (action : Exec S SubmissionReceipt) (s : S) (m : Map)
      → get now m key ≡ none
      → ((try_get_with now key action s m).0 ≡ (action s).0)
        × ((try_get_with now key action s m).1.0 ≡ (action s).1)
  pub get-try :
      {S : Type 0} (now later : ℕ) (key j : List ℕ) (action : Exec S SubmissionReceipt) (s : S)
      (m : Map) (r : SubmissionReceipt)
      → get later (try_get_with now key action s m).1.1 j ≡ some r
      → (get later m j ≡ some r)
        ⊎ ((key ≡ j)
            × (get now m key ≡ none)
            × ((action s).0 ≡ ok r)
            × (later < now + time_to_live m))

module _ ⦃moka : Moka (Arc ProofRecord)⦄ ⦃cache : Receipts⦄ where
  -- `relayed` are the transactions that have been handed to the node.
  pub record SubmissionService : Type 0 where
    pub store : ProofStore
    pub relayed : List (List ℕ)
    pub max_proof_bytes : ℕ
    pub max_transaction_bytes : ℕ
    pub receipts : cache.Map

  -- `SubmissionService::new`.
  unfoldable pub new : ProofStore → ℕ → ℕ → SubmissionService
  new store max_proof_bytes max_transaction_bytes = record {
    store = store;
    relayed = [];
    max_proof_bytes = max_proof_bytes;
    max_transaction_bytes = max_transaction_bytes;
    receipts = cache.build receipt_cache_capacity receipt_cache_ttl;
  }

  -- The call of `receipts.try_get_with`, with an action that does not touch the receipts.
  unfoldable pub with_receipt :
      ℕ
      → List ℕ
      → Exec SubmissionService SubmissionReceipt
      → Exec SubmissionService SubmissionReceipt
  with_receipt now key action s =
      let (r, (t, m)) = cache.try_get_with now key action s s.receipts in
      (r, record t { receipts = m })

  abbrev pub on_store : {A : Type 0} → Exec ProofStore A → Exec SubmissionService A
  on_store m s = let (r, t) = m s.store in (r, record s { store = t })

  abbrev pub Node : Type 0
  Node = List ℕ → Option BroadcastResponse

  abbrev pub broadcast : Node → List ℕ → Exec SubmissionService BroadcastReceipt
  broadcast node tx_raw s =
      (broadcast_tx_sync (node tx_raw), record s { relayed = s.relayed ++ (tx_raw ∷ []) })

  -- The checks on what the node answered.
  unfoldable pub accept : ValidatedSubmission → BroadcastReceipt → Result SubmissionReceipt
  accept v response =
      if not (response.transaction_hash == v.transaction_hash)
      then err transaction_hash_mismatch
      else if not (nat_beq response.code 0)
      then err (check_tx_rejected v.transaction_hash response.code)
      else ok
          (record { verification_id = v.verification_id; transaction_hash = v.transaction_hash })

  module _ ⦃sha : Sha256⦄ ⦃prost : Prost⦄ where
    -- The action that `submit` gives to `try_get_with`.
    unfoldable pub relay : ℕ → Node → ValidatedSubmission → Exec SubmissionService SubmissionReceipt
    unfolding accept
    relay now node v =
        on_store (insert_local_proof now v.proof rpc) >> broadcast node v.tx_raw >>= λ response.
        lift (accept v response)

    module _ ⦃decoders : Decoders⦄ where
      unfoldable pub submit : ℕ → Node → Proof → List ℕ → Exec SubmissionService SubmissionReceipt
      unfolding with_receipt relay
      submit now node p tx_raw s =
          (lift (validate_submission p tx_raw s.max_proof_bytes s.max_transaction_bytes) >>= λ v.
          with_receipt now v.transaction_hash (relay now node v))
            s
