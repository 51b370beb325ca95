-- ===== src/Store/History.antt =====
-- Histories of a store (src/store/mod.rs): the calls of its concurrent users, and the evictions of
-- the cache, in the order in which the cache commits them.
use pulsar_verifier.Prelude.{[], ◌∷◌, ◌≡◌, ℕ, List, All, arith}
use pulsar_verifier.Error.{ok}
use pulsar_verifier.Identity.{VerificationId, PeerId}
use pulsar_verifier.Proof.{Sha256, Prost, Proof}
use pulsar_verifier.Store.Invariant.{
  Inv, observe-Inv, insert-Inv, attach-Inv, begin-Inv, finish-Inv, retry-Inv, evict-Inv,
}
use pulsar_verifier.Store.Limits.{ProofStoreConfig}
use pulsar_verifier.Store.Moka.{Moka, RemovalCause}
use pulsar_verifier.Store.Operations.{
  ProofStore, new, observe_chain_verification, insert_local_proof, attach_downloaded_proof,
  begin_verification, finish_verification, retry_verification, evict,
}
use pulsar_verifier.Store.Record.{
  ProofSource, Arc, ProofRecord, VerificationJob, VerificationOutcome,
}
use pulsar_verifier.Store.Validity.{IsBoundedOutcome}

pub data Call : Type 0 where
  observes : ℕ → VerificationId → Call
  inserts : ℕ → Proof → ProofSource → Call
  attaches : ℕ → VerificationId → Proof → PeerId → Call
  begins : VerificationId → Call
  finishes : ℕ → VerificationJob → VerificationOutcome → Call
  retries : VerificationId → Call
  evicts : VerificationId → RemovalCause → Call

module _ ⦃sha : Sha256⦄ ⦃prost : Prost⦄ ⦃moka : Moka (Arc ProofRecord)⦄ where
  abbrev pub step : Call → ProofStore → ProofStore
  step (observes now id) s = (observe_chain_verification now id s).1
  step (inserts now p source) s = (insert_local_proof now p source s).1
  step (attaches now id p from) s = (attach_downloaded_proof now id p from s).1
  step (begins id) s = (begin_verification id s).1
  step (finishes now job outcome) s = (finish_verification now job outcome s).1
  step (retries id) s = (retry_verification id s).1
  step (evicts id cause) s = (evict id cause s).1

  unfoldable pub run : List Call → ProofStore → ProofStore
  run [] s = s
  run (c ∷ cs) s = run cs (step c s)

  -- Failures have the bounds that `VerificationFailure::new` enforces.
  abbrev pub IsBoundedCall : Call → Type 0
  IsBoundedCall (finishes now job outcome) = IsBoundedOutcome outcome
  IsBoundedCall c = Unit {0}

  pub step-Inv : (c : Call) (s : ProofStore) → IsBoundedCall c → Inv s → Inv (step c s)
  step-Inv (observes now id) s h v = observe-Inv now id s v
  step-Inv (inserts now p source) s h v = insert-Inv now p source s v
  step-Inv (attaches now id p from) s h v = attach-Inv now id p from s v
  step-Inv (begins id) s h v = begin-Inv id s v
  step-Inv (finishes now job outcome) s h v = finish-Inv now job outcome s h v
  step-Inv (retries id) s h v = retry-Inv id s v
  step-Inv (evicts id cause) s h v = evict-Inv id cause s v

  -- From a valid store, after any calls with bounded failures in any order and any evictions,
  -- every record is valid: it has a verification state exactly when it is observed on chain and
  -- has content, a completion time exactly when it is completed, a source and a storage time
  -- exactly when it has content, and content of the accepted size that hashes to its identity.
  pub run-Inv : (cs : List Call) (s : ProofStore) → All IsBoundedCall cs → Inv s → Inv (run cs s)
  unfolding run
  run-Inv [] s h v = v
  run-Inv (c ∷ cs) s h v = run-Inv cs (step c s) h.1 (step-Inv c s h.0 v)

  pub new-Inv : (c : ProofStoreConfig) (s : ProofStore) → new c ≡ ok s → Inv s
  unfolding new
  new-Inv c s h j a e = absurd (ground (arith, moka.get-empty j))
