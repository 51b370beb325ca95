-- ===== src/Store/Atomic.antt =====
-- The calls of src/store/mod.rs as atomic steps of the cache on one identity, apart from what they
-- publish.
use pulsar_verifier.Prelude.{inl, inr, ◌≡◌, ℕ, Option, Option-cases, arith}
use pulsar_verifier.Error.{Result, Result-cases}
use pulsar_verifier.Identity.{VerificationId, PeerId}
use pulsar_verifier.Proof.{Sha256, Prost, Proof, verification_id}
use pulsar_verifier.Store.Entries.{
  validate_proof, attach_entry, insert_entry, observe_entry, begin_entry, next_state,
  completion_time, retry_entry, finish_closure,
}
use pulsar_verifier.Store.Fresh.{
  IsFresh, insert_entry-IsFresh, attach_entry-IsFresh, observe_entry-IsFresh, begin_entry-IsFresh,
  finish_entry-IsFresh, retry_entry-IsFresh,
}
use pulsar_verifier.Store.History.{
  Call, step, observes, inserts, attaches, begins, finishes, retries, evicts,
}
use pulsar_verifier.Store.Moka.{Moka, RemovalCause, Op}
use pulsar_verifier.Store.Operations.{
  ProofStore, insert_local_proof, attach_downloaded_proof, evict, observe_chain_verification,
  begin_verification, finish_verification, retry_verification, transition,
}
use pulsar_verifier.Store.Record.{Arc, ProofRecord, ProofSource, peer}
use pulsar_verifier.Store.Transition.{settled, transition-settled, dropped}

module _ ⦃moka : Moka (Arc ProofRecord)⦄ where
  -- Two stores that differ at most in what they have published.
  pub record SameCore (s t : ProofStore) : Type 0 where
    pub records : t.records ≡ s.records
    pub maximum : t.max_proof_bytes ≡ s.max_proof_bytes
    pub address : t.next_address ≡ s.next_address

  pub data Atomic (s t : ProofStore) : Type 0 where
    refused : SameCore s t → Atomic s t
    moved :
        (id : VerificationId) (f : ℕ → Option (Arc ProofRecord) → Result (Op (Arc ProofRecord)))
        → IsFresh s.next_address (f s.next_address (moka.get s.records id))
        → SameCore
            (settled s id (moka.get s.records id) (f s.next_address (moka.get s.records id))).1
            t
        → Atomic s t
    forgot : (id : VerificationId) → SameCore (dropped s id) t → Atomic s t

  moved_by :
      (s t : ProofStore) (id : VerificationId)
      (f : ℕ → Option (Arc ProofRecord) → Result (Op (Arc ProofRecord)))
      → IsFresh s.next_address (f s.next_address (moka.get s.records id))
      → SameCore (transition id f s).1 t
      → Atomic s t
  moved_by s t id f fresh same = moved id f fresh (rw (transition-settled s id f) at same)

module _ ⦃sha : Sha256⦄ ⦃prost : Prost⦄ ⦃moka : Moka (Arc ProofRecord)⦄ where
  insert-Atomic :
      (now : ℕ) (p : Proof) (source : ProofSource) (s : ProofStore)
      → Atomic s (insert_local_proof now p source s).1
  unfolding insert_local_proof
  insert-Atomic now p source s =
      elim (Result-cases (validate_proof s.max_proof_bytes (verification_id p) p)) [
        | inr (e, no_change) ↦ refused (ground arith)
        | inl (_, accepted) ↦
            moved_by s (insert_local_proof now p source s).1 (verification_id p)
              (λ a. insert_entry a p source now)
              (insert_entry-IsFresh s.next_address p source now
                (moka.get s.records (verification_id p)))
              (ground arith)
      ]

  attach-Atomic :
      (now : ℕ) (id : VerificationId) (p : Proof) (from : PeerId) (s : ProofStore)
      → Atomic s (attach_downloaded_proof now id p from s).1
  unfolding attach_downloaded_proof
  attach-Atomic now id p from s = elim (Result-cases (validate_proof s.max_proof_bytes id p)) [
    | inr (e, no_change) ↦ refused (ground arith)
    | inl (_, accepted) ↦
        moved_by s (attach_downloaded_proof now id p from s).1 id
          (λ a. attach_entry a id p (peer from) now)
          (attach_entry-IsFresh s.next_address id p (peer from) now (moka.get s.records id))
          (ground arith)
  ]

  evict-Atomic :
      (id : VerificationId) (cause : RemovalCause) (s : ProofStore) → Atomic s (evict id cause s).1
  unfolding evict
  evict-Atomic id cause s = elim (Option-cases (moka.get s.records id)) [
    | inl gone ↦ refused (ground arith)
    | inr (a, held) ↦ forgot id (ground arith)
  ]

  pub step-Atomic : (c : Call) (s : ProofStore) → Atomic s (step c s)
  unfolding observe_chain_verification begin_verification finish_verification retry_verification
  step-Atomic (observes now id) s =
      moved_by s (step (observes now id) s) id (λ a. observe_entry a now)
        (observe_entry-IsFresh s.next_address now (moka.get s.records id)) (ground arith)
  step-Atomic (inserts now p source) s = insert-Atomic now p source s
  step-Atomic (attaches now id p from) s = attach-Atomic now id p from s
  step-Atomic (begins id) s =
      moved_by s (step (begins id) s) id begin_entry
        (begin_entry-IsFresh s.next_address (moka.get s.records id)) (ground arith)
  step-Atomic (finishes now job outcome) s =
      moved_by s (step (finishes now job outcome) s) job.verification_id
        (finish_closure now job outcome)
        (finish_entry-IsFresh s.next_address job.verification_id job.claim (next_state outcome)
          (completion_time now outcome) (moka.get s.records job.verification_id))
        (ground arith)
  step-Atomic (retries id) s =
      moved_by s (step (retries id) s) id (λ a. retry_entry a id)
        (retry_entry-IsFresh s.next_address id (moka.get s.records id)) (ground arith)
  step-Atomic (evicts id cause) s = evict-Atomic id cause s
