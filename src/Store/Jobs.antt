-- ===== src/Store/Jobs.antt =====
-- Claiming and finishing jobs (src/store/mod.rs): `begin_verification` and `finish_verification`.
use pulsar_verifier.Prelude.{
  some, inl, inr, ◌≡◌, ◌<◌, ℕ, arith, none, Option, ==_refl, [], refl, ◌∷◌, ◌++◌, ◌≢◌, ◌⊎◌, List,
}
use pulsar_verifier.Error.{ok}
use pulsar_verifier.Identity.{VerificationId, id_eq}
use pulsar_verifier.Proof.{Sha256, Prost}
use pulsar_verifier.Store.Claims.{Follows, run-Follows}
use pulsar_verifier.Store.Entries.{
  next_state, completion_time, begin_entry, with_state, finish_entry, finish_closure,
}
use pulsar_verifier.Store.Event.{verification_changed}
use pulsar_verifier.Store.History.{Call, run}
use pulsar_verifier.Store.Moka.{Moka}
use pulsar_verifier.Store.Operations.{ProofStore, begin_verification, finish_verification}
use pulsar_verifier.Store.Record.{
  Arc, ProofRecord, VerificationOutcome, VerificationJob, VerificationState, StoreChange,
}
use pulsar_verifier.Store.Transition.{transition-settled}

module _ ⦃moka : Moka (Arc ProofRecord)⦄ where
  -- The record after the outcome of its claim.
  abbrev pub concluded : Arc ProofRecord → ℕ → VerificationOutcome → ProofRecord
  concluded claim now outcome = record (claim.value) {
    metadata = record (claim.value.metadata) {
      verification = some (next_state outcome);
      completed_at = completion_time now outcome;
    };
  }

  -- A job as `begin_verification` hands it out: its claim is the record that it has just written.
  pub record IsClaim (s : ProofStore) (job : VerificationJob) : Type 0 where
    pub held : moka.get s.records job.verification_id ≡ some job.claim
    pub verifying : job.claim.value.verification ≡ some VerificationState.verifying
    pub content : job.claim.value.proof ≡ some job.proof
    pub fresh : job.claim.address < s.next_address

  -- `begin_verification`, by the entry that it finds and by what its closure answers.
  begun :
      (s : ProofStore) (id : VerificationId) (old : Option (Arc ProofRecord))
      (job : VerificationJob)
      → moka.get s.records id ≡ old
      → (begin_verification id s).0 ≡ ok (some job)
      → IsClaim (begin_verification id s).1 job × (job.verification_id ≡ id)
  unfolding begin_verification begin_entry
  begun s id none job e h = absurd (ground (arith, transition-settled s id begin_entry))
  begun s id (some a) job e h = ground (
    arith,
    transition-settled s id begin_entry,
    moka.get-insert s.records id id (record {
      address = s.next_address;
      value = with_state a.value VerificationState.verifying;
    }),
    ==_refl id,
  )

  -- What `begin_verification` hands out is a claim of the record that the store now holds.
  pub begin-IsClaim :
      (s : ProofStore) (id : VerificationId) (job : VerificationJob)
      → (begin_verification id s).0 ≡ ok (some job)
      → IsClaim (begin_verification id s).1 job × (job.verification_id ≡ id)
  begin-IsClaim s id job h = begun s id (moka.get s.records id) job refl h

  module _ (job : VerificationJob) (now : ℕ) (outcome : VerificationOutcome) (t : ProofStore) where
    -- The claim is still the record: the outcome is committed and published.
    pub record IsCommitted : Type 0 where
      pub current : moka.get t.records job.verification_id ≡ some job.claim
      pub answer : (finish_verification now job outcome t).0 ≡ ok StoreChange.updated
      pub record_after :
          moka.get (finish_verification now job outcome t).1.records job.verification_id
          ≡ some (record { address = t.next_address; value = concluded job.claim now outcome })
      pub published :
          (finish_verification now job outcome t).1.events
          ≡ t.events ++ (verification_changed job.verification_id (next_state outcome) ∷ [])

    -- The record has gone or is another one: nothing is written and nothing is published.
    pub record IsIgnored : Type 0 where
      pub stale : moka.get t.records job.verification_id ≢ some job.claim
      pub answer : (finish_verification now job outcome t).0 ≡ ok StoreChange.unchanged
      pub records_after : (finish_verification now job outcome t).1.records ≡ t.records
      pub published : (finish_verification now job outcome t).1.events ≡ t.events

    finish_current :
        moka.get t.records job.verification_id ≡ some job.claim
        → job.claim.value.verification ≡ some VerificationState.verifying
        → IsCommitted
    unfolding finish_verification finish_entry
    finish_current e v = record {
      current = e;
      answer =
          ground (arith, transition-settled t job.verification_id (finish_closure now job outcome));
      record_after = ground (
        arith,
        transition-settled t job.verification_id (finish_closure now job outcome),
        moka.get-insert t.records job.verification_id job.verification_id
            (record { address = t.next_address; value = concluded job.claim now outcome }),
        ==_refl job.verification_id,
      );
      published =
          ground (arith, transition-settled t job.verification_id (finish_closure now job outcome));
    }

    finish_gone : moka.get t.records job.verification_id ≡ none → IsIgnored
    unfolding finish_verification finish_entry
    finish_gone e = record {
      stale = λ p. cc;
      answer =
          ground (arith, transition-settled t job.verification_id (finish_closure now job outcome));
      records_after =
          ground (arith, transition-settled t job.verification_id (finish_closure now job outcome));
      published =
          ground (arith, transition-settled t job.verification_id (finish_closure now job outcome));
    }

    finish_replaced :
        (a : Arc ProofRecord)
        → moka.get t.records job.verification_id ≡ some a
        → job.claim.address < a.address
        → IsIgnored
    unfolding finish_verification finish_entry
    finish_replaced a e l = record {
      stale = λ p. ground arith;
      answer =
          ground (arith, transition-settled t job.verification_id (finish_closure now job outcome));
      records_after =
          ground (arith, transition-settled t job.verification_id (finish_closure now job outcome));
      published =
          ground (arith, transition-settled t job.verification_id (finish_closure now job outcome));
    }

  module _ (s t : ProofStore) (job : VerificationJob) (now : ℕ)
      (outcome : VerificationOutcome) where
    finish_later :
        IsClaim s job
        → Follows s t
        → (old : Option (Arc ProofRecord)) → moka.get t.records job.verification_id ≡ old
        → IsCommitted job now outcome t ⊎ IsIgnored job now outcome t
    finish_later c f none e = inr (finish_gone job now outcome t e)
    finish_later c f (some a) e = elim (f.kept job.verification_id a e) [
      | inl same ↦ inl (finish_current job now outcome t (ground (arith, c.held)) c.verifying)
      | inr (l, m) ↦ inr (finish_replaced job now outcome t a e (omega (arith, c.fresh)))
    ]

module _ ⦃sha : Sha256⦄ ⦃prost : Prost⦄ ⦃moka : Moka (Arc ProofRecord)⦄ where
  -- A job that `begin_verification` handed out can be finished after any calls and evictions, and
  -- never fails: if the record is still the one that was claimed, the outcome is committed and
  -- published; if it was evicted or replaced, nothing is written and nothing is published.
  pub finish-begin :
      (s : ProofStore) (id : VerificationId) (job : VerificationJob) (cs : List Call) (now : ℕ)
      (outcome : VerificationOutcome)
      → (begin_verification id s).0 ≡ ok (some job)
      → IsCommitted job now outcome (run cs (begin_verification id s).1)
        ⊎ IsIgnored job now outcome (run cs (begin_verification id s).1)
  finish-begin s id job cs now outcome h =
      finish_later (begin_verification id s).1 (run cs (begin_verification id s).1) job now outcome
        (begin-IsClaim s id job h).0 (run-Follows cs (begin_verification id s).1)
        (moka.get (run cs (begin_verification id s).1).records job.verification_id) refl
