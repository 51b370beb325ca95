-- ===== src/Store/Validity.antt =====
-- The invariant of the cached records (src/store), on one record.
use pulsar_verifier.Prelude.{
  none, some, true, false, ◌≡◌, ◌≤◌, ◌&&◌, Option, length, Bool, ℕ, is_some, arith,
}
use pulsar_verifier.Error.{ok, Result}
use pulsar_verifier.Identity.{VerificationId}
use pulsar_verifier.Proof.{Sha256, Prost, Proof, encoded_len, verification_id}
use pulsar_verifier.Store.Entries.{
  observe_entry, insert_entry, attach_entry, begin_entry, finish_entry, retry_entry, next_state,
  completion_time,
}
use pulsar_verifier.Store.Moka.{Op}
use pulsar_verifier.Store.Record.{
  VerificationFailure, VerificationOutcome, VerificationState, failure_code_max_bytes,
  failure_message_max_bytes, ProofRecord, Arc, ProofSource,
}

abbrev pub is_completed : Option VerificationState → Bool
is_completed (some (VerificationState.completed v)) = true
is_completed state = false

-- The wire bounds that `VerificationFailure::new` enforces.
pub record IsBounded (f : VerificationFailure) : Type 0 where
  pub code_bound : length f.code ≤ failure_code_max_bytes
  pub message_bound : length f.message ≤ failure_message_max_bytes

abbrev pub IsBoundedState : Option VerificationState → Type 0
IsBoundedState (some (VerificationState.failed f)) = IsBounded f
IsBoundedState state = Unit {0}

abbrev pub IsBoundedOutcome : VerificationOutcome → Type 0
IsBoundedOutcome (VerificationOutcome.failed f) = IsBounded f
IsBoundedOutcome (VerificationOutcome.completed v) = Unit {0}

module _ ⦃sha : Sha256⦄ ⦃prost : Prost⦄ where
  -- A proof that `validate_proof` accepted under this identity.
  abbrev pub IsAccepted : ℕ → VerificationId → Option Proof → Type 0
  IsAccepted max_proof_bytes id none = Unit {0}
  IsAccepted max_proof_bytes id (some p) =
      (encoded_len p ≤ max_proof_bytes) × (verification_id p ≡ id)

  pub record IsValid (max_proof_bytes : ℕ) (id : VerificationId) (r : ProofRecord) : Type 0 where
    pub lifecycle : is_some r.verification ≡ (is_some r.chain_observed_at && is_some r.proof)
    pub completion : is_some r.completed_at ≡ is_completed r.verification
    pub origin : is_some r.content_source ≡ is_some r.proof
    pub stored : is_some r.content_stored_at ≡ is_some r.proof
    pub content : IsAccepted max_proof_bytes id r.proof
    pub failure : IsBoundedState r.verification

  abbrev pub IsValidEntry : ℕ → VerificationId → Option (Arc ProofRecord) → Type 0
  IsValidEntry max_proof_bytes id none = Unit {0}
  IsValidEntry max_proof_bytes id (some a) = IsValid max_proof_bytes id a.value

  -- What a closure may answer: a record that it writes is valid.
  abbrev pub IsValidOp : ℕ → VerificationId → Result (Op (Arc ProofRecord)) → Type 0
  IsValidOp max_proof_bytes id (ok (Op.put a)) = IsValid max_proof_bytes id a.value
  IsValidOp max_proof_bytes id answer = Unit {0}

  module _ (max_proof_bytes : ℕ) (id : VerificationId) (address : ℕ) where
    pub observe_entry-IsValid :
        (now : ℕ) (old : Option (Arc ProofRecord))
        → IsValidEntry max_proof_bytes id old
        → IsValidOp max_proof_bytes id (observe_entry address now old)
    unfolding observe_entry
    observe_entry-IsValid now none v = ground arith
    observe_entry-IsValid now (some a) v = ground arith

    pub insert_entry-IsValid :
        (p : Proof) (source : ProofSource) (now : ℕ) (old : Option (Arc ProofRecord))
        → IsAccepted max_proof_bytes id (some p)
        → IsValidEntry max_proof_bytes id old
        → IsValidOp max_proof_bytes id (insert_entry address p source now old)
    unfolding insert_entry
    insert_entry-IsValid p source now none h v = ground arith
    insert_entry-IsValid p source now (some a) h v = ground arith

    pub attach_entry-IsValid :
        (p : Proof) (source : ProofSource) (now : ℕ) (old : Option (Arc ProofRecord))
        → IsAccepted max_proof_bytes id (some p)
        → IsValidEntry max_proof_bytes id old
        → IsValidOp max_proof_bytes id (attach_entry address id p source now old)
    unfolding attach_entry
    attach_entry-IsValid p source now none h v = tt
    attach_entry-IsValid p source now (some a) h v = ground arith

    pub begin_entry-IsValid :
        (old : Option (Arc ProofRecord))
        → IsValidEntry max_proof_bytes id old
        → IsValidOp max_proof_bytes id (begin_entry address old)
    unfolding begin_entry
    begin_entry-IsValid none v = tt
    begin_entry-IsValid (some a) v = ground arith

    pub finish_entry-IsValid :
        (claim : Arc ProofRecord) (now : ℕ) (outcome : VerificationOutcome)
        (old : Option (Arc ProofRecord))
        → IsBoundedOutcome outcome
        → IsValidEntry max_proof_bytes id old
        → IsValidOp max_proof_bytes id
            (finish_entry address id claim (next_state outcome) (completion_time now outcome) old)
    unfolding finish_entry
    finish_entry-IsValid claim now outcome none h v = tt
    finish_entry-IsValid claim now (VerificationOutcome.completed c) (some a) h v = ground arith
    finish_entry-IsValid claim now (VerificationOutcome.failed f) (some a) h v = ground arith

    pub retry_entry-IsValid :
        (old : Option (Arc ProofRecord))
        → IsValidEntry max_proof_bytes id old
        → IsValidOp max_proof_bytes id (retry_entry address id old)
    unfolding retry_entry
    retry_entry-IsValid none v = tt
    retry_entry-IsValid (some a) v = ground arith
