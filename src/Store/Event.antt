-- ===== src/Store/Event.antt =====
-- src/store/event.rs: what the store publishes. The broadcast channel is the list of what was sent.
use pulsar_verifier.Identity.{VerificationId}
use pulsar_verifier.Store.Record.{ProofSource, VerificationState}

pub data ProofEvictionCause : Type 0 where
  expired explicit size : ProofEvictionCause

pub data ProofStoreEvent : Type 0 where
  verification_observed : VerificationId → ProofStoreEvent
  proof_stored : VerificationId → ProofSource → ProofStoreEvent
  verification_changed : VerificationId → VerificationState → ProofStoreEvent
  proof_evicted : VerificationId → ProofEvictionCause → ProofStoreEvent
