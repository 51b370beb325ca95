-- ===== src/Store/Expiry.antt =====
-- src/store/expiry.rs: retention starts when verification has completed. Durations are seconds.
use pulsar_verifier.Prelude.{ℕ, Option, none, some}
use pulsar_verifier.Store.Record.{ProofRecord, VerificationState}

pub record TerminalExpiry : Type 0 where
  pub retention : ℕ

unfoldable pub duration : TerminalExpiry → ProofRecord → Option ℕ
duration e r = elim r.verification [
  | none ↦ none
  | some state ↦ elim state [ VerificationState.completed v ↦ some e.retention | _ ↦ none ]
]

unfoldable pub expire_after_create : TerminalExpiry → ProofRecord → Option ℕ
unfolding duration
expire_after_create e r = duration e r

unfoldable pub expire_after_read : TerminalExpiry → ProofRecord → Option ℕ → Option ℕ
expire_after_read e r duration_until_expiry = duration_until_expiry

unfoldable pub expire_after_update : TerminalExpiry → ProofRecord → Option ℕ → Option ℕ
unfolding duration
expire_after_update e r duration_until_expiry = duration e r
