-- ===== src/Verification/Attempts.antt =====
-- src/verification/worker.rs: one verification attempt, and the job that repeats it. A backend (the
-- trait `Verifier` of src/verification/mod.rs) is a parameter: what its call for an attempt comes to.
-- Durations are nanoseconds. A panic of a job reaches the worker as the error `task`.
use pulsar_verifier.Prelude.{
  min, ◌^◌, if◌then◌else◌, [], none, some, true, false, ◌∷◌, ◌*◌, ◌||◌, ℕ, List, Bool, Option, ltb,
  suc, not, nat_beq, zero,
}
use pulsar_verifier.Error.{ok, err, ◌>>=◌, Result, task}
use pulsar_verifier.Proof.{Proof}
use pulsar_verifier.Store.Record.{
  VerificationVerdict, VerificationJob, new_failure, VerificationOutcome, VerificationFailure,
}
use pulsar_verifier.Verification.Texts.{
  panicked_code, unsupported_code, panicked_message, unsupported_message, timeout_code,
  timeout_message,
}

pub data Answer : Type 0 where
  verdict : VerificationVerdict → Answer
  failure : VerificationFailure → Answer
  panicked timed_out : Answer

abbrev pub Verifier : Type 0
Verifier = ℕ → Proof → Answer

pub record VerificationConfig : Type 0 where
  pub max_concurrent_jobs : ℕ
  pub job_timeout : ℕ
  pub max_retries : ℕ
  pub retry_backoff : ℕ

pub record JobCompletion : Type 0 where
  pub job : VerificationJob
  pub outcome : VerificationOutcome

-- What a job did: its completion, and how long it slept between its attempts.
pub record Execution : Type 0 where
  pub completion : JobCompletion
  pub delays : List ℕ

-- `VerificationOutcome::Failed(failure(..))`; the `expect` of `failure` panics where the bounds are
-- violated.
unfoldable pub static_failure : List ℕ → List ℕ → Bool → Result VerificationOutcome
unfolding new_failure
static_failure code message retryable = elim (new_failure code message retryable) [
  | err e ↦ err task
  | ok f ↦ ok (VerificationOutcome.failed f)
]

unfoldable pub execute_attempt : Verifier → ℕ → Proof → Result VerificationOutcome
unfolding static_failure
execute_attempt verifier attempt p = elim (verifier attempt p) [
  | Answer.verdict v ↦ ok (VerificationOutcome.completed v)
  | Answer.failure f ↦ ok (VerificationOutcome.failed f)
  | Answer.panicked ↦ static_failure panicked_code panicked_message false
  | Answer.timed_out ↦ static_failure timeout_code timeout_message true
]

abbrev pub is_retryable : VerificationOutcome → Bool
is_retryable (VerificationOutcome.completed v) = false
is_retryable (VerificationOutcome.failed f) = f.retryable

-- `Duration::MAX`.
abbrev pub duration_max : ℕ
duration_max = 18446744073709551615999999999

-- `retry_backoff.saturating_mul(1_u32 << attempt)`; the shift overflows from 32 bits on.
unfoldable pub backoff : VerificationConfig → ℕ → Result ℕ
backoff config attempt =
    if ltb attempt 32 then ok (min duration_max (config.retry_backoff * 2 ^ attempt)) else err task

-- The loop of `execute_job` with the number of iterations that are left.
unfoldable pub attempts_from :
    Verifier → VerificationJob → VerificationConfig → ℕ → ℕ → Result Execution
unfolding execute_attempt backoff
attempts_from verifier job config zero attempt = err task
attempts_from verifier job config (suc left) attempt =
    let rest = attempts_from verifier job config left (suc attempt) in
    execute_attempt verifier attempt job.proof >>= λ outcome.
    if not (is_retryable outcome) || nat_beq attempt config.max_retries
    then ok (record { completion = record { job = job; outcome = outcome }; delays = [] })
    else backoff config attempt >>= λ delay.
        rest >>= λ run. ok (record { completion = run.completion; delays = delay ∷ run.delays })

unfoldable pub execute_job :
    VerificationJob → Option Verifier → VerificationConfig → Result Execution
unfolding attempts_from static_failure
execute_job job none config =
    static_failure unsupported_code unsupported_message false >>= λ outcome.
    ok (record { completion = record { job = job; outcome = outcome }; delays = [] })
execute_job job (some verifier) config =
    attempts_from verifier job config (suc config.max_retries) 0
