-- ===== src/Verification/Retries.antt =====
-- The retry loop of `execute_job` (src/verification/worker.rs) against its description.
use pulsar_verifier.Prelude.{
  min, ◌^◌, [], true, false, refl, ◌∷◌, ◌≡◌, ◌+◌, ◌*◌, ◌≤◌, ◌<◌, ◌⊎◌, ℕ, List, arith, suc, zero,
  some, inl, inr, Bool-cases, sym,
}
use pulsar_verifier.Error.{ok, Result}
use pulsar_verifier.Proof.{Proof}
use pulsar_verifier.Store.Record.{VerificationOutcome, new_failure, VerificationJob, code_bytes}
use pulsar_verifier.Verification.Attempts.{
  Answer, static_failure, execute_attempt, VerificationConfig, Verifier, Execution, attempts_from,
  is_retryable, duration_max, backoff, execute_job,
}
use pulsar_verifier.Verification.Texts.{
  panicked_code, panicked_message, timeout_code, timeout_message,
}

≤-split : (a b : ℕ) → a ≤ b → (a ≡ b) ⊎ (suc a ≤ b)
≤-split a b h = ground arith

-- What an attempt comes to, written out.
outcome_of : Answer → VerificationOutcome
outcome_of (Answer.verdict v) = VerificationOutcome.completed v
outcome_of (Answer.failure f) = VerificationOutcome.failed f
outcome_of Answer.panicked =
    VerificationOutcome.failed
      (record { code = panicked_code; message = panicked_message; retryable = false })
outcome_of Answer.timed_out =
    VerificationOutcome.failed
      (record { code = timeout_code; message = timeout_message; retryable = true })

static_ok : static_failure panicked_code panicked_message false ≡ ok (outcome_of Answer.panicked)
unfolding static_failure new_failure code_bytes outcome_of
static_ok = refl

static_timeout : static_failure timeout_code timeout_message true ≡ ok (outcome_of Answer.timed_out)
unfolding static_failure new_failure code_bytes outcome_of
static_timeout = refl

execute_attempt_lem :
    (v : Verifier) (n : ℕ) (p : Proof) (a : Answer)
    → v n p ≡ a
    → execute_attempt v n p ≡ ok (outcome_of a)
unfolding execute_attempt outcome_of
execute_attempt_lem v n p (Answer.verdict w) h = ground arith
execute_attempt_lem v n p (Answer.failure f) h = ground arith
execute_attempt_lem v n p Answer.panicked h = rw (execute_attempt, h) static_ok
execute_attempt_lem v n p Answer.timed_out h = rw (execute_attempt, h) static_timeout

-- Between which attempts the loop slept, and how long.
unfoldable pub doubling : VerificationConfig → ℕ → ℕ → List ℕ
doubling config from zero = []
doubling config from (suc n) =
    min duration_max (config.retry_backoff * 2 ^ from) ∷ doubling config (suc from) n

module _ (v : Verifier) (job : VerificationJob) (config : VerificationConfig) where
  -- Of the attempts that start at `from`, the one at `from + n` is the last.
  pub record IsLast (from n : ℕ) (last : VerificationOutcome) (run : Result Execution)
      : Type 0 where
    pub result :
        run
        ≡ ok (record {
          completion = record { job = job; outcome = last };
          delays = doubling config from n;
        })
    pub attempted : execute_attempt v (from + n) job.proof ≡ ok last
    pub bounded : from + n ≤ config.max_retries
    pub final : (is_retryable last ≡ false) ⊎ (from + n ≡ config.max_retries)
    pub earlier :
        (i : ℕ)
        → from ≤ i
        → i < from + n
        → (o : VerificationOutcome) × (execute_attempt v i job.proof ≡ ok o)
          × (is_retryable o ≡ true)

  stops :
      (left from : ℕ) (o : VerificationOutcome)
      → from ≤ config.max_retries
      → execute_attempt v from job.proof ≡ ok o
      → (is_retryable o ≡ false) ⊎ (from ≡ config.max_retries)
      → IsLast from 0 o (attempts_from v job config (suc left) from)
  unfolding attempts_from doubling
  stops left from o b e h = record {
    result = elim h [ inl f ↦ ground arith | inr f ↦ ground arith ];
    attempted = ground arith;
    bounded = omega arith;
    final = elim h [ inl f ↦ inl f | inr f ↦ inr (omega arith) ];
    earlier = λ i l u. absurd (omega arith);
  }

  goes_on :
      (left from n : ℕ) (o last : VerificationOutcome)
      → from < config.max_retries
      → config.max_retries < 32
      → execute_attempt v from job.proof ≡ ok o
      → is_retryable o ≡ true
      → IsLast (suc from) n last (attempts_from v job config left (suc from))
      → IsLast from (suc n) last (attempts_from v job config (suc left) from)
  unfolding attempts_from doubling backoff
  goes_on left from n o last l b e h r = record {
    result = ground (arith, r.result);
    attempted = ground (arith, r.attempted);
    bounded = omega (arith, r.bounded);
    final = elim r.final [ inl f ↦ inl f | inr f ↦ inr (omega arith) ];
    earlier = λ i low high. elim (≤-split from i low) [
      | inl same ↦ (o, rw (sym same) e, h)
      | inr above ↦ r.earlier i above (omega arith)
    ];
  }

  attempts_from-IsLast :
      (left from : ℕ)
      → from + left ≡ config.max_retries
      → config.max_retries < 32
      → (n : ℕ) × (last : VerificationOutcome) × IsLast from n last
          (attempts_from v job config (suc left) from)
  attempts_from-IsLast zero from h b =
      let o = outcome_of (v from job.proof) in
      let e = execute_attempt_lem v from job.proof (v from job.proof) refl in
      (0, o, stops zero from o (omega arith) e (inr (omega arith)))
  attempts_from-IsLast (suc left) from h b =
      let o = outcome_of (v from job.proof) in
      let e = execute_attempt_lem v from job.proof (v from job.proof) refl in
      let (n, last, r) = attempts_from-IsLast left (suc from) (omega arith) b in
      elim (Bool-cases (is_retryable o)) [
        | inr final ↦ (0, o, stops (suc left) from o (omega arith) e (inl final))
        | inl again ↦ (suc n, last, goes_on (suc left) from n o last (omega arith) b e again r)
      ]

-- With a backend and fewer than 32 retries a job ends without a panic: with the outcome of the first
-- attempt that is not a retryable failure, or of attempt number `max_retries` if all before it were;
-- between the attempts it slept the retry backoff, doubled each time and capped by the longest
-- duration.
pub execute_job-IsLast :
    (v : Verifier) (job : VerificationJob) (config : VerificationConfig)
    → config.max_retries < 32
    → (n : ℕ) × (last : VerificationOutcome) × IsLast v job config 0 n last
        (execute_job job (some v) config)
unfolding execute_job
execute_job-IsLast v job config b =
    attempts_from-IsLast v job config config.max_retries 0 (omega arith) b
