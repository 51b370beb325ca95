-- ===== src/Config/Startup.antt =====
-- What accepted settings of src/config.rs mean for the components that they configure.
use pulsar_verifier.Prelude.{
  ℕ, some, ◌≡◌, ◌+◌, ◌≤◌, ◌<◌, ◌↔◌, arith, List, Option, u32_limit, true, ◌||◌, not,
}
use pulsar_verifier.Config.Jobs.{
  validate_verification, FileVerificationConfig, NoirConfig, from_millis, from_secs, is_absolute,
}
use pulsar_verifier.Config.Peers.{
  validate_p2p, check_limits, has_zero, FileP2pConfig, P2pConfig, check_enabled, parse_multiaddrs,
}
use pulsar_verifier.Config.Storage.{validate_proof_store, FileProofStoreConfig}
use pulsar_verifier.Error.{ok, >>=-eq-ok}
use pulsar_verifier.Store.Limits.{check_config, maximum_weight, ProofStoreConfig}
use pulsar_verifier.Store.Record.{VerificationJob, VerificationOutcome}
use pulsar_verifier.Verification.Attempts.{VerificationConfig, Verifier, execute_job}
use pulsar_verifier.Verification.Retries.{IsLast, execute_job-IsLast}

accepted_retries :
    (file : FileVerificationConfig) (config : VerificationConfig) (noir : NoirConfig)
    → validate_verification file ≡ ok (config, noir)
    → config.max_retries ≤ 10
unfolding validate_verification
accepted_retries file config noir h = ground arith

-- Under accepted settings a job with a backend ends without a panic after at most eleven attempts:
-- with the outcome of the first attempt that is not a retryable failure, or with that of the last
-- one that the settings allow.
pub execute_job-validate :
    (file : FileVerificationConfig) (config : VerificationConfig) (noir : NoirConfig) (v : Verifier)
    (job : VerificationJob)
    → validate_verification file ≡ ok (config, noir)
    → (n : ℕ) × (last : VerificationOutcome) × IsLast v job config 0 n last
        (execute_job job (some v) config)
      × (n ≤ 10)
execute_job-validate file config noir v job h =
    let b = accepted_retries file config noir h in
    let (n, last, r) = execute_job-IsLast v job config (omega arith) in
    (n, last, r, omega (arith, r.bounded))

-- The store accepts the settings that the configuration accepts exactly when the heaviest record
-- that they admit, a proof of the largest size with 576 further bytes, fits 32 bits.
pub check_config-validate :
    (file : FileProofStoreConfig) (config : ProofStoreConfig)
    → validate_proof_store file ≡ ok config
    → (check_config config ≡ ok tt) ↔ (config.max_proof_bytes + 576 < u32_limit)
unfolding validate_proof_store check_config maximum_weight
check_config-validate file config h = (λ a. ground arith, λ b. ground arith)

-- What the checks of limits establish, in the units of the file.
record IsOrdered (file : FileP2pConfig) : Type 0 where
  pub initial : 0 < from_millis file.retrieval_initial_backoff_millis
  pub growing :
      from_millis file.retrieval_initial_backoff_millis ≤ from_secs file.retrieval_max_backoff_secs
  pub capped : from_secs file.retrieval_max_backoff_secs ≤ from_secs file.retrieval_timeout_secs
  pub shorter : from_secs file.proof_request_timeout_secs < from_secs file.retrieval_timeout_secs
  pub some_run : 1 ≤ file.max_concurrent_retrievals
  pub few_run : file.max_concurrent_retrievals ≤ 256

check_limits-IsOrdered : (file : FileP2pConfig) → check_limits file ≡ ok tt → IsOrdered file
unfolding check_limits has_zero
check_limits-IsOrdered file h = record {
  initial = ground arith;
  growing = ground arith;
  capped = ground arith;
  shorter = ground arith;
  some_run = ground arith;
  few_run = ground arith;
}

-- What `validate_p2p` copies, once its checks have passed.
record IsCopied (file : FileP2pConfig) (c : P2pConfig) : Type 0 where
  pub enabled : check_enabled file ≡ ok tt
  pub limits : check_limits file ≡ ok tt
  pub same_enabled : c.enabled ≡ file.enabled
  pub same_key : c.validator_key_path ≡ file.validator_key_path
  pub same_initial : c.retrieval_initial_backoff ≡ from_millis file.retrieval_initial_backoff_millis
  pub same_maximum : c.retrieval_max_backoff ≡ from_secs file.retrieval_max_backoff_secs
  pub same_timeout : c.retrieval_timeout ≡ from_secs file.retrieval_timeout_secs
  pub same_request : c.proof_request_timeout ≡ from_secs file.proof_request_timeout_secs
  pub same_retrievals : c.max_concurrent_retrievals ≡ file.max_concurrent_retrievals

validate_p2p-IsCopied :
    (parse : List ℕ → Option (List ℕ)) (file : FileP2pConfig) (maximum : ℕ) (chain_id : List ℕ)
    (c : P2pConfig)
    → validate_p2p parse file maximum chain_id ≡ ok c
    → IsCopied file c
unfolding validate_p2p
validate_p2p-IsCopied parse file maximum chain_id c h =
    let (_, a, h1) = >>=-eq-ok (check_enabled file) _ h in
    let (l, p, h2) = >>=-eq-ok (parse_multiaddrs parse file.listen_addresses) _ h1 in
    let (b, q, h3) = >>=-eq-ok (parse_multiaddrs parse file.bootnodes) _ h2 in
    let (_, d, h4) = >>=-eq-ok (check_limits file) _ h3 in
    record {
      enabled = a;
      limits = d;
      same_enabled = ground (arith, h4);
      same_key = ground (arith, h4);
      same_initial = ground (arith, h4);
      same_maximum = ground (arith, h4);
      same_timeout = ground (arith, h4);
      same_request = ground (arith, h4);
      same_retrievals = ground (arith, h4);
    }

-- Accepted network settings order their delays: the first retrieval delay is positive and at most
-- the longest one, this one is at most the time that a retrieval may take, and one request takes less
-- than that; between 1 and 256 retrievals may run at a time; and an enabled network has its key at
-- an absolute path.
pub validate_p2p-ordered :
    (parse : List ℕ → Option (List ℕ)) (file : FileP2pConfig) (maximum : ℕ) (chain_id : List ℕ)
    (c : P2pConfig)
    → validate_p2p parse file maximum chain_id ≡ ok c
    → (0 < c.retrieval_initial_backoff)
      × (c.retrieval_initial_backoff ≤ c.retrieval_max_backoff)
      × (c.retrieval_max_backoff ≤ c.retrieval_timeout)
      × (c.proof_request_timeout < c.retrieval_timeout)
      × (1 ≤ c.max_concurrent_retrievals)
      × (c.max_concurrent_retrievals ≤ 256)
      × ((not c.enabled || is_absolute c.validator_key_path) ≡ true)
unfolding check_enabled
validate_p2p-ordered parse file maximum chain_id c h =
    let k = validate_p2p-IsCopied parse file maximum chain_id c h in
    let o = check_limits-IsOrdered file k.limits in
    (
      omega (arith, o.initial, k.same_initial),
      omega (arith, o.growing, k.same_initial, k.same_maximum),
      omega (arith, o.capped, k.same_timeout, k.same_maximum),
      omega (arith, o.shorter, k.same_timeout, k.same_request),
      omega (arith, o.some_run, k.same_retrievals),
      omega (arith, o.few_run, k.same_retrievals),
      ground (arith, k.enabled, k.same_enabled, k.same_key),
    )
