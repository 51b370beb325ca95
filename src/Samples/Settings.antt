-- ===== src/Samples/Settings.antt =====
-- The theorems on src/config.rs, applied to small configuration sections.
use pulsar_verifier.Prelude.{
  ℕ, [], some, true, false, refl, ◌∷◌, ◌≡◌, ◌+◌, ◌≤◌, ◌<◌, ◌||◌, ◌↔◌, List, not, Option, u32_limit,
}
use pulsar_verifier.Config.Jobs.{
  FileVerificationConfig, NoirConfig, validate_verification, is_absolute,
}
use pulsar_verifier.Config.Peers.{FileP2pConfig, P2pConfig, validate_p2p}
use pulsar_verifier.Config.Startup.{
  validate_p2p-ordered, check_config-validate, execute_job-validate,
}
use pulsar_verifier.Config.Storage.{FileProofStoreConfig, validate_proof_store}
use pulsar_verifier.Error.{ok, collect}
use pulsar_verifier.Samples.Platform.{sample_config, sample_job}
use pulsar_verifier.Store.Limits.{check_config}
use pulsar_verifier.Store.Record.{VerificationOutcome, VerificationVerdict}
use pulsar_verifier.Verification.Attempts.{VerificationConfig, Verifier, Answer, execute_job}
use pulsar_verifier.Verification.Retries.{IsLast}

abbrev file_jobs : FileVerificationConfig
file_jobs = record {
  max_concurrent_jobs = 2;
  job_timeout_secs = 30;
  max_retries = 2;
  retry_backoff_millis = 250;
  noir = record { enabled = false; binary_path = []; home_directory = []; threads_per_job = 1 };
}

abbrev jobs : VerificationConfig
jobs = record {
  max_concurrent_jobs = 2;
  job_timeout = 30000000000;
  max_retries = 2;
  retry_backoff = 250000000;
}

abbrev noir : NoirConfig
noir = record { enabled = false; binary_path = []; home_directory = []; threads_per_job = 1 }

abbrev accepting : Verifier
accepting attempt p = Answer.verdict VerificationVerdict.valid

jobs_accepted : validate_verification file_jobs ≡ ok (jobs, noir)
unfolding validate_verification
jobs_accepted = refl

execute_job-validate_example :
    (n : ℕ) × (last : VerificationOutcome) × IsLast accepting sample_job jobs 0 n last
      (execute_job sample_job (some accepting) jobs)
    × (n ≤ 10)
execute_job-validate_example =
    execute_job-validate file_jobs jobs noir accepting sample_job jobs_accepted

abbrev file_storage : FileProofStoreConfig
file_storage = record {
  max_capacity_bytes = 1048576;
  max_proof_bytes = 1024;
  terminal_retention_secs = 60;
  event_buffer = 16;
}

storage_accepted : validate_proof_store file_storage ≡ ok sample_config
unfolding validate_proof_store
storage_accepted = refl

check_config-validate_example :
    (check_config sample_config ≡ ok tt) ↔ (sample_config.max_proof_bytes + 576 < u32_limit)
check_config-validate_example = check_config-validate file_storage sample_config storage_accepted

abbrev parse_any : List ℕ → Option (List ℕ)
parse_any value = some value

abbrev file_p2p : FileP2pConfig
file_p2p = record {
  enabled = true;
  listen_addresses = (4 ∷ []) ∷ [];
  bootnodes = [];
  validator_key_path = b'/' ∷ [];
  max_availability_message_bytes = 65536;
  proof_request_timeout_secs = 10;
  max_concurrent_retrievals = 16;
  retrieval_timeout_secs = 30;
  retrieval_initial_backoff_millis = 250;
  retrieval_max_backoff_secs = 2;
  command_buffer = 64;
  event_buffer = 256;
}

abbrev p2p : P2pConfig
p2p = record {
  enabled = true;
  chain_id = [];
  listen_addresses = (4 ∷ []) ∷ [];
  bootnodes = [];
  validator_key_path = b'/' ∷ [];
  max_availability_message_bytes = 65536;
  max_proof_bytes = 1024;
  proof_request_timeout = 10000000000;
  max_concurrent_retrievals = 16;
  retrieval_timeout = 30000000000;
  retrieval_initial_backoff = 250000000;
  retrieval_max_backoff = 2000000000;
  command_buffer = 64;
  event_buffer = 256;
}

p2p_accepted : validate_p2p parse_any file_p2p 1024 [] ≡ ok p2p
unfolding validate_p2p collect
p2p_accepted = refl

validate_p2p-ordered_example :
    (0 < p2p.retrieval_initial_backoff)
    × (p2p.retrieval_initial_backoff ≤ p2p.retrieval_max_backoff)
    × (p2p.retrieval_max_backoff ≤ p2p.retrieval_timeout)
    × (p2p.proof_request_timeout < p2p.retrieval_timeout)
    × (1 ≤ p2p.max_concurrent_retrievals)
    × (p2p.max_concurrent_retrievals ≤ 256)
    × ((not p2p.enabled || is_absolute p2p.validator_key_path) ≡ true)
validate_p2p-ordered_example = validate_p2p-ordered parse_any file_p2p 1024 [] p2p p2p_accepted
