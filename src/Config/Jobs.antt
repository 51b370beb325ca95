-- ===== src/Config/Jobs.antt =====
-- src/config.rs: the settings of verification jobs and of the Noir backend.
use pulsar_verifier.Prelude.{
  ℕ, if◌then◌else◌, [], false, ◌∷◌, ◌*◌, ◌&&◌, ◌||◌, List, Bool, nat_beq, leb, not, ltb,
}
use pulsar_verifier.Error.{ok, err, Result, invalid_config}
use pulsar_verifier.Verification.Attempts.{VerificationConfig}

-- `Duration::from_secs` and `Duration::from_millis`.
abbrev pub from_secs : ℕ → ℕ
from_secs n = n * 1000000000

abbrev pub from_millis : ℕ → ℕ
from_millis n = n * 1000000

-- `Path::is_absolute` on Unix.
abbrev pub is_absolute : List ℕ → Bool
is_absolute [] = false
is_absolute (b ∷ path) = nat_beq b b'/'

-- `(low..=high).contains(&n)`.
abbrev pub in_range : ℕ → ℕ → ℕ → Bool
in_range low high n = leb low n && leb n high

pub record FileNoirConfig : Type 0 where
  pub enabled : Bool
  pub binary_path : List ℕ
  pub home_directory : List ℕ
  pub threads_per_job : ℕ

pub record FileVerificationConfig : Type 0 where
  pub max_concurrent_jobs : ℕ
  pub job_timeout_secs : ℕ
  pub max_retries : ℕ
  pub retry_backoff_millis : ℕ
  pub noir : FileNoirConfig

pub record NoirConfig : Type 0 where
  pub enabled : Bool
  pub binary_path : List ℕ
  pub home_directory : List ℕ
  pub threads_per_job : ℕ

unfoldable pub validate_verification :
    FileVerificationConfig → Result (VerificationConfig × NoirConfig)
validate_verification file =
    if not (in_range 1 256 file.max_concurrent_jobs)
    then err (invalid_config "verification.max_concurrent_jobs must be between 1 and 256")
    else if nat_beq file.job_timeout_secs 0
    then err (invalid_config "verification.job_timeout_secs must be greater than zero")
    else if ltb 10 file.max_retries
    then err (invalid_config "verification.max_retries must not exceed 10")
    else if ltb 0 file.max_retries && nat_beq file.retry_backoff_millis 0
    then err (
        invalid_config
          "verification.retry_backoff_millis must be greater than zero when retries are enabled")
    else if not (in_range 1 256 file.noir.threads_per_job)
    then err (invalid_config "verification.noir.threads_per_job must be between 1 and 256")
    else if file.noir.enabled
        && (not (is_absolute file.noir.binary_path) || not (is_absolute file.noir.home_directory))
    then err (
        invalid_config
          "verification.noir binary_path and home_directory must be absolute when enabled")
    else ok (
      record {
        max_concurrent_jobs = file.max_concurrent_jobs;
        job_timeout = from_secs file.job_timeout_secs;
        max_retries = file.max_retries;
        retry_backoff = from_millis file.retry_backoff_millis;
      },
      record {
        enabled = file.noir.enabled;
        binary_path = file.noir.binary_path;
        home_directory = file.noir.home_directory;
        threads_per_job = file.noir.threads_per_job;
      },
    )
