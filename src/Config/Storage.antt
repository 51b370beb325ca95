-- ===== src/Config/Storage.antt =====
-- src/config.rs: the settings of the proof store; its retention is in seconds.
use mathlib.Core.Option
use pulsar_verifier.Prelude.{ℕ, if◌then◌else◌, ◌||◌, nat_beq, ltb, try_from, usize_limit}
use pulsar_verifier.Error.{ok, err, Result, invalid_config}
use pulsar_verifier.Store.Limits.{ProofStoreConfig, u64_max}

pub record FileProofStoreConfig : Type 0 where
  pub max_capacity_bytes : ℕ
  pub max_proof_bytes : ℕ
  pub terminal_retention_secs : ℕ
  pub event_buffer : ℕ

unfoldable pub validate_proof_store : FileProofStoreConfig → Result ProofStoreConfig
validate_proof_store file =
    if nat_beq file.max_capacity_bytes 0
      || (nat_beq file.max_proof_bytes 0
          || (nat_beq file.terminal_retention_secs 0 || nat_beq file.event_buffer 0))
    then err (
        invalid_config
          "proof store capacity, proof limit, retention, and event buffer must be greater than zero")
    else if ltb file.max_capacity_bytes
        (Option.get_or (try_from usize_limit file.max_proof_bytes) u64_max)
    then err (invalid_config "proof_store.max_proof_bytes must not exceed max_capacity_bytes")
    else ok (record {
      max_capacity_bytes = file.max_capacity_bytes;
      max_proof_bytes = file.max_proof_bytes;
      terminal_retention = file.terminal_retention_secs;
      event_buffer = file.event_buffer;
    })
