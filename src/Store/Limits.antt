-- ===== src/Store/Limits.antt =====
-- The size limits of src/store/mod.rs: what `ProofStore::new` accepts and what a record weighs.
use mathlib.Core.Option
use pulsar_verifier.Prelude.{
  ℕ, Option, try_from, u32_limit, some, none, checked_add, length, usize_limit, ◌+◌, if◌then◌else◌,
  ◌||◌, nat_beq, is_none, ltb,
}
use pulsar_verifier.Error.{Result, ok, err, proof_store}
use pulsar_verifier.Proof.{Proof, payload_len}
use pulsar_verifier.Store.Record.{
  ProofRecord, VerificationState, failure_code_max_bytes, failure_message_max_bytes,
}

abbrev pub metadata_weight_bytes : ℕ
metadata_weight_bytes = 256

abbrev pub u64_max : ℕ
u64_max = 18446744073709551615

-- Durations are seconds.
pub record ProofStoreConfig : Type 0 where
  pub max_capacity_bytes : ℕ
  pub max_proof_bytes : ℕ
  pub terminal_retention : ℕ
  pub event_buffer : ℕ

-- The heaviest entry that a configuration admits, if it fits `u32`.
unfoldable pub maximum_weight : ℕ → Option ℕ
maximum_weight max_proof_bytes = elim (try_from u32_limit max_proof_bytes) [
  | none ↦ none
  | some bytes ↦ elim (checked_add u32_limit bytes metadata_weight_bytes) [
    | none ↦ none
    | some weight ↦
        elim (checked_add usize_limit failure_code_max_bytes failure_message_max_bytes) [
          | none ↦ none
          | some failure ↦ elim (try_from u32_limit failure) [
            | none ↦ none
            | some extra ↦ checked_add u32_limit weight extra
          ]
        ]
  ]
]

-- The checks of `ProofStore::new`.
unfoldable pub check_config : ProofStoreConfig → Result (Unit {0})
unfolding maximum_weight
check_config c =
    if nat_beq c.max_capacity_bytes 0
      || nat_beq c.max_proof_bytes 0
      || nat_beq c.terminal_retention 0
      || nat_beq c.event_buffer 0
    then err (proof_store "capacity, proof limit, retention, and event buffer must be positive")
    else if ltb c.max_capacity_bytes
        (Option.get_or (try_from usize_limit c.max_proof_bytes) u64_max)
    then err (proof_store "maximum proof size must not exceed cache capacity")
    else if is_none (maximum_weight c.max_proof_bytes)
    then err (proof_store "maximum proof size exceeds Moka's per-entry weight range")
    else ok tt

-- `proof_weight`; `none` where one of its `expect`s panics.
unfoldable pub failure_weight : Option VerificationState → ℕ
failure_weight none = 0
failure_weight (some state) = elim state [
  | VerificationState.failed f ↦ length f.code + length f.message
  | _ ↦ 0
]

unfoldable pub payload_weight : Option Proof → Option ℕ
payload_weight none = some 0
payload_weight (some p) = payload_len p

unfoldable pub proof_weight : ProofRecord → Option ℕ
unfolding payload_weight failure_weight
proof_weight r = elim (payload_weight r.proof) [
  | none ↦ none
  | some payload ↦ elim (try_from u32_limit payload) [
    | none ↦ none
    | some bytes ↦ elim (checked_add u32_limit bytes metadata_weight_bytes) [
      | none ↦ none
      | some weight ↦ elim (try_from u32_limit (failure_weight r.verification)) [
        | none ↦ none
        | some failure ↦ checked_add u32_limit weight failure
      ]
    ]
  ]
]
