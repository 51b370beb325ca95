-- ===== src/Listener/Events.antt =====
-- src/listener.rs: the proof submissions among the events of a committed block. The crate hex is the
-- decoder `Hex`; a value is its characters.
use pulsar_verifier.Prelude.{
  if◌then◌else◌, [], none, some, ◌∷◌, ◌==◌, String, ℕ, List, Option, is_some, string_eq, contains,
  nat_eq,
}
use pulsar_verifier.Chain.Descriptor.{validate_descriptor, validate_position}
use pulsar_verifier.Error.{◌>>◌, ok, err, ◌>>=◌, Result, invalid_chain_contract}
use pulsar_verifier.Identity.{VerificationId}
use pulsar_verifier.Listener.Numbers.{parse_unsigned, parse_signed}
use pulsar_verifier.Prelude.Int.{ℤ}
use pulsar_verifier.Proof.{Sha256}

-- `chain::CommittedEvent` and `chain::CommittedBlock` of src/chain/client.rs.
pub record CommittedEvent : Type 0 where
  pub kind : String
  pub attributes : List (String × List ℕ)

pub record CommittedBlock : Type 0 where
  pub height : ℕ
  pub validators_hash : List ℕ
  pub events : List CommittedEvent

-- `hex::decode`.
pub record Hex : Type 0 where
  pub decode : List ℕ → Option (List ℕ)

abbrev pub proof_submitted_event : String
proof_submitted_event = "verification.proof_submitted"

unfoldable pub lookup : String → List (String × List ℕ) → Option (List ℕ)
lookup key [] = none
lookup key ((k, value) ∷ rest) =
    let later = lookup key rest in if k == key then some value else later

-- The loop of `attributes`; `values` is its map.
unfoldable pub attributes_from :
    List (String × List ℕ) → List (String × List ℕ) → Result (List (String × List ℕ))
unfolding lookup
attributes_from values [] = ok values
attributes_from values ((key, value) ∷ rest) =
    let others = attributes_from ((key, value) ∷ values) rest in
    if is_some (lookup key values)
    then err (invalid_chain_contract "duplicate attribute")
    else others

unfoldable pub attributes : CommittedEvent → Result (List (String × List ℕ))
unfolding attributes_from
attributes event = attributes_from [] event.attributes

unfoldable pub required : List (String × List ℕ) → String → Result (List ℕ)
unfolding lookup
required values key = elim (lookup key values) [
  | none ↦ err (invalid_chain_contract "missing attribute")
  | some value ↦ ok value
]

-- A required value, read by a parser.
unfoldable pub parsed :
    {A : Type 0} → (List ℕ → Option A) → List (String × List ℕ) → String → Result A
unfolding required
parsed parser values key = required values key >>= λ text. elim (parser text) [
  | none ↦ err (invalid_chain_contract "invalid attribute")
  | some a ↦ ok a
]

abbrev pub parse_u64 : List (String × List ℕ) → String → Result ℕ
parse_u64 values key = parsed (parse_unsigned 18446744073709551616) values key

abbrev pub parse_u32 : List (String × List ℕ) → String → Result ℕ
parse_u32 values key = parsed (parse_unsigned 4294967296) values key

abbrev pub parse_i32 : List (String × List ℕ) → String → Result ℤ
parse_i32 values key = parsed parse_signed values key

module _ ⦃hex : Hex⦄ where
  abbrev pub parse_hex : List (String × List ℕ) → String → Result (List ℕ)
  parse_hex values key = parsed hex.decode values key

  module _ ⦃sha : Sha256⦄ where
    -- The description of the proof in the attributes of an event.
    unfoldable pub parse_descriptor : List (String × List ℕ) → Result VerificationId
    unfolding validate_descriptor parsed
    parse_descriptor values = do
      proof_type ← parse_i32 values "proof_type"
      proof_hash ← parse_hex values "proof_hash"
      public_inputs_hash ← parse_hex values "public_inputs_hash"
      verification_key_hash ← parse_hex values "verification_key_hash"
      id ← parse_hex values "verification_id"
      validate_descriptor proof_type proof_hash public_inputs_hash verification_key_hash id

    -- The position of an event in its block.
    unfoldable pub parse_position : ℕ → List (String × List ℕ) → Result ℕ
    unfolding validate_position parsed
    parse_position height values = do
      submission_height ← parse_u64 values "submission_height"
      index_in_block ← parse_u32 values "index_in_block"
      validate_position submission_height index_in_block height
      ok index_in_block

    -- The loop of `parse_proof_events`; `positions` is its set.
    unfoldable pub parse_events_from :
        ℕ → List ℕ → List CommittedEvent → Result (List VerificationId)
    unfolding attributes parse_position parse_descriptor
    parse_events_from height positions [] = ok []
    parse_events_from height positions (event ∷ events) =
        let skipped = parse_events_from height positions events in
        let next = attributes event >>= λ values. parse_position height values >>= λ index.
        let rest = parse_events_from height (index ∷ positions) events in
        if contains positions index
        then err (invalid_chain_contract "duplicate proof index")
        else parse_descriptor values >>= λ id. rest >>= λ ids. ok (id ∷ ids) in
        if event.kind == proof_submitted_event then next else skipped

    unfoldable pub parse_proof_events : CommittedBlock → Result (List VerificationId)
    unfolding parse_events_from
    parse_proof_events block = parse_events_from block.height [] block.events
