-- ===== src/Samples/Listening.antt =====
-- The theorems on src/listener.rs, applied to a listener that has seen the height 4 and receives the
-- block of height 7 with one submission; the node reports one more for the height 6.
use pulsar_verifier.Prelude.{
  if◌then◌else◌, [], none, some, true, refl, ◌∷◌, ◌≡◌, ◌≤◌, ◌↔◌, List, contains, ℕ, nat_beq, length,
  arith, nat_eq,
}
use pulsar_verifier.Error.{ok, err, Result, Error}
use pulsar_verifier.Identity.{VerificationId}
use pulsar_verifier.Listener.Blocks.{Answers, Listener, process_block, next_backoff, active_heights}
use pulsar_verifier.Listener.Events.{
  Hex, CommittedEvent, CommittedBlock, parse_proof_events, proof_submitted_event,
}
use pulsar_verifier.Listener.Guarantees.{Recorded, process_block-Recorded, process_block-Keeps}
use pulsar_verifier.Listener.Numbers.{parse_unsigned, parse_signed}
use pulsar_verifier.Listener.Observed.{Keeps}
use pulsar_verifier.Listener.Positions.{length-parse_proof_events}
use pulsar_verifier.Listener.Session.{Delivery}
use pulsar_verifier.Listener.Window.{next_backoff_lem, active_heights_lem}
use pulsar_verifier.Proof.{type_of_wire, id_of_bytes, from_component_hashes}
use pulsar_verifier.Samples.Assoc.{compute_entry}
use pulsar_verifier.Samples.Platform.{
  sample_moka, sample_sha, empty_store, sample_id, fit, sample_proof, sample_prost,
}
use pulsar_verifier.Store.Entries.{observe_entry}
use pulsar_verifier.Store.History.{evicts}
use pulsar_verifier.Store.Moka.{RemovalCause}
use pulsar_verifier.Store.Operations.{observe_chain_verification, transition}

-- Every pair of characters is taken for the byte of its second one.
unfoldable pairs : List ℕ → List ℕ
pairs [] = []
pairs (c ∷ []) = []
pairs (c ∷ d ∷ text) = d ∷ pairs text

unfoldable doubled : List ℕ → List ℕ
doubled [] = []
doubled (b ∷ bytes) = 48 ∷ b ∷ doubled bytes

instance abbrev sample_hex : Hex
sample_hex = record { decode = λ text. some (pairs text) }

abbrev submission : CommittedEvent
submission = record {
  kind = proof_submitted_event;
  attributes =
      ("submission_height", 55 ∷ [])
      ∷ ("index_in_block", 48 ∷ [])
      ∷ ("proof_type", 50 ∷ [])
      ∷ ("proof_hash", doubled (fit 32 sample_proof.proof))
      ∷ ("public_inputs_hash", doubled (fit 32 sample_proof.public_inputs))
      ∷ ("verification_key_hash", doubled (fit 32 sample_proof.verification_key))
      ∷ ("verification_id", doubled sample_id.bytes)
      ∷ [];
}

abbrev block_seven : CommittedBlock
block_seven = record { height = 7; validators_hash = 1 ∷ []; events = submission ∷ [] }

abbrev other_id : VerificationId
other_id = record { bytes = 9 ∷ [] }

abbrev sample_answers : Answers
sample_answers = record {
  proofs_by_height = λ height. ok (if nat_beq height 6 then other_id ∷ [] else []);
  latest_height = ok 7;
  validators_hash = λ height. ok (1 ∷ []);
  replace_at = none;
}

abbrev at_four : Listener
at_four = record {
  store = empty_store;
  state = record { last_height = some 4; validators_hash = none };
  replaced = [];
}

parsed_ids : parse_proof_events block_seven ≡ ok (sample_id ∷ [])
unfolding parse_proof_events parse_unsigned contains parse_signed type_of_wire pairs doubled fit
    id_of_bytes from_component_hashes
parsed_ids = refl

length-parse_proof_events_example : 1 ≤ 256
length-parse_proof_events_example =
    length-parse_proof_events block_seven (sample_id ∷ []) parsed_ids

abbrev processed_seven : Result (Unit {0}) × Listener
processed_seven = process_block (λ n. n) sample_answers block_seven at_four

seven_read : processed_seven.0 ≡ ok tt
unfolding process_block parse_unsigned contains parse_signed type_of_wire pairs doubled fit
    id_of_bytes from_component_hashes observe_chain_verification transition compute_entry
    observe_entry
seven_read = refl

process_block-Recorded_example : Recorded sample_answers block_seven at_four processed_seven.1
process_block-Recorded_example =
    process_block-Recorded (λ n. n) sample_answers block_seven at_four seven_read

process_block-Keeps_example :
    Keeps at_four processed_seven.1
    × ((e : Error)
        → parse_proof_events block_seven ≡ err e
        → process_block (λ n. n) sample_answers block_seven at_four ≡ (err e, at_four))
process_block-Keeps_example = process_block-Keeps (λ n. n) sample_answers block_seven at_four

-- Between the recovery and the block, the store drops the record that the recovery observed.
abbrev delivered : List Delivery
delivered =
    record {
      others = evicts other_id RemovalCause.size ∷ [];
      clock = λ n. n;
      answers = sample_answers;
      event = ok (some block_seven);
    }
    ∷ []

abbrev made : Result (Unit {0})
made = ok tt

active_heights_lem_example :
    ((contains (active_heights 7) 5 ≡ true) ↔ ((1 ≤ 5) × (5 ≤ 7) × (7 ≤ 7)))
    × (length (active_heights 7) ≤ 3)
active_heights_lem_example = active_heights_lem 7 5

next_backoff_lem_example : next_backoff 30000 20000 ≡ 30000
next_backoff_lem_example = next_backoff_lem 30000 20000 (omega arith)
