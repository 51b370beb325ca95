-- ===== src/Samples/Peers.antt =====
-- The theorems on src/p2p/availability.rs and src/p2p/authorization.rs, applied to two peers and a codec
-- that takes any bytes for a peer.
use pulsar_verifier.Prelude.{
  [], true, refl, ◌∷◌, ◌≡◌, is_distinct, contains, length, set_insert, List, ℕ, Option, some,
}
use pulsar_verifier.Chain.Validators.{ValidatorsResponse, ValidatorNode, validator_public_keys}
use pulsar_verifier.Error.{ok}
use pulsar_verifier.Identity.{PeerId, VerificationId, peer_eq}
use pulsar_verifier.P2p.Admission.{IsAdmitted, decode_and_validate-IsAdmitted}
use pulsar_verifier.P2p.Holdings.{changed_all, Change, held_after_all, providers-held_after_all}
use pulsar_verifier.P2p.Index.{AvailabilityIndex, providers}
use pulsar_verifier.P2p.Messages.{
  PeerCodec, decode_and_validate, load_at, Payload, AvailabilityMessage, ValidatedAvailability,
}
use pulsar_verifier.P2p.Providers.{IsTidy, has_key, provides}
use pulsar_verifier.P2p.Validators.{load_at-validator_public_keys}
use pulsar_verifier.Prelude.Int.{pos}
use pulsar_verifier.Proof.{id_of_bytes}
use pulsar_verifier.Samples.Platform.{sample_id, fit}

abbrev ann : PeerId
ann = record { bytes = 1 ∷ [] }

abbrev bob : PeerId
bob = record { bytes = 2 ∷ [] }

abbrev known_index : AvailabilityIndex
known_index = (sample_id, bob ∷ []) ∷ []

known_index-IsTidy : IsTidy known_index
unfolding IsTidy has_key
known_index-IsTidy = (record { once = refl; named = refl }, tt)

providers-held_after_all_example :
    IsTidy (changed_all (Change.adds sample_id ann ∷ Change.drops bob ∷ []) known_index)
    × ((j : VerificationId) (q : PeerId)
        → contains
            (providers
              (changed_all (Change.adds sample_id ann ∷ Change.drops bob ∷ []) known_index)
              j)
            q
          ≡ held_after_all
              (Change.adds sample_id ann ∷ Change.drops bob ∷ [])
              (provides known_index)
              j
              q)
providers-held_after_all_example =
    providers-held_after_all (Change.adds sample_id ann ∷ Change.drops bob ∷ []) known_index
      known_index-IsTidy

instance abbrev sample_codec : PeerCodec
sample_codec = record {
  decode = λ bytes. some (record {
    chain_id = 99 ∷ [];
    payload =
        some
          (Payload.response (fit 16 bytes) sample_id.bytes ((2 ∷ []) ∷ (1 ∷ []) ∷ (2 ∷ []) ∷ []));
  });
  from_bytes = λ bytes. some (record { bytes = bytes });
  from_ed25519 = λ key. ok (record { bytes = key });
}

response_taken :
    decode_and_validate (7 ∷ []) (99 ∷ []) (ann ∷ bob ∷ []) 3
    ≡ ok (
        ValidatedAvailability.response
          (record { bytes = fit 16 (7 ∷ []) })
          sample_id
          (ann ∷ bob ∷ []))
unfolding decode_and_validate contains set_insert fit id_of_bytes
response_taken = refl

decode_and_validate-IsAdmitted_example :
    IsAdmitted (ann ∷ bob ∷ []) 3 (ann ∷ bob ∷ [])
    × ((envelope : AvailabilityMessage) × (sample_codec.decode (7 ∷ []) ≡ some envelope)
        × (envelope.chain_id ≡ 99 ∷ []))
decode_and_validate-IsAdmitted_example =
    decode_and_validate-IsAdmitted (7 ∷ []) (99 ∷ []) (ann ∷ bob ∷ []) 3
      (record { bytes = fit 16 (7 ∷ []) }) sample_id (ann ∷ bob ∷ []) response_taken

abbrev ann_key : List ℕ
ann_key = fit 32 (1 ∷ [])

abbrev bob_key : List ℕ
bob_key = fit 32 (2 ∷ [])

abbrev two_validators : ValidatorsResponse
two_validators = record { block_height = 7; total = pos 2; public_keys = ann_key ∷ bob_key ∷ [] }

abbrev any_height : ℕ → Option ℕ
any_height height = some height

abbrev two_node : ValidatorNode
two_node height = some two_validators

abbrev two_peers : List PeerId
two_peers = record { bytes = ann_key } ∷ record { bytes = bob_key } ∷ []

two_loaded : load_at (validator_public_keys any_height two_node 7) ≡ ok two_peers
unfolding load_at validator_public_keys contains set_insert fit
two_loaded = refl

load_at-validator_public_keys_example :
    (is_distinct two_peers ≡ true) × (pos 2 ≡ pos (length two_peers))
load_at-validator_public_keys_example =
    load_at-validator_public_keys any_height two_node 7 7 two_validators two_peers refl refl
      two_loaded
