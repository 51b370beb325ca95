-- ===== src/P2p/Messages.antt =====
-- src/p2p/availability.rs: the validation of an availability message. The decoders of prost and of
-- libp2p's `PeerId` are the record `PeerCodec`; a text is its bytes.
use pulsar_verifier.Prelude.{
  if◌then◌else◌, [], none, some, ◌∷◌, ◌==◌, List, set_insert, ℕ, Option, length, ltb, nat_eq,
  contains, not, bytes_eq, nat_beq,
}
use pulsar_verifier.Error.{ok, err, ◌>>=◌, Result, p2p_protocol, p2p_authorization}
use pulsar_verifier.Identity.{VerificationId, PeerId, peer_eq}
use pulsar_verifier.P2p.Index.{sort_by_bytes}
use pulsar_verifier.Proof.{id_of_bytes}

pub record QueryId : Type 0 where
  pub bytes : List ℕ

-- `availability_message::Payload` and `AvailabilityMessage`, generated from
-- crates/pulsar-verifier-proto/proto/pulsar/verifier/v1.
pub data Payload : Type 0 where
  announcement : List ℕ → Payload
  query : List ℕ → List ℕ → Payload
  response : List ℕ → List ℕ → List (List ℕ) → Payload

pub record AvailabilityMessage : Type 0 where
  pub chain_id : List ℕ
  pub payload : Option Payload

pub data ValidatedAvailability : Type 0 where
  announcement : VerificationId → ValidatedAvailability
  query : QueryId → VerificationId → ValidatedAvailability
  response : QueryId → VerificationId → List PeerId → ValidatedAvailability

pub record PeerCodec : Type 0 where
  pub decode : List ℕ → Option AvailabilityMessage
  pub from_bytes : List ℕ → Option PeerId
  pub from_ed25519 : List ℕ → Result PeerId

unfoldable pub query_id : List ℕ → Result QueryId
query_id bytes = if length bytes == 16 then ok (record { bytes = bytes }) else err p2p_protocol

module _ ⦃codec : PeerCodec⦄ where
  -- The loop over the providers of a response; `unique` is its set.
  unfoldable pub providers_from : List PeerId → List PeerId → List (List ℕ) → Result (List PeerId)
  unfolding set_insert
  providers_from authorized unique [] = ok unique
  providers_from authorized unique (bytes ∷ rest) = elim (codec.from_bytes bytes) [
    | none ↦ err p2p_protocol
    | some peer ↦
        let others = providers_from authorized (set_insert peer unique) rest in
        if contains authorized peer then others else err p2p_protocol
  ]

  unfoldable pub validate_payload : List PeerId → ℕ → Payload → Result ValidatedAvailability
  unfolding query_id providers_from sort_by_bytes id_of_bytes
  validate_payload authorized maximum (Payload.announcement id) =
      id_of_bytes id >>= λ v. ok (ValidatedAvailability.announcement v)
  validate_payload authorized maximum (Payload.query request id) =
      query_id request >>= λ q. id_of_bytes id >>= λ v. ok (ValidatedAvailability.query q v)
  validate_payload authorized maximum (Payload.response request id peers) =
      if ltb maximum (length peers)
      then err p2p_protocol
      else providers_from authorized [] peers >>= λ unique. query_id request >>= λ q.
          id_of_bytes id >>= λ v. ok (ValidatedAvailability.response q v (sort_by_bytes unique))

  unfoldable pub decode_and_validate :
      List ℕ → List ℕ → List PeerId → ℕ → Result ValidatedAvailability
  unfolding validate_payload
  decode_and_validate bytes expected_chain_id authorized maximum = elim (codec.decode bytes) [
    | none ↦ err p2p_protocol
    | some envelope ↦
        if not (envelope.chain_id == expected_chain_id)
        then err p2p_protocol
        else elim envelope.payload [
          | none ↦ err p2p_protocol
          | some payload ↦ validate_payload authorized maximum payload
        ]
  ]

  -- src/p2p/authorization.rs: `collect::<Result<HashSet<_>>>`.
  unfoldable pub peers_from : List PeerId → List (List ℕ) → Result (List PeerId)
  unfolding set_insert
  peers_from peers [] = ok peers
  peers_from peers (key ∷ keys) =
      codec.from_ed25519 key >>= λ peer. peers_from (set_insert peer peers) keys

  -- `ValidatorSetClient::load_at`, of the keys that the chain answers.
  unfoldable pub load_at : Result (List (List ℕ)) → Result (List PeerId)
  unfolding peers_from
  load_at answer = answer >>= λ keys. peers_from [] keys >>= λ peers.
      if not (nat_beq (length peers) (length keys))
      then err (p2p_authorization "validator set contains duplicate peer identities")
      else ok peers
