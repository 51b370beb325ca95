-- ===== src/Config/Peers.antt =====
-- src/config.rs: the settings of the peer-to-peer network. A multiaddress is its bytes; libp2p's
-- parser of multiaddresses is a parameter.
use pulsar_verifier.Prelude.{
  ℕ, if◌then◌else◌, none, some, ◌||◌, Bool, is_empty, List, not, nat_beq, Option, ltb, leb,
}
use pulsar_verifier.Config.Jobs.{is_absolute, in_range, from_secs, from_millis}
use pulsar_verifier.Error.{Result, ◌>>=◌, ◌>>◌, ok, err, invalid_config, collect}

pub record FileP2pConfig : Type 0 where
  pub enabled : Bool
  pub listen_addresses : List (List ℕ)
  pub bootnodes : List (List ℕ)
  pub validator_key_path : List ℕ
  pub max_availability_message_bytes : ℕ
  pub proof_request_timeout_secs : ℕ
  pub max_concurrent_retrievals : ℕ
  pub retrieval_timeout_secs : ℕ
  pub retrieval_initial_backoff_millis : ℕ
  pub retrieval_max_backoff_secs : ℕ
  pub command_buffer : ℕ
  pub event_buffer : ℕ

pub record P2pConfig : Type 0 where
  pub enabled : Bool
  pub chain_id : List ℕ
  pub listen_addresses : List (List ℕ)
  pub bootnodes : List (List ℕ)
  pub validator_key_path : List ℕ
  pub max_availability_message_bytes : ℕ
  pub max_proof_bytes : ℕ
  pub proof_request_timeout : ℕ
  pub max_concurrent_retrievals : ℕ
  pub retrieval_timeout : ℕ
  pub retrieval_initial_backoff : ℕ
  pub retrieval_max_backoff : ℕ
  pub command_buffer : ℕ
  pub event_buffer : ℕ

-- The checks that apply when the network is enabled.
unfoldable pub check_enabled : FileP2pConfig → Result (Unit {0})
check_enabled file =
    if file.enabled
    then (if is_empty file.listen_addresses
        then err (invalid_config "p2p.listen_addresses must not be empty when P2P is enabled")
        else if not (is_absolute file.validator_key_path)
        then err (invalid_config "p2p.validator_key_path must be absolute when P2P is enabled")
        else ok tt)
    else ok tt

-- Whether one of the settings that must be positive is zero.
unfoldable pub has_zero : FileP2pConfig → Bool
has_zero file =
    nat_beq file.proof_request_timeout_secs 0
    || (nat_beq file.retrieval_timeout_secs 0
        || (nat_beq file.retrieval_initial_backoff_millis 0
            || (nat_beq file.retrieval_max_backoff_secs 0
                || (nat_beq file.max_availability_message_bytes 0
                    || (nat_beq file.command_buffer 0 || nat_beq file.event_buffer 0)))))

-- The checks of limits and timeouts.
unfoldable pub check_limits : FileP2pConfig → Result (Unit {0})
unfolding has_zero
check_limits file =
    if has_zero file
    then err (
        invalid_config
          "P2P timeouts, message limits, and channel capacities must be greater than zero")
    else if not (in_range 1 256 file.max_concurrent_retrievals)
    then err (invalid_config "p2p.max_concurrent_retrievals must be between 1 and 256")
    else if ltb (from_secs file.retrieval_max_backoff_secs)
        (from_millis file.retrieval_initial_backoff_millis)
    then err (
        invalid_config
          "p2p.retrieval_initial_backoff_millis must not exceed retrieval_max_backoff_secs")
    else if ltb (from_secs file.retrieval_timeout_secs) (from_secs file.retrieval_max_backoff_secs)
    then err
        (invalid_config "p2p.retrieval_max_backoff_secs must not exceed retrieval_timeout_secs")
    else if leb (from_secs file.retrieval_timeout_secs) (from_secs file.proof_request_timeout_secs)
    then err (
        invalid_config "p2p.retrieval_timeout_secs must be greater than proof_request_timeout_secs")
    else ok tt

module _ (parse : List ℕ → Option (List ℕ)) where
  abbrev pub parse_multiaddr : List ℕ → Result (List ℕ)
  parse_multiaddr value = elim (parse value) [
    | none ↦ err (invalid_config "contains invalid multiaddr")
    | some address ↦ ok address
  ]

  abbrev pub parse_multiaddrs : List (List ℕ) → Result (List (List ℕ))
  parse_multiaddrs values = collect parse_multiaddr values

  unfoldable pub validate_p2p : FileP2pConfig → ℕ → List ℕ → Result P2pConfig
  unfolding check_enabled check_limits
  validate_p2p file max_proof_bytes chain_id = do
    check_enabled file
    listen_addresses ← parse_multiaddrs file.listen_addresses
    bootnodes ← parse_multiaddrs file.bootnodes
    check_limits file
    ok (record {
      enabled = file.enabled;
      chain_id = chain_id;
      listen_addresses = listen_addresses;
      bootnodes = bootnodes;
      validator_key_path = file.validator_key_path;
      max_availability_message_bytes = file.max_availability_message_bytes;
      max_proof_bytes = max_proof_bytes;
      proof_request_timeout = from_secs file.proof_request_timeout_secs;
      max_concurrent_retrievals = file.max_concurrent_retrievals;
      retrieval_timeout = from_secs file.retrieval_timeout_secs;
      retrieval_initial_backoff = from_millis file.retrieval_initial_backoff_millis;
      retrieval_max_backoff = from_secs file.retrieval_max_backoff_secs;
      command_buffer = file.command_buffer;
      event_buffer = file.event_buffer;
    })
