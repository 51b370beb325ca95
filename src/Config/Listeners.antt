-- ===== src/Config/Listeners.antt =====
-- src/config.rs: the settings of the block listener and of the two loopback servers. The grammar of
-- socket addresses is the standard library's, a parameter.
use pulsar_verifier.Prelude.{
  ℕ, if◌then◌else◌, [], none, some, false, ◌∷◌, ◌&&◌, ◌||◌, ◌==◌, List, Bool, nat_beq, bytes_eq,
  Option, ltb, not,
}
use pulsar_verifier.Config.Jobs.{from_secs, from_millis, in_range}
use pulsar_verifier.Error.{Result, ◌>>=◌, ok, err, invalid_config}

-- `std::net::IpAddr` by its octets.
pub data IpAddr : Type 0 where
  v4 v6 : List ℕ → IpAddr

pub record SocketAddr : Type 0 where
  pub ip : IpAddr
  pub port : ℕ

-- `IpAddr::is_loopback`: 127.0.0.0/8, or ::1.
abbrev pub is_loopback : IpAddr → Bool
is_loopback (v4 []) = false
is_loopback (v4 (b ∷ rest)) = nat_beq b 127
is_loopback (v6 octets) =
    octets == (0 ∷ 0 ∷ 0 ∷ 0 ∷ 0 ∷ 0 ∷ 0 ∷ 0 ∷ 0 ∷ 0 ∷ 0 ∷ 0 ∷ 0 ∷ 0 ∷ 0 ∷ 1 ∷ [])

pub record FileListenerConfig : Type 0 where
  pub enabled : Bool
  pub reconnect_initial_backoff_millis : ℕ
  pub reconnect_max_backoff_secs : ℕ

pub record ListenerConfig : Type 0 where
  pub enabled : Bool
  pub reconnect_initial_backoff : ℕ
  pub reconnect_max_backoff : ℕ

unfoldable pub validate_listener : FileListenerConfig → Result ListenerConfig
validate_listener file =
    if nat_beq file.reconnect_initial_backoff_millis 0 || nat_beq file.reconnect_max_backoff_secs 0
    then err (invalid_config "Listener reconnect backoffs must be greater than zero")
    else if ltb (from_secs file.reconnect_max_backoff_secs)
        (from_millis file.reconnect_initial_backoff_millis)
    then err (
        invalid_config
          "listener.reconnect_initial_backoff_millis must not exceed reconnect_max_backoff_secs")
    else ok (record {
      enabled = file.enabled;
      reconnect_initial_backoff = from_millis file.reconnect_initial_backoff_millis;
      reconnect_max_backoff = from_secs file.reconnect_max_backoff_secs;
    })

pub record FileRpcConfig : Type 0 where
  pub enabled : Bool
  pub listen_address : List ℕ

pub record RpcConfig : Type 0 where
  pub enabled : Bool
  pub listen_address : SocketAddr

pub record FileSubmissionConfig : Type 0 where
  pub enabled : Bool
  pub listen_address : List ℕ
  pub max_transaction_bytes : ℕ
  pub max_concurrent_requests : ℕ

pub record SubmissionConfig : Type 0 where
  pub enabled : Bool
  pub listen_address : SocketAddr
  pub max_transaction_bytes : ℕ
  pub max_concurrent_requests : ℕ

module _ (parse : List ℕ → Option SocketAddr) where
  -- The section's name occurs in diagnostics only.
  unfoldable pub validate_loopback_address : Bool → List ℕ → Result SocketAddr
  validate_loopback_address enabled value = elim (parse value) [
    | none ↦ err (invalid_config "listen_address must be a literal IP and port")
    | some address ↦
        if enabled && nat_beq address.port 0
        then err (invalid_config "listen_address port must be greater than zero when enabled")
        else if enabled && not (is_loopback address.ip)
        then err (invalid_config "listen_address must use a loopback IP when enabled")
        else ok address
  ]

  unfoldable pub validate_rpc : FileRpcConfig → Result RpcConfig
  unfolding validate_loopback_address
  validate_rpc file = do
    address ← validate_loopback_address file.enabled file.listen_address
    ok (record { enabled = file.enabled; listen_address = address })

  unfoldable pub validate_submission : FileSubmissionConfig → Result SubmissionConfig
  unfolding validate_loopback_address
  validate_submission file =
      validate_loopback_address file.enabled file.listen_address >>= λ address.
      if not (in_range 1 16777216 file.max_transaction_bytes)
      then err (invalid_config "submission.max_transaction_bytes must be between 1 byte and 16 MiB")
      else if not (in_range 1 64 file.max_concurrent_requests)
      then err (invalid_config "submission.max_concurrent_requests must be between 1 and 64")
      else ok (record {
        enabled = file.enabled;
        listen_address = address;
        max_transaction_bytes = file.max_transaction_bytes;
        max_concurrent_requests = file.max_concurrent_requests;
      })
