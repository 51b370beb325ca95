-- ===== src/Store/Record.antt =====
-- src/store/record.rs: the cached record, its verification lifecycle and the values that the store
-- hands out. An `Instant` is a number; an `Arc` is its value with the address that `ptr_eq` compares.
use pulsar_verifier.Prelude.{
  ℕ, List, Option, Bool, leb, ◌||◌, true, nat_beq, some, ◌&&◌, ltb, ◌∷◌, false, suc, if◌then◌else◌,
  [], is_empty, length, not,
}
use pulsar_verifier.Error.{Result, ok, err, invalid_verification_failure}
use pulsar_verifier.Identity.{PeerId, VerificationId}
use pulsar_verifier.Proof.{Proof}

abbrev pub failure_code_max_bytes : ℕ
failure_code_max_bytes = 64

abbrev pub failure_message_max_bytes : ℕ
failure_message_max_bytes = 256

pub data VerificationVerdict : Type 0 where
  valid invalid : VerificationVerdict

pub record VerificationFailure : Type 0 where
  pub code : List ℕ
  pub message : List ℕ
  pub retryable : Bool

-- `u8::is_ascii_lowercase` and `u8::is_ascii_digit`.
abbrev is_ascii_lowercase : ℕ → Bool
is_ascii_lowercase byte = leb b'a' byte && leb byte b'z'

abbrev is_ascii_digit : ℕ → Bool
is_ascii_digit byte = leb b'0' byte && leb byte b'9'

-- The closure of `code.bytes().enumerate().all(..)`.
abbrev pub code_byte : ℕ → ℕ → Bool
code_byte index byte =
    is_ascii_lowercase byte || (ltb 0 index && (is_ascii_digit byte || nat_beq byte b'_'))

unfoldable pub code_bytes : ℕ → List ℕ → Bool
code_bytes index [] = true
code_bytes index (byte ∷ rest) = code_byte index byte && code_bytes (suc index) rest

-- `VerificationFailure::new`.
unfoldable pub new_failure : List ℕ → List ℕ → Bool → Result VerificationFailure
new_failure code message retryable =
    if is_empty code || ltb failure_code_max_bytes (length code)
    then err (invalid_verification_failure "code must contain 1 to 64 bytes")
    else if not (code_bytes 0 code)
    then err (
        invalid_verification_failure
          "code must start with a lowercase ASCII letter and contain only lowercase ASCII letters, digits, or underscores")
    else if ltb failure_message_max_bytes (length message)
    then err (invalid_verification_failure "message must contain at most 256 bytes")
    else ok (record { code = code; message = message; retryable = retryable })

pub data VerificationState : Type 0 where
  queued verifying : VerificationState
  completed : VerificationVerdict → VerificationState
  failed : VerificationFailure → VerificationState

-- Trusted origin of locally stored proof bytes (src/store/event.rs).
pub data ProofSource : Type 0 where
  rpc : ProofSource
  peer : PeerId → ProofSource

pub record ProofMetadata : Type 0 where
  pub chain_observed_at : Option ℕ
  pub content_source : Option ProofSource
  pub content_stored_at : Option ℕ
  pub verification : Option VerificationState
  pub completed_at : Option ℕ

pub record ProofRecord : Type 0 where
  pub metadata : ProofMetadata
  pub open metadata use *
  pub proof : Option Proof

pub record Arc {ℓ} (A : Type ℓ) : Type ℓ where
  pub address : ℕ
  pub value : A

-- `Arc::ptr_eq`.
abbrev pub ptr_eq {ℓ} : {A : Type ℓ} → Arc A → Arc A → Bool
ptr_eq a b = nat_beq a.address b.address

pub record StoredProof : Type 0 where
  pub verification_id : VerificationId
  pub stored : Arc ProofRecord

pub record VerificationJob : Type 0 where
  pub verification_id : VerificationId
  pub proof : Proof
  pub claim : Arc ProofRecord

pub data VerificationOutcome : Type 0 where
  completed : VerificationVerdict → VerificationOutcome
  failed : VerificationFailure → VerificationOutcome

pub data VerificationStatus : Type 0 where
  unavailable queued verifying : VerificationStatus
  completed : VerificationVerdict → VerificationStatus
  failed : VerificationFailure → VerificationStatus

pub record StoredVerificationStatus : Type 0 where
  pub verification_id : VerificationId
  pub status : VerificationStatus

pub record CompletedVerification : Type 0 where
  pub verification_id : VerificationId
  pub verdict : VerificationVerdict

pub data StoreChange : Type 0 where
  inserted updated unchanged : StoreChange

-- `change != StoreChange::Unchanged`.
abbrev pub is_changed : StoreChange → Bool
is_changed StoreChange.unchanged = false
is_changed change = true

-- The comparisons with `Some(VerificationState::Queued)` and `Some(VerificationState::Verifying)`.
abbrev pub is_queued : Option VerificationState → Bool
is_queued (some VerificationState.queued) = true
is_queued state = false

abbrev pub is_verifying : Option VerificationState → Bool
is_verifying (some VerificationState.verifying) = true
is_verifying state = false
