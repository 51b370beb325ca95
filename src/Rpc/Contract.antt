-- ===== src/Rpc/Contract.antt =====
-- src/rpc/contract.rs and src/rpc/service.rs: from the store to the chain-facing wire contract.
-- Enum numbers are those of proto/pulsar/verifier/v1/verification_service.proto.
use pulsar_verifier.Prelude.{
  if◌then◌else◌, [], none, some, ◌∷◌, ℕ, List, Bool, Option, ltb, length, map, contains,
}
use pulsar_verifier.Error.{
  ok, err, ◌>>=◌, Error, Result, invalid_verification_request, invalid_verification_id,
}
use pulsar_verifier.Identity.{VerificationId, id_eq}
use pulsar_verifier.Proof.{id_of_bytes}
use pulsar_verifier.Store.Moka.{Moka}
use pulsar_verifier.Store.Operations.{ProofStore}
use pulsar_verifier.Store.Record.{
  VerificationVerdict, VerificationFailure, StoredVerificationStatus, CompletedVerification,
  VerificationStatus, Arc, ProofRecord,
}
use pulsar_verifier.Store.Views.{completed_results, statuses}

abbrev pub max_verification_ids : ℕ
max_verification_ids = 512

pub record WireResult : Type 0 where
  pub verification_id : List ℕ
  pub verdict : ℕ

pub record WireFailure : Type 0 where
  pub code : List ℕ
  pub message : List ℕ
  pub retryable : Bool

pub record ProofVerificationStatus : Type 0 where
  pub verification_id : List ℕ
  pub phase : ℕ
  pub verdict : ℕ
  pub failure : Option WireFailure

-- The loop of `parse_ids`; `seen` is its hash set.
unfoldable pub parse_ids_from : List VerificationId → List (List ℕ) → Result (List VerificationId)
parse_ids_from seen [] = ok []
parse_ids_from seen (raw ∷ rest) = elim (id_of_bytes raw) [
  | err e ↦ err e
  | ok id ↦
      let ids = parse_ids_from (id ∷ seen) rest in
      if contains seen id
      then err (invalid_verification_request "duplicate verification ID")
      else ids >>= λ xs. ok (id ∷ xs)
]

unfoldable pub parse_ids : List (List ℕ) → Result (List VerificationId)
unfolding parse_ids_from
parse_ids raw_ids =
    if ltb max_verification_ids (length raw_ids)
    then err (invalid_verification_request "at most 512 verification IDs are allowed")
    else parse_ids_from [] raw_ids

-- `WireVerdict::{Unspecified, Valid, Invalid}`.
abbrev pub wire_verdict : VerificationVerdict → ℕ
wire_verdict VerificationVerdict.valid = 1
wire_verdict VerificationVerdict.invalid = 2

abbrev pub wire_failure : VerificationFailure → WireFailure
wire_failure f = record { code = f.code; message = f.message; retryable = f.retryable }

abbrev pub wire_fields : VerificationId → ℕ → ℕ → Option WireFailure → ProofVerificationStatus
wire_fields id phase verdict failure = record {
  verification_id = id.bytes;
  phase = phase;
  verdict = verdict;
  failure = failure;
}

-- `WirePhase` and the fields that `wire_status` fills.
abbrev pub wire_status : StoredVerificationStatus → ProofVerificationStatus
wire_status s = elim s.status [
  | VerificationStatus.unavailable ↦ wire_fields s.verification_id 1 0 none
  | VerificationStatus.queued ↦ wire_fields s.verification_id 2 0 none
  | VerificationStatus.verifying ↦ wire_fields s.verification_id 3 0 none
  | VerificationStatus.completed v ↦ wire_fields s.verification_id 4 (wire_verdict v) none
  | VerificationStatus.failed f ↦ wire_fields s.verification_id 5 0 (some (wire_failure f))
]

abbrev pub wire_result : CompletedVerification → WireResult
wire_result c = record {
  verification_id = c.verification_id.bytes;
  verdict = wire_verdict c.verdict;
}

module _ ⦃moka : Moka (Arc ProofRecord)⦄ where
  unfoldable pub get_verification_results : ProofStore → List (List ℕ) → Result (List WireResult)
  get_verification_results store verification_ids = do
    ids ← parse_ids verification_ids
    ok (map wire_result (completed_results store ids))

  unfoldable pub get_proof_statuses :
      ProofStore → List (List ℕ) → Result (List ProofVerificationStatus)
  get_proof_statuses store verification_ids = do
    ids ← parse_ids verification_ids
    ok (map wire_status (statuses store ids))

-- `rpc_status` of service.rs: what a client is told of an error.
pub data Status : Type 0 where
  invalid_argument : Error → Status
  resource_exhausted : Error → Status
  failed_precondition : Error → Status
  unavailable : Status
  internal : Status

unfoldable pub rpc_status : Error → Status
rpc_status (invalid_verification_request text) =
    invalid_argument (invalid_verification_request text)
rpc_status invalid_verification_id = invalid_argument invalid_verification_id
rpc_status error = internal
