-- ===== src/Samples/Workers.antt =====
-- The theorems on src/verification and src/chain, applied to a small worker, to a backend that is
-- busy twice, and to the description of one proof.
use pulsar_verifier.Prelude.{
  ℕ, if◌then◌else◌, [], some, true, false, inl, refl, ◌∷◌, ◌≡◌, ◌↔◌, is_distinct, ltb, contains,
  arith,
}
use pulsar_verifier.Chain.Acceptance.{
  IsPending, IsDescriptor, validate_query_proof_iff, validate_descriptor_iff,
  validate_descriptor-verification_id,
}
use pulsar_verifier.Chain.Descriptor.{
  validate_descriptor, ChainProof, QueryProofResponse, validate_query_proof, State,
}
use pulsar_verifier.Error.{ok}
use pulsar_verifier.Identity.{ProofType}
use pulsar_verifier.Prelude.Int.{pos}
use pulsar_verifier.Proof.{
  type_number, type_of_wire, verification_id, id_of_bytes, from_component_hashes,
}
use pulsar_verifier.Samples.Platform.{
  ready_store, sample_job, sample_id, fit, sample_moka, sample_sha, sample_outcome, sample_proof,
  sample_prost,
}
use pulsar_verifier.Store.Record.{VerificationFailure, VerificationOutcome, VerificationVerdict}
use pulsar_verifier.Verification.Attempts.{Verifier, VerificationConfig, execute_job, Answer}
use pulsar_verifier.Verification.Queue.{IsSound}
use pulsar_verifier.Verification.Registry.{new, get, get-new}
use pulsar_verifier.Verification.Retries.{IsLast, execute_job-IsLast}
use pulsar_verifier.Verification.Turns.{Turns, Turn, Turns-IsSound}
use pulsar_verifier.Verification.Worker.{Worker, start_ready_jobs}

abbrev busy : VerificationFailure
busy = record { code = b'b' ∷ []; message = []; retryable = true }

-- The backend fails twice and then accepts.
abbrev flaky : Verifier
flaky attempt p =
    if ltb attempt 2 then Answer.failure busy else Answer.verdict VerificationVerdict.valid

abbrev worker_config : VerificationConfig
worker_config = record {
  max_concurrent_jobs = 2;
  job_timeout = 30000000000;
  max_retries = 2;
  retry_backoff = 250000000;
}

abbrev sample_worker : Worker
sample_worker = record {
  store = ready_store;
  received = [];
  registry = (ProofType.noir_barretenberg, flaky) ∷ [];
  config = worker_config;
  pending = sample_id ∷ [];
  pending_ids = sample_id ∷ [];
  active_ids = [];
  jobs = [];
}

sample_worker-IsSound : IsSound sample_worker
unfolding is_distinct contains
sample_worker-IsSound = record {
  mirror = refl;
  running = refl;
  pending_once = refl;
  active_once = refl;
  apart = λ id h. refl;
  bounded = omega arith;
}

abbrev started : Worker
started = (start_ready_jobs (λ n. false) (λ n. []) sample_worker).1

one_turn : Turns sample_worker started
one_turn =
    Turns.goes sample_worker started started (Turn.starts (λ n. false) (λ n. []))
      (Turns.stays started)

Turns-IsSound_example : IsSound started
Turns-IsSound_example = Turns-IsSound sample_worker started one_turn sample_worker-IsSound

execute_job_slept :
    execute_job sample_job (some flaky) worker_config
    ≡ ok (record {
      completion = record { job = sample_job; outcome = sample_outcome };
      delays = 250000000 ∷ 500000000 ∷ [];
    })
unfolding execute_job
execute_job_slept = refl

execute_job-IsLast_example :
    (n : ℕ) × (last : VerificationOutcome) × IsLast flaky sample_job worker_config 0 n last
      (execute_job sample_job (some flaky) worker_config)
execute_job-IsLast_example = execute_job-IsLast flaky sample_job worker_config (omega arith)

routes :
    new ((ProofType.noir_barretenberg, flaky) ∷ []) ≡ ok ((ProofType.noir_barretenberg, flaky) ∷ [])
unfolding new
routes = refl

get-new_example :
    get ((ProofType.noir_barretenberg, flaky) ∷ []) ProofType.noir_barretenberg ≡ some flaky
get-new_example =
    get-new ((ProofType.noir_barretenberg, flaky) ∷ []) ((ProofType.noir_barretenberg, flaky) ∷ [])
      ProofType.noir_barretenberg flaky routes (inl refl)

validate_descriptor_iff_example :
    (validate_descriptor (pos 2) [] [] [] sample_id.bytes ≡ ok sample_id)
    ↔ IsDescriptor (pos 2) [] [] [] sample_id.bytes sample_id
validate_descriptor_iff_example = validate_descriptor_iff (pos 2) [] [] [] sample_id.bytes sample_id

validate_descriptor-verification_id_example :
    validate_descriptor
      (pos (type_number sample_proof.proof_type))
      (sample_sha.digest sample_proof.proof)
      (sample_sha.digest sample_proof.public_inputs)
      (sample_sha.digest sample_proof.verification_key)
      (verification_id sample_proof).bytes
    ≡ ok (verification_id sample_proof)
validate_descriptor-verification_id_example = validate_descriptor-verification_id sample_proof

abbrev sample_chain_proof : ChainProof
sample_chain_proof = record {
  verification_id = sample_id;
  submission_height = 7;
  index_in_block = 3;
}

abbrev sample_response : QueryProofResponse
sample_response = record {
  proof_key = some (record { submission_height = 7; index_in_block = 3 });
  state = some (
      State.pending (record {
        proof_hash = fit 32 sample_proof.proof;
        proof_type = pos 2;
        public_inputs_hash = fit 32 sample_proof.public_inputs;
        verification_key_hash = fit 32 sample_proof.verification_key;
        verification_id = sample_id.bytes;
      }));
}

response_accepted : validate_query_proof sample_response 7 ≡ ok (some sample_chain_proof)
unfolding validate_query_proof fit type_of_wire id_of_bytes from_component_hashes
response_accepted = refl

validate_query_proof_iff_example :
    (validate_query_proof sample_response 7 ≡ ok (some sample_chain_proof))
    ↔ IsPending sample_response 7 sample_chain_proof
validate_query_proof_iff_example = validate_query_proof_iff sample_response 7 sample_chain_proof
