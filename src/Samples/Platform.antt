-- ===== src/Samples/Platform.antt =====
-- Concrete third-party parts, and small inputs for them: a digest that pads or cuts its input to 32
-- bytes, the varint length of numbers below 2 ^ 35, and the association-list cache.
use pulsar_verifier.Prelude.{
  if◌then◌else◌, [], none, some, refl, ◌∷◌, ◌≡◌, ◌≤◌, ℕ, List, suc, length, ltb, arith, zero, ap,
}
use pulsar_verifier.Identity.{VerificationId, noir_barretenberg}
use pulsar_verifier.Proof.{Sha256, Prost, Proof}
use pulsar_verifier.Samples.Assoc.{assoc_cache}
use pulsar_verifier.Store.Limits.{ProofStoreConfig}
use pulsar_verifier.Store.Moka.{Moka}
use pulsar_verifier.Store.Operations.{ProofStore}
use pulsar_verifier.Store.Record.{
  ProofRecord, VerificationJob, VerificationOutcome, Arc, rpc, VerificationVerdict,
  VerificationState,
}

unfoldable pub fit : ℕ → List ℕ → List ℕ
fit zero b = []
fit (suc n) [] = 0 ∷ fit n []
fit (suc n) (x ∷ b) = x ∷ fit n b

length-fit : (n : ℕ) (b : List ℕ) → length (fit n b) ≡ n
unfolding fit
length-fit zero b = refl
length-fit (suc n) [] = ap suc (length-fit n [])
length-fit (suc n) (x ∷ b) = ap suc (length-fit n b)

pub digest_length : (b : List ℕ) → length (fit 32 b) ≡ 32
digest_length b = length-fit 32 b

instance abbrev pub sample_sha : Sha256
sample_sha = record { digest = fit 32; digest_length = digest_length }

abbrev pub varint_len : ℕ → ℕ
varint_len n =
    if ltb n 128
    then 1
    else if ltb n 16384
    then 2
    else if ltb n 2097152
    then 3
    else if ltb n 268435456
    then 4
    else 5

pub varint_positive : (n : ℕ) → 1 ≤ varint_len n
varint_positive n = ground arith

instance abbrev pub sample_prost : Prost
sample_prost = record { encoded_len_varint = varint_len; varint_positive = varint_positive }

instance abbrev pub sample_moka : Moka (Arc ProofRecord)
sample_moka = assoc_cache

abbrev pub sample_proof : Proof
sample_proof = record {
  proof_type = noir_barretenberg;
  proof = 7 ∷ 8 ∷ [];
  public_inputs = 9 ∷ [];
  verification_key = [];
}

abbrev pub sample_id : VerificationId
sample_id = record {
  bytes =
      b'p' ∷ b'u' ∷ b'l' ∷ b's' ∷ b'a' ∷ b'r' ∷ b'/' ∷ b'v' ∷ b'e' ∷ b'r' ∷ b'i' ∷ b'f' ∷ b'i'
      ∷ b'c' ∷ b'a' ∷ b't' ∷ b'i' ∷ b'o' ∷ b'n' ∷ b'/' ∷ b'v' ∷ b'1' ∷ 0 ∷ 0 ∷ 0 ∷ 0 ∷ 2 ∷ 7 ∷ 8 ∷ 0
      ∷ 0 ∷ 0 ∷ [];
}

abbrev pub sample_config : ProofStoreConfig
sample_config = record {
  max_capacity_bytes = 1048576;
  max_proof_bytes = 1024;
  terminal_retention = 60;
  event_buffer = 16;
}

abbrev pub empty_store : ProofStore
empty_store = record { records = []; events = []; max_proof_bytes = 1024; next_address = 0 }

abbrev pub queued_record : ProofRecord
queued_record = record {
  metadata = record {
    chain_observed_at = some 1;
    content_source = some rpc;
    content_stored_at = some 2;
    verification = some VerificationState.queued;
    completed_at = none;
  };
  proof = some sample_proof;
}

-- A store with one queued record.
abbrev pub ready_store : ProofStore
ready_store = record {
  records = (sample_id, record { address = 3; value = queued_record }) ∷ [];
  events = [];
  max_proof_bytes = 1024;
  next_address = 4;
}

abbrev pub sample_job : VerificationJob
sample_job = record {
  verification_id = sample_id;
  proof = sample_proof;
  claim = record {
    address = 4;
    value = record {
      metadata = record {
        chain_observed_at = some 1;
        content_source = some rpc;
        content_stored_at = some 2;
        verification = some VerificationState.verifying;
        completed_at = none;
      };
      proof = some sample_proof;
    };
  };
}

abbrev pub sample_outcome : VerificationOutcome
sample_outcome = VerificationOutcome.completed VerificationVerdict.valid
