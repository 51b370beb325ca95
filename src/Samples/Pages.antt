-- ===== src/Samples/Pages.antt =====
-- The theorem on the pages of src/chain/client.rs, applied to a node that answers with two pages.
use pulsar_verifier.Prelude.{if◌then◌else◌, [], some, refl, ◌∷◌, ◌≡◌, ℕ, is_empty, contains, List}
use pulsar_verifier.Chain.Descriptor.{
  PendingRecord, QueryProofResponse, ChainProof, State, validate_query_proof,
}
use pulsar_verifier.Chain.Pages.{proofs_by_height-ends}
use pulsar_verifier.Chain.Pagination.{PageNode, proofs_by_height}
use pulsar_verifier.Error.{ok, Result}
use pulsar_verifier.Prelude.Int.{pos}
use pulsar_verifier.Proof.{type_of_wire, id_of_bytes, from_component_hashes}
use pulsar_verifier.Samples.Platform.{fit, sample_proof, sample_id, sample_sha}

abbrev sample_record : PendingRecord
sample_record = record {
  proof_hash = fit 32 sample_proof.proof;
  proof_type = pos 2;
  public_inputs_hash = fit 32 sample_proof.public_inputs;
  verification_key_hash = fit 32 sample_proof.verification_key;
  verification_id = sample_id.bytes;
}

abbrev at_index : ℕ → QueryProofResponse
at_index index = record {
  proof_key = some (record { submission_height = 7; index_in_block = index });
  state = some (State.pending sample_record);
}

abbrev two_pages : PageNode
two_pages key pinned = some (record {
  height = 9;
  code = 0;
  page = some (
      if is_empty key
      then record { proofs = at_index 0 ∷ []; next_key = 1 ∷ [] }
      else record { proofs = at_index 4 ∷ []; next_key = [] });
})

abbrev found_at : ℕ → ChainProof
found_at index = record {
  verification_id = sample_id;
  submission_height = 7;
  index_in_block = index;
}

two_found : proofs_by_height 7 two_pages ≡ some (ok (found_at 0 ∷ found_at 4 ∷ []))
unfolding proofs_by_height contains validate_query_proof fit type_of_wire id_of_bytes
    from_component_hashes
two_found = refl

proofs_by_height-ends_example :
    (r : Result (List ChainProof)) × (proofs_by_height 7 two_pages ≡ some r)
proofs_by_height-ends_example = proofs_by_height-ends 7 two_pages
