-- ===== src/Chain/Pagination.antt =====
-- src/chain/client.rs: `PulsarClient::proofs_by_height`, which reads the proofs of one height page by
-- page. The node is what it answers to a query; what prost makes of an answer's value is a part of it.
use pulsar_verifier.Prelude.{
  if◌then◌else◌, [], none, some, false, ◌∷◌, ◌++◌, ◌&&◌, ◌||◌, List, ℕ, Option, Bool, nat_beq, leb,
  true, ◌==◌, not, ltb, contains, suc, nat_eq, bytes_eq, zero, length, is_empty,
}
use pulsar_verifier.Chain.Descriptor.{
  QueryProofResponse, ChainProof, ProofKey, validate_query_proof, max_proofs_per_block,
}
use pulsar_verifier.Error.{ok, err, ◌>>=◌, Result, invalid_chain_contract, chain}
use pulsar_verifier.Proof.{Sha256}

-- `QueryProofsByHeightResponse`; a page without pagination has no next key.
pub record Page : Type 0 where
  pub proofs : List QueryProofResponse
  pub next_key : List ℕ

-- The answer to `abci_query`.
pub record AbciResponse : Type 0 where
  pub height : ℕ
  pub code : ℕ
  pub page : Option Page

-- From a pagination key and a pinned height; nothing when the transport fails or takes too long.
abbrev pub PageNode : Type 0
PageNode = List ℕ → Option ℕ → Option AbciResponse

-- The variables of the loop.
pub record Cursor : Type 0 where
  pub next_key : List ℕ
  pub proofs : List ChainProof
  pub positions : List ProofKey
  pub pagination_keys : List (List ℕ)
  pub last_index : Option ℕ
  pub query_height : Option ℕ

abbrev pub start : Cursor
start = record {
  next_key = [];
  proofs = [];
  positions = [];
  pagination_keys = [];
  last_index = none;
  query_height = none;
}

unfoldable pub has_position : List ProofKey → ProofKey → Bool
has_position [] key = false
has_position (k ∷ rest) key =
    (nat_beq k.submission_height key.submission_height
      && nat_beq k.index_in_block key.index_in_block)
    || has_position rest key

abbrev pub is_unordered : Option ℕ → ℕ → Bool
is_unordered none index = false
is_unordered (some last) index = leb index last

abbrev pub pushed : List ChainProof → Option ChainProof → List ChainProof
pushed proofs none = proofs
pushed proofs (some proof) = proofs ++ (proof ∷ [])

module _ ⦃sha : Sha256⦄ where
  -- The loop over the proofs of a page.
  unfoldable pub read_proofs : ℕ → List QueryProofResponse → Cursor → Result Cursor
  unfolding has_position validate_query_proof
  read_proofs height [] c = ok c
  read_proofs height (p ∷ rest) c = elim p.proof_key [
    | none ↦ err (invalid_chain_contract "proof query response is missing proof_key")
    | some key ↦
        let next = validate_query_proof p height >>= λ found. read_proofs height rest (record c {
          positions = key ∷ c.positions;
          last_index = some key.index_in_block;
          proofs = pushed c.proofs found;
        }) in
        if has_position c.positions key
        then err (invalid_chain_contract "duplicate proof index")
        else if is_unordered c.last_index key.index_in_block
        then err
            (invalid_chain_contract "ProofsByHeight records are not strictly ordered by proof key")
        else next
  ]

  unfoldable pub pin_query_height : Option ℕ → ℕ → Result (Option ℕ)
  pin_query_height none response = ok (some response)
  pin_query_height (some expected) response =
      if not (response == expected)
      then err (invalid_chain_contract "response height does not match pinned height")
      else ok (some expected)

  -- The end of an iteration: whether the loop goes on.
  unfoldable pub turn_page : Page → Cursor → Result (Cursor × Bool)
  turn_page page c =
      if ltb max_proofs_per_block (length c.positions)
      then err (invalid_chain_contract "ProofsByHeight returned more than 256 records")
      else if is_empty page.next_key
      then ok (c, false)
      else if is_empty page.proofs
      then err
          (invalid_chain_contract "ProofsByHeight returned an empty page with a continuation key")
      else ok (record c { next_key = page.next_key }, true)

  -- What the loop makes of a decoded page.
  unfoldable pub take_page : ℕ → Page → Cursor → Result (Cursor × Bool)
  unfolding read_proofs turn_page
  take_page height page c = read_proofs height page.proofs c >>= λ d. turn_page page d

  -- What the loop makes of an answer.
  unfoldable pub take_answer : ℕ → AbciResponse → Cursor → Result (Cursor × Bool)
  unfolding take_page pin_query_height
  take_answer height response c = pin_query_height c.query_height response.height >>= λ pinned.
      if not (nat_beq response.code 0) then err chain else elim response.page [
        | none ↦ err (invalid_chain_contract "invalid ProofsByHeight response")
        | some page ↦ take_page height page (record c { query_height = pinned })
      ]

  -- One iteration of the loop.
  unfoldable pub read_page : ℕ → PageNode → Cursor → Result (Cursor × Bool)
  unfolding take_answer
  read_page height node c =
      if contains c.pagination_keys c.next_key
      then err (invalid_chain_contract "ProofsByHeight repeated a pagination key")
      else elim (node c.next_key c.query_height) [
        | none ↦ err chain
        | some response ↦
            take_answer height response
              (record c { pagination_keys = c.next_key ∷ c.pagination_keys })
      ]

  abbrev pub turned :
      (Cursor → Option (Result (List ChainProof)))
      → Result (Cursor × Bool)
      → Option (Result (List ChainProof))
  turned next (err e) = some (err e)
  turned next (ok (c, false)) = some (ok c.proofs)
  turned next (ok (c, true)) = next c

  -- The loop, for a number of iterations.
  unfoldable pub read_pages : ℕ → ℕ → PageNode → Cursor → Option (Result (List ChainProof))
  unfolding read_page
  read_pages zero height node c = none
  read_pages (suc n) height node c = turned (read_pages n height node) (read_page height node c)

  unfoldable pub proofs_by_height : ℕ → PageNode → Option (Result (List ChainProof))
  unfolding read_pages
  proofs_by_height height node =
      if nat_beq height 0 then some (err chain) else read_pages 257 height node start
