-- ===== src/Chain/Pages.antt =====
-- The loop over the pages of src/chain/client.rs ends.
use pulsar_verifier.Prelude.{
  [], some, true, false, inl, inr, refl, ◌∷◌, ◌≡◌, ◌+◌, ◌≤◌, ◌<◌, ℕ, suc, List, length, arith,
  Bool-cases, ap, ltb, contains, Bool, nat_beq, Option-cases, sym, is_empty, clash_bool, not,
  bytes_eq, zero,
}
use pulsar_verifier.Chain.Descriptor.{
  QueryProofResponse, max_proofs_per_block, ChainProof, validate_query_proof,
}
use pulsar_verifier.Chain.Pagination.{
  read_proofs, Cursor, turn_page, take_page, read_page, read_pages, Page, take_answer, PageNode,
  has_position, pin_query_height, is_unordered, start, proofs_by_height,
}
use pulsar_verifier.Error.{ok, err, >>=-eq-ok, Result, ok_inj, ok_err, chain, Result-cases}
use pulsar_verifier.Proof.{Sha256}

filled_length : (ps : List QueryProofResponse) → is_empty ps ≡ false → 1 ≤ length ps
filled_length [] h = cc
filled_length (p ∷ ps) h = omega arith

module _ ⦃sha : Sha256⦄ where
  -- Each proof of a page takes a position.
  read_proofs-length :
      (height : ℕ) (ps : List QueryProofResponse) (c d : Cursor)
      → read_proofs height ps c ≡ ok d
      → length d.positions ≡ length c.positions + length ps
  unfolding read_proofs
  read_proofs-length height [] c d h =
      omega (arith, ap (λ (x : Cursor). length x.positions) (ok_inj h))
  read_proofs-length height (p ∷ rest) c d h = elim (Option-cases p.proof_key) [
    | inl missing ↦ absurd (ok_err (sym (rw missing at h)))
    | inr (key, given) ↦ elim (Bool-cases (has_position c.positions key)) [
      | inl twice ↦ absurd (ok_err (sym (rw (given, twice) at h)))
      | inr once ↦ elim (Bool-cases (is_unordered c.last_index key.index_in_block)) [
        | inl unordered ↦ absurd (ok_err (sym (rw (given, once, unordered) at h)))
        | inr later ↦
            let (found, valid, next) =
              >>=-eq-ok (validate_query_proof p height) _ (rw (given, once, later) at h) in
            omega (arith, read_proofs-length height rest _ d next)
      ]
    ]
  ]

  -- A page after which the loop goes on has taken a position, and no more than the limit are taken.
  abbrev GoesOn : Cursor → Cursor → Type 0
  GoesOn c d =
      (suc (length c.positions) ≤ length d.positions) × (length d.positions ≤ max_proofs_per_block)

  turn_page-GoesOn :
      (page : Page) (c d : Cursor)
      → turn_page page c ≡ ok (d, true)
      → (length d.positions ≡ length c.positions)
        × (length c.positions ≤ max_proofs_per_block)
        × (1 ≤ length page.proofs)
  unfolding turn_page
  turn_page-GoesOn page c d h = elim (Bool-cases (ltb max_proofs_per_block (length c.positions))) [
    | inl many ↦ absurd (ok_err (sym (rw many at h)))
    | inr few ↦ elim (Bool-cases (is_empty page.next_key)) [
      | inl last ↦
          absurd (clash_bool refl (ap (λ (x : Cursor × Bool). x.1) (ok_inj (rw (few, last) at h))))
      | inr more ↦ elim (Bool-cases (is_empty page.proofs)) [
        | inl empty ↦ absurd (ok_err (sym (rw (few, more, empty) at h)))
        | inr filled ↦ (
          sym (
              ap (λ (x : Cursor × Bool). length x.0.positions)
                (ok_inj (rw (few, more, filled) at h))),
          ground (arith, few),
          filled_length page.proofs filled,
        )
      ]
    ]
  ]

  take_page-GoesOn :
      (height : ℕ) (page : Page) (c d : Cursor)
      → take_page height page c ≡ ok (d, true)
      → GoesOn c d
  unfolding take_page
  take_page-GoesOn height page c d h =
      let (m, read, turn) = >>=-eq-ok (read_proofs height page.proofs c) _ h in
      let grown = read_proofs-length height page.proofs c m read in
      let (same, few, filled) = turn_page-GoesOn page m d turn in
      (omega (arith, grown, same, filled), omega (arith, same, few))

  read_page-GoesOn :
      (height : ℕ) (node : PageNode) (c d : Cursor)
      → read_page height node c ≡ ok (d, true)
      → GoesOn c d
  unfolding read_page take_answer
  read_page-GoesOn height node c d h = elim (Bool-cases (contains c.pagination_keys c.next_key)) [
    | inl again ↦ absurd (ok_err (sym (rw again at h)))
    | inr new ↦ elim (Option-cases (node c.next_key c.query_height)) [
      | inl silent ↦ absurd (ok_err (sym (rw (new, silent) at h)))
      | inr (response, answer) ↦
          let (pinned, pin, next) =
            >>=-eq-ok (pin_query_height c.query_height response.height) _ (rw (new, answer) at h) in
          elim (Bool-cases (not (nat_beq response.code 0))) [
            | inl failed ↦ absurd (ok_err (sym (rw failed at next)))
            | inr good ↦ elim (Option-cases response.page) [
              | inl invalid ↦ absurd (ok_err (sym (rw (good, invalid) at next)))
              | inr (page, decodes) ↦
                  take_page-GoesOn height page
                    (record c {
                      pagination_keys = c.next_key ∷ c.pagination_keys;
                      query_height = pinned;
                    })
                    d (rw (good, decodes) at next)
            ]
          ]
    ]
  ]

  read_pages-ends :
      (n height : ℕ) (node : PageNode) (c : Cursor)
      → max_proofs_per_block < n + length c.positions
      → length c.positions ≤ max_proofs_per_block
      → (r : Result (List ChainProof)) × (read_pages n height node c ≡ some r)
  unfolding read_pages
  read_pages-ends zero height node c h k = absurd (omega arith)
  read_pages-ends (suc n) height node c h k = elim (Result-cases (read_page height node c)) [
    | inr (e, p) ↦ (err e, rw p refl)
    | inl ((d, false), p) ↦ (ok d.proofs, rw p refl)
    | inl ((d, true), p) ↦
        let (grown, few) = read_page-GoesOn height node c d p in
        let (r, q) = read_pages-ends n height node d (omega (arith, grown)) few in (r, rw p q)
  ]

  -- Whatever the node answers, page after page, the loop ends after at most 257 pages, with the proofs
  -- or with an error.
  pub proofs_by_height-ends :
      (height : ℕ) (node : PageNode)
      → (r : Result (List ChainProof)) × (proofs_by_height height node ≡ some r)
  unfolding proofs_by_height
  proofs_by_height-ends height node = elim (Bool-cases (nat_beq height 0)) [
    | inl none_there ↦ (err chain, rw none_there refl)
    | inr some_there ↦
        let (r, q) = read_pages-ends 257 height node start (omega arith) (omega arith) in
        (r, rw some_there q)
  ]
