-- ===== src/Listener/Positions.antt =====
-- How many submissions src/listener.rs reads from one block.
use pulsar_verifier.Prelude.{
  [], true, false, inl, inr, ◌∷◌, ◌≡◌, ◌≤◌, ◌<◌, ℕ, contains, List, is_distinct, nat_eq, length,
  suc, arith, ==_cases, is_distinct-without, without_absent, zero, subst, ==_refl, contains-without,
  without, String, refl, ◌+◌, ◌==◌, sym, Bool-cases, string_eq,
}
use pulsar_verifier.Chain.Descriptor.{validate_position, max_proofs_per_block}
use pulsar_verifier.Error.{ok, >>=-eq-ok, ok_inj, ok_err}
use pulsar_verifier.Identity.{VerificationId}
use pulsar_verifier.Listener.Events.{
  Hex, parse_position, parse_events_from, parse_proof_events, parse_u64, CommittedEvent,
  CommittedBlock, parse_u32, proof_submitted_event, attributes, parse_descriptor,
}
use pulsar_verifier.Proof.{Sha256}

IsBelow : ℕ → List ℕ → Type 0
IsBelow n xs = (x : ℕ) → contains xs x ≡ true → x < n

-- Different numbers below `n` are at most `n`.
length-without-le :
    (x : ℕ) (xs : List ℕ) → is_distinct xs ≡ true → length xs ≤ suc (length (without x xs))
unfolding without is_distinct
length-without-le x [] h = omega arith
length-without-le x (y ∷ ys) h = elim (==_cases y x) [
  | inl (same, t) ↦
      ground (
        arith,
        t,
        without_absent x ys (subst (λ z. contains ys z ≡ false) same (ground (arith, h))),
      )
  | inr (other, t) ↦ ground (arith, t, length-without-le x ys (ground (arith, h)))
]

length-distinct-le : (n : ℕ) (xs : List ℕ) → is_distinct xs ≡ true → IsBelow n xs → length xs ≤ n
unfolding IsBelow contains is_distinct
length-distinct-le zero [] d h = omega arith
length-distinct-le zero (x ∷ xs) d h = absurd (omega (arith, h x (ground (arith, ==_refl x))))
length-distinct-le (suc n) xs d h =
    let smaller =
      length-distinct-le n (without n xs) (is_distinct-without n xs d)
        (λ x here. ground (arith, contains-without n xs x, h x)) in
    let drop = length-without-le n xs d in omega (arith, smaller, drop)

position-lt :
    (submission_height index height : ℕ)
    → validate_position submission_height index height ≡ ok tt
    → index < max_proofs_per_block
unfolding validate_position
position-lt submission_height index height h = ground arith

-- Different positions of one block, as many as submissions have been read.
record Placed (seen : List ℕ) (ids : List VerificationId) : Type 0 where
  pub positions : List ℕ
  pub distinct : is_distinct positions ≡ true
  pub below : IsBelow max_proofs_per_block positions
  pub counted : length positions ≡ length ids + length seen

grown :
    (index : ℕ) (seen : List ℕ)
    → contains seen index ≡ false
    → is_distinct seen ≡ true
    → is_distinct (index ∷ seen) ≡ true
unfolding is_distinct
grown index seen n d = rw n d

module _ ⦃sha : Sha256⦄ ⦃hex : Hex⦄ where
  parse_position-lt :
      (height : ℕ) (values : List (String × List ℕ)) (index : ℕ)
      → parse_position height values ≡ ok index
      → index < max_proofs_per_block
  unfolding parse_position
  parse_position-lt height values index h =
      let (submission_height, p, q) = >>=-eq-ok (parse_u64 values "submission_height") _ h in
      let (i, r, s) = >>=-eq-ok (parse_u32 values "index_in_block") _ q in
      let (u, valid, same) = >>=-eq-ok (validate_position submission_height i height) _ s in
      rw (ok_inj same) at (position-lt submission_height i height valid)

  IsBelow-cons :
      (index : ℕ) (seen : List ℕ)
      → index < max_proofs_per_block
      → IsBelow max_proofs_per_block seen
      → IsBelow max_proofs_per_block (index ∷ seen)
  unfolding IsBelow contains
  IsBelow-cons index seen h b x here = elim (==_cases index x) [
    | inl (same, t) ↦ rw same at h
    | inr (other, t) ↦ b x (ground (arith, here))
  ]

  parse_events_from-Placed :
      (height : ℕ) (seen : List ℕ) (events : List CommittedEvent) (ids : List VerificationId)
      → is_distinct seen ≡ true
      → IsBelow max_proofs_per_block seen
      → parse_events_from height seen events ≡ ok ids
      → Placed seen ids
  unfolding parse_events_from
  parse_events_from-Placed height seen [] ids d b h =
      rw (sym (ok_inj h))
        (record { positions = seen; distinct = d; below = b; counted = omega arith })
  parse_events_from-Placed height seen (event ∷ events) ids d b h =
      elim (Bool-cases (event.kind == proof_submitted_event)) [
        | inr other ↦ parse_events_from-Placed height seen events ids d b (rw other at h)
        | inl mine ↦
            let (values, a, h1) = >>=-eq-ok (attributes event) _ (rw mine at h) in
            let (index, place, h2) = >>=-eq-ok (parse_position height values) _ h1 in
            elim (Bool-cases (contains seen index)) [
              | inl twice ↦ absurd (ok_err (sym (rw twice at h2)))
              | inr once ↦
                  let (id, described, h3) = >>=-eq-ok (parse_descriptor values) _ (rw once at h2) in
                  let (rest, others, same) =
                    >>=-eq-ok (parse_events_from height (index ∷ seen) events) _ h3 in
                  let placed =
                    parse_events_from-Placed height (index ∷ seen) events rest
                      (grown index seen once d)
                      (IsBelow-cons index seen (parse_position-lt height values index place) b)
                      others in
                  subst (Placed seen) (ok_inj same) (record {
                    positions = placed.positions;
                    distinct = placed.distinct;
                    below = placed.below;
                    counted = omega (arith, placed.counted);
                  })
            ]
      ]

  -- A block never yields more than 256 requests, the limit of the chain's contract, whatever events it
  -- carries: a block with more submissions, or with two at one position, is refused.
  pub length-parse_proof_events :
      (block : CommittedBlock) (ids : List VerificationId)
      → parse_proof_events block ≡ ok ids
      → length ids ≤ max_proofs_per_block
  unfolding parse_proof_events IsBelow contains is_distinct
  length-parse_proof_events block ids h =
      let placed =
        parse_events_from-Placed block.height [] block.events ids refl
          (λ x here. absurd (ground arith)) h in
      let bound =
        length-distinct-le max_proofs_per_block placed.positions placed.distinct placed.below in
      omega (arith, bound, placed.counted)
