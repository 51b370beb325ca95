-- ===== src/P2p/Validators.antt =====
-- The authorized peers of src/p2p/authorization.rs against the answer of the chain's node.
use pulsar_verifier.Prelude.{
  [], some, true, inl, inr, refl, ◌∷◌, ◌++◌, ◌≡◌, ◌+◌, ◌||◌, ◌∙◌, List, ℕ, length, Option, arith,
  ap, Bool-cases, is_distinct, not, nat_beq, contains, sym, subst, length-append, bytes_eq,
}
use pulsar_verifier.Chain.Validators.{
  unique_keys_from, check_validators, validator_public_keys, ValidatorsResponse, ValidatorNode,
}
use pulsar_verifier.Error.{ok, ok_inj, Result-cases, ok_err}
use pulsar_verifier.Identity.{PeerId, peer_eq}
use pulsar_verifier.P2p.Admission.{load_at_lem}
use pulsar_verifier.P2p.Messages.{PeerCodec, load_at}
use pulsar_verifier.Prelude.Int.{ℤ, pos, negsuc}

length-unique_keys_from :
    (unique keys found : List (List ℕ))
    → unique_keys_from unique keys ≡ ok found
    → length found ≡ length unique + length keys
unfolding unique_keys_from
length-unique_keys_from unique [] found h =
    omega (arith, ap (λ (ks : List (List ℕ)). length ks) (ok_inj h))
length-unique_keys_from unique (key ∷ keys) found h =
    elim (Bool-cases (not (nat_beq (length key) 32) || contains unique key)) [
      | inl refused ↦ absurd (ok_err (sym (rw refused at h)))
      | inr new ↦ omega (
        arith,
        length-unique_keys_from (unique ++ (key ∷ [])) keys found (rw new at h),
        length-append unique (key ∷ []),
      )
    ]

check_validators-total :
    (height : ℕ) (response : ValidatorsResponse) (total : ℤ) (keys : List (List ℕ))
    → response.total ≡ total
    → check_validators height response ≡ ok keys
    → response.total ≡ pos (length keys)
unfolding check_validators
check_validators-total height response (negsuc n) keys t h = absurd (ground (arith, t))
check_validators-total height response (pos total) keys t h =
    elim (Bool-cases (not (nat_beq response.block_height height))) [
      | inl other ↦ absurd (ok_err (sym (rw other at h)))
      | inr here ↦ elim (Bool-cases (not (nat_beq total (length response.public_keys)))) [
        | inl partial ↦ absurd (ok_err (sym (rw (here, t, partial) at h)))
        | inr complete ↦
            let size =
              length-unique_keys_from [] response.public_keys keys (rw (here, t, complete) at h) in
            let same : total ≡ length keys = ground (arith, complete, size) in t ∙ ap pos same
      ]
    ]

validator_public_keys_lem :
    (to_height : ℕ → Option ℕ) (node : ValidatorNode) (height : ℕ) (h : ℕ)
    (response : ValidatorsResponse)
    → to_height height ≡ some h
    → node h ≡ some response
    → validator_public_keys to_height node height ≡ check_validators h response
unfolding validator_public_keys
validator_public_keys_lem to_height node height h response converted answer =
    rw (validator_public_keys, converted, answer) refl

module _ ⦃codec : PeerCodec⦄ where
  -- If the authorized peers of a height are loaded, they are different, and there are as many as the
  -- node reports validators in total at this height.
  pub load_at-validator_public_keys :
      (to_height : ℕ → Option ℕ) (node : ValidatorNode) (height : ℕ) (h : ℕ)
      (response : ValidatorsResponse) (peers : List PeerId)
      → to_height height ≡ some h
      → node h ≡ some response
      → load_at (validator_public_keys to_height node height) ≡ ok peers
      → (is_distinct peers ≡ true) × (response.total ≡ pos (length peers))
  unfolding load_at
  load_at-validator_public_keys to_height node height h response peers converted answer loaded =
      let keys_found =
        validator_public_keys_lem to_height node height h response converted answer in
      let loaded_checked = subst (λ r. load_at r ≡ ok peers) keys_found loaded in
      elim (Result-cases (check_validators h response)) [
        | inr (e, refused) ↦ absurd (ok_err (sym (rw refused at loaded_checked)))
        | inl (keys, checked) ↦
            let (distinct, size) = load_at_lem keys peers (rw checked at loaded_checked) in
            (
              distinct,
              check_validators-total h response response.total keys refl checked
                  ∙ ap pos (sym size),
            )
      ]
