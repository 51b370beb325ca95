-- ===== src/Proof/Binding.antt =====
-- What a `VerificationId` of src/proof.rs binds: the proof type and all three components.
use pulsar_verifier.Prelude.{
  List, ℕ, ◌≢◌, ◌≡◌, length, ◌⊎◌, ◌++◌, append_inj, ==_cases, inl, arith, refl, inr, ap, bytes_eq,
}
use pulsar_verifier.Identity.{ProofType, VerificationId, mina_pickles, noir_barretenberg}
use pulsar_verifier.Proof.{
  Sha256, verification_id_domain, to_be_bytes, type_number, verification_id, from_component_hashes,
  Proof,
}

type_of_bytes :
    (s t : ProofType) → to_be_bytes (type_number s) ≡ to_be_bytes (type_number t) → s ≡ t
type_of_bytes mina_pickles mina_pickles h = refl
type_of_bytes noir_barretenberg noir_barretenberg h = refl
type_of_bytes mina_pickles noir_barretenberg h = cc
type_of_bytes noir_barretenberg mina_pickles h = cc

module _ ⦃sha : Sha256⦄ where
  -- Two byte strings that show that the hash is not injective.
  abbrev pub Collision : Type 0
  Collision = (x : List ℕ) × (y : List ℕ) × (x ≢ y) × (sha.digest x ≡ sha.digest y)

  same_or_collision : (x y : List ℕ) → sha.digest x ≡ sha.digest y → (x ≡ y) ⊎ Collision
  same_or_collision x y h = elim (==_cases x y) [
    | inl (e, _) ↦ inl e
    | inr (n, _) ↦ inr (x, y, n, h)
  ]

  -- The preimage of an identity.
  preimage : ProofType → List ℕ → List ℕ → List ℕ → List ℕ
  preimage t a b c = verification_id_domain ++ (to_be_bytes (type_number t) ++ (a ++ (b ++ c)))

  digest-eq-length : (x y : List ℕ) → length (sha.digest x) ≡ length (sha.digest y)
  digest-eq-length x y = omega (arith, sha.digest_length x, sha.digest_length y)

  preimage_inj :
      (s t : ProofType) (a b c d e f : List ℕ)
      → length a ≡ length d
      → length b ≡ length e
      → preimage s a b c ≡ preimage t d e f
      → (s ≡ t) × (a ≡ d) × (b ≡ e) × (c ≡ f)
  unfolding preimage
  preimage_inj s t a b c d e f m n p =
      let (_, p1) = append_inj verification_id_domain verification_id_domain _ _ refl p in
      let (u, p2) =
        append_inj (to_be_bytes (type_number s)) (to_be_bytes (type_number t)) _ _ refl p1 in
      let (q, p3) = append_inj a d _ _ m p2 in
      let (r, w) = append_inj b e c f n p3 in (type_of_bytes s t u, q, r, w)

  -- Two proofs with one identity are equal, unless they show two byte strings with one hash.
  pub verification_id-inj :
      (p q : Proof) → verification_id p ≡ verification_id q → (p ≡ q) ⊎ Collision
  unfolding verification_id from_component_hashes preimage
  verification_id-inj p q h =
      elim (same_or_collision
        (preimage p.proof_type (sha.digest p.proof) (sha.digest p.public_inputs)
          (sha.digest p.verification_key))
        (preimage q.proof_type (sha.digest q.proof) (sha.digest q.public_inputs)
          (sha.digest q.verification_key))
        (ap (λ (i : VerificationId). i.bytes) h)) [
          | inr c ↦ inr c
          | inl e ↦
              let (t, a, b, c) =
                preimage_inj p.proof_type q.proof_type _ _ _ _ _ _ (digest-eq-length _ _)
                  (digest-eq-length _ _) e in
              join t (same_or_collision _ _ a) (same_or_collision _ _ b) (same_or_collision _ _ c)
        ]
    where
      join :
          p.proof_type ≡ q.proof_type
          → (p.proof ≡ q.proof) ⊎ Collision
          → (p.public_inputs ≡ q.public_inputs) ⊎ Collision
          → (p.verification_key ≡ q.verification_key) ⊎ Collision
          → (p ≡ q) ⊎ Collision
      join t (inl a) (inl b) (inl c) = inl (λ i. record {
        proof_type = t i;
        proof = a i;
        public_inputs = b i;
        verification_key = c i;
      })
      join t (inr x) b c = inr x
      join t a (inr x) c = inr x
      join t a b (inr x) = inr x
