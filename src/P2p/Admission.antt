-- ===== src/P2p/Admission.antt =====
-- Whom src/p2p/availability.rs and src/p2p/authorization.rs admit.
use pulsar_verifier.Prelude.{
  [], true, false, inl, inr, refl, ◌∷◌, ◌≡◌, ◌+◌, ◌≤◌, ◌∙◌, set_insert, List, is_distinct,
  Bool-cases, length, contains, ℕ, is_distinct-snoc, suc, ap, arith, subst, length-append, ==_sym,
  Option-cases, sym, some, ==_cases, bytes_eq, ltb, nat_beq, nat_beq_iff,
}
use pulsar_verifier.Error.{ok, ok_inj, ok_err, >>=-eq-ok}
use pulsar_verifier.Identity.{PeerId, peer_eq, VerificationId}
use pulsar_verifier.P2p.Holdings.{contains-sort_by_bytes, contains-insert_sorted}
use pulsar_verifier.P2p.Index.{insert_sorted, sort_by_bytes}
use pulsar_verifier.P2p.Messages.{
  PeerCodec, providers_from, QueryId, validate_payload, Payload, ValidatedAvailability,
  decode_and_validate, AvailabilityMessage, query_id, peers_from, load_at,
}
use pulsar_verifier.P2p.Providers.{contains-set_insert}
use pulsar_verifier.Proof.{id_of_bytes}

set_insert-is_distinct :
    (x : PeerId) (xs : List PeerId) → is_distinct xs ≡ true → is_distinct (set_insert x xs) ≡ true
unfolding set_insert
set_insert-is_distinct x xs h = elim (Bool-cases (contains xs x)) [
  | inl held ↦ rw held h
  | inr new ↦ rw new (is_distinct-snoc xs x new h)
]

length-set_insert-le : (x : PeerId) (xs : List PeerId) → length (set_insert x xs) ≤ suc (length xs)
unfolding set_insert
length-set_insert-le x xs = ground (arith, length-append xs (x ∷ []))

length-insert_sorted :
    (p : PeerId) (ps : List PeerId) → length (insert_sorted p ps) ≡ suc (length ps)
unfolding insert_sorted
length-insert_sorted p [] = refl
length-insert_sorted p (q ∷ ps) = ground (arith, length-insert_sorted p ps)

length-sort_by_bytes : (ps : List PeerId) → length (sort_by_bytes ps) ≡ length ps
unfolding sort_by_bytes
length-sort_by_bytes [] = refl
length-sort_by_bytes (p ∷ ps) =
    length-insert_sorted p (sort_by_bytes ps) ∙ ap suc (length-sort_by_bytes ps)

insert_sorted-is_distinct :
    (p : PeerId) (ps : List PeerId)
    → contains ps p ≡ false
    → is_distinct ps ≡ true
    → is_distinct (insert_sorted p ps) ≡ true
unfolding insert_sorted is_distinct contains
insert_sorted-is_distinct p [] n h = refl
insert_sorted-is_distinct p (q ∷ ps) n h =
    ground (arith, insert_sorted-is_distinct p ps, contains-insert_sorted p ps q, ==_sym p q)

sort_by_bytes-is_distinct :
    (ps : List PeerId) → is_distinct ps ≡ true → is_distinct (sort_by_bytes ps) ≡ true
unfolding sort_by_bytes is_distinct
sort_by_bytes-is_distinct [] h = refl
sort_by_bytes-is_distinct (p ∷ ps) h =
    insert_sorted-is_distinct p (sort_by_bytes ps) (contains-sort_by_bytes ps p ∙ ground (arith, h))
      (sort_by_bytes-is_distinct ps (ground (arith, h)))

-- Different peers, all of them authorized, at most as many as a limit allows.
pub record IsAdmitted (authorized : List PeerId) (maximum : ℕ) (peers : List PeerId) : Type 0 where
  pub known : (p : PeerId) → contains peers p ≡ true → contains authorized p ≡ true
  pub distinct : is_distinct peers ≡ true
  pub few : length peers ≤ maximum

inserted-IsAdmitted :
    (peer : PeerId) (authorized unique : List PeerId) (n : ℕ)
    → contains authorized peer ≡ true
    → IsAdmitted authorized n unique
    → IsAdmitted authorized (suc n) (set_insert peer unique)
inserted-IsAdmitted peer authorized unique n member a = record {
  known = λ p here. elim (==_cases peer p) [
    | inl (same, t) ↦ rw same at member
    | inr (other, t) ↦ a.known p (ground (arith, t, here, contains-set_insert peer unique p))
  ];
  distinct = set_insert-is_distinct peer unique a.distinct;
  few = omega (arith, length-set_insert-le peer unique, a.few);
}

response_inj :
    {q r : QueryId} {v w : VerificationId} {ps qs : List PeerId}
    → ValidatedAvailability.response q v ps ≡ ValidatedAvailability.response r w qs
    → ps ≡ qs
response_inj h = cc

module _ ⦃codec : PeerCodec⦄ where
  providers_from-IsAdmitted :
      (authorized unique : List PeerId) (bytes : List (List ℕ)) (n : ℕ) (peers : List PeerId)
      → IsAdmitted authorized n unique
      → providers_from authorized unique bytes ≡ ok peers
      → IsAdmitted authorized (n + length bytes) peers
  unfolding providers_from
  providers_from-IsAdmitted authorized unique [] n peers a h =
      subst (IsAdmitted authorized (n + 0)) (ok_inj h)
        (record { known = a.known; distinct = a.distinct; few = omega (arith, a.few) })
  providers_from-IsAdmitted authorized unique (b ∷ bytes) n peers a h =
      elim (Option-cases (codec.from_bytes b)) [
        | inl invalid ↦ absurd (ok_err (sym (rw (providers_from, invalid) at h)))
        | inr (peer, decodes) ↦ elim (Bool-cases (contains authorized peer)) [
          | inr stranger ↦ absurd (ok_err (sym (rw (providers_from, decodes, stranger) at h)))
          | inl member ↦
              let next =
                providers_from-IsAdmitted authorized (set_insert peer unique) bytes (suc n) peers
                  (inserted-IsAdmitted peer authorized unique n member a)
                  (rw (providers_from, decodes, member) at h) in
              record { known = next.known; distinct = next.distinct; few = omega (arith, next.few) }
        ]
      ]

  sorted-IsAdmitted :
      (authorized : List PeerId) (n m : ℕ) (peers : List PeerId)
      → IsAdmitted authorized n peers
      → n ≤ m
      → IsAdmitted authorized m (sort_by_bytes peers)
  sorted-IsAdmitted authorized n m peers a h = record {
    known = λ p here. a.known p (sym (contains-sort_by_bytes peers p) ∙ here);
    distinct = sort_by_bytes-is_distinct peers a.distinct;
    few = omega (arith, length-sort_by_bytes peers, a.few, h);
  }

  none-IsAdmitted : (authorized : List PeerId) → IsAdmitted authorized 0 []
  unfolding contains is_distinct
  none-IsAdmitted authorized = record {
    known = λ p here. absurd (ground arith);
    distinct = refl;
    few = omega arith;
  }

  payload-IsAdmitted :
      (authorized : List PeerId) (maximum : ℕ) (payload : Payload) (q : QueryId)
      (id : VerificationId) (peers : List PeerId)
      → validate_payload authorized maximum payload ≡ ok (ValidatedAvailability.response q id peers)
      → IsAdmitted authorized maximum peers
  unfolding validate_payload
  payload-IsAdmitted authorized maximum (Payload.announcement v) q id peers h =
      let (w, a, b) = >>=-eq-ok (id_of_bytes v) _ h in absurd (ground (arith, b))
  payload-IsAdmitted authorized maximum (Payload.query r v) q id peers h =
      let (u, c, d) = >>=-eq-ok (query_id r) _ h in
      let (w, a, b) = >>=-eq-ok (id_of_bytes v) _ d in absurd (ground (arith, b))
  payload-IsAdmitted authorized maximum (Payload.response r v raw) q id peers h =
      elim (Bool-cases (ltb maximum (length raw))) [
        | inl many ↦ absurd (ok_err (sym (rw many at h)))
        | inr few ↦
            let (unique, p, h1) = >>=-eq-ok (providers_from authorized [] raw) _ (rw few at h) in
            let (u, c, h2) = >>=-eq-ok (query_id r) _ h1 in
            let (w, a, h3) = >>=-eq-ok (id_of_bytes v) _ h2 in
            subst (IsAdmitted authorized maximum) (response_inj (ok_inj h3)) (
              sorted-IsAdmitted authorized (0 + length raw) maximum unique
                (providers_from-IsAdmitted authorized [] raw 0 unique (none-IsAdmitted authorized)
                  p)
                (ground (arith, few)))
      ]

  -- An accepted response to a query names different peers only, all of them authorized, and at most as
  -- many as the limit allows; and it was made for this chain.
  pub decode_and_validate-IsAdmitted :
      (bytes chain : List ℕ) (authorized : List PeerId) (maximum : ℕ) (q : QueryId)
      (id : VerificationId) (peers : List PeerId)
      → decode_and_validate bytes chain authorized maximum
        ≡ ok (ValidatedAvailability.response q id peers)
      → IsAdmitted authorized maximum peers
        × ((envelope : AvailabilityMessage) × (codec.decode bytes ≡ some envelope)
            × (envelope.chain_id ≡ chain))
  unfolding decode_and_validate
  decode_and_validate-IsAdmitted bytes chain authorized maximum q id peers h =
      elim (Option-cases (codec.decode bytes)) [
        | inl invalid ↦ absurd (ok_err (sym (rw (decode_and_validate, invalid) at h)))
        | inr (envelope, decodes) ↦ elim (==_cases envelope.chain_id chain) [
          | inr (other, t) ↦ absurd (ok_err (sym (rw (decode_and_validate, decodes, t) at h)))
          | inl (same, t) ↦ elim (Option-cases envelope.payload) [
            | inl empty ↦ absurd (ok_err (sym (rw (decode_and_validate, decodes, t, empty) at h)))
            | inr (payload, given) ↦ (
              payload-IsAdmitted authorized maximum payload q id peers
                  (rw (decode_and_validate, decodes, t, given) at h),
              (envelope, decodes, same),
            )
          ]
        ]
      ]

  peers_from-distinct :
      (peers : List PeerId) (keys : List (List ℕ)) (loaded : List PeerId)
      → is_distinct peers ≡ true
      → peers_from peers keys ≡ ok loaded
      → is_distinct loaded ≡ true
  unfolding peers_from
  peers_from-distinct peers [] loaded d h = rw (ok_inj h) at d
  peers_from-distinct peers (key ∷ keys) loaded d h =
      let (peer, made, rest) = >>=-eq-ok (codec.from_ed25519 key) _ h in
      peers_from-distinct (set_insert peer peers) keys loaded (set_insert-is_distinct peer peers d)
        rest

  -- The set of authorized peers that is loaded for a height has one peer for each of the validators'
  -- keys, and no peer twice.
  pub load_at_lem :
      (keys : List (List ℕ)) (peers : List PeerId)
      → load_at (ok keys) ≡ ok peers
      → (is_distinct peers ≡ true) × (length peers ≡ length keys)
  unfolding load_at is_distinct
  load_at_lem keys peers h =
      let (loaded, made, rest) = >>=-eq-ok (peers_from [] keys) _ h in
      elim (Bool-cases (nat_beq (length loaded) (length keys))) [
        | inr fewer ↦ absurd (ok_err (sym (rw fewer at rest)))
        | inl all ↦
            let same = ok_inj (rw all at rest) in
            subst (λ ps. (is_distinct ps ≡ true) × (length ps ≡ length keys)) same
              (
                peers_from-distinct [] keys loaded refl made,
                (nat_beq_iff (length loaded) (length keys)).0 all,
              )
      ]
