-- ===== src/P2p/Providers.antt =====
-- What the index of src/p2p/availability.rs says after each of its operations.
use pulsar_verifier.Prelude.{
  [], false, inl, inr, refl, ◌∷◌, ◌≡◌, ◌&&◌, ◌||◌, ◌==◌, set_insert, Bool, List, arith, contains,
  is_empty, Bool-cases, ==_cases, contains-append, ◌∙◌, ==_sym, ap, subst, not, without,
  contains-without, true, sym,
}
use pulsar_verifier.Identity.{VerificationId, PeerId, peer_eq, id_eq}
use pulsar_verifier.P2p.Index.{
  AvailabilityIndex, providers_of, add, remove_provider, remove_peer, add_all,
}

-- Whether the index names a peer as a provider of a proof.
abbrev pub provides : AvailabilityIndex → VerificationId → PeerId → Bool
provides index id peer = contains (providers_of index id) peer

unfoldable pub has_key : AvailabilityIndex → VerificationId → Bool
has_key [] id = false
has_key ((j, peers) ∷ rest) id = (j == id) || has_key rest id

-- Each proof has one entry, and each entry names a peer.
pub record EntryIsTidy (j : VerificationId) (peers : List PeerId) (rest : AvailabilityIndex)
    : Type 0 where
  pub once : has_key rest j ≡ false
  pub named : is_empty peers ≡ false

unfoldable pub IsTidy : AvailabilityIndex → Type 0
IsTidy [] = Unit
IsTidy ((j, peers) ∷ rest) = EntryIsTidy j peers rest × IsTidy rest

absent :
    (index : AvailabilityIndex) (id : VerificationId)
    → has_key index id ≡ false
    → providers_of index id ≡ []
unfolding has_key providers_of
absent [] id h = refl
absent ((j, peers) ∷ rest) id h = ground (arith, absent rest id)

pub contains-set_insert :
    (x : PeerId) (xs : List PeerId) (y : PeerId)
    → contains (set_insert x xs) y ≡ ((x == y) || contains xs y)
unfolding set_insert contains
contains-set_insert x xs y = elim (Bool-cases (contains xs x)) [
  | inl held ↦ elim (==_cases x y) [
    | inl (same, t) ↦ rw (held, t) (rw same at held)
    | inr (other, t) ↦ rw (held, t) refl
  ]
  | inr new ↦ ground (arith, contains-append xs (x ∷ []) y)
]

differ : (k id j : VerificationId) → (k == id) ≡ false → k ≡ j → (id == j) ≡ false
differ k id j n same = ==_sym id j ∙ subst (λ z. (z == id) ≡ false) same n

pub provides-add :
    (id : VerificationId) (peer : PeerId) (index : AvailabilityIndex) (j : VerificationId)
    (q : PeerId)
    → provides (add id peer index) j q ≡ (((id == j) && (peer == q)) || provides index j q)
unfolding add providers_of contains
provides-add id peer [] j q = ground arith
provides-add id peer ((k, peers) ∷ rest) j q = elim (==_cases k id) [
  | inl (same, t) ↦ ground (arith, t, ap (λ z. z == j) same, contains-set_insert peer peers q)
  | inr (other, t) ↦ elim (==_cases k j) [
    | inl (here, u) ↦ ground (arith, t, u, differ k id j t here)
    | inr (there, u) ↦ ground (arith, t, u, provides-add id peer rest j q)
  ]
]

none_held : (xs : List PeerId) (q : PeerId) → is_empty xs ≡ true → contains xs q ≡ false
unfolding contains
none_held [] q h = refl
none_held (x ∷ xs) q h = cc

-- A set that loses its last element.
emptied :
    (peer : PeerId) (peers : List PeerId) (q : PeerId)
    → is_empty (without peer peers) ≡ true
    → (not (peer == q) && contains peers q) ≡ false
emptied peer peers q h = sym (contains-without peer peers q) ∙ none_held (without peer peers) q h

pub provides-remove_provider :
    (id : VerificationId) (peer : PeerId) (index : AvailabilityIndex) (j : VerificationId)
    (q : PeerId)
    → IsTidy index
    → provides (remove_provider id peer index) j q
      ≡ (not ((id == j) && (peer == q)) && provides index j q)
unfolding remove_provider providers_of contains IsTidy
provides-remove_provider id peer [] j q tidy = ground arith
provides-remove_provider id peer ((k, peers) ∷ rest) j q (entry, tidy) = elim (==_cases k id) [
  | inl (same, t) ↦ elim (Bool-cases (is_empty (without peer peers))) [
    | inl gone ↦ elim (==_cases k j) [
      | inl (here, u) ↦
          let last = emptied peer peers q gone in
          let rest_none = absent rest j (subst (λ z. has_key rest z ≡ false) here entry.once) in
          ground (arith, t, gone, u, last, rest_none, ap (λ z. z == j) same)
      | inr (there, u) ↦ ground (arith, t, gone, u, ap (λ z. z == j) same)
    ]
    | inr left ↦ ground (arith, t, left, ap (λ z. z == j) same, contains-without peer peers q)
  ]
  | inr (other, t) ↦ elim (==_cases k j) [
    | inl (here, u) ↦ ground (arith, t, u, differ k id j t here)
    | inr (there, u) ↦ ground (arith, t, u, provides-remove_provider id peer rest j q tidy)
  ]
]

pub provides-remove_peer :
    (peer : PeerId) (index : AvailabilityIndex) (j : VerificationId) (q : PeerId)
    → IsTidy index
    → provides (remove_peer peer index) j q ≡ (not (peer == q) && provides index j q)
unfolding remove_peer providers_of contains IsTidy
provides-remove_peer peer [] j q tidy = ground arith
provides-remove_peer peer ((k, peers) ∷ rest) j q (entry, tidy) =
    elim (Bool-cases (is_empty (without peer peers))) [
      | inl gone ↦ elim (==_cases k j) [
        | inl (here, u) ↦
            let last = emptied peer peers q gone in
            let rest_none = absent rest j (subst (λ z. has_key rest z ≡ false) here entry.once) in
            ground (arith, gone, u, last, rest_none, provides-remove_peer peer rest j q tidy)
        | inr (there, u) ↦ ground (arith, gone, u, provides-remove_peer peer rest j q tidy)
      ]
      | inr left ↦
          ground
            (arith, left, contains-without peer peers q, provides-remove_peer peer rest j q tidy)
    ]

pub provides-add_all :
    (peer : PeerId) (ids : List VerificationId) (index : AvailabilityIndex) (j : VerificationId)
    (q : PeerId)
    → provides (add_all peer ids index) j q
      ≡ (((peer == q) && contains ids j) || provides index j q)
unfolding add_all contains
provides-add_all peer [] index j q = ground arith
provides-add_all peer (id ∷ ids) index j q =
    provides-add_all peer ids (add id peer index) j q
    ∙ ground (arith, provides-add id peer index j q)
