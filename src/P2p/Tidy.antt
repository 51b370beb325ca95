-- ===== src/P2p/Tidy.antt =====
-- The form of the index of src/p2p/availability.rs: one entry for each proof, and no empty entry.
use pulsar_verifier.Prelude.{
  [], false, inl, inr, refl, ◌∷◌, ◌≡◌, ◌||◌, ◌==◌, ◌∙◌, set_insert, List, ==_cases, is_empty, arith,
  Bool-cases, ap, ==_sym, without,
}
use pulsar_verifier.Identity.{VerificationId, PeerId, peer_eq, id_eq}
use pulsar_verifier.P2p.Index.{add, remove_provider, remove_peer, add_all, AvailabilityIndex}
use pulsar_verifier.P2p.Providers.{has_key, IsTidy}

has_key-add :
    (id : VerificationId) (peer : PeerId) (index : AvailabilityIndex) (j : VerificationId)
    → has_key (add id peer index) j ≡ ((id == j) || has_key index j)
unfolding has_key add
has_key-add id peer [] j = refl
has_key-add id peer ((k, peers) ∷ rest) j = elim (==_cases k id) [
  | inl (same, t) ↦ ground (arith, t, ap (λ z. z == j) same)
  | inr (other, t) ↦ ground (arith, t, has_key-add id peer rest j)
]

named-set_insert :
    (peer : PeerId) (peers : List PeerId)
    → is_empty peers ≡ false
    → is_empty (set_insert peer peers) ≡ false
unfolding set_insert
named-set_insert peer [] h = cc
named-set_insert peer (x ∷ xs) h = ground arith

pub add-IsTidy :
    (id : VerificationId) (peer : PeerId) (index : AvailabilityIndex)
    → IsTidy index
    → IsTidy (add id peer index)
unfolding add IsTidy has_key set_insert
add-IsTidy id peer [] tidy = (record { once = refl; named = refl }, tt)
add-IsTidy id peer ((k, peers) ∷ rest) (entry, tidy) = elim (==_cases k id) [
  | inl (same, t) ↦
      rw t (record { once = entry.once; named = named-set_insert peer peers entry.named }, tidy)
  | inr (other, t) ↦ rw t (
    record {
      once = has_key-add id peer rest k ∙ ground (arith, entry.once, ==_sym id k);
      named = entry.named;
    },
    add-IsTidy id peer rest tidy,
  )
]

has_key-remove_provider :
    (id : VerificationId) (peer : PeerId) (index : AvailabilityIndex) (j : VerificationId)
    → has_key index j ≡ false
    → has_key (remove_provider id peer index) j ≡ false
unfolding has_key remove_provider
has_key-remove_provider id peer [] j h = refl
has_key-remove_provider id peer ((k, peers) ∷ rest) j h =
    ground (arith, has_key-remove_provider id peer rest j)

pub remove_provider-IsTidy :
    (id : VerificationId) (peer : PeerId) (index : AvailabilityIndex)
    → IsTidy index
    → IsTidy (remove_provider id peer index)
unfolding remove_provider IsTidy
remove_provider-IsTidy id peer [] tidy = tt
remove_provider-IsTidy id peer ((k, peers) ∷ rest) (entry, tidy) = elim (Bool-cases (k == id)) [
  | inr other ↦ rw other (
    record { once = has_key-remove_provider id peer rest k entry.once; named = entry.named },
    remove_provider-IsTidy id peer rest tidy,
  )
  | inl same ↦ elim (Bool-cases (is_empty (without peer peers))) [
    | inl gone ↦ rw (same, gone) tidy
    | inr left ↦ rw (same, left) (record { once = entry.once; named = left }, tidy)
  ]
]

has_key-remove_peer :
    (peer : PeerId) (index : AvailabilityIndex) (j : VerificationId)
    → has_key index j ≡ false
    → has_key (remove_peer peer index) j ≡ false
unfolding has_key remove_peer
has_key-remove_peer peer [] j h = refl
has_key-remove_peer peer ((k, peers) ∷ rest) j h = ground (arith, has_key-remove_peer peer rest j)

pub remove_peer-IsTidy :
    (peer : PeerId) (index : AvailabilityIndex) → IsTidy index → IsTidy (remove_peer peer index)
unfolding remove_peer IsTidy
remove_peer-IsTidy peer [] tidy = tt
remove_peer-IsTidy peer ((k, peers) ∷ rest) (entry, tidy) =
    elim (Bool-cases (is_empty (without peer peers))) [
      | inl gone ↦ rw gone (remove_peer-IsTidy peer rest tidy)
      | inr left ↦ rw left (
        record { once = has_key-remove_peer peer rest k entry.once; named = left },
        remove_peer-IsTidy peer rest tidy,
      )
    ]

pub add_all-IsTidy :
    (peer : PeerId) (ids : List VerificationId) (index : AvailabilityIndex)
    → IsTidy index
    → IsTidy (add_all peer ids index)
unfolding add_all
add_all-IsTidy peer [] index tidy = tidy
add_all-IsTidy peer (id ∷ ids) index tidy =
    add_all-IsTidy peer ids (add id peer index) (add-IsTidy id peer index tidy)
