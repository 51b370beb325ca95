-- ===== src/P2p/Holdings.antt =====
-- The index of src/p2p/availability.rs against what it stands for: which peers hold which proofs.
use pulsar_verifier.Prelude.{
  if◌then◌else◌, [], refl, ◌∷◌, ◌≡◌, ◌&&◌, ◌||◌, ◌==◌, ◌∙◌, List, not, contains, arith, Bool, ap,
}
use pulsar_verifier.Identity.{VerificationId, PeerId, peer_eq, id_eq}
use pulsar_verifier.P2p.Index.{
  insert_sorted, sort_by_bytes, add, replace_provider_proofs, providers, remove_provider,
  AvailabilityIndex, remove_peer, providers_of,
}
use pulsar_verifier.P2p.Providers.{
  IsTidy, provides, provides-add, provides-remove_provider, provides-remove_peer, provides-add_all,
}
use pulsar_verifier.P2p.Tidy.{
  add-IsTidy, remove_provider-IsTidy, remove_peer-IsTidy, add_all-IsTidy,
}

pub contains-insert_sorted :
    (p : PeerId) (ps : List PeerId) (q : PeerId)
    → contains (insert_sorted p ps) q ≡ ((p == q) || contains ps q)
unfolding insert_sorted contains
contains-insert_sorted p [] q = ground arith
contains-insert_sorted p (x ∷ ps) q = ground (arith, contains-insert_sorted p ps q)

pub contains-sort_by_bytes :
    (ps : List PeerId) (q : PeerId) → contains (sort_by_bytes ps) q ≡ contains ps q
unfolding sort_by_bytes contains
contains-sort_by_bytes [] q = refl
contains-sort_by_bytes (p ∷ ps) q =
    contains-insert_sorted p (sort_by_bytes ps) q ∙ ground (arith, contains-sort_by_bytes ps q)

-- The changes that the driver makes to its index.
pub data Change : Type 0 where
  adds removes : VerificationId → PeerId → Change
  drops : PeerId → Change
  replaces : PeerId → List VerificationId → Change

unfoldable pub changed : Change → AvailabilityIndex → AvailabilityIndex
unfolding add remove_provider remove_peer replace_provider_proofs
changed (adds id peer) index = add id peer index
changed (removes id peer) index = remove_provider id peer index
changed (drops peer) index = remove_peer peer index
changed (replaces peer ids) index = replace_provider_proofs peer ids index

unfoldable pub changed_all : List Change → AvailabilityIndex → AvailabilityIndex
unfolding changed
changed_all [] index = index
changed_all (c ∷ cs) index = changed_all cs (changed c index)

-- Which peer holds which proof, without any order or representation.
abbrev pub Holdings : Type 0
Holdings = VerificationId → PeerId → Bool

abbrev pub held_after : Change → Holdings → Holdings
held_after (adds id peer) held j q = ((id == j) && (peer == q)) || held j q
held_after (removes id peer) held j q = not ((id == j) && (peer == q)) && held j q
held_after (drops peer) held j q = not (peer == q) && held j q
held_after (replaces peer ids) held j q = if peer == q then contains ids j else held j q

unfoldable pub held_after_all : List Change → Holdings → Holdings
held_after_all [] held = held
held_after_all (c ∷ cs) held = held_after_all cs (held_after c held)

held_ext : (f g : Holdings) → ((j : VerificationId) (q : PeerId) → f j q ≡ g j q) → f ≡ g
held_ext f g h = λ i j q. h j q i

changed-IsTidy : (c : Change) (index : AvailabilityIndex) → IsTidy index → IsTidy (changed c index)
unfolding changed replace_provider_proofs
changed-IsTidy (adds id peer) index tidy = add-IsTidy id peer index tidy
changed-IsTidy (removes id peer) index tidy = remove_provider-IsTidy id peer index tidy
changed-IsTidy (drops peer) index tidy = remove_peer-IsTidy peer index tidy
changed-IsTidy (replaces peer ids) index tidy =
    add_all-IsTidy peer ids (remove_peer peer index) (remove_peer-IsTidy peer index tidy)

provides-changed :
    (c : Change) (index : AvailabilityIndex) (j : VerificationId) (q : PeerId)
    → IsTidy index
    → provides (changed c index) j q ≡ held_after c (provides index) j q
unfolding changed replace_provider_proofs
provides-changed (adds id peer) index j q tidy = provides-add id peer index j q
provides-changed (removes id peer) index j q tidy = provides-remove_provider id peer index j q tidy
provides-changed (drops peer) index j q tidy = provides-remove_peer peer index j q tidy
provides-changed (replaces peer ids) index j q tidy =
    provides-add_all peer ids (remove_peer peer index) j q
    ∙ ground (arith, provides-remove_peer peer index j q tidy)

-- From any tidy index, any changes in any order leave a tidy index that names, for each proof, exactly
-- the peers that the same changes leave as its holders: added ones that have not been removed, dropped
-- or replaced since.
pub providers-held_after_all :
    (cs : List Change) (index : AvailabilityIndex)
    → IsTidy index
    → IsTidy (changed_all cs index)
      × ((j : VerificationId) (q : PeerId)
          → contains (providers (changed_all cs index) j) q
            ≡ held_after_all cs (provides index) j q)
unfolding changed_all held_after_all providers
providers-held_after_all [] index tidy =
    (tidy, λ j q. contains-sort_by_bytes (providers_of index j) q)
providers-held_after_all (c ∷ cs) index tidy =
    let (rest, same) =
      providers-held_after_all cs (changed c index) (changed-IsTidy c index tidy) in
    let step =
      held_ext (provides (changed c index)) (held_after c (provides index))
        (λ j q. provides-changed c index j q tidy) in
    (rest, λ j q. same j q ∙ ap (λ held. held_after_all cs held j q) step)
