-- ===== src/P2p/Index.antt =====
-- src/p2p/availability.rs: the index of the peers that hold a proof. The hash map is the list of its
-- entries, and a hash set the list of its elements.
use pulsar_verifier.Prelude.{
  if◌then◌else◌, [], true, false, ◌∷◌, ◌&&◌, ◌||◌, ◌==◌, List, set_insert, without, ℕ, is_empty,
  Bool, ltb, nat_beq,
}
use pulsar_verifier.Identity.{VerificationId, PeerId, id_eq, peer_eq}

abbrev pub AvailabilityIndex : Type 0
AvailabilityIndex = List (VerificationId × List PeerId)

-- `entry(id).or_default().insert(peer)`.
unfoldable pub add : VerificationId → PeerId → AvailabilityIndex → AvailabilityIndex
unfolding set_insert
add id peer [] = (id, peer ∷ []) ∷ []
add id peer ((j, peers) ∷ rest) =
    let others = add id peer rest in
    if j == id then (j, set_insert peer peers) ∷ rest else (j, peers) ∷ others

-- `providers.get(&verification_id)`, the elements in the order of the set.
unfoldable pub providers_of : AvailabilityIndex → VerificationId → List PeerId
providers_of [] id = []
providers_of ((j, peers) ∷ rest) id =
    let others = providers_of rest id in if j == id then peers else others

-- The order of the encodings of two peers.
unfoldable pub bytes_le : List ℕ → List ℕ → Bool
bytes_le [] b = true
bytes_le (x ∷ a) [] = false
bytes_le (x ∷ a) (y ∷ b) = let rest = bytes_le a b in ltb x y || (nat_beq x y && rest)

unfoldable pub insert_sorted : PeerId → List PeerId → List PeerId
unfolding bytes_le
insert_sorted p [] = p ∷ []
insert_sorted p (q ∷ rest) =
    let later = insert_sorted p rest in if bytes_le p.bytes q.bytes then p ∷ q ∷ rest else q ∷ later

-- `sort_by_key(|peer| peer.to_bytes())`.
unfoldable pub sort_by_bytes : List PeerId → List PeerId
unfolding insert_sorted
sort_by_bytes [] = []
sort_by_bytes (p ∷ rest) = insert_sorted p (sort_by_bytes rest)

unfoldable pub providers : AvailabilityIndex → VerificationId → List PeerId
unfolding providers_of sort_by_bytes
providers index id = sort_by_bytes (providers_of index id)

unfoldable pub remove_provider : VerificationId → PeerId → AvailabilityIndex → AvailabilityIndex
unfolding without
remove_provider id peer [] = []
remove_provider id peer ((j, peers) ∷ rest) =
    let others = remove_provider id peer rest in
    if j == id
    then if is_empty (without peer peers) then rest else (j, without peer peers) ∷ rest
    else (j, peers) ∷ others

unfoldable pub remove_peer : PeerId → AvailabilityIndex → AvailabilityIndex
unfolding without
remove_peer peer [] = []
remove_peer peer ((j, peers) ∷ rest) =
    let others = remove_peer peer rest in
    if is_empty (without peer peers) then others else (j, without peer peers) ∷ others

unfoldable pub add_all : PeerId → List VerificationId → AvailabilityIndex → AvailabilityIndex
unfolding add
add_all peer [] index = index
add_all peer (id ∷ ids) index = add_all peer ids (add id peer index)

unfoldable pub replace_provider_proofs :
    PeerId → List VerificationId → AvailabilityIndex → AvailabilityIndex
unfolding remove_peer add_all
replace_provider_proofs peer ids index = add_all peer ids (remove_peer peer index)
