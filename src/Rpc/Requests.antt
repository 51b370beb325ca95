-- ===== src/Rpc/Requests.antt =====
-- Which requests src/rpc/contract.rs accepts, and as what.
use pulsar_verifier.Prelude.{
  [], false, refl, ◌∷◌, ◌≡◌, ◌≢◌, ◌↔◌, List, contains, All, ℕ, length, map, arith, ◌≤◌, sym,
}
use pulsar_verifier.Error.{ok}
use pulsar_verifier.Identity.{VerificationId, id_eq}
use pulsar_verifier.Proof.{id_of_bytes}
use pulsar_verifier.Rpc.Contract.{parse_ids_from, parse_ids}

-- No identity stands twice.
abbrev pub IsDistinct : List VerificationId → Type 0
IsDistinct [] = Unit {0}
IsDistinct (id ∷ ids) = All (λ j. j ≢ id) ids × IsDistinct ids

abbrev pub raw_bytes : List VerificationId → List (List ℕ)
raw_bytes = map (λ id. id.bytes)

-- An identity has 32 bytes.
abbrev pub IsFixed : VerificationId → Type 0
IsFixed id = length id.bytes ≡ 32

abbrev Unseen : List VerificationId → List VerificationId → Type 0
Unseen seen ids = All (λ j. contains seen j ≡ false) ids

Unseen-nil : (ids : List VerificationId) → Unseen [] ids
unfolding contains
Unseen-nil [] = tt
Unseen-nil (id ∷ ids) = (refl, Unseen-nil ids)

Unseen-cons :
    (id : VerificationId) (seen ids : List VerificationId)
    → Unseen (id ∷ seen) ids ↔ (Unseen seen ids × All (λ j. j ≢ id) ids)
unfolding contains
Unseen-cons id seen [] = (λ u. (tt, tt), λ u. tt)
Unseen-cons id seen (j ∷ ids) =
    let ih = Unseen-cons id seen ids in
    (
      λ u.
          let (a, b) = ih.0 u.1 in
          (
            (ground (arith, id_eq.beq_iff id j), a),
            (λ e. ground (arith, (id_eq.beq_iff id j).1 (sym e)), b),
          ),
      λ u. (ground (arith, id_eq.beq_iff id j, u.1.0), ih.1 (u.0.1, u.1.1)),
    )

parse_ids_from_cons :
    (seen : List VerificationId) (r : List ℕ) (raw : List (List ℕ)) (id : VerificationId)
    (ids : List VerificationId)
    → parse_ids_from seen (r ∷ raw) ≡ ok (id ∷ ids)
    → (id.bytes ≡ r)
      × (length id.bytes ≡ 32)
      × (contains seen id ≡ false)
      × (parse_ids_from (id ∷ seen) raw ≡ ok ids)
unfolding parse_ids_from id_of_bytes
parse_ids_from_cons seen r raw id ids h = ground arith

parse_ids_from_sound :
    (seen : List VerificationId) (raw : List (List ℕ)) (ids : List VerificationId)
    → parse_ids_from seen raw ≡ ok ids
    → (raw_bytes ids ≡ raw) × All IsFixed ids × IsDistinct ids × Unseen seen ids
unfolding parse_ids_from id_of_bytes
parse_ids_from_sound seen [] [] h = (refl, tt, tt, tt)
parse_ids_from_sound seen [] (id ∷ ids) h = cc
parse_ids_from_sound seen (r ∷ raw) [] h = absurd (ground arith)
parse_ids_from_sound seen (r ∷ raw) (id ∷ ids) h =
    let (e, n, u, t) = parse_ids_from_cons seen r raw id ids h in
    let (same, fixed, distinct, unseen) = parse_ids_from_sound (id ∷ seen) raw ids t in
    let (old, new) = (Unseen-cons id seen ids).0 unseen in
    (cc, (n, fixed), (new, distinct), (u, old))

parse_ids_from_complete :
    (seen ids : List VerificationId)
    → All IsFixed ids
    → IsDistinct ids
    → Unseen seen ids
    → parse_ids_from seen (raw_bytes ids) ≡ ok ids
unfolding parse_ids_from id_of_bytes
parse_ids_from_complete seen [] f d u = refl
parse_ids_from_complete seen (id ∷ ids) f d u = ground (
  arith,
  parse_ids_from_complete (id ∷ seen) ids f.1 d.1 ((Unseen-cons id seen ids).1 (u.1, d.0)),
)

-- A request is accepted, as the list `ids`, exactly when it has at most 512 entries, these are the
-- bytes of `ids` in their order, every identity has 32 bytes and none stands twice.
pub parse_ids_iff :
    (raw : List (List ℕ)) (ids : List VerificationId)
    → (parse_ids raw ≡ ok ids)
      ↔ ((length raw ≤ 512) × (raw_bytes ids ≡ raw) × All IsFixed ids × IsDistinct ids)
unfolding parse_ids
parse_ids_iff raw ids = (
  λ h.
      let (same, fixed, distinct, _) = parse_ids_from_sound [] raw ids (ground arith) in
      (ground arith, same, fixed, distinct),
  λ m.
      let c = parse_ids_from_complete [] ids m.2 m.3 (Unseen-nil ids) in
      ground (arith, c, m.0, m.1),
)
