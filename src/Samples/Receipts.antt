-- ===== src/Samples/Receipts.antt =====
-- A cache that meets the laws of Submission/Service.antt: an association list whose newest entry
-- counts until its instant, with the time to live of the whole cache.
use pulsar_verifier.Prelude.{
  ℕ, if◌then◌else◌, [], none, some, inl, inr, refl, ◌∷◌, ◌≡◌, ◌+◌, ◌≤◌, ◌<◌, ◌==◌, ◌⊎◌, List,
  Option, bytes_eq, ltb, arith, Bool-cases, ==_cases, ap,
}
use pulsar_verifier.Error.{ok, err, Result}
use pulsar_verifier.Exec.{Exec}
use pulsar_verifier.Submission.Service.{SubmissionReceipt, Receipts}

abbrev pub Entries : Type 0
Entries = List (List ℕ × (ℕ × SubmissionReceipt))

unfoldable pub find_receipt : Entries → List ℕ → Option (ℕ × SubmissionReceipt)
find_receipt [] key = none
find_receipt ((k, r) ∷ rest) key =
    let later = find_receipt rest key in if k == key then some r else later

abbrev alive : ℕ → Option (ℕ × SubmissionReceipt) → Option SubmissionReceipt
alive now none = none
alive now (some (ends, r)) = if ltb now ends then some r else none

unfoldable pub get_at : ℕ → ℕ × Entries → List ℕ → Option SubmissionReceipt
unfolding find_receipt
get_at now m key = alive now (find_receipt m.1 key)

abbrev kept_by :
    {S : Type 0}
    → ℕ
    → List ℕ
    → ℕ × Entries
    → Result SubmissionReceipt × S
    → Result SubmissionReceipt × (S × (ℕ × Entries))
kept_by now key m (err e, s) = (err e, (s, m))
kept_by now key m (ok r, s) = (ok r, (s, (m.0, (key, (now + m.0, r)) ∷ m.1)))

abbrev answer_by :
    {S : Type 0}
    → ℕ
    → List ℕ
    → Exec S SubmissionReceipt
    → S
    → ℕ × Entries
    → Option SubmissionReceipt
    → Result SubmissionReceipt × (S × (ℕ × Entries))
answer_by now key action s m (some r) = (ok r, (s, m))
answer_by now key action s m none = kept_by now key m (action s)

unfoldable pub try_at :
    {S : Type 0}
    → ℕ
    → List ℕ
    → Exec S SubmissionReceipt
    → S
    → ℕ × Entries
    → Result SubmissionReceipt × (S × (ℕ × Entries))
unfolding get_at
try_at now key action s m = answer_by now key action s m (get_at now m key)

alive-earlier :
    (now later : ℕ) (o : Option (ℕ × SubmissionReceipt)) (r : SubmissionReceipt)
    → now ≤ later
    → alive later o ≡ some r
    → alive now o ≡ some r
alive-earlier now later none r order h = cc
alive-earlier now later (some (ends, x)) r order h = ground (arith, h)

pub get_at-earlier :
    (now later : ℕ) (m : ℕ × Entries) (key : List ℕ) (r : SubmissionReceipt)
    → now ≤ later
    → get_at later m key ≡ some r
    → get_at now m key ≡ some r
unfolding get_at
get_at-earlier now later m key r order h = alive-earlier now later (find_receipt m.1 key) r order h

kept_by-ttl :
    {S : Type 0} (now : ℕ) (key : List ℕ) (m : ℕ × Entries) (x : Result SubmissionReceipt × S)
    → (kept_by now key m x).1.1.0 ≡ m.0
kept_by-ttl now key m (err e, s) = refl
kept_by-ttl now key m (ok r, s) = refl

answer_by-ttl :
    {S : Type 0} (now : ℕ) (key : List ℕ) (action : Exec S SubmissionReceipt) (s : S)
    (m : ℕ × Entries) (o : Option SubmissionReceipt)
    → (answer_by now key action s m o).1.1.0 ≡ m.0
answer_by-ttl now key action s m none = kept_by-ttl now key m (action s)
answer_by-ttl now key action s m (some r) = refl

kept_by-same :
    {S : Type 0} (now : ℕ) (key : List ℕ) (m : ℕ × Entries) (x : Result SubmissionReceipt × S)
    → ((kept_by now key m x).0 ≡ x.0) × ((kept_by now key m x).1.0 ≡ x.1)
kept_by-same now key m (err e, s) = (refl, refl)
kept_by-same now key m (ok r, s) = (refl, refl)

receipt_inj : {x r : SubmissionReceipt} → some x ≡ some r → x ≡ r
receipt_inj h = cc

no_receipt : {r : SubmissionReceipt} → ◌≡◌ {A = Option SubmissionReceipt} none (some r) → ⊥
no_receipt h = cc

alive-recent :
    (now later ttl : ℕ) (x r : SubmissionReceipt)
    → alive later (some (now + ttl, x)) ≡ some r
    → (x ≡ r) × (later < now + ttl)
alive-recent now later ttl x r h = elim (Bool-cases (ltb later (now + ttl))) [
  | inl t ↦ (receipt_inj (rw t at h), ground (arith, t))
  | inr t ↦ absurd (no_receipt (rw t at h))
]

kept_by-new :
    {S : Type 0} (now later : ℕ) (key j : List ℕ) (m : ℕ × Entries)
    (x : Result SubmissionReceipt × S) (r : SubmissionReceipt)
    → get_at later (kept_by now key m x).1.1 j ≡ some r
    → (get_at later m j ≡ some r) ⊎ ((key ≡ j) × (x.0 ≡ ok r) × (later < now + m.0))
unfolding get_at find_receipt
kept_by-new now later key j m (err e, s) r h = inl h
kept_by-new now later key j m (ok x, s) r h = elim (==_cases key j) [
  | inl (same, t) ↦
      let (made, lives) = alive-recent now later m.0 x r (rw t at h) in
      inr (same, ap ok made, lives)
  | inr (other, n) ↦ inl (rw n at h)
]

answer_by-new :
    {S : Type 0} (now later : ℕ) (key j : List ℕ) (action : Exec S SubmissionReceipt) (s : S)
    (m : ℕ × Entries) (o : Option SubmissionReceipt) (r : SubmissionReceipt)
    → get_at later (answer_by now key action s m o).1.1 j ≡ some r
    → (get_at later m j ≡ some r)
      ⊎ ((key ≡ j) × (o ≡ none) × ((action s).0 ≡ ok r) × (later < now + m.0))
answer_by-new now later key j action s m (some x) r h = inl h
answer_by-new now later key j action s m none r h =
    elim (kept_by-new now later key j m (action s) r h) [
      | inl before ↦ inl before
      | inr (same, made, lives) ↦ inr (same, refl, made, lives)
    ]

pub try_at-held :
    {S : Type 0} (now : ℕ) (key : List ℕ) (action : Exec S SubmissionReceipt) (s : S)
    (m : ℕ × Entries) (r : SubmissionReceipt)
    → get_at now m key ≡ some r
    → ((try_at now key action s m).0 ≡ ok r) × ((try_at now key action s m).1.0 ≡ s)
unfolding try_at
try_at-held now key action s m r h = rw h (refl, refl)

pub try_at-missing :
    {S : Type 0} (now : ℕ) (key : List ℕ) (action : Exec S SubmissionReceipt) (s : S)
    (m : ℕ × Entries)
    → get_at now m key ≡ none
    → ((try_at now key action s m).0 ≡ (action s).0)
      × ((try_at now key action s m).1.0 ≡ (action s).1)
unfolding try_at
try_at-missing now key action s m h = rw h (kept_by-same now key m (action s))

pub get_at-empty : (ttl now : ℕ) (key : List ℕ) → get_at now (ttl, []) key ≡ none
unfolding get_at find_receipt
get_at-empty ttl now key = refl

pub try_at-ttl :
    {S : Type 0} (now : ℕ) (key : List ℕ) (action : Exec S SubmissionReceipt) (s : S)
    (m : ℕ × Entries)
    → (try_at now key action s m).1.1.0 ≡ m.0
unfolding try_at
try_at-ttl now key action s m = answer_by-ttl now key action s m (get_at now m key)

pub get_at-try_at :
    {S : Type 0} (now later : ℕ) (key j : List ℕ) (action : Exec S SubmissionReceipt) (s : S)
    (m : ℕ × Entries) (r : SubmissionReceipt)
    → get_at later (try_at now key action s m).1.1 j ≡ some r
    → (get_at later m j ≡ some r)
      ⊎ ((key ≡ j) × (get_at now m key ≡ none) × ((action s).0 ≡ ok r) × (later < now + m.0))
unfolding try_at
get_at-try_at now later key j action s m r h =
    answer_by-new now later key j action s m (get_at now m key) r h

instance abbrev pub sample_receipts : Receipts
sample_receipts = record {
  Map = ℕ × Entries;
  build = λ capacity ttl. (ttl, []);
  time_to_live = λ m. m.0;
  get = get_at;
  try_get_with = try_at;
  time_to_live-build = λ capacity ttl. refl;
  time_to_live-try = try_at-ttl;
  get-build = λ capacity ttl now key. get_at-empty ttl now key;
  get-earlier = get_at-earlier;
  try-held = try_at-held;
  try-missing = try_at-missing;
  get-try = get_at-try_at;
}
