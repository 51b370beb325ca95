-- ===== src/Listener/Blocks.antt =====
-- src/listener.rs: what the listener does with committed blocks, and how it recovers. The queries of the
-- client (src/chain/client.rs) and the updater of the validator set (src/p2p) are their answers.
use pulsar_verifier.Prelude.{
  if◌then◌else◌, [], none, some, true, false, ◌∷◌, ◌++◌, ◌+◌, ◌-◌, ◌==◌, Option, ℕ, List,
  checked_mul, Bool, suc, max, min, not, zero, bytes_eq, ltb,
}
use pulsar_verifier.Error.{
  ok, err, Error, Result, invalid_chain_contract, unsupported_proof_type, verification_id_mismatch,
  proof_store, chain_id_mismatch, invalid_verification_id, local_validator_removed,
}
use pulsar_verifier.Exec.{◌>>=◌, ◌>>◌, Exec, pure, lift, modify}
use pulsar_verifier.Identity.{VerificationId}
use pulsar_verifier.Listener.Events.{Hex, CommittedBlock, parse_proof_events}
use pulsar_verifier.Proof.{Sha256}
use pulsar_verifier.Store.Moka.{Moka}
use pulsar_verifier.Store.Operations.{ProofStore, observe_chain_verification}
use pulsar_verifier.Store.Record.{Arc, ProofRecord}
use pulsar_verifier.Verification.Attempts.{duration_max}

pub record ListenerState : Type 0 where
  pub last_height : Option ℕ
  pub validators_hash : Option (List ℕ)

-- The answers that the listener gets: the identities of the proofs of a height, the latest height and
-- the hash of the validators at a height, from the client; what replacing the validator set at a
-- height comes to, from the updater, if there is one.
pub record Answers : Type 0 where
  pub proofs_by_height : ℕ → Result (List VerificationId)
  pub latest_height : Result ℕ
  pub validators_hash : ℕ → Result (List ℕ)
  pub replace_at : Option (ℕ → Result (Unit {0}))

-- The heights from `first` on, `count` of them.
unfoldable pub heights_from : ℕ → ℕ → List ℕ
heights_from first zero = []
heights_from first (suc count) = first ∷ heights_from (suc first) count

-- `active_heights`: an inclusive range.
unfoldable pub active_heights : ℕ → List ℕ
unfolding heights_from
active_heights latest_height =
    let first = max (latest_height - 2) 1 in heights_from first (suc latest_height - first)

-- The longest wait before the next session but one.
unfoldable pub next_backoff : ℕ → ℕ → ℕ
next_backoff reconnect_max_backoff backoff = elim (checked_mul (suc duration_max) backoff 2) [
  | none ↦ min reconnect_max_backoff reconnect_max_backoff
  | some doubled ↦ min doubled reconnect_max_backoff
]

unfoldable pub is_fatal : Error → Bool
is_fatal chain_id_mismatch = true
is_fatal (invalid_chain_contract message) = true
is_fatal invalid_verification_id = true
is_fatal (unsupported_proof_type n) = true
is_fatal (verification_id_mismatch id) = true
is_fatal local_validator_removed = true
is_fatal (proof_store message) = true
is_fatal e = false

abbrev pub validator_set_changed : Option (List ℕ) → List ℕ → Bool
validator_set_changed none current = true
validator_set_changed (some previous) current = not (previous == current)

module _ ⦃moka : Moka (Arc ProofRecord)⦄ where
  -- The listener with the store that it writes to and the heights at which it has replaced the
  -- validator set.
  pub record Listener : Type 0 where
    pub store : ProofStore
    pub state : ListenerState
    pub replaced : List ℕ

  abbrev pub on_store : {A : Type 0} → Exec ProofStore A → Exec Listener A
  on_store m l = let (r, s) = m l.store in (r, record l { store = s })

  -- The loops over `observe_chain_verification`; `clock` gives the time of each call.
  unfoldable pub observe_all : (ℕ → ℕ) → ℕ → List VerificationId → Exec Listener (Unit {0})
  observe_all clock n [] = pure tt
  observe_all clock n (id ∷ ids) =
      on_store (observe_chain_verification (clock n) id) >> observe_all clock (suc n) ids

  unfoldable pub reconcile_heights : (ℕ → ℕ) → Answers → List ℕ → Exec Listener (Unit {0})
  unfolding observe_all
  reconcile_heights clock answers [] = pure tt
  reconcile_heights clock answers (height ∷ heights) =
      lift (answers.proofs_by_height height) >>= λ ids.
      observe_all clock 0 ids >> reconcile_heights clock answers heights

  unfoldable pub reconcile_active_window : (ℕ → ℕ) → Answers → ℕ → Exec Listener (Unit {0})
  unfolding reconcile_heights active_heights
  reconcile_active_window clock answers latest_height =
      reconcile_heights clock answers (active_heights latest_height)

  abbrev replaced_at : ℕ → Result (Unit {0}) → Exec Listener (Unit {0})
  replaced_at height (err e) l = (err e, l)
  replaced_at height (ok _) l = (ok tt, record l { replaced = l.replaced ++ (height ∷ []) })

  -- `updater.replace_at`, where there is an updater and the set has changed.
  unfoldable pub update_validators : Answers → Bool → ℕ → Exec Listener (Unit {0})
  update_validators answers changed height =
      if changed
      then elim answers.replace_at [
        | none ↦ pure tt
        | some replace ↦ replaced_at height (replace height)
      ]
      else pure tt

  abbrev pub set_state : Option ℕ → Option (List ℕ) → Listener → Listener
  set_state height hash l = record l {
    state = record { last_height = height; validators_hash = hash };
  }

  unfoldable pub initialize : (ℕ → ℕ) → Answers → Exec Listener (Unit {0})
  unfolding reconcile_active_window update_validators
  initialize clock answers = do
    height ← lift answers.latest_height
    reconcile_active_window clock answers height
    elim answers.replace_at [
      | none ↦ modify (λ l. record l { state = record (l.state) { last_height = some height } })
      | some _ ↦ λ l.
          (lift (answers.validators_hash height) >>= λ hash.
          update_validators answers (validator_set_changed l.state.validators_hash hash) height
          >> modify (set_state (some height) (some hash)))
            l
    ]

  -- `saturating_add` of `u64`.
  abbrev pub saturating_suc : ℕ → ℕ
  saturating_suc n = min (n + 1) 18446744073709551615

  abbrev pub leaves_gap : Option ℕ → ℕ → Bool
  leaves_gap none height = false
  leaves_gap (some last) height = ltb (saturating_suc last) height

  abbrev pub is_newer : Option ℕ → ℕ → Bool
  is_newer none height = true
  is_newer (some last) height = ltb last height

  module _ ⦃sha : Sha256⦄ ⦃hex : Hex⦄ where
    -- The end of `process_block`: the validators and the height of a newer block.
    unfoldable pub advance : Answers → CommittedBlock → Exec Listener (Unit {0})
    unfolding update_validators
    advance answers block l =
        if is_newer l.state.last_height block.height
        then (update_validators answers
                (validator_set_changed l.state.validators_hash block.validators_hash) block.height
              >> modify (set_state (some block.height) (some block.validators_hash)))
            l
        else (ok tt, l)

    unfoldable pub recover_gap : (ℕ → ℕ) → Answers → CommittedBlock → Exec Listener (Unit {0})
    unfolding reconcile_active_window
    recover_gap clock answers block l =
        if leaves_gap l.state.last_height block.height
        then reconcile_active_window clock answers block.height l
        else (ok tt, l)

    unfoldable pub process_block : (ℕ → ℕ) → Answers → CommittedBlock → Exec Listener (Unit {0})
    unfolding parse_proof_events recover_gap observe_all advance
    process_block clock answers block = do
      observations ← lift (parse_proof_events block)
      recover_gap clock answers block
      observe_all clock 0 observations
      advance answers block
