-- ===== src/Listener/Sessions.antt =====
-- Whole sessions of src/listener.rs. Other tasks use the store between the deliveries, and it drops
-- records.
use pulsar_verifier.Prelude.{
  [], some, none, true, ◌∷◌, ◌≡◌, List, ℕ, contains, Holds, nat_eq, Option,
}
use pulsar_verifier.Error.{Result, ok, Error}
use pulsar_verifier.Exec.{◌>>=◌, ◌>>◌, Exec, lift, modify}
use pulsar_verifier.Identity.{VerificationId}
use pulsar_verifier.Listener.Blocks.{
  Listener, process_block, Answers, active_heights, update_validators, validator_set_changed,
  set_state,
}
use pulsar_verifier.Listener.Events.{Hex, CommittedBlock}
use pulsar_verifier.Listener.Guarantees.{Recorded}
use pulsar_verifier.Listener.Observed.{IsObserved}
use pulsar_verifier.Listener.Session.{Delivery, used_by}
use pulsar_verifier.Proof.{Sha256, Prost}
use pulsar_verifier.Store.Moka.{Moka}
use pulsar_verifier.Store.Record.{Arc, ProofRecord}

module _ ⦃moka : Moka (Arc ProofRecord)⦄ where
  -- The store knows of every request that the node reports for the active window of the latest height,
  -- and this height is the last one.
  pub record Initialized (answers : Answers) (u : Listener) : Type 0 where
    pub latest : ℕ
    pub answer : answers.latest_height ≡ ok latest
    pub window :
        (height : ℕ) (js : List VerificationId) (id : VerificationId)
        → contains (active_heights latest) height ≡ true
        → answers.proofs_by_height height ≡ ok js
        → Holds id js
        → IsObserved u.store id
    pub reached : u.state.last_height ≡ some latest

  -- The end of `initialize`, which does not use the store.
  abbrev finish_at : Option (ℕ → Result (Unit {0})) → Answers → ℕ → Exec Listener (Unit {0})
  finish_at updater answers height = elim updater [
    | none ↦ modify (λ l. record l { state = record (l.state) { last_height = some height } })
    | some _ ↦ λ l.
        (lift (answers.validators_hash height) >>= λ hash.
        update_validators answers (validator_set_changed l.state.validators_hash hash) height
        >> modify (set_state (some height) (some hash)))
          l
  ]

module _ ⦃moka : Moka (Arc ProofRecord)⦄ ⦃sha : Sha256⦄ ⦃prost : Prost⦄ ⦃hex : Hex⦄ where
  -- Every delivery is a block, and each one is recorded when it is processed, in its turn.
  unfoldable pub AllRecorded : List Delivery → Listener → Type 0
  AllRecorded [] l = Unit
  AllRecorded (d ∷ rest) l =
      let m = used_by d.others l in
      (block : CommittedBlock) × (d.event ≡ ok (some block))
      × Recorded d.answers block m (process_block d.clock d.answers block m).1
      × AllRecorded rest (process_block d.clock d.answers block m).1
