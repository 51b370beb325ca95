-- ===== src/Listener/Session.antt =====
-- One session of src/listener.rs: `run_session` from its subscription to its end. What the subscription
-- delivers is a list; when the list ends, the listener is told to stop.
use pulsar_verifier.Prelude.{if◌then◌else◌, [], none, some, true, false, ◌∷◌, ℕ, Bool, Option, List}
use pulsar_verifier.Error.{ok, err, Error, Result, chain}
use pulsar_verifier.Exec.{◌>>◌, Exec, lift, pure, modify}
use pulsar_verifier.Listener.Blocks.{is_fatal, Answers, process_block, initialize, Listener}
use pulsar_verifier.Listener.Events.{CommittedBlock, Hex}
use pulsar_verifier.Proof.{Sha256, Prost}
use pulsar_verifier.Store.History.{Call, run}
use pulsar_verifier.Store.Moka.{Moka}
use pulsar_verifier.Store.Record.{Arc, ProofRecord}

pub data SessionExit : Type 0 where
  stopped : SessionExit
  reconnect : Error → Bool → SessionExit

-- What the subscription delivers: a block with the answers that hold while it is processed, or the end
-- of the subscription; `others` is what other tasks do to the store, and what it drops, before that.
pub record Delivery : Type 0 where
  pub others : List Call
  pub clock : ℕ → ℕ
  pub answers : Answers
  pub event : Result (Option CommittedBlock)

-- How a session ends at an error.
unfoldable pub ends_at : Bool → Error → Result SessionExit
unfolding is_fatal
ends_at established e = if is_fatal e then err e else ok (reconnect e established)

module _ ⦃moka : Moka (Arc ProofRecord)⦄ ⦃sha : Sha256⦄ ⦃prost : Prost⦄ ⦃hex : Hex⦄ where
  -- An action whose error ends the session.
  unfoldable pub or_end :
      Bool → Exec Listener (Unit {0}) → Exec Listener SessionExit → Exec Listener SessionExit
  unfolding ends_at
  or_end established action next l = elim (action l).0 [
    | err e ↦ (ends_at established e, (action l).1)
    | ok _ ↦ next (action l).1
  ]

  -- The listener after what other tasks do to the store.
  abbrev pub used_by : List Call → Listener → Listener
  used_by calls l = record l { store = run calls l.store }

  -- The loop of `run_session`; `closed` is what `blocks.close()` comes to when the listener stops.
  unfoldable pub run_blocks : Result (Unit {0}) → List Delivery → Exec Listener SessionExit
  unfolding or_end process_block ends_at
  run_blocks closed [] = lift closed >> pure stopped
  run_blocks closed (d ∷ rest) = modify (used_by d.others) >> elim d.event [
    | err e ↦ lift (ends_at true e)
    | ok o ↦ elim o [
      | none ↦ pure (reconnect chain true)
      | some block ↦ or_end true (process_block d.clock d.answers block) (run_blocks closed rest)
    ]
  ]

  unfoldable pub run_session :
      Result (Unit {0})
      → (ℕ → ℕ)
      → Answers
      → Result (Unit {0})
      → List Delivery
      → Exec Listener SessionExit
  unfolding or_end initialize run_blocks ends_at
  run_session subscribed clock answers closed deliveries =
      or_end false (lift subscribed)
        (or_end false (initialize clock answers) (run_blocks closed deliveries))
