-- ===== src/Listener/Process.antt =====
-- What `process_block` of src/listener.rs leaves.
use pulsar_verifier.Prelude.{
  none, some, true, false, inl, inr, refl, ◌≡◌, Option, ℕ, Bool, arith, Bool-cases, Option-cases,
  List,
}
use pulsar_verifier.Error.{Result-cases, ok, err, Error}
use pulsar_verifier.Exec.{◌>>◌, >>=-eq-ok, Exec, modify}
use pulsar_verifier.Identity.{VerificationId}
use pulsar_verifier.Listener.Blocks.{
  reconcile_active_window, update_validators, Answers, Listener, is_newer, recover_gap, advance,
  active_heights, leaves_gap, validator_set_changed, process_block, set_state, observe_all,
}
use pulsar_verifier.Listener.Events.{Hex, CommittedBlock, parse_proof_events}
use pulsar_verifier.Listener.Observed.{
  Keeps, reconcile_heights-Keeps, Keeps-refl, IsAtMost-refl, IsAtMost, >>=-Keeps, observe_all-Keeps,
}
use pulsar_verifier.Proof.{Sha256}
use pulsar_verifier.Store.Moka.{Moka}
use pulsar_verifier.Store.Record.{Arc, ProofRecord}

module _ ⦃moka : Moka (Arc ProofRecord)⦄ where
  reconcile_active_window-Keeps :
      (clock : ℕ → ℕ) (answers : Answers) (latest : ℕ) (l : Listener)
      → Keeps l (reconcile_active_window clock answers latest l).1
  unfolding reconcile_active_window
  reconcile_active_window-Keeps clock answers latest l =
      reconcile_heights-Keeps clock answers (active_heights latest) l

  update_validators-Keeps :
      (answers : Answers) (changed : Bool) (height : ℕ) (l : Listener)
      → Keeps l (update_validators answers changed height l).1
  unfolding update_validators
  update_validators-Keeps answers false height l = Keeps-refl l
  update_validators-Keeps answers true height l = elim (Option-cases answers.replace_at) [
    | inl missing ↦ rw missing (Keeps-refl l)
    | inr (replace, given) ↦ rw given (elim (Result-cases (replace height)) [
      | inl (x, h) ↦ rw h (record { kept = λ j q. q; forward = IsAtMost-refl l.state.last_height })
      | inr (e, h) ↦ rw h (Keeps-refl l)
    ])
  ]

  newer-IsAtMost : (a : Option ℕ) (n : ℕ) → is_newer a n ≡ true → IsAtMost a (some n)
  newer-IsAtMost none n h = tt
  newer-IsAtMost (some m) n h = ground arith

  not_newer : (a : Option ℕ) (n : ℕ) → is_newer a n ≡ false → IsAtMost (some n) a
  not_newer none n h = absurd (ground arith)
  not_newer (some m) n h = ground arith

  module _ ⦃sha : Sha256⦄ ⦃hex : Hex⦄ where
    recover_gap-Keeps :
        (clock : ℕ → ℕ) (answers : Answers) (block : CommittedBlock) (l : Listener)
        → Keeps l (recover_gap clock answers block l).1
    unfolding recover_gap
    recover_gap-Keeps clock answers block l =
        elim (Bool-cases (leaves_gap l.state.last_height block.height)) [
          | inl gap ↦ rw gap (reconcile_active_window-Keeps clock answers block.height l)
          | inr next ↦ rw next (Keeps-refl l)
        ]

    set_state-Keeps :
        (n : ℕ) (hash : Option (List ℕ)) (l : Listener)
        → is_newer l.state.last_height n ≡ true
        → Keeps l (set_state (some n) hash l)
    set_state-Keeps n hash l h = record {
      kept = λ j q. q;
      forward = newer-IsAtMost l.state.last_height n h;
    }

    update_validators-state :
        (answers : Answers) (changed : Bool) (height : ℕ) (l : Listener)
        → (update_validators answers changed height l).1.state ≡ l.state
    unfolding update_validators
    update_validators-state answers false height l = refl
    update_validators-state answers true height l = elim (Option-cases answers.replace_at) [
      | inl missing ↦ rw missing refl
      | inr (replace, given) ↦
          rw given (elim (Result-cases (replace height)) [
            | inl (x, h) ↦ rw h refl
            | inr (e, h) ↦ rw h refl
          ])
    ]

    pub advance-Keeps :
        (answers : Answers) (block : CommittedBlock) (l : Listener)
        → Keeps l (advance answers block l).1
    unfolding advance
    advance-Keeps answers block l = elim (Bool-cases (is_newer l.state.last_height block.height)) [
      | inr old ↦ rw old (Keeps-refl l)
      | inl new ↦
          let changed = validator_set_changed l.state.validators_hash block.validators_hash in
          rw new (
            >>=-Keeps (update_validators answers changed block.height)
              (λ _. modify (set_state (some block.height) (some block.validators_hash))) l
              (update_validators-Keeps answers changed block.height l)
              (λ x.
                set_state-Keeps block.height (some block.validators_hash)
                  (update_validators answers changed block.height l).1
                  (rw (update_validators-state answers changed block.height l) new)))
    ]

    pub advance_height :
        (answers : Answers) (block : CommittedBlock) (l : Listener)
        → (advance answers block l).0 ≡ ok tt
        → IsAtMost (some block.height) (advance answers block l).1.state.last_height
    unfolding advance
    advance_height answers block l h =
        elim (Bool-cases (is_newer l.state.last_height block.height)) [
          | inr old ↦ rw old (not_newer l.state.last_height block.height old)
          | inl new ↦
              let changed = validator_set_changed l.state.validators_hash block.validators_hash in
              let (x, good, same) =
                >>=-eq-ok (update_validators answers changed block.height)
                  (λ _. modify (set_state (some block.height) (some block.validators_hash))) l tt
                  (rw new at h) in
              rw (new, same) (IsAtMost-refl (some block.height))
        ]

    -- The steps of `process_block` after the parse and after the recovery.
    abbrev pub recorded :
        (ℕ → ℕ) → Answers → CommittedBlock → List VerificationId → Exec Listener (Unit {0})
    recorded clock answers block ids = observe_all clock 0 ids >> advance answers block

    abbrev pub processed :
        (ℕ → ℕ) → Answers → CommittedBlock → List VerificationId → Exec Listener (Unit {0})
    processed clock answers block ids =
        recover_gap clock answers block >> recorded clock answers block ids

    pub recorded-Keeps :
        (clock : ℕ → ℕ) (answers : Answers) (block : CommittedBlock) (ids : List VerificationId)
        (l : Listener)
        → Keeps l (recorded clock answers block ids l).1
    recorded-Keeps clock answers block ids l =
        >>=-Keeps (observe_all clock 0 ids) (λ _. advance answers block) l
          (observe_all-Keeps clock 0 ids l)
          (λ x. advance-Keeps answers block (observe_all clock 0 ids l).1)

    pub processed-Keeps :
        (clock : ℕ → ℕ) (answers : Answers) (block : CommittedBlock) (ids : List VerificationId)
        (l : Listener)
        → Keeps l (processed clock answers block ids l).1
    processed-Keeps clock answers block ids l =
        >>=-Keeps (recover_gap clock answers block) (λ _. recorded clock answers block ids) l
          (recover_gap-Keeps clock answers block l)
          (λ x. recorded-Keeps clock answers block ids (recover_gap clock answers block l).1)

    pub process_block_err :
        (clock : ℕ → ℕ) (answers : Answers) (block : CommittedBlock) (l : Listener) (e : Error)
        → parse_proof_events block ≡ err e
        → process_block clock answers block l ≡ (err e, l)
    unfolding process_block
    process_block_err clock answers block l e h = rw h refl

    pub process_block_ok :
        (clock : ℕ → ℕ) (answers : Answers) (block : CommittedBlock) (l : Listener)
        (ids : List VerificationId)
        → parse_proof_events block ≡ ok ids
        → process_block clock answers block l ≡ processed clock answers block ids l
    unfolding process_block
    process_block_ok clock answers block l ids h = rw h refl
