-- ===== src/Listener/Guarantees.antt =====
-- What `process_block` of src/listener.rs guarantees of the store and of the heights.
use pulsar_verifier.Prelude.{
  some, true, inl, inr, ◌≡◌, ◌∙◌, ℕ, List, Holds, contains, sym, ap, nat_eq,
}
use pulsar_verifier.Error.{ok, err, Error, Result-cases, ok_err, Result}
use pulsar_verifier.Exec.{>>=-eq-ok}
use pulsar_verifier.Identity.{VerificationId}
use pulsar_verifier.Listener.Blocks.{
  Answers, recover_gap, reconcile_active_window, Listener, process_block, leaves_gap,
  active_heights, observe_all, advance,
}
use pulsar_verifier.Listener.Events.{Hex, CommittedBlock, parse_proof_events}
use pulsar_verifier.Listener.Observed.{
  Keeps, IsObserved, IsAtMost, reconcile_heights-IsObserved, Keeps-refl, observe_all-IsObserved,
}
use pulsar_verifier.Listener.Process.{
  process_block_ok, processed, processed-Keeps, process_block_err, recorded, advance-Keeps,
  recorded-Keeps, advance_height,
}
use pulsar_verifier.Proof.{Sha256}
use pulsar_verifier.Store.Moka.{Moka}
use pulsar_verifier.Store.Record.{Arc, ProofRecord}

module _ ⦃moka : Moka (Arc ProofRecord)⦄ ⦃sha : Sha256⦄ ⦃hex : Hex⦄ where
  -- However a block is processed, no observation is lost and the last height does not go back; a block
  -- with a malformed event changes nothing at all.
  pub process_block-Keeps :
      (clock : ℕ → ℕ) (answers : Answers) (block : CommittedBlock) (l : Listener)
      → Keeps l (process_block clock answers block l).1
        × ((e : Error)
            → parse_proof_events block ≡ err e
            → process_block clock answers block l ≡ (err e, l))
  process_block-Keeps clock answers block l = (
    elim (Result-cases (parse_proof_events block)) [
      | inl (ids, h) ↦
          rw (process_block_ok clock answers block l ids h)
            (processed-Keeps clock answers block ids l)
      | inr (e, h) ↦ rw (process_block_err clock answers block l e h) (Keeps-refl l)
    ],
    process_block_err clock answers block l,
  )

  -- The requests that a block submits, and after a gap those of the active window.
  pub record Recorded (answers : Answers) (block : CommittedBlock) (l u : Listener) : Type 0 where
    pub ids : List VerificationId
    pub parsed : parse_proof_events block ≡ ok ids
    pub submitted : (id : VerificationId) → Holds id ids → IsObserved u.store id
    pub recovered :
        leaves_gap l.state.last_height block.height ≡ true
        → (height : ℕ) (js : List VerificationId) (id : VerificationId)
        → contains (active_heights block.height) height ≡ true
        → answers.proofs_by_height height ≡ ok js
        → Holds id js
        → IsObserved u.store id
    pub reached : IsAtMost (some block.height) u.state.last_height

  gap-IsObserved :
      (clock : ℕ → ℕ) (answers : Answers) (block : CommittedBlock) (l : Listener) (height : ℕ)
      (js : List VerificationId) (id : VerificationId)
      → (recover_gap clock answers block l).0 ≡ ok tt
      → leaves_gap l.state.last_height block.height ≡ true
      → contains (active_heights block.height) height ≡ true
      → answers.proofs_by_height height ≡ ok js
      → Holds id js
      → IsObserved (recover_gap clock answers block l).1.store id
  unfolding recover_gap reconcile_active_window
  gap-IsObserved clock answers block l height js id h gap active found mine = rw gap (
      reconcile_heights-IsObserved clock answers (active_heights block.height) l height js id
        (rw gap at h) active found mine)

  processed-Recorded :
      (clock : ℕ → ℕ) (answers : Answers) (block : CommittedBlock) (l : Listener)
      (ids : List VerificationId)
      → parse_proof_events block ≡ ok ids
      → (processed clock answers block ids l).0 ≡ ok tt
      → Recorded answers block l (processed clock answers block ids l).1
  processed-Recorded clock answers block l ids p h =
      let (x, recovered, same) =
        >>=-eq-ok (recover_gap clock answers block) (λ _. recorded clock answers block ids) l tt
          h in
      let m = (recover_gap clock answers block l).1 in
      let (y, observed, next) =
        >>=-eq-ok (observe_all clock 0 ids) (λ _. advance answers block) m tt (rw same at h) in
      let n = (observe_all clock 0 ids m).1 in
      record {
        ids = ids;
        parsed = p;
        submitted = λ id mine.
            rw (same, next)
              ((advance-Keeps answers block n).kept id
                (observe_all-IsObserved clock 0 ids m id observed mine));
        recovered = λ gap height js id active found mine. rw same (
            (recorded-Keeps clock answers block ids m).kept id
              (gap-IsObserved clock answers block l height js id recovered gap active found mine));
        reached = rw (same, next) (advance_height answers block n (rw (same, next) at h));
      }

  -- A block that is processed without an error has been read completely: the store knows of every
  -- request that the block submits and, if blocks were missed before it, of every request that the node
  -- reports for the heights of the active window; and the last height is the block's or a later one.
  pub process_block-Recorded :
      (clock : ℕ → ℕ) (answers : Answers) (block : CommittedBlock) (l : Listener)
      → (process_block clock answers block l).0 ≡ ok tt
      → Recorded answers block l (process_block clock answers block l).1
  process_block-Recorded clock answers block l h = elim (Result-cases (parse_proof_events block)) [
    | inr (e, p) ↦ absurd (
        ok_err (
          sym h
          ∙ ap (λ (r : Result (Unit {0}) × Listener). r.0)
              (process_block_err clock answers block l e p)))
    | inl (ids, p) ↦
        let same = process_block_ok clock answers block l ids p in
        rw same (processed-Recorded clock answers block l ids p (rw same at h))
  ]
