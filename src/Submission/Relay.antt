-- ===== src/Submission/Relay.antt =====
-- What `SubmissionService::submit` of src/submission.rs does: content before the relay, and receipts.
use pulsar_verifier.Prelude.{
  [], ◌∷◌, ◌++◌, ◌≡◌, ℕ, arith, none, some, inl, inr, ◌==◌, Option, List, subst, Bool-cases, length,
  nat_eq,
}
use pulsar_verifier.Chain.Client.{BroadcastReceipt, broadcast_tx_sync, BroadcastResponse}
use pulsar_verifier.Error.{
  ok, err, Error, Result, chain, transaction_hash_mismatch, check_tx_rejected, err_inj, ok_err,
}
use pulsar_verifier.Identity.{VerificationId}
use pulsar_verifier.Proof.{Sha256, Prost, Proof}
use pulsar_verifier.Store.Moka.{Moka}
use pulsar_verifier.Store.Operations.{insert_local_proof}
use pulsar_verifier.Store.Record.{Arc, ProofRecord, rpc, StoreChange}
use pulsar_verifier.Submission.Message.{ValidatedSubmission}
use pulsar_verifier.Submission.Service.{Receipts, relay, Node, SubmissionService, accept}

module _ ⦃moka : Moka (Arc ProofRecord)⦄ ⦃cache : Receipts⦄ ⦃sha : Sha256⦄ ⦃prost : Prost⦄ where
  abbrev pub inserted_by : ℕ → Proof → SubmissionService → SubmissionService
  inserted_by now p s = record s { store = (insert_local_proof now p rpc s.store).1 }

  abbrev pub relayed_by : ℕ → ValidatedSubmission → SubmissionService → SubmissionService
  relayed_by now v s = record (inserted_by now v.proof s) { relayed = s.relayed ++ (v.tx_raw ∷ []) }

  -- The errors of a transaction that has been handed to the node.
  pub data IsRelayError : Error → Type 0 where
    no_contact : IsRelayError chain
    other_hash : IsRelayError transaction_hash_mismatch
    rejected : (hash : List ℕ) (code : ℕ) → IsRelayError (check_tx_rejected hash code)

  broadcast-IsRelayError :
      (answer : Option BroadcastResponse) (e : Error)
      → broadcast_tx_sync answer ≡ err e
      → IsRelayError e
  unfolding broadcast_tx_sync
  broadcast-IsRelayError none e h = subst IsRelayError (err_inj h) no_contact
  broadcast-IsRelayError (some response) e h = elim (Bool-cases (length response.hash == 32)) [
    | inl sized ↦ absurd (ok_err (rw sized at h))
    | inr short ↦ subst IsRelayError (err_inj (rw short at h)) no_contact
  ]

  -- How far a relay comes.
  pub data Relayed (now : ℕ) (node : Node) (v : ValidatedSubmission) (s : SubmissionService)
      : Type 0 where
    not_stored :
        (e : Error)
        → (insert_local_proof now v.proof rpc s.store).0 ≡ err e
        → relay now node v s ≡ (err e, inserted_by now v.proof s)
        → Relayed now node v s
    no_answer :
        (x : VerificationId × StoreChange) (e : Error)
        → (insert_local_proof now v.proof rpc s.store).0 ≡ ok x
        → IsRelayError e
        → relay now node v s ≡ (err e, relayed_by now v s)
        → Relayed now node v s
    answered :
        (x : VerificationId × StoreChange) (response : BroadcastReceipt)
        → (insert_local_proof now v.proof rpc s.store).0 ≡ ok x
        → broadcast_tx_sync (node v.tx_raw) ≡ ok response
        → relay now node v s ≡ (accept v response, relayed_by now v s)
        → Relayed now node v s

  pub relay-Relayed :
      (now : ℕ) (node : Node) (v : ValidatedSubmission) (s : SubmissionService)
      (r : Result (VerificationId × StoreChange)) (a : Result BroadcastReceipt)
      → (insert_local_proof now v.proof rpc s.store).0 ≡ r
      → broadcast_tx_sync (node v.tx_raw) ≡ a
      → Relayed now node v s
  unfolding relay
  relay-Relayed now node v s (err e) a h b = not_stored e h (ground (arith, h))
  relay-Relayed now node v s (ok x) (err e) h b =
      no_answer x e h (broadcast-IsRelayError (node v.tx_raw) e b) (ground (arith, h, b))
  relay-Relayed now node v s (ok x) (ok response) h b =
      answered x response h b (ground (arith, h, b))
