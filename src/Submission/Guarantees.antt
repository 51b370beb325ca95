-- ===== src/Submission/Guarantees.antt =====
-- What `SubmissionService::submit` of src/submission.rs guarantees to clients.
use pulsar_verifier.Prelude.{
  [], some, inl, inr, refl, ◌∷◌, ◌++◌, ◌≡◌, ◌≤◌, ◌⊎◌, ◌∙◌, ℕ, List, arith, ap, ==_refl, sym, none,
  Option,
}
use pulsar_verifier.Chain.Client.{BroadcastReceipt, broadcast_tx_sync}
use pulsar_verifier.Error.{ok, ok_inj}
use pulsar_verifier.Identity.{VerificationId, id_eq}
use pulsar_verifier.Proof.{Sha256, Prost, Proof, encoded_len, verification_id}
use pulsar_verifier.Store.Entries.{validate_proof}
use pulsar_verifier.Store.Merge.{view-insert}
use pulsar_verifier.Store.Moka.{Moka}
use pulsar_verifier.Store.Operations.{insert_local_proof, ProofStore}
use pulsar_verifier.Store.Record.{Arc, ProofRecord, StoreChange, rpc}
use pulsar_verifier.Store.Spec.{view, supplied}
use pulsar_verifier.Submission.Message.{Decoders}
use pulsar_verifier.Submission.Service.{
  Receipts, Node, SubmissionService, submit, SubmissionReceipt,
}
use pulsar_verifier.Submission.Submit.{
  invalid, repeated, not_inserted, not_accepted, accepted, receipt_of, submit-Submitted,
}

pub not_held : {o : Option SubmissionReceipt} {r : SubmissionReceipt} → o ≡ none → o ≡ some r → ⊥
not_held h k = cc

module _ ⦃moka : Moka (Arc ProofRecord)⦄ ⦃cache : Receipts⦄ ⦃sha : Sha256⦄ ⦃prost : Prost⦄
    ⦃decoders : Decoders⦄ where
  insert-fits :
      (now : ℕ) (p : Proof) (s : ProofStore) (x : VerificationId × StoreChange)
      → (insert_local_proof now p rpc s).0 ≡ ok x
      → encoded_len p ≤ s.max_proof_bytes
  unfolding insert_local_proof validate_proof
  insert-fits now p s x h = ground arith

  -- The content of the proof is in the store.
  stored :
      (now : ℕ) (p : Proof) (s : ProofStore) (x : VerificationId × StoreChange)
      → (insert_local_proof now p rpc s).0 ≡ ok x
      → view (insert_local_proof now p rpc s).1 (verification_id p)
        ≡ some (supplied p rpc now (view s (verification_id p)))
  stored now p s x h = ground (
    arith,
    view-insert now p rpc (verification_id p) s,
    insert-fits now p s x h,
    ==_refl (verification_id p),
  )

  -- A call of `submit` hands no transaction to the node, or hands over exactly the one that it was
  -- given, and then the store holds the content of its proof.
  pub submit-relayed :
      (now : ℕ) (node : Node) (p : Proof) (tx_raw : List ℕ) (s : SubmissionService)
      → ((submit now node p tx_raw s).1.relayed ≡ s.relayed)
        ⊎ (((submit now node p tx_raw s).1.relayed ≡ s.relayed ++ (tx_raw ∷ []))
            × (view (submit now node p tx_raw s).1.store (verification_id p)
                ≡ some (supplied p rpc now (view s.store (verification_id p)))))
  submit-relayed now node p tx_raw s = elim (submit-Submitted now node p tx_raw s) [
    | invalid e q ↦ rw q (inl refl)
    | repeated r m v h k q ↦ rw q (inl refl)
    | not_inserted e m k q ↦ rw q (inl refl)
    | not_accepted x e m h w k q ↦ rw q (inr (refl, stored now p s.store x h))
    | accepted x response m v n h b same zero k q ↦ rw q (inr (refl, stored now p s.store x h))
  ]

  -- A receipt is the one that is held for the same transaction, or the node has just answered that it
  -- accepts this transaction.
  pub submit-receipt :
      (now : ℕ) (node : Node) (p : Proof) (tx_raw : List ℕ) (s : SubmissionService)
      (r : SubmissionReceipt)
      → (submit now node p tx_raw s).0 ≡ ok r
      → (cache.get now s.receipts (sha.digest tx_raw) ≡ some r)
        ⊎ ((r ≡ receipt_of p tx_raw)
            × (response : BroadcastReceipt) × (broadcast_tx_sync (node tx_raw) ≡ ok response)
            × (response.transaction_hash ≡ sha.digest tx_raw)
            × (response.code ≡ 0))
  submit-receipt now node p tx_raw s r h = elim (submit-Submitted now node p tx_raw s) [
    | invalid e q ↦ absurd (ground (arith, q))
    | repeated x m v held k q ↦ inl (held ∙ ap some (ok_inj (rw q at h)))
    | not_inserted e m k q ↦ absurd (ground (arith, q))
    | not_accepted x e m i w k q ↦ absurd (ground (arith, q))
    | accepted x response m v n i b same zero k q ↦
        inr (sym (ok_inj (rw q at h)), response, b, same, zero)
  ]

  -- What a service does for a transaction whose receipt it holds.
  RepeatsIn : ℕ → Node → Proof → List ℕ → SubmissionReceipt → SubmissionService → Type 0
  RepeatsIn later other p tx_raw r t =
      ((submit later other p tx_raw t).0 ≡ ok r)
      × ((submit later other p tx_raw t).1.store ≡ t.store)
      × ((submit later other p tx_raw t).1.relayed ≡ t.relayed)
