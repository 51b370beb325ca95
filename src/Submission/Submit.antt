-- ===== src/Submission/Submit.antt =====
-- The ways in which `SubmissionService::submit` of src/submission.rs ends.
use pulsar_verifier.Prelude.{
  none, some, inl, inr, refl, ◌≡◌, ◌⊎◌, ◌∙◌, ℕ, List, Option, ==_cases, arith, ap, bytes_eq, nat_eq,
  ◌+◌, ◌<◌, sym,
}
use pulsar_verifier.Chain.Client.{BroadcastReceipt, broadcast_tx_sync}
use pulsar_verifier.Error.{
  ok, err, Error, Result-cases, transaction_hash_mismatch, check_tx_rejected, ok_err, ok_inj,
}
use pulsar_verifier.Identity.{VerificationId}
use pulsar_verifier.Proof.{Sha256, Prost, Proof, verification_id}
use pulsar_verifier.Store.Moka.{Moka}
use pulsar_verifier.Store.Operations.{insert_local_proof}
use pulsar_verifier.Store.Record.{Arc, ProofRecord, StoreChange, rpc}
use pulsar_verifier.Submission.Acceptance.{validated, validate_submission_iff}
use pulsar_verifier.Submission.Message.{Decoders, ValidatedSubmission, validate_submission}
use pulsar_verifier.Submission.Relay.{
  not_stored, no_answer, answered, relayed_by, inserted_by, Relayed, relay-Relayed, IsRelayError,
  other_hash, rejected,
}
use pulsar_verifier.Submission.Service.{
  Receipts, accept, submit, Node, SubmissionReceipt, SubmissionService, relay, with_receipt,
}

module _ ⦃moka : Moka (Arc ProofRecord)⦄ ⦃cache : Receipts⦄ ⦃sha : Sha256⦄ ⦃prost : Prost⦄
    ⦃decoders : Decoders⦄ where
  abbrev pub receipt_of : Proof → List ℕ → SubmissionReceipt
  receipt_of p tx_raw = record {
    verification_id = verification_id p;
    transaction_hash = sha.digest tx_raw;
  }

  -- The cache holds nothing that it did not hold.
  abbrev pub HoldsNoMore : cache.Map → cache.Map → Type 0
  HoldsNoMore m m1 =
      (later : ℕ) (key : List ℕ) (r : SubmissionReceipt)
      → cache.get later m1 key ≡ some r
      → cache.get later m key ≡ some r

  -- The cache holds nothing new but one receipt, for its time to live.
  abbrev pub HoldsAlso : ℕ → Proof → List ℕ → cache.Map → cache.Map → Type 0
  HoldsAlso now p tx_raw m m1 =
      (later : ℕ) (key : List ℕ) (r : SubmissionReceipt)
      → cache.get later m1 key ≡ some r
      → (cache.get later m key ≡ some r)
        ⊎ ((sha.digest tx_raw ≡ key)
            × (receipt_of p tx_raw ≡ r)
            × (later < now + cache.time_to_live m))

  abbrev pub holding : cache.Map → SubmissionService → SubmissionService
  holding m s = record s { receipts = m }

  -- How `submit` ends: each way with what it returns and what it leaves.
  pub data Submitted (now : ℕ) (node : Node) (p : Proof) (tx_raw : List ℕ) (s : SubmissionService)
      : Type 0 where
    invalid : (e : Error) → submit now node p tx_raw s ≡ (err e, s) → Submitted now node p tx_raw s
    repeated :
        (r : SubmissionReceipt) (m : cache.Map)
        → validate_submission p tx_raw s.max_proof_bytes s.max_transaction_bytes
          ≡ ok (validated p tx_raw)
        → cache.get now s.receipts (sha.digest tx_raw) ≡ some r
        → HoldsNoMore s.receipts m
        → submit now node p tx_raw s ≡ (ok r, holding m s)
        → Submitted now node p tx_raw s
    not_inserted :
        (e : Error) (m : cache.Map)
        → HoldsNoMore s.receipts m
        → submit now node p tx_raw s ≡ (err e, holding m (inserted_by now p s))
        → Submitted now node p tx_raw s
    not_accepted :
        (x : VerificationId × StoreChange) (e : Error) (m : cache.Map)
        → (insert_local_proof now p rpc s.store).0 ≡ ok x
        → IsRelayError e
        → HoldsNoMore s.receipts m
        → submit now node p tx_raw s ≡ (err e, holding m (relayed_by now (validated p tx_raw) s))
        → Submitted now node p tx_raw s
    accepted :
        (x : VerificationId × StoreChange) (response : BroadcastReceipt) (m : cache.Map)
        → validate_submission p tx_raw s.max_proof_bytes s.max_transaction_bytes
          ≡ ok (validated p tx_raw)
        → cache.get now s.receipts (sha.digest tx_raw) ≡ none
        → (insert_local_proof now p rpc s.store).0 ≡ ok x
        → broadcast_tx_sync (node tx_raw) ≡ ok response
        → response.transaction_hash ≡ sha.digest tx_raw
        → response.code ≡ 0
        → HoldsAlso now p tx_raw s.receipts m
        → submit now node p tx_raw s
          ≡ (ok (receipt_of p tx_raw), holding m (relayed_by now (validated p tx_raw) s))
        → Submitted now node p tx_raw s

  accept-cases :
      (v : ValidatedSubmission) (response : BroadcastReceipt)
      → ((e : Error) × (accept v response ≡ err e) × IsRelayError e)
        ⊎ ((accept v response
              ≡ ok (record {
                verification_id = v.verification_id;
                transaction_hash = v.transaction_hash;
              }))
            × (response.transaction_hash ≡ v.transaction_hash)
            × (response.code ≡ 0))
  unfolding accept
  accept-cases v response = elim (==_cases response.transaction_hash v.transaction_hash) [
    | inr (other, n) ↦ inl (transaction_hash_mismatch, ground (arith, n), other_hash)
    | inl (same, t) ↦ elim (==_cases response.code 0) [
      | inr (failed, n) ↦ inl (
        check_tx_rejected v.transaction_hash response.code,
        ground (arith, n, t),
        rejected v.transaction_hash response.code,
      )
      | inl (zero, u) ↦ inr (ground (arith, t, u), same, zero)
    ]
  ]

  -- The cache after a call of `submit` with a valid submission.
  abbrev cache_after : ℕ → Node → Proof → List ℕ → SubmissionService → cache.Map
  cache_after now node p tx_raw s =
      (cache.try_get_with now (sha.digest tx_raw) (relay now node (validated p tx_raw)) s
        s.receipts).1.1

  -- `submit` is the relay of what is not held.
  submit-relay :
      (now : ℕ) (node : Node) (p : Proof) (tx_raw : List ℕ) (s : SubmissionService)
      → validate_submission p tx_raw s.max_proof_bytes s.max_transaction_bytes
        ≡ ok (validated p tx_raw)
      → cache.get now s.receipts (sha.digest tx_raw) ≡ none
      → submit now node p tx_raw s ≡ (
        (relay now node (validated p tx_raw) s).0,
        holding (cache_after now node p tx_raw s) (relay now node (validated p tx_raw) s).1,
      )
  unfolding submit with_receipt
  submit-relay now node p tx_raw s v n =
      let (result, left) =
        cache.try-missing now (sha.digest tx_raw) (relay now node (validated p tx_raw)) s s.receipts
          n in
      ground (arith, v, result, left)

  failed-HoldsNoMore :
      (now : ℕ) (node : Node) (p : Proof) (tx_raw : List ℕ) (s : SubmissionService) (e : Error)
      → (relay now node (validated p tx_raw) s).0 ≡ err e
      → HoldsNoMore s.receipts (cache_after now node p tx_raw s)
  failed-HoldsNoMore now node p tx_raw s e failed later key r h =
      elim (cache.get-try now later (sha.digest tx_raw) key (relay now node (validated p tx_raw)) s
        s.receipts r h) [
          | inl held ↦ held
          | inr (same, missing, made, lives) ↦ absurd (ok_err (sym made ∙ failed))
        ]

  made-HoldsAlso :
      (now : ℕ) (node : Node) (p : Proof) (tx_raw : List ℕ) (s : SubmissionService)
      → (relay now node (validated p tx_raw) s).0 ≡ ok (receipt_of p tx_raw)
      → HoldsAlso now p tx_raw s.receipts (cache_after now node p tx_raw s)
  made-HoldsAlso now node p tx_raw s made later key r h =
      elim (cache.get-try now later (sha.digest tx_raw) key (relay now node (validated p tx_raw)) s
        s.receipts r h) [
          | inl held ↦ inl held
          | inr (same, missing, result, lives) ↦ inr (same, ok_inj (sym made ∙ result), lives)
        ]

  fresh-Submitted :
      (now : ℕ) (node : Node) (p : Proof) (tx_raw : List ℕ) (s : SubmissionService)
      → validate_submission p tx_raw s.max_proof_bytes s.max_transaction_bytes
        ≡ ok (validated p tx_raw)
      → cache.get now s.receipts (sha.digest tx_raw) ≡ none
      → submit now node p tx_raw s ≡ (
        (relay now node (validated p tx_raw) s).0,
        holding (cache_after now node p tx_raw s) (relay now node (validated p tx_raw) s).1,
      )
      → Relayed now node (validated p tx_raw) s
      → Submitted now node p tx_raw s
  fresh-Submitted now node p tx_raw s v n run (not_stored e h q) =
      not_inserted e (cache_after now node p tx_raw s)
        (failed-HoldsNoMore now node p tx_raw s e (ap (λ x. x.0) q)) (rw q at run)
  fresh-Submitted now node p tx_raw s v n run (no_answer x e h w q) =
      not_accepted x e (cache_after now node p tx_raw s) h w
        (failed-HoldsNoMore now node p tx_raw s e (ap (λ x. x.0) q)) (rw q at run)
  fresh-Submitted now node p tx_raw s v n run (answered x response h b q) =
      elim (accept-cases (validated p tx_raw) response) [
        | inl (e, a, w) ↦
            not_accepted x e (cache_after now node p tx_raw s) h w
              (failed-HoldsNoMore now node p tx_raw s e (ap (λ x. x.0) q ∙ a)) (rw (q, a) at run)
        | inr (a, same, zero) ↦
            accepted x response (cache_after now node p tx_raw s) v n h b same zero
              (made-HoldsAlso now node p tx_raw s (ap (λ x. x.0) q ∙ a)) (rw (q, a) at run)
      ]

  held-HoldsNoMore :
      (now : ℕ) (node : Node) (p : Proof) (tx_raw : List ℕ) (s : SubmissionService)
      (r : SubmissionReceipt)
      → cache.get now s.receipts (sha.digest tx_raw) ≡ some r
      → HoldsNoMore s.receipts (cache_after now node p tx_raw s)
  held-HoldsNoMore now node p tx_raw s r held later key q h =
      elim (cache.get-try now later (sha.digest tx_raw) key (relay now node (validated p tx_raw)) s
        s.receipts q h) [ inl before ↦ before | inr (same, missing, result, lives) ↦ cc ]

  valid-Submitted :
      (now : ℕ) (node : Node) (p : Proof) (tx_raw : List ℕ) (s : SubmissionService)
      (o : Option SubmissionReceipt)
      → validate_submission p tx_raw s.max_proof_bytes s.max_transaction_bytes
        ≡ ok (validated p tx_raw)
      → cache.get now s.receipts (sha.digest tx_raw) ≡ o
      → Submitted now node p tx_raw s
  unfolding submit with_receipt
  valid-Submitted now node p tx_raw s (some r) v h =
      let (result, left) =
        cache.try-held now (sha.digest tx_raw) (relay now node (validated p tx_raw)) s s.receipts r
          h in
      repeated r (cache_after now node p tx_raw s) v h (held-HoldsNoMore now node p tx_raw s r h)
        (ground (arith, v, result, left))
  valid-Submitted now node p tx_raw s none v h =
      fresh-Submitted now node p tx_raw s v h (submit-relay now node p tx_raw s v h) (
        relay-Relayed now node (validated p tx_raw) s (insert_local_proof now p rpc s.store).0
          (broadcast_tx_sync (node tx_raw)) refl refl)

  pub submit-Submitted :
      (now : ℕ) (node : Node) (p : Proof) (tx_raw : List ℕ) (s : SubmissionService)
      → Submitted now node p tx_raw s
  unfolding submit
  submit-Submitted now node p tx_raw s =
      elim (Result-cases (validate_submission p tx_raw s.max_proof_bytes s.max_transaction_bytes)) [
        | inr (e, h) ↦ invalid e (ground (arith, h))
        | inl (v, h) ↦
            valid-Submitted now node p tx_raw s (cache.get now s.receipts (sha.digest tx_raw))
              (h
                ∙ ap ok
                    ((validate_submission_iff p tx_raw s.max_proof_bytes s.max_transaction_bytes
                        v).0
                      h).1)
              refl
      ]
