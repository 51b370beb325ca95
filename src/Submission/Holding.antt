-- ===== src/Submission/Holding.antt =====
-- The receipts that the service of src/submission.rs holds after any submissions. Between two of them
-- other tasks use the store, and it drops records.
use pulsar_verifier.Prelude.{ℕ, [], ◌∷◌, ◌≡◌, ◌+◌, ◌<◌, ◌⊎◌, some, inl, inr, ◌∙◌, List, arith}
use pulsar_verifier.Chain.Client.{BroadcastReceipt, broadcast_tx_sync}
use pulsar_verifier.Error.{ok, Result-cases}
use pulsar_verifier.Proof.{Proof, Sha256, Prost}
use pulsar_verifier.Store.History.{Call, run}
use pulsar_verifier.Store.Moka.{Moka}
use pulsar_verifier.Store.Operations.{ProofStore}
use pulsar_verifier.Store.Record.{Arc, ProofRecord}
use pulsar_verifier.Submission.Guarantees.{not_held}
use pulsar_verifier.Submission.Message.{Decoders, validate_submission}
use pulsar_verifier.Submission.Service.{
  new, Node, Receipts, SubmissionService, SubmissionReceipt, submit, with_receipt,
  receipt_cache_ttl, receipt_cache_capacity, relay,
}
use pulsar_verifier.Submission.Submit.{
  repeated, not_inserted, not_accepted, accepted, invalid, receipt_of, submit-Submitted,
}

module _ ⦃moka : Moka (Arc ProofRecord)⦄ ⦃cache : Receipts⦄ ⦃sha : Sha256⦄ ⦃prost : Prost⦄
    ⦃decoders : Decoders⦄ where
  -- One call of `submit`, with what other tasks do to the store before it.
  pub record Request : Type 0 where
    pub others : List Call
    pub now : ℕ
    pub node : Node
    pub proof : Proof
    pub tx_raw : List ℕ

  abbrev used_by : List Call → SubmissionService → SubmissionService
  used_by calls s = record s { store = run calls s.store }

  unfoldable pub submit_all : List Request → SubmissionService → SubmissionService
  submit_all [] s = s
  submit_all (x ∷ xs) s =
      submit_all xs (submit x.now x.node x.proof x.tx_raw (used_by x.others s)).1

  -- A receipt that is held at an instant for a key comes from this request, and the node has accepted
  -- its transaction less than the time to live ago.
  pub record IsReceiptOf (x : Request) (later : ℕ) (key : List ℕ) (r : SubmissionReceipt)
      : Type 0 where
    pub hash : sha.digest x.tx_raw ≡ key
    pub made : receipt_of x.proof x.tx_raw ≡ r
    pub response : BroadcastReceipt
    pub answer : broadcast_tx_sync (x.node x.tx_raw) ≡ ok response
    pub same_hash : response.transaction_hash ≡ key
    pub zero_code : response.code ≡ 0
    pub recent : later < x.now + receipt_cache_ttl

  unfoldable pub Any : (Request → Type 0) → List Request → Type 0
  Any P [] = ⊥
  Any P (x ∷ xs) = P x ⊎ Any P xs

  time_to_live-submit :
      (now : ℕ) (node : Node) (p : Proof) (tx_raw : List ℕ) (s : SubmissionService)
      → cache.time_to_live (submit now node p tx_raw s).1.receipts ≡ cache.time_to_live s.receipts
  unfolding submit with_receipt
  time_to_live-submit now node p tx_raw s =
      elim (Result-cases (validate_submission p tx_raw s.max_proof_bytes s.max_transaction_bytes)) [
        | inr (e, h) ↦ ground (arith, h)
        | inl (v, h) ↦ ground (
          arith,
          h,
          cache.time_to_live-try now v.transaction_hash (relay now node v) s s.receipts,
        )
      ]

  -- A call of `submit` gives the cache nothing but its own receipt.
  held-submit :
      (x : Request) (s : SubmissionService) (later : ℕ) (key : List ℕ) (r : SubmissionReceipt)
      → cache.time_to_live s.receipts ≡ receipt_cache_ttl
      → cache.get later (submit x.now x.node x.proof x.tx_raw s).1.receipts key ≡ some r
      → (cache.get later s.receipts key ≡ some r) ⊎ IsReceiptOf x later key r
  held-submit x s later key r ttl held = elim (submit-Submitted x.now x.node x.proof x.tx_raw s) [
    | invalid e q ↦ inl (rw q at held)
    | repeated y m v h k q ↦ inl (k later key r (rw q at held))
    | not_inserted e m k q ↦ inl (k later key r (rw q at held))
    | not_accepted y e m h w k q ↦ inl (k later key r (rw q at held))
    | accepted y response m v n h b same zero k q ↦ elim (k later key r (rw q at held)) [
      | inl before ↦ inl before
      | inr (hash, made, lives) ↦ inr (record {
        hash = hash;
        made = made;
        response = response;
        answer = b;
        same_hash = same ∙ hash;
        zero_code = zero;
        recent = rw ttl at lives;
      })
    ]
  ]

  held-submit_all :
      (xs : List Request) (s : SubmissionService) (later : ℕ) (key : List ℕ) (r : SubmissionReceipt)
      → cache.time_to_live s.receipts ≡ receipt_cache_ttl
      → cache.get later (submit_all xs s).receipts key ≡ some r
      → (cache.get later s.receipts key ≡ some r) ⊎ Any (λ x. IsReceiptOf x later key r) xs
  unfolding submit_all Any
  held-submit_all [] s later key r ttl held = inl held
  held-submit_all (x ∷ xs) s later key r ttl held =
      let u = used_by x.others s in
      let t = (submit x.now x.node x.proof x.tx_raw u).1 in
      elim (held-submit_all xs t later key r
        (time_to_live-submit x.now x.node x.proof x.tx_raw u ∙ ttl) held) [
          | inr after ↦ inr (inr after)
          | inl now_held ↦ elim (held-submit x u later key r ttl now_held) [
            | inl before ↦ inl before
            | inr given ↦ inr (inl given)
          ]
        ]

  -- After any submissions to a new service, at any instants and with any calls of other tasks and
  -- evictions in the store between them: a receipt that is held is the receipt of one of these
  -- submissions, and the node has accepted its transaction no longer ago than the receipts' time to
  -- live.
  pub held-IsReceiptOf :
      (xs : List Request) (store : ProofStore) (max_proof_bytes max_transaction_bytes : ℕ)
      (later : ℕ) (key : List ℕ) (r : SubmissionReceipt)
      → cache.get later
          (submit_all xs (new store max_proof_bytes max_transaction_bytes)).receipts
          key
        ≡ some r
      → Any (λ x. IsReceiptOf x later key r) xs
  unfolding new
  held-IsReceiptOf xs store max_proof_bytes max_transaction_bytes later key r held =
      elim (held-submit_all xs (new store max_proof_bytes max_transaction_bytes) later key r
        (cache.time_to_live-build receipt_cache_capacity receipt_cache_ttl) held) [
          | inr given ↦ given
          | inl at_first ↦ absurd (
              not_held (cache.get-build receipt_cache_capacity receipt_cache_ttl later key)
                at_first)
        ]
