-- ===== src/Store/Invariant.antt =====
-- The invariant of the records, for each method of src/store/mod.rs.
use pulsar_verifier.Prelude.{
  none, some, inl, inr, refl, ◌≡◌, Option, ℕ, arith, ==_cases, subst, Option-cases,
}
use pulsar_verifier.Error.{ok, err, Result, Result-cases}
use pulsar_verifier.Identity.{VerificationId, id_eq, PeerId}
use pulsar_verifier.Proof.{Sha256, Prost, Proof, verification_id}
use pulsar_verifier.Store.Entries.{
  observe_entry, insert_entry, begin_entry, retry_entry, attach_entry, validate_proof,
  finish_closure,
}
use pulsar_verifier.Store.Moka.{Moka, Op, RemovalCause}
use pulsar_verifier.Store.Operations.{
  ProofStore, transition, observe_chain_verification, insert_local_proof, attach_downloaded_proof,
  begin_verification, finish_verification, retry_verification, evict,
}
use pulsar_verifier.Store.Record.{
  Arc, ProofRecord, ProofSource, VerificationJob, VerificationOutcome, peer,
}
use pulsar_verifier.Store.Transition.{written, settled, transition-settled, dropped}
use pulsar_verifier.Store.Validity.{
  IsValid, IsValidEntry, IsValidOp, observe_entry-IsValid, IsAccepted, insert_entry-IsValid,
  begin_entry-IsValid, IsBoundedOutcome, retry_entry-IsValid, finish_entry-IsValid,
  attach_entry-IsValid,
}

module _ ⦃sha : Sha256⦄ ⦃prost : Prost⦄ ⦃moka : Moka (Arc ProofRecord)⦄ where
  -- Every record of the store is valid under its identity.
  abbrev pub Inv : ProofStore → Type 0
  Inv s =
      (id : VerificationId) (a : Arc ProofRecord)
      → moka.get s.records id ≡ some a
      → IsValid s.max_proof_bytes id a.value

  Inv-entry :
      (s : ProofStore) (id : VerificationId)
      → Inv s
      → (old : Option (Arc ProofRecord)) → moka.get s.records id ≡ old
      → IsValidEntry s.max_proof_bytes id old
  Inv-entry s id v none e = tt
  Inv-entry s id v (some a) e = v id a e

  written-Inv :
      (s : ProofStore) (id : VerificationId) (b : Arc ProofRecord)
      → Inv s
      → IsValid s.max_proof_bytes id b.value
      → Inv (written s id b)
  written-Inv s id b v h j a e = elim (==_cases id j) [
    | inl (same, t) ↦
        subst (λ i. IsValid s.max_proof_bytes i a.value) same
          (ground (arith, moka.get-insert s.records id j b))
    | inr (other, t) ↦ v j a (ground (arith, moka.get-insert s.records id j b))
  ]

  pub dropped-Inv : (s : ProofStore) (id : VerificationId) → Inv s → Inv (dropped s id)
  dropped-Inv s id v j a e = v j a (ground (arith, moka.get-invalidate s.records id j))

  settled-Inv :
      (s : ProofStore) (id : VerificationId) (old : Option (Arc ProofRecord))
      (answer : Result (Op (Arc ProofRecord)))
      → Inv s
      → IsValidOp s.max_proof_bytes id answer
      → Inv (settled s id old answer).1
  settled-Inv s id old (err e) v h = v
  settled-Inv s id none (ok Op.nop) v h = v
  settled-Inv s id (some a) (ok Op.nop) v h = v
  settled-Inv s id none (ok (Op.put b)) v h = written-Inv s id b v h
  settled-Inv s id (some a) (ok (Op.put b)) v h = written-Inv s id b v h
  settled-Inv s id none (ok Op.remove) v h = v
  settled-Inv s id (some a) (ok Op.remove) v h = dropped-Inv s id v

  pub transition-Inv :
      (s : ProofStore) (id : VerificationId)
      (f : ℕ → Option (Arc ProofRecord) → Result (Op (Arc ProofRecord)))
      → ((old : Option (Arc ProofRecord))
          → IsValidEntry s.max_proof_bytes id old
          → IsValidOp s.max_proof_bytes id (f s.next_address old))
      → Inv s
      → Inv (transition id f s).1
  transition-Inv s id f keep v =
      rw (transition-settled s id f)
        (settled-Inv s id _ _ v (keep _ (Inv-entry s id v (moka.get s.records id) refl)))

  -- The invariant looks at the records and at the size limit only.
  pub Inv-of_same :
      (s t : ProofStore)
      → t.records ≡ s.records
      → t.max_proof_bytes ≡ s.max_proof_bytes
      → Inv s
      → Inv t
  Inv-of_same s t p q v j a e = rw q (v j a (rw p at e))

  pub observe-Inv :
      (now : ℕ) (id : VerificationId) (s : ProofStore)
      → Inv s
      → Inv (observe_chain_verification now id s).1
  unfolding observe_chain_verification
  observe-Inv now id s v =
      Inv-of_same (transition id (λ a. observe_entry a now) s).1
        (observe_chain_verification now id s).1 (ground arith) (ground arith)
        (transition-Inv s id (λ a. observe_entry a now)
          (observe_entry-IsValid s.max_proof_bytes id s.next_address now) v)

  validate_proof-IsAccepted :
      (maximum : ℕ) (id : VerificationId) (p : Proof)
      → validate_proof maximum id p ≡ ok tt
      → IsAccepted maximum id (some p)
  unfolding validate_proof
  validate_proof-IsAccepted maximum id p h =
      (ground arith, (id_eq.beq_iff (verification_id p) id).0 (ground arith))

  pub insert-Inv :
      (now : ℕ) (p : Proof) (source : ProofSource) (s : ProofStore)
      → Inv s
      → Inv (insert_local_proof now p source s).1
  unfolding insert_local_proof
  insert-Inv now p source s v =
      elim (Result-cases (validate_proof s.max_proof_bytes (verification_id p) p)) [
        | inr (e, refused) ↦
            Inv-of_same s (insert_local_proof now p source s).1 (ground arith) (ground arith) v
        | inl (_, accepted) ↦
            Inv-of_same (transition (verification_id p) (λ a. insert_entry a p source now) s).1
              (insert_local_proof now p source s).1 (ground arith) (ground arith)
              (transition-Inv s (verification_id p) (λ a. insert_entry a p source now)
                (λ old.
                  insert_entry-IsValid s.max_proof_bytes (verification_id p) s.next_address p source
                    now old
                    (validate_proof-IsAccepted s.max_proof_bytes (verification_id p) p accepted))
                v)
      ]

  pub attach-Inv :
      (now : ℕ) (id : VerificationId) (p : Proof) (from : PeerId) (s : ProofStore)
      → Inv s
      → Inv (attach_downloaded_proof now id p from s).1
  unfolding attach_downloaded_proof
  attach-Inv now id p from s v = elim (Result-cases (validate_proof s.max_proof_bytes id p)) [
    | inr (e, refused) ↦
        Inv-of_same s (attach_downloaded_proof now id p from s).1 (ground arith) (ground arith) v
    | inl (_, accepted) ↦
        Inv-of_same (transition id (λ a. attach_entry a id p (peer from) now) s).1
          (attach_downloaded_proof now id p from s).1 (ground arith) (ground arith)
          (transition-Inv s id (λ a. attach_entry a id p (peer from) now)
            (λ old.
              attach_entry-IsValid s.max_proof_bytes id s.next_address p (peer from) now old
                (validate_proof-IsAccepted s.max_proof_bytes id p accepted))
            v)
  ]

  pub begin-Inv : (id : VerificationId) (s : ProofStore) → Inv s → Inv (begin_verification id s).1
  unfolding begin_verification
  begin-Inv id s v =
      Inv-of_same (transition id begin_entry s).1 (begin_verification id s).1 (ground arith)
        (ground arith)
        (transition-Inv s id begin_entry (begin_entry-IsValid s.max_proof_bytes id s.next_address)
          v)

  pub finish-Inv :
      (now : ℕ) (job : VerificationJob) (outcome : VerificationOutcome) (s : ProofStore)
      → IsBoundedOutcome outcome
      → Inv s
      → Inv (finish_verification now job outcome s).1
  unfolding finish_verification
  finish-Inv now job outcome s h v =
      Inv-of_same (transition job.verification_id (finish_closure now job outcome) s).1
        (finish_verification now job outcome s).1 (ground arith) (ground arith)
        (transition-Inv s job.verification_id (finish_closure now job outcome)
          (λ old.
            finish_entry-IsValid s.max_proof_bytes job.verification_id s.next_address job.claim now
              outcome old h)
          v)

  pub retry-Inv : (id : VerificationId) (s : ProofStore) → Inv s → Inv (retry_verification id s).1
  unfolding retry_verification
  retry-Inv id s v =
      Inv-of_same (transition id (λ a. retry_entry a id) s).1 (retry_verification id s).1
        (ground arith) (ground arith)
        (transition-Inv s id (λ a. retry_entry a id)
          (retry_entry-IsValid s.max_proof_bytes id s.next_address) v)

  pub evict-Inv :
      (id : VerificationId) (cause : RemovalCause) (s : ProofStore)
      → Inv s
      → Inv (evict id cause s).1
  unfolding evict
  evict-Inv id cause s v = elim (Option-cases (moka.get s.records id)) [
    | inl gone ↦ Inv-of_same s (evict id cause s).1 (ground arith) (ground arith) v
    | inr (a, held) ↦
        Inv-of_same (dropped s id) (evict id cause s).1 (ground arith) (ground arith)
          (dropped-Inv s id v)
  ]
