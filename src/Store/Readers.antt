-- ===== src/Store/Readers.antt =====
-- What a reader of the events of src/store/mod.rs knows of the records that are ready for
-- verification.
use pulsar_verifier.Prelude.{
  ℕ, [], none, some, true, false, inl, inr, refl, ◌∷◌, ◌++◌, ◌≡◌, ◌⊎◌, ◌∙◌, Option, arith, ap, List,
  sym, append-nil, clash_bool, Option-cases, Bool-cases, ==_refl, subst,
}
use pulsar_verifier.Error.{ok, Result, err, Result-cases}
use pulsar_verifier.Identity.{VerificationId, id_eq}
use pulsar_verifier.Proof.{Sha256, Prost}
use pulsar_verifier.Store.Announced.{
  waits, told, IsNeutral, Announced, transition-Announced, refused-Announced, is_ready_at,
  waits-any,
}
use pulsar_verifier.Store.Broadcast.{
  changed-IsNeutral, same-Announced, Announced-trans, observe-Announced, insert-Announced,
  attach-Announced, evict-Announced,
}
use pulsar_verifier.Store.Entries.{
  begin_entry, finish_entry, finish_closure, next_state, retry_entry, store_change,
}
use pulsar_verifier.Store.Event.{ProofStoreEvent, verification_changed}
use pulsar_verifier.Store.History.{
  Call, run, step, observes, inserts, attaches, begins, finishes, retries, evicts,
}
use pulsar_verifier.Store.Limits.{ProofStoreConfig}
use pulsar_verifier.Store.Moka.{Moka, Op, CompResult}
use pulsar_verifier.Store.Operations.{
  begin_verification, finish_verification, retry_verification, ProofStore, claimed, announce_state,
  publish, transition, new,
}
use pulsar_verifier.Store.Record.{
  Arc, ProofRecord, VerificationJob, VerificationOutcome, VerificationState, is_changed,
}
use pulsar_verifier.Store.Transition.{settled, transition-settled}
use pulsar_verifier.Store.Views.{is_ready}

module _ ⦃moka : Moka (Arc ProofRecord)⦄ where
  -- A method that may send one event, of a state that is not queued, after a transition that leaves
  -- no record ready.
  quiet-Announced :
      (s t : ProofStore) (id : VerificationId)
      (f : ℕ → Option (Arc ProofRecord) → Result (Op (Arc ProofRecord))) (e : ProofStoreEvent)
      → IsNeutral e
      → ((b : Arc ProofRecord)
          → f s.next_address (moka.get s.records id) ≡ ok (Op.put b)
          → is_ready b.value ≡ false)
      → (t ≡ (transition id f s).1)
        ⊎ (t ≡ record ((transition id f s).1) { events = (transition id f s).1.events ++ (e ∷ []) })
      → Announced s t
  unfolding waits
  quiet-Announced s t id f e n never (inl same) =
      transition-Announced s t id f []
        (same
          ∙ ap (λ (es : List ProofStoreEvent). record ((transition id f s).1) { events = es })
              (sym (append-nil (transition id f s).1.events)))
        (λ j. refl) (λ b put h. absurd (clash_bool (never b put) h))
  quiet-Announced s t id f e n never (inr same) =
      transition-Announced s t id f (e ∷ []) same (λ j. n j true)
        (λ b put h. absurd (clash_bool (never b put) h))

  verifying-IsNeutral :
      (id : VerificationId) → IsNeutral (verification_changed id VerificationState.verifying)
  unfolding told
  verifying-IsNeutral id j known = refl

  begin_entry-never :
      (address : ℕ) (old : Option (Arc ProofRecord)) (b : Arc ProofRecord)
      → begin_entry address old ≡ ok (Op.put b)
      → is_ready b.value ≡ false
  unfolding begin_entry
  begin_entry-never address none b h = absurd (ground arith)
  begin_entry-never address (some a) b h = ground arith

  -- What a transition leaves, alone or with one event.
  abbrev Sends : ProofStore → ProofStore → ProofStoreEvent → Type 0
  Sends u t e = (t ≡ u) ⊎ (t ≡ record u { events = u.events ++ (e ∷ []) })

  begin-Sends :
      (id : VerificationId) (s : ProofStore) (r : Result (CompResult (Arc ProofRecord)))
      → (transition id begin_entry s).0 ≡ r
      → Sends
          (transition id begin_entry s).1
          (begin_verification id s).1
          (verification_changed id VerificationState.verifying)
  unfolding begin_verification claimed publish
  begin-Sends id s (err x) h = inl (ground (arith, h))
  begin-Sends id s (ok (CompResult.replaced_with a)) h = elim (Option-cases a.value.proof) [
    | inl without_content ↦ inl (ground (arith, h))
    | inr (p, content) ↦ inr (ground (arith, h))
  ]
  begin-Sends id s (ok (CompResult.inserted a)) h = inl (ground (arith, h))
  begin-Sends id s (ok (CompResult.unchanged a)) h = inl (ground (arith, h))
  begin-Sends id s (ok (CompResult.removed a)) h = inl (ground (arith, h))
  begin-Sends id s (ok CompResult.still_none) h = inl (ground (arith, h))

  pub begin-Announced :
      (id : VerificationId) (s : ProofStore) → Announced s (begin_verification id s).1
  unfolding begin_verification claimed publish
  begin-Announced id s =
      quiet-Announced s _ id begin_entry (verification_changed id VerificationState.verifying)
        (verifying-IsNeutral id) (begin_entry-never s.next_address (moka.get s.records id))
        (begin-Sends id s (transition id begin_entry s).0 refl)

  finish_entry-never :
      (now : ℕ) (job : VerificationJob) (outcome : VerificationOutcome) (address : ℕ)
      (old : Option (Arc ProofRecord)) (b : Arc ProofRecord)
      → finish_closure now job outcome address old ≡ ok (Op.put b)
      → is_ready b.value ≡ false
  unfolding finish_entry
  finish_entry-never now job outcome address none b h = absurd (ground arith)
  finish_entry-never now job (VerificationOutcome.completed v) address (some a) b h = ground arith
  finish_entry-never now job (VerificationOutcome.failed f) address (some a) b h = ground arith

  finish-Sends :
      (now : ℕ) (job : VerificationJob) (outcome : VerificationOutcome) (s : ProofStore)
      → Sends
          (transition job.verification_id (finish_closure now job outcome) s).1
          (finish_verification now job outcome s).1
          (verification_changed job.verification_id (next_state outcome))
  unfolding finish_verification announce_state publish
  finish-Sends now job outcome s =
      elim (Result-cases (transition job.verification_id (finish_closure now job outcome) s).0) [
        | inr (x, h) ↦ inl (ground (arith, h))
        | inl (r, h) ↦ elim (Bool-cases (is_changed (store_change r))) [
          | inl change ↦ inr (ground (arith, h))
          | inr no_change ↦ inl (ground (arith, h))
        ]
      ]

  pub finish-Announced :
      (now : ℕ) (job : VerificationJob) (outcome : VerificationOutcome) (s : ProofStore)
      → Announced s (finish_verification now job outcome s).1
  unfolding finish_verification announce_state publish
  finish-Announced now job outcome s =
      quiet-Announced s _ job.verification_id (finish_closure now job outcome)
        (verification_changed job.verification_id (next_state outcome))
        (changed-IsNeutral job.verification_id outcome)
        (finish_entry-never now job outcome s.next_address (moka.get s.records job.verification_id))
        (finish-Sends now job outcome s)

  settled-is_changed :
      (s : ProofStore) (id : VerificationId) (old : Option (Arc ProofRecord)) (b : Arc ProofRecord)
      (r : CompResult (Arc ProofRecord))
      → (settled s id old (ok (Op.put b))).0 ≡ ok r
      → is_changed (store_change r) ≡ true
  settled-is_changed s id none b r h = ground arith
  settled-is_changed s id (some a) b r h = ground arith

  requeued-Announced :
      (id : VerificationId) (s : ProofStore) (r : CompResult (Arc ProofRecord))
      → (transition id (λ a. retry_entry a id) s).0 ≡ ok r
      → Announced s (retry_verification id s).1
  unfolding retry_verification announce_state publish waits told
  requeued-Announced id s r h = elim (Bool-cases (is_changed (store_change r))) [
    | inl change ↦
        transition-Announced s _ id (λ a. retry_entry a id)
          (verification_changed id VerificationState.queued ∷ []) (ground (arith, h))
          (λ j. ground arith) (λ b put ready. ground (arith, ==_refl id))
    | inr no_change ↦
        transition-Announced s _ id (λ a. retry_entry a id) []
          (ground (arith, h, append-nil (transition id (λ a. retry_entry a id) s).1.events))
          (λ j. refl)
          (λ b put ready. absurd (
            clash_bool no_change (
              settled-is_changed s id (moka.get s.records id) b r (
                subst (λ a. (settled s id (moka.get s.records id) a).0 ≡ ok r) put
                  (rw (transition-settled s id (λ a. retry_entry a id)) at h)))))
  ]

  retry-Announced : (id : VerificationId) (s : ProofStore) → Announced s (retry_verification id s).1
  unfolding retry_verification
  retry-Announced id s = elim (Result-cases (transition id (λ a. retry_entry a id) s).0) [
    | inr (x, h) ↦ refused-Announced s _ id (λ a. retry_entry a id) x h (ground (arith, h))
    | inl (r, h) ↦ requeued-Announced id s r h
  ]

  -- A new store holds nothing.
  pub new-not_ready :
      (c : ProofStoreConfig) (s : ProofStore) (id : VerificationId)
      → new c ≡ ok s
      → is_ready_at s id ≡ false
  unfolding new is_ready_at
  new-not_ready c s id h = elim (Option-cases (moka.get s.records id)) [
    | inl gone ↦ rw (is_ready_at, gone) refl
    | inr (a, held) ↦ absurd (ground (arith, moka.get-empty id))
  ]

module _ ⦃sha : Sha256⦄ ⦃prost : Prost⦄ ⦃moka : Moka (Arc ProofRecord)⦄ where
  pub step-Announced : (c : Call) (s : ProofStore) → Announced s (step c s)
  step-Announced (observes now id) s = observe-Announced now id s
  step-Announced (inserts now p source) s = insert-Announced now p source s
  step-Announced (attaches now id p from) s = attach-Announced now id p from s
  step-Announced (begins id) s = begin-Announced id s
  step-Announced (finishes now job outcome) s = finish-Announced now job outcome s
  step-Announced (retries id) s = retry-Announced id s
  step-Announced (evicts id cause) s = evict-Announced id cause s

  pub run-Announced : (cs : List Call) (s : ProofStore) → Announced s (run cs s)
  unfolding run
  run-Announced [] s = same-Announced s
  run-Announced (c ∷ cs) s =
      Announced-trans s (step c s) (run cs (step c s)) (step-Announced c s)
        (run-Announced cs (step c s))

  -- No record that is ready for verification is missed by a reader of the events: after any calls and
  -- evictions the store has sent further events, and a reader who knew at the start whether an identity
  -- was ready, and then notes when it is queued and when it is evicted, knows it of every identity
  -- that is ready at the end.
  pub run-waits :
      (cs : List Call) (s : ProofStore) (id : VerificationId)
      → is_ready_at (run cs s) id ≡ true
      → (sent : List ProofStoreEvent) × ((run cs s).events ≡ s.events ++ sent)
        × (waits id (is_ready_at s id) sent ≡ true)
  run-waits cs s id h =
      let a = run-Announced cs s in
      (
        a.added,
        a.sent,
        elim (a.kept id h) [
          | inl (before, held) ↦ rw before held
          | inr new ↦ waits-any id (is_ready_at s id) a.added new
        ],
      )
