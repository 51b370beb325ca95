-- ===== src/Store/Broadcast.antt =====
-- The events of src/store/mod.rs, method by method and over the history of a store.
use pulsar_verifier.Prelude.{
  ℕ, [], true, false, inl, inr, refl, ◌++◌, ◌∙◌, sym, ap, append-nil, append_assoc, subst, arith,
  some, ◌∷◌, ◌≡◌, ◌==◌, Option-cases, List, ==_cases,
}
use pulsar_verifier.Error.{Result-cases}
use pulsar_verifier.Identity.{VerificationId, PeerId, id_eq}
use pulsar_verifier.Proof.{Sha256, Prost, Proof, verification_id}
use pulsar_verifier.Store.Announced.{
  told, waits, Announced, IsNeutral, waits-append, refused-Announced, announce-Announced,
  is_ready_at, waits-any,
}
use pulsar_verifier.Store.Entries.{
  validate_proof, observe_entry, next_state, insert_entry, attach_entry,
}
use pulsar_verifier.Store.Event.{
  verification_observed, proof_stored, verification_changed, ProofEvictionCause, ProofStoreEvent,
  proof_evicted,
}
use pulsar_verifier.Store.Moka.{Moka, RemovalCause}
use pulsar_verifier.Store.Operations.{
  observe_chain_verification, evict, ProofStore, insert_local_proof, attach_downloaded_proof,
  transition,
}
use pulsar_verifier.Store.Record.{Arc, ProofRecord, ProofSource, VerificationOutcome, peer}
use pulsar_verifier.Store.Transition.{dropped}

module _ ⦃moka : Moka (Arc ProofRecord)⦄ where
  observed-IsNeutral : (id : VerificationId) → IsNeutral (verification_observed id)
  unfolding told
  observed-IsNeutral id j known = refl

  stored-IsNeutral :
      (id : VerificationId) (source : ProofSource) → IsNeutral (proof_stored id source)
  unfolding told
  stored-IsNeutral id source j known = refl

  pub observe-Announced :
      (now : ℕ) (id : VerificationId) (s : ProofStore)
      → Announced s (observe_chain_verification now id s).1
  unfolding observe_chain_verification
  observe-Announced now id s = elim (Result-cases (transition id (λ a. observe_entry a now) s).0) [
    | inr (x, h) ↦ refused-Announced s _ id (λ a. observe_entry a now) x h (ground (arith, h))
    | inl (r, h) ↦
        announce-Announced s _ id (λ a. observe_entry a now) (verification_observed id) r
          (observed-IsNeutral id) h (ground (arith, h))
  ]

  pub changed-IsNeutral :
      (id : VerificationId) (outcome : VerificationOutcome)
      → IsNeutral (verification_changed id (next_state outcome))
  unfolding told
  changed-IsNeutral id (VerificationOutcome.completed v) j known = refl
  changed-IsNeutral id (VerificationOutcome.failed f) j known = refl

  -- A store that has not changed.
  pub same-Announced : (s : ProofStore) → Announced s s
  unfolding waits
  same-Announced s = record {
    added = [];
    sent = sym (append-nil s.events);
    kept = λ id h. inl (h, refl);
  }

  dropped-Announced :
      (s : ProofStore) (id : VerificationId) (added : List ProofStoreEvent)
      → ((j : VerificationId) → (id == j) ≡ false → waits j true added ≡ true)
      → Announced s (record (dropped s id) { events = s.events ++ added })
  unfolding is_ready_at
  dropped-Announced s id added harmless = record {
    added = added;
    sent = refl;
    kept = λ j h. elim (==_cases id j) [
      | inl (same, t) ↦ absurd (ground (arith, moka.get-invalidate s.records id j))
      | inr (other, t) ↦ inl (ground (arith, moka.get-invalidate s.records id j), harmless j t)
    ];
  }

  evicted-Announced :
      (s : ProofStore) (id : VerificationId) (cause : ProofEvictionCause)
      → Announced s (record (dropped s id) { events = s.events ++ (proof_evicted id cause ∷ []) })
  unfolding waits told
  evicted-Announced s id cause =
      dropped-Announced s id (proof_evicted id cause ∷ []) (λ j h. rw h refl)

  evicting-Announced :
      (id : VerificationId) (cause : RemovalCause) (s : ProofStore) (a : Arc ProofRecord)
      → moka.get s.records id ≡ some a
      → Announced s (evict id cause s).1
  unfolding evict waits
  evicting-Announced id RemovalCause.expired s a h =
      rw (evict, h) (evicted-Announced s id ProofEvictionCause.expired)
  evicting-Announced id RemovalCause.explicit s a h =
      rw (evict, h) (evicted-Announced s id ProofEvictionCause.explicit)
  evicting-Announced id RemovalCause.size s a h =
      rw (evict, h) (evicted-Announced s id ProofEvictionCause.size)
  evicting-Announced id RemovalCause.replaced s a h =
      rw (evict, h)
        (subst (λ (es : List ProofStoreEvent). Announced s (record (dropped s id) { events = es }))
          (append-nil s.events) (dropped-Announced s id [] (λ j t. refl)))

  pub evict-Announced :
      (id : VerificationId) (cause : RemovalCause) (s : ProofStore)
      → Announced s (evict id cause s).1
  unfolding evict
  evict-Announced id cause s = elim (Option-cases (moka.get s.records id)) [
    | inl gone ↦ rw (evict, gone) (same-Announced s)
    | inr (a, held) ↦ evicting-Announced id cause s a held
  ]

  pub Announced-trans : (s t u : ProofStore) → Announced s t → Announced t u → Announced s u
  Announced-trans s t u a b = record {
    added = a.added ++ b.added;
    sent = b.sent ∙ ap (λ es. es ++ b.added) a.sent ∙ append_assoc s.events a.added b.added;
    kept = λ id h. elim (b.kept id h) [
      | inr new ↦ inr (
          rw (waits-append id false a.added b.added)
            (waits-any id (waits id false a.added) b.added new))
      | inl (old, held) ↦ elim (a.kept id old) [
        | inl (older, known) ↦ inl (older, rw (waits-append id true a.added b.added, known) held)
        | inr announced ↦ inr (rw (waits-append id false a.added b.added, announced) held)
      ]
    ];
  }

module _ ⦃sha : Sha256⦄ ⦃prost : Prost⦄ ⦃moka : Moka (Arc ProofRecord)⦄ where
  pub insert-Announced :
      (now : ℕ) (p : Proof) (source : ProofSource) (s : ProofStore)
      → Announced s (insert_local_proof now p source s).1
  unfolding insert_local_proof
  insert-Announced now p source s =
      elim (Result-cases (validate_proof s.max_proof_bytes (verification_id p) p)) [
        | inr (e, refused) ↦ subst (Announced s) (ground arith) (same-Announced s)
        | inl (_, accepted) ↦
            elim (Result-cases
              (transition (verification_id p) (λ a. insert_entry a p source now) s).0) [
                | inr (x, h) ↦
                    refused-Announced s _ (verification_id p) (λ a. insert_entry a p source now) x h
                      (ground (arith, h, accepted))
                | inl (r, h) ↦
                    announce-Announced s _ (verification_id p) (λ a. insert_entry a p source now)
                      (proof_stored (verification_id p) source) r
                      (stored-IsNeutral (verification_id p) source) h (ground (arith, h, accepted))
              ]
      ]

  pub attach-Announced :
      (now : ℕ) (id : VerificationId) (p : Proof) (from : PeerId) (s : ProofStore)
      → Announced s (attach_downloaded_proof now id p from s).1
  unfolding attach_downloaded_proof
  attach-Announced now id p from s = elim (Result-cases (validate_proof s.max_proof_bytes id p)) [
    | inr (e, refused) ↦ subst (Announced s) (ground arith) (same-Announced s)
    | inl (_, accepted) ↦
        elim (Result-cases (transition id (λ a. attach_entry a id p (peer from) now) s).0) [
          | inr (x, h) ↦
              refused-Announced s _ id (λ a. attach_entry a id p (peer from) now) x h
                (ground (arith, h, accepted))
          | inl (r, h) ↦
              announce-Announced s _ id (λ a. attach_entry a id p (peer from) now)
                (proof_stored id (peer from)) r (stored-IsNeutral id (peer from)) h
                (ground (arith, h, accepted))
        ]
  ]
