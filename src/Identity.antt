-- ===== src/Identity.antt =====
-- The identities that every part shares: `VerificationId` and `ProofType` of src/proof.rs, and
-- libp2p's `PeerId`, kept as its encoded bytes (`to_bytes`).
use pulsar_verifier.Prelude.{ℕ, ◌≡◌, ◌↔◌, Bool, true, false, List, ap, arith, Eq, bytes_eq, ◌==◌}

pub record VerificationId : Type 0 where
  pub bytes : List ℕ

abbrev pub verification_id_len : ℕ
verification_id_len = 32

pub record PeerId : Type 0 where
  pub bytes : List ℕ

pub data ProofType : Type 0 where
  mina_pickles noir_barretenberg : ProofType

abbrev id_beq : VerificationId → VerificationId → Bool
id_beq a b = a.bytes == b.bytes

pub id_beq_iff : (a b : VerificationId) → (id_beq a b ≡ true) ↔ (a ≡ b)
id_beq_iff a b = (
  λ h. let p = (bytes_eq.beq_iff a.bytes b.bytes).0 h in λ i. record { bytes = p i },
  λ p. (bytes_eq.beq_iff a.bytes b.bytes).1 (ap (λ (x : VerificationId). x.bytes) p),
)

instance abbrev pub id_eq : Eq VerificationId
id_eq = record { beq = id_beq; beq_iff = id_beq_iff }

abbrev peer_beq : PeerId → PeerId → Bool
peer_beq a b = a.bytes == b.bytes

pub peer_beq_iff : (a b : PeerId) → (peer_beq a b ≡ true) ↔ (a ≡ b)
peer_beq_iff a b = (
  λ h. let p = (bytes_eq.beq_iff a.bytes b.bytes).0 h in λ i. record { bytes = p i },
  λ p. (bytes_eq.beq_iff a.bytes b.bytes).1 (ap (λ (x : PeerId). x.bytes) p),
)

instance abbrev pub peer_eq : Eq PeerId
peer_eq = record { beq = peer_beq; beq_iff = peer_beq_iff }

abbrev type_beq : ProofType → ProofType → Bool
type_beq mina_pickles mina_pickles = true
type_beq noir_barretenberg noir_barretenberg = true
type_beq a b = false

pub type_beq_iff : (a b : ProofType) → (type_beq a b ≡ true) ↔ (a ≡ b)
type_beq_iff a b = (λ h. ground arith, λ h. ground arith)

instance abbrev pub type_eq : Eq ProofType
type_eq = record { beq = type_beq; beq_iff = type_beq_iff }
