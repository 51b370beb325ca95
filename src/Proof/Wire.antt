-- ===== src/Proof/Wire.antt =====
-- The wire forms of src/proof.rs: enum numbers, identities and whole proofs.
use pulsar_verifier.Prelude.{◌≡◌, ◌↔◌, arith}
use pulsar_verifier.Error.{ok}
use pulsar_verifier.Proof.{Proof, WireProof, type_of_wire, to_wire, of_wire}

-- A proof sent in its wire form is read back unchanged, and every wire form that is accepted is
-- the one that the accepted proof is sent in.
pub of_wire-to_wire : (p : Proof) (w : WireProof) → (of_wire w ≡ ok p) ↔ (w ≡ to_wire p)
unfolding of_wire to_wire type_of_wire
of_wire-to_wire p w = (λ h. ground arith, λ h. ground arith)
