-- ===== src/Chain.antt =====
-- src/chain: what the verifier accepts as a description of a proof that the chain has committed.
pub mod Descriptor
pub mod Acceptance
pub mod Client
pub mod Texts
pub mod Pagination
pub mod Pages
pub mod Validators
