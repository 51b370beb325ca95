-- ===== src/P2p.antt =====
-- src/p2p: what a node knows of the proofs that its peers hold.
pub mod Index
pub mod Providers
pub mod Tidy
pub mod Holdings
pub mod Messages
pub mod Admission
pub mod Validators
