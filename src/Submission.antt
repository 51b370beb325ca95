-- ===== src/Submission.antt =====
-- src/submission.rs and what src/rpc/submission.rs makes of it: the validation of a submission, the
-- relay of its transaction and the answers to clients.
pub mod Message
pub mod Service
pub mod Binding
pub mod Acceptance
pub mod Relay
pub mod Submit
pub mod Guarantees
pub mod Holding
