-- ===== src/Verification.antt =====
-- src/verification: the registry of backends, the execution of jobs and the worker that runs them.
pub mod Texts
pub mod Attempts
pub mod Retries
pub mod Registry
pub mod Worker
pub mod Queue
pub mod Capacity
pub mod Completion
pub mod Turns
pub mod Tracking
pub mod Starting
pub mod Following
pub mod Handling
pub mod Progress
