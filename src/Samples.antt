-- ===== src/Samples.antt =====
-- Values at which the theorems are applied, and the theorems applied to them.
pub mod Assoc
pub mod Platform
mod Stores
mod Requests
mod Workers
mod Settings
mod Progress
mod Receipts
mod Submissions
mod Listening
mod Peers
mod Pages
