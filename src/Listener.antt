-- ===== src/Listener.antt =====
-- src/listener.rs: the listener that observes committed blocks.
pub mod Numbers
pub mod Events
pub mod Blocks
pub mod Window
pub mod Observed
pub mod Process
pub mod Guarantees
pub mod Session
pub mod Positions
pub mod Sessions
