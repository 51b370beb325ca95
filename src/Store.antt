-- ===== src/Store.antt =====
-- src/store/: the process-local source of truth for proof content and lifecycle state.
-- Record, Event and Expiry are the files of that name; Moka is the third-party cache; Limits,
-- Entries and Operations and Views are mod.rs. The other modules hold what is proved of it.
pub mod Record
pub mod Event
pub mod Expiry
pub mod Moka
pub mod Limits
pub mod Entries
pub mod Operations
pub mod Views
pub mod Announced
pub mod Broadcast
pub mod Readers
pub mod Transition
pub mod Validity
pub mod Invariant
pub mod History
pub mod Fresh
pub mod Atomic
pub mod Claims
pub mod Merge
pub mod Insertion
pub mod Spec
pub mod Weight
pub mod Jobs
