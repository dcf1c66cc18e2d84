-- ===== src/Outbox.antt =====
-- The outbox of scheduled mail, crates/imail-storage-sqlite/src/outbox.rs, method by method: the
-- definitions are in `Types`, `Calls` and `Sending`, and `Steps` puts the calls together.
pub mod Types
pub mod Calls
pub mod Sending
pub mod Steps
pub mod Rows
pub mod Lifecycle
pub mod Progress
pub mod Uniqueness
pub mod Invariant
pub mod Completion
mod Tests
pub mod Claims
pub mod Scheduling
pub mod Delivery
