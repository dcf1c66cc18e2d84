-- ===== src/Sync.antt =====
-- The queue and the state of mailbox synchronization.
pub mod Types
pub mod Queue
pub mod Leases
pub mod Finish
pub mod Policies
pub mod Steps
mod Returns
mod Unique
mod Invariant
mod Calls
mod Over
mod Ended
mod Finished
mod Requests
mod Claims
mod Configured
mod Tests
pub mod Reads
mod Health
mod Targets
