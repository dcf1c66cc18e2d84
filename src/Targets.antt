-- ===== src/Targets.antt =====
-- Which mailboxes of an account are synced, and when after a failure.
pub mod Roles
pub mod Policy
mod Distinct
mod Retries
mod Tests
