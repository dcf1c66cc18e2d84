-- ===== src/Drafts.antt =====
-- The drafts of a user.
pub mod Repository
pub mod Service
mod Found
mod Saving
mod Tests
