-- ===== src/RuleRuns.antt =====
-- The work of the mail rules: which actions wait, which one a worker does, and how it ends.
pub mod Types
pub mod Matches
pub mod Saving
pub mod Actions
pub mod Finish
pub mod Spent
pub mod Inputs
pub mod Previews
pub mod Reads
pub mod Applied
pub mod Steps
pub mod Logged
pub mod Claimed
pub mod Kept
pub mod Spending
pub mod Once
pub mod Picked
mod Chosen
mod Claims
pub mod Effects
pub mod Wakes
pub mod Tests
