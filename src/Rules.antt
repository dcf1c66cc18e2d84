-- ===== src/Rules.antt =====
-- Mail rules: which of them act on a message.
pub mod Types
pub mod Validation
pub mod Matching
mod Selection
mod Soundness
mod Tests
