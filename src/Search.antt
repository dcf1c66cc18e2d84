-- ===== src/Search.antt =====
-- Saved searches.
pub mod Filters
mod Conditions
mod Valid
mod Tests
