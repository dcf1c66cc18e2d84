-- ===== src/Auth.antt =====
-- Users, sessions and rate limits: who may sign in, and how often it may be tried.
pub mod Types
pub mod Limits
pub mod Users
pub mod Service
pub mod Counted
pub mod Bounded
pub mod Ends
pub mod Logins
pub mod Sessions
pub mod Added
pub mod Registration
pub mod Tests
