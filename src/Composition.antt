-- ===== src/Composition.antt =====
-- What a user composes with: signatures, templates, envelopes and message identifiers.
pub mod Identifiers
pub mod Preferences
mod Canonical
mod Uniqueness
mod Tests
