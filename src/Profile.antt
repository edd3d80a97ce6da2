-- ===== src/Profile.antt =====
-- The crate tapio-profile: an operator's profile is validated against a builtin base and compiled.
pub mod Floats
pub mod Types
pub mod Names
pub mod Validate
pub mod Compile
pub mod Codes
pub mod Ranges
pub mod Compiled
pub mod Overrides
pub mod Tests
