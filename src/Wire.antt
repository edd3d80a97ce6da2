-- ===== src/Wire.antt =====
-- The crate tapio-wire: the messages between an agent and the controller, and their validation.
pub mod Types
pub mod Facts
pub mod Validate
pub mod Accepted
pub mod Tests
