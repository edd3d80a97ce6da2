-- ===== src/Controller.antt =====
-- The crate tapio-controller: what it remembers of its agents, and its HTTP interface.
pub mod Clock
pub mod Sequence
pub mod State
pub mod Queries
pub mod Http
pub mod Publish
pub mod Startup
pub mod Etag
pub mod History
pub mod Limits
pub mod Convergence
pub mod Tests
