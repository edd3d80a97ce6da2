-- ===== src/Cli.antt =====
-- The command line, tapio-cli/src/main.rs: how it judges the health of a node.
pub mod Health
pub mod Totals
pub mod Recent
pub mod Shown
pub mod JsonRpc
pub mod Watch
pub mod Mcp
pub mod Answers
mod Tests
mod McpTests
