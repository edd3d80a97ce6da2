-- ===== src/Agent.antt =====
-- The crate tapio-agent: how its controller sink sends events.
pub mod Split
pub mod Fits
pub mod Sink
pub mod Sent
pub mod Posted
pub mod Flush
pub mod Config
pub mod Applied
pub mod Heartbeat
pub mod Carriers
pub mod Carried
pub mod Poll
pub mod Polled
pub mod Register
pub mod Registered
mod Runs
mod SinkTests
pub mod Buffered
pub mod HttpSink
pub mod OtlpSink
pub mod Overflow
pub mod Queue
pub mod Turns
pub mod Queued
pub mod Delivered
pub mod RunDown
pub mod Args
pub mod ArgsRead
pub mod ArgsForms
pub mod Httpc
pub mod HttpRead
pub mod HttpServed
pub mod HttpParsed
pub mod Toml
pub mod OtlpRecords
pub mod Endpoint
pub mod Sinks
pub mod FannedOut
pub mod Metrics
pub mod Exposed
pub mod Together
pub mod Tests
mod QueueTests
mod ArgsTests
mod HttpTests
pub mod Scenarios
