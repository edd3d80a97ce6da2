-- ===== src/Observer.antt =====
-- The observers of tapio-agent/src/observer: raw kernel events, the anomalies in them, and the
-- occurrences that the sinks are sent.
pub mod Occurrence
pub mod Events
pub mod Anomaly
pub mod Network
pub mod Storage
pub mod Container
pub mod NodePmc
pub mod Convert
pub mod Published
pub mod Reported
pub mod Cgroup
pub mod Decode
pub mod Drain
pub mod Drained
pub mod Run
mod Tests
mod CgroupTests
