-- ===== src/Time.antt =====
-- Timestamps: how tapio-common/src/occurrence.rs writes them and how
-- tapio-agent/src/sink/controller.rs reads them back.
pub mod Civil
pub mod Days
pub mod Stamp
pub mod RoundTrip
mod Tests
