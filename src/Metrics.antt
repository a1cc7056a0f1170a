-- ===== src/Metrics.antt =====
-- Telemetry samples on their way to metrics.db, and what is asked of it.
pub mod Buffer
pub mod History
pub mod Collector
pub mod Flushed
pub mod Kept
