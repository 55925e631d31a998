-- ===== src/Telemetry.antt =====
-- src/hermes_auto/telemetry/redaction.py: the log sink, and what it lets through.
pub mod Events
pub mod Salt
pub mod Redaction
pub mod Sink
pub mod Clean
pub mod Alike
pub mod Trusted
