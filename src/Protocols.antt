-- ===== src/Protocols.antt =====
-- The envelopes that programs exchange, plugins/codex-routecraft/scripts/routecraft_protocols.
pub mod Telemetry
pub mod Events
pub mod Samples
