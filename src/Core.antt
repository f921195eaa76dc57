-- ===== src/Core.antt =====
-- RouteCraft Core, plugins/codex-routecraft/scripts/routecraft_core.
pub mod Words
pub mod Settings
pub mod Capabilities
pub mod Verification
pub mod Routing
pub mod Samples
