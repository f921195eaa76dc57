-- ===== src/Graph.antt =====
-- The graph kernel, plugins/codex-routecraft/scripts/routecraft_graph.
pub mod Types
pub mod Ir
pub mod Closure
pub mod Scope
pub mod Scheduler
pub mod Ready
pub mod Skip
pub mod State
pub mod Policy
pub mod Compiler
pub mod Contracts
pub mod Samples
