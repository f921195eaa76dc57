-- ===== src/Lib.antt =====
-- RouteCraft: a model of the graph kernel and of the core that routes requests.
--
-- Graph models plugins/codex-routecraft/scripts/routecraft_graph, the kernel that keeps a plan as a
-- graph of nodes (work, gates, merges) and edges and moves it by transitions:
--   * Graph/Types: constants.py and the records of ir.py. A plan is the record Graph; the dictionary
--     keys of the source are its fields.
--   * Graph/Ir: edge conditions, canonical_ir, make_node and make_graph of ir.py. The value checks
--     of validate_ir_shape stand in Graph/Compiler/Shape, with those of contracts.py it calls.
--   * Graph/Closure, Graph/Scheduler: dependencies, downstream and the edge states of scheduler.py.
--     A child dictionary is a list of pairs; `closure` is the stack loop of downstream.
--   * Graph/Scope, Graph/Ready: _scope_conflict, critical_path_lengths and ready_nodes.
--   * Graph/Skip, Graph/State: state.py. Each transition is a function from a graph to a result; an
--     error is a value of GraphError, and the caller's graph stays as it was, as with deepcopy.
--   * Graph/Policy: the life cycle of policy candidates in policy.py; the pattern for times, which
--     Python's re matches, is a parameter. Graph/Policy/Config: the configuration, the lanes.
--   * Graph/Compiler: compiler.py. Its searches are _reaches here, _cycle in Cycle, and _reachable,
--     _ordered_transitively and _topological_order in Orders; Checks and Globals have the checks of
--     compile_graph, each a function to a list of issues, and Compile puts them together. The
--     modules below Compile are about plans that compiled, the scheduler and the transitions.
--   * Graph/Contracts: validate_schema, validate_value, evidence, intents and operation descriptors of
--     contracts.py, over the JSON values of Core/Words, with the patterns of _timestamp and of
--     is_absolute_or_pathlike (canonical.py) in Patterns; which characters `\d` matches is a
--     parameter. A float is a finite decimal; NaN and the infinities are left out.
--   In Graph/State, sha256 over the canonical JSON is the parameter Hashes, and utc_now the
--   argument `now`.
--
-- Core models plugins/codex-routecraft/scripts/routecraft_core:
--   * Core/Words, Core/Settings: JSON values of a request's config, and the words read from them.
--   * Core/Capabilities: host_capabilities.py. Core/Verification: verification.py, the plan; its
--     child Outcome: what is copied of a host's report.
--   * Core/Routing: contracts.py and routing.py, the plan of a request. Core/Routing/Execution: the
--     retry loop of RouteCraftCore.execute, with the host's answers as a function of the attempt.
--     Core/Routing/Observed: what is recorded of a decision, and the recall of cases.
--
-- Protocols models plugins/codex-routecraft/scripts/routecraft_protocols: in Protocols/Telemetry the
-- routing telemetry envelope of telemetry.py, in Protocols/Events the bounds on an event's metadata
-- of events.py; the searches for secrets and paths are parameters.
--
-- The core decides who may start work and how often the host is called; the kernel decides which
-- nodes of a plan may start, and what a failure undoes. Prelude holds what both use. The Samples
-- modules run the definitions on small inputs and apply the theorems there.
--
-- Loops: the stack loop of downstream has one unit of fuel for each edge and each initial entry,
-- which always suffices (Graph/Closure, closure-walk). The recursion of critical_path_lengths has
-- the count of the nodes and one more; where a path would be longer, the nodes form a cycle and the
-- source raises RecursionError. The rounds of _skip_unselected_branches have the count of the nodes
-- and one more, and each but the last skips at least one node. The recursion of _cycle has the count
-- of the nodes and one more, since the nodes being visited are distinct; that this is enough is part
-- of the proof in Graph/Compiler/Cycle/Exact. The other searches of the compiler have fuel for each
-- push, and _topological_order a round for each node.
--
-- Not modelled: the engine and the SQLite store of the kernel, the rest of events.py, the local
-- runtime, memory, dashboard, benchmark and release scripts: file, database and network code, or
-- the printing of values. Free-text keys of contracts are left out, and so are, for plans, policies,
-- requests and registries, the checks of JSON shapes, which hold by the types of the records. A
-- set's order, which Python leaves open, is fixed. A plan so deep that Python's own recursion limit is met is left out too.
pub mod Prelude
pub mod Graph
pub mod Protocols
pub mod Core
