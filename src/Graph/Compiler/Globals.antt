-- ===== src/Graph/Compiler/Globals.antt =====
-- `compile_graph` of routecraft_graph/compiler.py: the checks of the whole graph, of the lanes, of
-- nodes that may run side by side, of external operations and of the configuration.
use Prim.Native.String.{◌++◌ as ◌<>◌}
use text.Mathlib.Text.{starts_with}
use codex_routecraft.Prelude.{
  ℕ, zero, suc, Bool, true, false, not, ◌&&◌, ◌||◌, String, Option, none, some, List, [], ◌∷◌, ◌++◌,
  map, keep, all, any, contains, distinct, length, ltb, ◌==◌, if◌then◌else◌,
}
use codex_routecraft.Core.Words.{same_number}
use codex_routecraft.Graph.Types.{EdgeType, Mode, Risk, Node, Edge, Graph, in_dependency_edge_types}
use codex_routecraft.Graph.Scope.{scope_conflict}
use codex_routecraft.Graph.Policy.Config.{KernelConfig, Lane, LaneRegistry}
use codex_routecraft.Graph.Compiler.{reaches}
use codex_routecraft.Graph.Compiler.Cycle.{has_cycle}
use codex_routecraft.Graph.Compiler.Orders.{reachable, ordered_transitively}
use codex_routecraft.Graph.Compiler.Shape.{is_agent, is_tool, is_human_approval, is_empty}
use codex_routecraft.Graph.Compiler.Checks.{ids_in, has_repeats}
use codex_routecraft.Graph.State.{is_gate}
use codex_routecraft.Graph.Compiler.Issues

unfoldable pub check_paths : Graph → List Issues.CompileIssue
unfolding has_cycle reachable ids_in distinct
check_paths g =
    let ids = distinct (ids_in g) in
    Issues.flag (not (is_empty ids) && has_cycle ids g.edges) Issues.dependency_cycle
      "dependency graph contains cycle"
    ++ Issues.flag
        (not (is_empty ids) && not (same_number (length (reachable ids g.edges)) (length ids)))
        Issues.node_unreachable "node disconnected from roots"

unfoldable pub global_gates : Graph → List Node
unfolding keep
global_gates g = keep (λ n. is_gate n.node_type && n.gate_policy.is_global) g.nodes

unfoldable pub check_reaches_gate : Graph → Node → Node → List Issues.CompileIssue
unfolding reaches ◌==◌
check_reaches_gate g gate n =
    Issues.flag (not (n.node_id == gate.node_id) && not (reaches n.node_id gate.node_id g.edges))
      Issues.node_unreachable (n.node_id <> " does not reach global gate")

-- The checks of the one global gate.
unfoldable pub check_gates : Graph → List Node → List Issues.CompileIssue
unfolding check_reaches_gate Issues.each any ◌==◌
check_gates g (gate ∷ []) =
    Issues.each (check_reaches_gate g gate) g.nodes
    ++ Issues.flag
        (any (λ e. (e.source == gate.node_id) && in_dependency_edge_types e.edge_type) g.edges)
        Issues.gate_missing "global gate must be the dependency sink"
check_gates g _ = Issues.flag true Issues.gate_missing "exactly one global gate is required"

abbrev pub risk_number : Risk → ℕ
risk_number Risk.low = 1
risk_number Risk.medium = 2
risk_number Risk.high = 3
risk_number Risk.critical = 4

unfoldable pub find_lane : List (String × Lane) → String → Option Lane
unfolding ◌==◌
find_lane [] name = none
find_lane ((k, lane) ∷ lanes) name = if k == name then some lane else find_lane lanes name

unfoldable pub check_lane : LaneRegistry → Node → List Issues.CompileIssue
unfolding find_lane contains ◌==◌
check_lane registry n =
    if n.lane == "none"
    then Issues.flag (not (n.reasoning_effort == "none")) Issues.lane_invalid
        (n.node_id <> " deterministic reasoning")
    else elim (find_lane registry.lanes n.lane) [
      | none ↦ Issues.flag true Issues.lane_invalid n.node_id
      | some lane ↦
          Issues.flag (not (contains lane.reasoning_levels n.reasoning_effort)) Issues.lane_invalid
            (n.node_id <> " reasoning")
          ++ Issues.flag (ltb (risk_number lane.risk_limit) (risk_number n.risk))
              Issues.lane_invalid (n.node_id <> " risk")
    ]

-- Tools are a list in every graph of the right shape.
unfoldable pub check_capability :
    Option KernelConfig → LaneRegistry → Node → List Issues.CompileIssue
unfolding check_lane any contains ◌==◌
check_capability config registry n =
    check_lane registry n
    ++ Issues.flag (n.capability_profile == "") Issues.capability_invalid n.node_id
    ++ Issues.flag (any (contains n.denied_operations) n.allowed_tools) Issues.capability_invalid
        (n.node_id <> " allows a denied operation")
    ++ elim config [
      | none ↦ []
      | some c ↦
          Issues.flag (ltb c.graph.max_node_attempts n.retry_policy.max_attempts)
            Issues.retry_budget_invalid n.node_id
    ]

-- Nodes that may run side by side do not write to one place, and belong to different workstreams.
unfoldable pub check_pair : Graph → Node → Node → List Issues.CompileIssue
unfolding ordered_transitively scope_conflict ◌==◌
check_pair g left right =
    let ordered = ordered_transitively left.node_id right.node_id g.edges in
    Issues.flag
      (not ordered && scope_conflict left.ownership.write_scopes right.ownership.write_scopes)
      Issues.parallel_write_conflict (left.node_id <> ", " <> right.node_id)
    ++ Issues.flag
        ((left.ownership.workstream == right.ownership.workstream)
          && not (is_empty left.ownership.write_scopes)
          && not (is_empty right.ownership.write_scopes)
          && not ordered)
        Issues.ownership_conflict (left.node_id <> ", " <> right.node_id)

unfoldable pub check_pairs : Graph → List Node → List Issues.CompileIssue
unfolding check_pair Issues.each
check_pairs g [] = []
check_pairs g (n ∷ ns) = Issues.each (check_pair g n) ns ++ check_pairs g ns

drop_chars : ℕ → String → String
drop_chars zero s = s
drop_chars (suc n) String.[] = ""
drop_chars (suc n) (String.◌∷◌ c s) = drop_chars n s

abbrev pub is_external_tool : String → Bool
is_external_tool tool = starts_with tool "external:"

-- `tool.split(":", 1)[1]`
unfoldable pub external_kind : String → String
unfolding drop_chars
external_kind tool = drop_chars 9 tool

unfoldable pub external_kinds : Node → List String
unfolding keep external_kind
external_kinds n = map external_kind (keep is_external_tool n.allowed_tools)

unfoldable pub mutation_kinds : Graph → List String
mutation_kinds g = map (λ m. m.kind) g.intent.external_mutations

abbrev pub is_gate_pass : EdgeType → Bool
is_gate_pass EdgeType.gate_pass = true
is_gate_pass _ = false

unfoldable pub passes_gate : List Edge → String → String → Bool
unfolding any ◌==◌
passes_gate edges source target =
    any (λ e. is_gate_pass e.edge_type && (e.source == source) && (e.target == target)) edges

-- A node that approves the operation, with a gate-pass edge to the node.
unfoldable pub is_approved_by : Graph → Node → String → Node → Bool
unfolding contains passes_gate
is_approved_by g n kind candidate =
    is_human_approval candidate.node_type
    && contains candidate.allowed_tools ("approve:" <> kind)
    && passes_gate g.edges candidate.node_id n.node_id

unfoldable pub check_kind : Graph → Node → String → List Issues.CompileIssue
unfolding is_approved_by any
check_kind g n kind =
    Issues.flag (not (is_tool n.node_type || is_agent n.node_type)) Issues.capability_invalid
      n.node_id
    ++ Issues.flag (not (any (is_approved_by g n kind) g.nodes)) Issues.approval_required
        (n.node_id <> ":" <> kind)

-- The kinds are a set, whose order the source leaves open: here the order of their last places.
unfoldable pub check_external : Graph → Node → List Issues.CompileIssue
unfolding Issues.each check_kind distinct external_kinds all contains mutation_kinds
check_external g n =
    Issues.flag (not (all (contains (mutation_kinds g)) (external_kinds n)))
      Issues.capability_invalid n.node_id
    ++ Issues.each (check_kind g n) (distinct (external_kinds n))

-- No operation is declared that no node can perform.
unfoldable pub check_declared : Graph → String → List Issues.CompileIssue
unfolding any contains
check_declared g kind =
    Issues.flag (not (any (λ n. contains n.allowed_tools ("external:" <> kind)) g.nodes))
      Issues.capability_invalid ("external:" <> kind)

unfoldable pub check_mutations : Graph → List Issues.CompileIssue
unfolding Issues.each check_external check_declared distinct mutation_kinds has_repeats
check_mutations g =
    Issues.flag (has_repeats (mutation_kinds g)) Issues.capability_invalid
      "external mutation kinds must be unique"
    ++ Issues.each (check_external g) g.nodes
    ++ Issues.each (check_declared g) (distinct (mutation_kinds g))

abbrev pub mode_order : Mode → ℕ
mode_order Mode.off = 0
mode_order Mode.observe = 1
mode_order Mode.enforce = 2

abbrev pub mode_text : Mode → String
mode_text Mode.off = "off"
mode_text Mode.observe = "observe"
mode_text Mode.enforce = "enforce"

abbrev pub is_enforce : Mode → Bool
is_enforce Mode.enforce = true
is_enforce _ = false

unfoldable pub check_config : Graph → KernelConfig → List Issues.CompileIssue
unfolding contains ◌==◌
check_config g c =
    Issues.flag (is_enforce g.mode && not (g.policy_version == c.policy.production_policy))
      Issues.policy_version_mismatch "graph policy_version does not match current production_policy"
    ++ Issues.flag
        (is_enforce g.mode && not (contains c.policy.allowlisted_task_classes g.task_class))
        Issues.task_class_not_allowlisted g.task_class
    ++ Issues.flag (ltb (mode_order c.graph.mode) (mode_order g.mode)) Issues.graph_mode_not_enabled
        (mode_text g.mode <> " exceeds configured " <> mode_text c.graph.mode)
    ++ Issues.flag (is_enforce g.mode && not c.graph.checkpoint) Issues.capability_invalid
        "enforce mode requires checkpointing"
