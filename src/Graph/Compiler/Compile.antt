-- ===== src/Graph/Compiler/Compile.antt =====
-- `compile_graph` of routecraft_graph/compiler.py, on graphs of the right shape.
pub mod Accepted
pub mod Structure
pub mod Schedulable
pub mod Returns
pub mod Roots
pub mod Starts
pub mod Approvals
pub mod Separate
pub mod Gates
pub mod Always
use codex_routecraft.Prelude.{
  ℕ, Bool, true, false, not, ◌&&◌, ◌||◌, String, Option, none, some, List, [], ◌∷◌, ◌++◌, map,
  distinct, sort_by, text_le, Result, ok, err, ◌>>=◌, ◌>>◌, ◌==◌, if◌then◌else◌,
}
use mathlib.Core.Option
use codex_routecraft.Graph.Types.{Graph}
use codex_routecraft.Graph.Ir.{canonical_ir}
use codex_routecraft.Graph.Closure.{Pairs}
use codex_routecraft.Graph.Policy.Config.{
  KernelConfig, ConfigError, LaneRegistry, default_lane_registry, validate_config,
  validate_lane_registry,
}
use codex_routecraft.Graph.Compiler.{outgoing}
use codex_routecraft.Graph.Compiler.Orders.{topological_order}
use codex_routecraft.Graph.Compiler.Shape.{
  validate_ir_shape, validate_intent, is_empty, same_budget,
}
use codex_routecraft.Graph.Compiler.Checks.{
  ids_in, has_repeats, has_duplicate_edge, has_pair, check_node, check_edge, check_constraints,
}
use codex_routecraft.Graph.Compiler.Globals.{
  check_paths, global_gates, check_gates, check_capability, check_pairs, check_mutations,
  check_config,
}
use codex_routecraft.Graph.Compiler.Issues

pub record Compiled : Type 0 where
  pub ir : Graph
  pub node_order : List String
  pub dependency_pairs : Pairs

-- The checks of the canonical graph, in the source's order. The numbers of a budget are
-- natural numbers or null in every graph of the right shape.
abbrev pub parts_of : Option KernelConfig → LaneRegistry → Graph → List (List Issues.CompileIssue)
parts_of config registry g =
    Issues.flag (has_repeats (ids_in g)) Issues.node_id_duplicate "duplicate node_id"
    ∷ Issues.flag (has_duplicate_edge g.edges) Issues.ir_schema_invalid "duplicate edge"
    ∷ validate_intent g.intent
    ∷ Issues.flag (is_empty g.global_acceptance) Issues.acceptance_criteria_missing
        "global acceptance empty"
    ∷ Issues.each (check_node g) g.nodes
    ∷ Issues.each (check_edge g) g.edges
    ∷ check_constraints g [] g.constraints
    ∷ check_paths g
    ∷ check_gates g (global_gates g)
    ∷ Issues.each (check_capability config registry) g.nodes
    ∷ check_pairs g g.nodes
    ∷ check_mutations g
    ∷ Issues.flag (not (same_budget g.budgets g.intent.budget)) Issues.resource_budget_invalid
        "graph budget must equal Intent Contract budget"
    ∷ elim config [ none ↦ [] | some c ↦ check_config g c ]
    ∷ []

unfoldable pub issues_of : Option KernelConfig → LaneRegistry → Graph → List Issues.CompileIssue
unfolding ids_in has_repeats has_duplicate_edge validate_intent Issues.each check_node check_edge
    check_constraints check_paths global_gates check_gates check_capability check_pairs
    check_mutations same_budget check_config
issues_of config registry g = Issues.each (λ issues. issues) (parts_of config registry g)

abbrev pub config_message : ConfigError → String
config_message ConfigError.unknown_config_version = "unknown config version"
config_message ConfigError.graph_limits_invalid = "graph limits invalid"
config_message ConfigError.allowlist_invalid = "allowlist invalid"
config_message ConfigError.lane_registry_invalid = "lane registry invalid"
config_message ConfigError.lane_entry_invalid = "lane entry invalid"

-- `except PolicyError as error: raise GraphValidationError(...)`
abbrev pub or_capability_issue :
    Result ConfigError (Unit {0}) → Result (List Issues.CompileIssue) (Unit {0})
or_capability_issue (ok done) = ok done
or_capability_issue (err e) =
    err (record { code = Issues.capability_invalid; detail = config_message e } ∷ [])

-- `if issues: raise GraphValidationError(issues)`
abbrev pub raise_if_any : List Issues.CompileIssue → Result (List Issues.CompileIssue) (Unit {0})
raise_if_any [] = ok tt
raise_if_any (i ∷ is) = err (i ∷ is)

-- The order of pairs of texts.
unfoldable pub pair_le : String × String → String × String → Bool
unfolding text_le ◌==◌
pair_le p q = if p.0 == q.0 then text_le p.1 q.1 else text_le p.0 q.0

unfoldable pub distinct_pairs : Pairs → Pairs
unfolding has_pair
distinct_pairs [] = []
distinct_pairs (p ∷ ps) =
    let rest = distinct_pairs ps in if has_pair ps p.0 p.1 then rest else p ∷ rest

unfoldable pub compiled_of : Graph → Compiled
unfolding topological_order distinct ids_in sort_by pair_le distinct_pairs outgoing
compiled_of g = record {
  ir = g;
  node_order = topological_order (distinct (ids_in g)) g.edges;
  dependency_pairs = sort_by pair_le (distinct_pairs (outgoing g.edges));
}

-- `is_time` is the match of the time pattern by `re`.
unfoldable pub compile_graph :
    (is_time : String → Bool)
    → Option LaneRegistry
    → Option KernelConfig
    → Graph
    → Result (List Issues.CompileIssue) Compiled
unfolding validate_ir_shape validate_lane_registry validate_config canonical_ir issues_of
    compiled_of
compile_graph is_time lane_registry config g = do
  let registry = Option.get_or lane_registry default_lane_registry
  raise_if_any (validate_ir_shape is_time g)
  or_capability_issue (validate_lane_registry registry)
  or_capability_issue (elim config [ none ↦ ok tt | some c ↦ validate_config c ])
  raise_if_any (issues_of config registry (canonical_ir g))
  ok (compiled_of (canonical_ir g))
