-- ===== src/Graph/Scheduler.antt =====
-- routecraft_graph/scheduler.py. Sets are lists whose order and repetitions no result depends on,
-- and a dictionary from node ids is a function on ids with the list of its keys.
pub mod Downstream
use Prim.Native.Nat.{max}
use mathlib.Core.List.{reverse, flat_map}
use mathlib.Core.Option
use text.Mathlib.Text.{starts_with}
use codex_routecraft.Prelude.{
  ℕ, zero, suc, ◌+◌, ◌-◌, String, Bool, true, false, not, ◌&&◌, ◌||◌, Option, none, some, List, [],
  ◌∷◌, ◌++◌, map, Result, ok, err, ◌>>=◌, ◌>>◌, or_raise, require, any_result, all_result, any,
  keep, find_last, contains, distinct, sorted, sort_by, text_le, ◌==◌, if◌then◌else◌, ltb, leb,
  length,
}
use codex_routecraft.Graph.Types.{
  NodeType, NodeStatus, EdgeType, GateResult, Risk, Condition, Node, Edge, Graph, GraphError,
  key_error, recursion_error, max_parallelism_not_positive, in_dependency_edge_types,
  in_conditional_edge_types,
}
use codex_routecraft.Graph.Ir.{normalized_edge_condition}
use codex_routecraft.Graph.Closure.{Pairs, targets, closure}
use codex_routecraft.Graph.Scope.{scope_conflict}

-- `{node["node_id"]: node for node in ir["nodes"]}`, of which the last node of an id stays.
unfoldable pub by_id : Graph → String → Option Node
unfolding find_last ◌==◌
by_id g id = find_last (λ n. n.node_id == id) g.nodes

unfoldable pub incoming_edges : Graph → String → List Edge
unfolding keep ◌==◌
incoming_edges g id = keep (λ e. (e.target == id) && in_dependency_edge_types e.edge_type) g.edges

-- `dependencies(ir)[id]`
unfoldable pub dependencies : Graph → String → List String
unfolding by_id incoming_edges
dependencies g id =
    elim (by_id g id) [ none ↦ [] | some n ↦ n.dependencies ]
    ++ map (λ e. e.source) (incoming_edges g id)

-- The keys of `dependencies(ir)`.
unfoldable pub dependency_keys : Graph → List String
unfolding distinct keep
dependency_keys g = distinct (
    map (λ n. n.node_id) g.nodes
    ++ map (λ e. e.target) (keep (λ e. in_dependency_edge_types e.edge_type) g.edges))

unfoldable pub entries_of : Graph → String → Pairs
unfolding dependencies distinct
entries_of g id = map (λ d. (d, id)) (distinct (dependencies g id))

unfoldable pub entries : Graph → List String → Pairs
unfolding entries_of
entries g [] = []
entries g (id ∷ ids) = entries_of g id ++ entries g ids

-- The dictionary `children`, filled from the items of `dependencies(ir)`.
unfoldable pub children : Graph → Pairs
unfolding entries dependency_keys
children g = entries g (dependency_keys g)

unfoldable pub downstream : Graph → String → List String
unfolding children closure targets sorted
downstream g source = sorted (closure (children g) (reverse (targets (children g) source)))

-- A GATE has the verdict that was recorded; another node passes by being completed.
abbrev pub verdict_of : NodeType → NodeStatus → Option GateResult → Option GateResult
verdict_of NodeType.gate status recorded = recorded
verdict_of _ NodeStatus.accepted recorded = some GateResult.pass
verdict_of _ NodeStatus.frozen recorded = some GateResult.pass
verdict_of _ _ recorded = none

unfoldable pub gate_verdict : Node → Option GateResult
gate_verdict n = verdict_of n.node_type n.status n.gate_result

abbrev pub effective : Option GateResult → Option GateResult
effective (some GateResult.inconclusive) = some GateResult.fail
effective verdict = verdict

unfoldable pub effective_gate_verdict : Node → Option GateResult
unfolding gate_verdict
effective_gate_verdict n = effective (gate_verdict n)

pub data EdgeState : Type 0 where
  active waiting inactive invalid : EdgeState

abbrev pub is_active : EdgeState → Bool
is_active EdgeState.active = true
is_active _ = false

abbrev pub is_inactive : EdgeState → Bool
is_inactive EdgeState.inactive = true
is_inactive _ = false

abbrev pub same_verdict : GateResult → GateResult → Bool
same_verdict GateResult.pass GateResult.pass = true
same_verdict GateResult.fail GateResult.fail = true
same_verdict GateResult.inconclusive GateResult.inconclusive = true
same_verdict _ _ = false

-- `verdict == condition.get("equals")`: an object of another kind has no such key.
abbrev pub matches_condition : GateResult → Condition → EdgeState
matches_condition verdict (Condition.gate_result equals) =
    if same_verdict verdict equals then EdgeState.active else EdgeState.inactive
matches_condition verdict _ = EdgeState.inactive

abbrev pub gate_edge_state : Condition → Option GateResult → EdgeState
gate_edge_state Condition.null verdict = EdgeState.invalid
gate_edge_state (Condition.text _) verdict = EdgeState.invalid
gate_edge_state condition none = EdgeState.waiting
gate_edge_state condition (some verdict) = matches_condition verdict condition

abbrev pub ordinary_edge_state : Condition → EdgeState
ordinary_edge_state Condition.null = EdgeState.active
ordinary_edge_state _ = EdgeState.invalid

abbrev pub state_of_edge : EdgeType → Condition → Option GateResult → EdgeState
state_of_edge EdgeType.gate_pass condition verdict = gate_edge_state condition verdict
state_of_edge EdgeType.gate_fail condition verdict = gate_edge_state condition verdict
state_of_edge EdgeType.send_back condition verdict = EdgeState.invalid
state_of_edge EdgeType.constraint_feedback condition verdict = EdgeState.invalid
state_of_edge _ condition verdict = ordinary_edge_state condition

unfoldable pub edge_condition_state : Edge → Node → EdgeState
unfolding normalized_edge_condition effective_gate_verdict
edge_condition_state e source =
    state_of_edge e.edge_type (normalized_edge_condition e.edge_type e.condition)
      (effective_gate_verdict source)

-- The set comprehension of `inactive_conditional_targets`, before `sorted`.
unfoldable pub inactive_targets_of : Graph → List Edge → Result GraphError (List String)
unfolding by_id edge_condition_state
inactive_targets_of g [] = ok []
inactive_targets_of g (e ∷ es) =
    let rest = inactive_targets_of g es in
    if in_conditional_edge_types e.edge_type
    then (do
      source ← or_raise (by_id g e.source) (key_error e.source)
      found ← rest
      ok (if is_inactive (edge_condition_state e source) then e.target ∷ found else found))
    else rest

unfoldable pub inactive_conditional_targets : Graph → Result GraphError (List String)
unfolding inactive_targets_of distinct sorted
inactive_conditional_targets g = do
  found ← inactive_targets_of g g.edges
  ok (sorted (distinct found))
