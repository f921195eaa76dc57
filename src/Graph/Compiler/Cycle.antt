-- ===== src/Graph/Compiler/Cycle.antt =====
-- `_cycle` of routecraft_graph/compiler.py: a depth-first search that stops at the first cycle.
pub mod Ranks
pub mod Exact
use codex_routecraft.Prelude.{
  ℕ, zero, suc, Bool, true, false, ◌&&◌, String, List, [], ◌∷◌, map, keep, contains, sorted, length,
  if◌then◌else◌,
}
use codex_routecraft.Graph.Types.{Edge, in_dependency_edge_types}
use codex_routecraft.Graph.Closure.{Pairs, targets}

-- The dictionary `outgoing`, of the dependency edges between known nodes.
unfoldable pub inner : List String → List Edge → Pairs
unfolding keep contains
inner ids edges =
    map (λ e. (e.source, e.target))
      (keep
        (λ e.
          in_dependency_edge_types e.edge_type && contains ids e.source && contains ids e.target)
        edges)

-- What a visit comes to: a cycle, a lack of fuel, or the set `visited` after it. Once a cycle is
-- found nothing reads the sets.
pub data Visit : Type 0 where
  found : Visit
  out : Visit
  done : (visited : List String) → Visit

-- `any(visit(next_node) for next_node in ...)`
unfoldable pub visit_all : (List String → String → Visit) → List String → List String → Visit
visit_all visit_one visited [] = done visited
visit_all visit_one visited (c ∷ cs) = elim (visit_one visited c) [
  | found ↦ found
  | out ↦ out
  | done more ↦ visit_all visit_one more cs
]

-- `visit(node)`, with the set `visiting` that the calls above it have left.
unfoldable pub visit : Pairs → ℕ → List String → List String → String → Visit
unfolding visit_all targets contains
visit ps zero visiting visited node = out
visit ps (suc fuel) visiting visited node =
    if contains visiting node
    then found
    else if contains visited node
    then done visited
    else elim (visit_all (visit ps fuel (node ∷ visiting)) visited (targets ps node)) [
      | found ↦ found
      | out ↦ out
      | done more ↦ done (node ∷ more)
    ]

-- Each call adds a node to `visiting`, so a unit of fuel for each node, and one more, is enough.
unfoldable pub search_cycle : List String → List Edge → Visit
unfolding visit visit_all inner sorted
search_cycle ids edges = visit_all (visit (inner ids edges) (suc (length ids)) []) [] (sorted ids)

unfoldable pub has_cycle : List String → List Edge → Bool
unfolding search_cycle
has_cycle ids edges = elim (search_cycle ids edges) [ found ↦ true | out ↦ true | done _ ↦ false ]
