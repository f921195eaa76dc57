-- ===== src/Graph/Compiler.antt =====
-- routecraft_graph/compiler.py: the searches along the dependency edges.
pub mod Paths
pub mod Cycle
pub mod Issues
pub mod Orders
pub mod Shape
pub mod Checks
pub mod Globals
pub mod Compile
use codex_routecraft.Prelude.{
  ℕ, zero, suc, ◌+◌, Bool, true, false, not, ◌&&◌, ◌||◌, String, none, some, List, [], ◌∷◌, ◌++◌,
  map, keep, all, any, contains, distinct, length, ◌==◌, if◌then◌else◌,
}
use mathlib.Core.List.{reverse}
use codex_routecraft.Graph.Types.{Edge, Graph, Node, NodeType, in_dependency_edge_types}
use codex_routecraft.Graph.Closure.{Pairs, targets}

-- The dictionary `outgoing` of the dependency edges.
unfoldable pub outgoing : List Edge → Pairs
unfolding keep
outgoing edges =
    map (λ e. (e.source, e.target)) (keep (λ e. in_dependency_edge_types e.edge_type) edges)

-- The loop of `_reaches`, which stops at the target. The top of the stack is its head.
unfoldable pub search : Pairs → String → ℕ → List String → List String → Bool
unfolding targets contains ◌==◌
search ps target zero stack seen = false
search ps target (suc fuel) [] seen = false
search ps target (suc fuel) (x ∷ stack) seen =
    let again = search ps target fuel stack seen in
    let more = search ps target fuel (reverse (targets ps x) ++ stack) (x ∷ seen) in
    if x == target then true else if contains seen x then again else more

unfoldable pub reaches : String → String → List Edge → Bool
unfolding search targets outgoing
reaches source target edges =
    let ps = outgoing edges in
    let stack = reverse (targets ps source) in search ps target (length stack + length ps) stack []
