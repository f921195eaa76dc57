-- ===== src/Graph/Ready.antt =====
-- routecraft_graph/scheduler.py: critical paths, and the selection of the nodes that may start.
pub mod Choice
pub mod Selection
pub mod Paths
use Prim.Native.Nat.{max}
use text.Mathlib.Text.{starts_with}
use codex_routecraft.Prelude.{
  ℕ, zero, suc, ◌-◌, String, Bool, true, false, not, ◌&&◌, ◌||◌, none, some, List, [], ◌∷◌, ◌++◌,
  map, Result, ok, err, ◌>>=◌, or_raise, any_result, all_result, any, distinct, sorted, sort_by,
  text_le, ◌==◌, if◌then◌else◌, ltb, leb, length,
}
use codex_routecraft.Graph.Types.{
  NodeType, NodeStatus, Risk, Node, Edge, Graph, GraphError, key_error, recursion_error,
  max_parallelism_not_positive,
}
use codex_routecraft.Graph.Closure.{Pairs, targets}
use codex_routecraft.Graph.Scope.{scope_conflict}
use codex_routecraft.Graph.Scheduler.{
  by_id, incoming_edges, dependencies, dependency_keys, children, edge_condition_state, is_active,
}

module _ (length_of : String → Result GraphError ℕ) where
  -- `max((length(child) for child in ...), default=0)`
  unfoldable pub longest : List String → Result GraphError ℕ
  longest [] = ok 0
  longest (c ∷ cs) = do a ← length_of c; b ← longest cs; ok (max a b)

-- `length(node)`, without its memo table. A path longer than there are nodes is a cycle, on which
-- the program recurses until Python stops it.
unfoldable pub path_length : Pairs → ℕ → String → Result GraphError ℕ
unfolding longest targets
path_length ps zero id = err recursion_error
path_length ps (suc fuel) id = do m ← longest (path_length ps fuel) (targets ps id); ok (suc m)

unfoldable pub measure : Pairs → ℕ → List String → Result GraphError (List (String × ℕ))
unfolding path_length
measure ps fuel [] = ok []
measure ps fuel (id ∷ ids) = do
  n ← path_length ps fuel id
  rest ← measure ps fuel ids
  ok ((id, n) ∷ rest)

unfoldable pub critical_path_lengths : Graph → Result GraphError (List (String × ℕ))
unfolding measure children dependency_keys sorted
critical_path_lengths g =
    let ids = dependency_keys g in measure (children g) (suc (length ids)) (sorted ids)

-- `critical[id]`. Every node's id is a key, so the default is not seen.
unfoldable pub length_at : List (String × ℕ) → String → ℕ
unfolding ◌==◌
length_at [] id = 0
length_at ((k, n) ∷ ks) id = if k == id then n else length_at ks id

abbrev pub is_startable : NodeStatus → Bool
is_startable NodeStatus.pending = true
is_startable NodeStatus.invalidated = true
is_startable NodeStatus.ready = true
is_startable _ = false

abbrev pub is_completed : NodeStatus → Bool
is_completed NodeStatus.accepted = true
is_completed NodeStatus.frozen = true
is_completed _ = false

abbrev pub is_skipped : NodeStatus → Bool
is_skipped NodeStatus.skipped = true
is_skipped _ = false

abbrev pub is_running : NodeStatus → Bool
is_running NodeStatus.running = true
is_running _ = false

abbrev pub is_merge : NodeType → Bool
is_merge NodeType.merge = true
is_merge _ = false

unfoldable pub edge_blocks : Graph → Edge → Result GraphError Bool
unfolding by_id edge_condition_state
edge_blocks g e = do
  source ← or_raise (by_id g e.source) (key_error e.source)
  ok (not (is_active (edge_condition_state e source)))

unfoldable pub predecessor_ready : Graph → Node → String → Result GraphError Bool
unfolding by_id
predecessor_ready g n dependency = do
  p ← or_raise (by_id g dependency) (key_error dependency)
  ok (is_completed p.status || is_merge n.node_type && is_skipped p.status)

-- The loop over the incoming edges, and the test on the predecessors.
unfoldable pub prerequisites_met : Graph → Node → Result GraphError Bool
unfolding edge_blocks predecessor_ready incoming_edges dependencies any_result all_result
prerequisites_met g n = any_result (edge_blocks g) (incoming_edges g n.node_id) >>= λ blocked.
    if blocked then ok false else all_result (predecessor_ready g n) (dependencies g n.node_id)

-- The `continue`s of the loop over `by_id`, and the test that ends it.
unfoldable pub is_candidate : Graph → Node → Result GraphError Bool
unfolding prerequisites_met
is_candidate g n =
    if not (is_startable n.status)
    then ok false
    else if leb n.retry_policy.max_attempts n.attempt
    then ok false
    else prerequisites_met g n

-- The items of `by_id`.
unfoldable pub dictionary : Graph → List String → List Node
unfolding by_id
dictionary g [] = []
dictionary g (id ∷ ids) =
    let rest = dictionary g ids in elim (by_id g id) [ none ↦ rest | some n ↦ n ∷ rest ]

unfoldable pub candidates_of : Graph → List Node → Result GraphError (List Node)
unfolding is_candidate
candidates_of g [] = ok []
candidates_of g (n ∷ ns) = do
  chosen ← is_candidate g n
  rest ← candidates_of g ns
  ok (if chosen then n ∷ rest else rest)

unfoldable pub candidates : Graph → Result GraphError (List Node)
unfolding candidates_of dictionary distinct
candidates g = candidates_of g (dictionary g (distinct (map (λ n. n.node_id) g.nodes)))

unfoldable pub risk_order : Risk → ℕ
risk_order Risk.critical = 0
risk_order Risk.high = 1
risk_order Risk.medium = 2
risk_order Risk.low = 3

-- The order of the key (-critical, risk, id).
unfoldable pub candidate_le : List (String × ℕ) → Node → Node → Bool
unfolding risk_order text_le length_at
candidate_le critical a b =
    let m = length_at critical a.node_id in
    let n = length_at critical b.node_id in
    if ltb n m
    then true
    else if ltb m n
    then false
    else if ltb (risk_order a.risk) (risk_order b.risk)
    then true
    else if ltb (risk_order b.risk) (risk_order a.risk)
    then false
    else text_le a.node_id b.node_id

unfoldable pub is_external : Node → Bool
unfolding any
is_external n = any (λ tool. starts_with tool "external:") n.allowed_tools

-- Two nodes that may not run together: they write to one place, or both act outside.
unfoldable pub clash : Node → Node → Bool
unfolding is_external scope_conflict
clash n other =
    scope_conflict n.ownership.write_scopes other.ownership.write_scopes
    || is_external n && is_external other

-- The loop that fills `selected`.
unfoldable pub choose : ℕ → List Node → List Node → List Node → List Node
unfolding clash any
choose slots active selected [] = selected
choose slots active selected (n ∷ ns) =
    let skip = choose slots active selected ns in
    let take = choose slots active (selected ++ n ∷ []) ns in
    if any (clash n) (active ++ selected)
    then skip
    else if leb slots (length (selected ++ n ∷ []))
    then selected ++ n ∷ []
    else take

unfoldable pub running_nodes : List Node → List Node
running_nodes [] = []
running_nodes (n ∷ ns) =
    let rest = running_nodes ns in if is_running n.status then n ∷ rest else rest

unfoldable pub running_ids : Graph → List String
unfolding distinct running_nodes
running_ids g = distinct (map (λ n. n.node_id) (running_nodes g.nodes))

-- Sorting and choosing, once the critical paths are known.
unfoldable pub pick : Graph → List String → ℕ → List (String × ℕ) → Result GraphError (List Node)
unfolding candidates candidate_le sort_by choose dictionary
pick g active slots critical = do
  found ← candidates g
  ok (choose slots (dictionary g active) [] (sort_by (candidate_le critical) found))

unfoldable pub fill : Graph → List String → ℕ → Result GraphError (List Node)
unfolding critical_path_lengths pick
fill g active slots = critical_path_lengths g >>= pick g active slots

-- The nodes that `ready_nodes` returns the ids of.
unfoldable pub ready_selection : Graph → List String → ℕ → Result GraphError (List Node)
unfolding fill
ready_selection g active max_parallelism =
    let slots = max_parallelism - length active in
    if leb max_parallelism 0
    then err max_parallelism_not_positive
    else if leb slots 0
    then ok []
    else fill g active slots

-- `ready_nodes` with its default `active_node_ids`, the running nodes.
unfoldable pub ready_nodes : Graph → ℕ → Result GraphError (List String)
unfolding ready_selection running_ids
ready_nodes g max_parallelism = do
  selected ← ready_selection g (running_ids g) max_parallelism
  ok (map (λ n. n.node_id) selected)
