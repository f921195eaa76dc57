-- ===== src/Graph/Skip.antt =====
-- routecraft_graph/state.py: lookups, input hashes, and the branches that a gate did not select.
pub mod Rounds
use codex_routecraft.Prelude.{
  ℕ, zero, suc, Bool, true, false, not, ◌||◌, Option, none, some, String, List, [], ◌∷◌, ◌++◌, map,
  Result, ok, ◌>>=◌, or_raise, any_result, map_result, fold_result, find_first, contains, distinct,
  sorted, keep, length, ◌==◌, if◌then◌else◌,
}
use codex_routecraft.Graph.Types.{
  NodeType, NodeStatus, GateResult, Risk, Schema, Ownership, Node, Constraint, Graph, GraphError,
  key_error, unknown_node,
}
use codex_routecraft.Graph.Scheduler.{by_id, dependencies, inactive_conditional_targets}
use codex_routecraft.Graph.Ready.{is_merge, is_skipped}

-- `_node`: the first node of that id.
unfoldable pub find_node : Graph → String → Result GraphError Node
unfolding find_first ◌==◌
find_node g id = or_raise (find_first (λ n. n.node_id == id) g.nodes) (unknown_node id)

-- A write through the reference that `_node` returned.
unfoldable pub update_first : String → (Node → Node) → List Node → List Node
unfolding ◌==◌
update_first id f [] = []
update_first id f (n ∷ ns) = if n.node_id == id then f n ∷ ns else n ∷ update_first id f ns

-- A write through the reference that the dictionary `by_id` holds.
unfoldable pub update_last : String → (Node → Node) → List Node → List Node
unfolding ◌==◌ contains
update_last id f [] = []
update_last id f (n ∷ ns) =
    let later = n ∷ update_last id f ns in
    if contains (map (λ m. m.node_id) ns) id
    then later
    else if n.node_id == id
    then f n ∷ ns
    else n ∷ ns

-- What is hashed: the fields that `contract` copies, and what the upstream nodes produced.
pub record Contract : Type 0 where
  pub node_id : String
  pub node_type : NodeType
  pub objective : String
  pub ownership : Ownership
  pub input_schema : Schema
  pub output_schema : Schema
  pub lane : String
  pub reasoning_effort : String
  pub risk : Risk
  pub capability_profile : String
  pub allowed_tools : List String
  pub denied_operations : List String

pub record Upstream : Type 0 where
  pub dependency : String
  pub output_hash : Option String
  pub gate_result : Option GateResult

pub record HashInput : Type 0 where
  pub graph_id : String
  pub graph_revision : ℕ
  pub policy_version : String
  pub contract : Contract
  pub upstream : List Upstream
  pub constraints : List Constraint

-- `hashlib.sha256` over canonical JSON: of a node's input, and of an output's JSON text.
pub record Hashes : Type 0 where
  pub of_input : HashInput → String
  pub of_output : String → String

unfoldable pub contract_of : Node → Contract
contract_of n = record {
  node_id = n.node_id;
  node_type = n.node_type;
  objective = n.objective;
  ownership = n.ownership;
  input_schema = n.input_schema;
  output_schema = n.output_schema;
  lane = n.lane;
  reasoning_effort = n.reasoning_effort;
  risk = n.risk;
  capability_profile = n.capability_profile;
  allowed_tools = n.allowed_tools;
  denied_operations = n.denied_operations;
}

unfoldable pub upstream_of : Graph → String → Result GraphError Upstream
unfolding by_id
upstream_of g id = do
  p ← or_raise (by_id g id) (key_error id)
  ok (record { dependency = id; output_hash = p.output_hash; gate_result = p.gate_result })

unfoldable pub hash_node : Hashes → Graph → Node → Result GraphError Node
unfolding upstream_of contract_of dependencies distinct sorted map_result keep contains
hash_node h g n = do
  upstream ← map_result (upstream_of g) (sorted (distinct (dependencies g n.node_id)))
  let input : HashInput = record {
    graph_id = g.graph_id;
    graph_revision = g.graph_revision;
    policy_version = g.policy_version;
    contract = contract_of n;
    upstream = upstream;
    constraints = keep (λ c. contains c.applies_to n.node_id) g.constraints;
  }
  ok (record n { input_hash = some (h.of_input input) })

unfoldable pub recompute_input_hashes : Hashes → Graph → Result GraphError Graph
unfolding hash_node map_result
recompute_input_hashes h g = do
  ns ← map_result (hash_node h g) g.nodes
  ok (record g { nodes = ns })

unfoldable pub clear_result : Node → Node
clear_result n = record n { output_hash = none; gate_result = none; evidence_refs = [] }

abbrev pub is_skippable : NodeStatus → Bool
is_skippable NodeStatus.pending = true
is_skippable NodeStatus.ready = true
is_skippable NodeStatus.invalidated = true
is_skippable NodeStatus.blocked = true
is_skippable _ = false

unfoldable pub skip : Node → Node
unfolding clear_result
skip n = clear_result (record n { status = NodeStatus.skipped })

-- The body of the loop over the inactive targets. The flag is `changed`.
unfoldable pub skip_target : Graph × Bool → String → Result GraphError (Graph × Bool)
unfolding by_id update_last skip
skip_target (g, changed) id = do
  n ← or_raise (by_id g id) (key_error id)
  ok (
      if is_skippable n.status
      then (record g { nodes = update_last id skip g.nodes }, true)
      else (g, changed))

unfoldable pub parent_skipped : Graph → String → Result GraphError Bool
unfolding by_id
parent_skipped g id = do p ← or_raise (by_id g id) (key_error id); ok (is_skipped p.status)

-- Whether the loop over the nodes skips this one, in the graph as the loop has left it so far.
unfoldable pub must_skip : Graph → Node → Result GraphError Bool
unfolding parent_skipped dependencies any_result
must_skip g n =
    if is_merge n.node_type || not (is_skippable n.status)
    then ok false
    else any_result (parent_skipped g) (dependencies g n.node_id)

-- That loop: `before` is done, and the second list is still to come.
unfoldable pub sweep : Graph → List Node → List Node → Bool → Result GraphError (Graph × Bool)
unfolding must_skip skip
sweep g before [] changed = ok (record g { nodes = before }, changed)
sweep g before (n ∷ ns) changed = must_skip (record g { nodes = before ++ n ∷ ns }) n >>= λ blocked.
    sweep g (before ++ (if blocked then skip n else n) ∷ []) ns (blocked || changed)

-- One round of `while changed`.
unfoldable pub skip_round : Graph → Result GraphError (Graph × Bool)
unfolding inactive_conditional_targets skip_target fold_result sweep
skip_round g = do
  found ← inactive_conditional_targets g
  s ← fold_result skip_target (g, false) found
  sweep s.0 [] s.0.nodes s.1

unfoldable pub skip_rounds : ℕ → Graph → Result GraphError Graph
unfolding skip_round
skip_rounds zero g = ok g
skip_rounds (suc fuel) g =
    skip_round g >>= λ s. elim s.1 [ true ↦ skip_rounds fuel s.0 | false ↦ ok s.0 ]

-- The rounds that may change something are at most as many as there are nodes.
unfoldable pub skip_unselected_branches : Graph → Result GraphError Graph
unfolding skip_rounds
skip_unselected_branches g = skip_rounds (suc (length g.nodes)) g
