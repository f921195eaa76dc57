-- ===== src/Graph/State.antt =====
pub mod Change
pub mod Evolves
pub mod Ids
pub mod Marks
pub mod Inversion
pub mod Transitions
pub mod Budget
pub mod Structure
pub mod Failure
pub mod SendBack
pub mod Apart
-- routecraft_graph/state.py: the transitions. Each works on a deep copy, so a raised error leaves
-- the caller's graph as it was; `now` is what `utc_now` answers.
use codex_routecraft.Prelude.{
  ℕ, zero, suc, ◌+◌, Bool, true, false, not, ◌&&◌, ◌||◌, Option, none, some, String, List, [], ◌∷◌,
  ◌++◌, map, Result, ok, err, ◌>>=◌, ◌>>◌, require, fold_result, find_first, contains, distinct,
  any, all, sorted, sort_by, text_le, keep, ltb, leb, ◌==◌, if◌then◌else◌,
}
use codex_routecraft.Graph.Types.{
  NodeType, NodeStatus, EdgeType, GateResult, Condition, Node, Edge, Constraint, Graph, GraphStatus,
  GraphError, in_success_statuses, not_ready, accepted_before_running, gate_evidence_required,
  gate_result_on_other_node, cannot_fail, send_back_requires_gate, send_back_requires_failure,
  no_active_send_back, convergence_failed, send_back_target_not_retryable, only_failed_can_retry,
}
use codex_routecraft.Graph.Scheduler.{downstream}
use codex_routecraft.Graph.Ready.{ready_nodes, is_running, is_completed}
use codex_routecraft.Graph.Skip.{
  Hashes, find_node, update_first, recompute_input_hashes, clear_result, skip_unselected_branches,
}

abbrev pub is_ready : NodeStatus → Bool
is_ready NodeStatus.ready = true
is_ready _ = false

abbrev pub is_accepted : NodeStatus → Bool
is_accepted NodeStatus.accepted = true
is_accepted _ = false

abbrev pub is_failed : NodeStatus → Bool
is_failed NodeStatus.failed = true
is_failed _ = false

abbrev pub is_gate : NodeType → Bool
is_gate NodeType.gate = true
is_gate _ = false

abbrev pub is_pass : Option GateResult → Bool
is_pass (some GateResult.pass) = true
is_pass _ = false

abbrev pub is_some {ℓ} : {A : Type ℓ} → Option A → Bool
is_some none = false
is_some (some _) = true

unfoldable pub unready : Node → Node
unready n = if is_ready n.status then record n { status = NodeStatus.pending } else n

unfoldable pub set_ready : Node → Node
set_ready n = record n { status = NodeStatus.ready }

unfoldable pub mark_one : List Node → String → List Node
unfolding update_first set_ready
mark_one ns id = update_first id set_ready ns

unfoldable pub mark_all : List Node → List String → List Node
unfolding mark_one
mark_all ns [] = ns
mark_all ns (id ∷ ids) = mark_all (mark_one ns id) ids

-- Stale READY claims are cleared before the ready nodes are computed.
unfoldable pub clear_ready : Graph → Graph
unfolding unready
clear_ready g = record g { nodes = map unready g.nodes }

-- The ids come from `ready_nodes`, so `_node` finds each.
unfoldable pub mark_selected : ℕ → Graph → Result GraphError Graph
unfolding ready_nodes mark_all
mark_selected max_parallelism g = do
  ids ← ready_nodes g max_parallelism
  ok (record g { nodes = mark_all g.nodes ids })

unfoldable pub mark_ready : Hashes → Graph → ℕ → Result GraphError Graph
unfolding recompute_input_hashes skip_unselected_branches clear_ready mark_selected
mark_ready h g max_parallelism = do
  hashed ← recompute_input_hashes h g
  value ← skip_unselected_branches hashed
  mark_selected max_parallelism (clear_ready value)

-- A write to the node that `_node` found.
unfoldable pub with_node : Graph → String → (Node → Node) → Graph
unfolding update_first
with_node g id f = record g { nodes = update_first id f g.nodes }

unfoldable pub run : Node → Node
run n = record n { status = NodeStatus.running; attempt = n.attempt + 1 }

unfoldable pub start_node : String → Graph → String → Result GraphError Graph
unfolding find_node with_node run
start_node now g id = do
  n ← find_node g id
  require (is_ready n.status) not_ready
  ok (record (with_node g id run) { status = GraphStatus.running; updated_at = now })

-- A GATE that is accepted with no verdict has passed.
unfoldable pub verdict_to_record :
    NodeType → Option GateResult → Option GateResult → Option GateResult
verdict_to_record NodeType.gate old none = some GateResult.pass
verdict_to_record NodeType.gate old (some verdict) = some verdict
verdict_to_record _ old verdict = old

unfoldable pub accept : String → List String → Option GateResult → Node → Node
unfolding verdict_to_record distinct sorted
accept output_hash refs verdict n = record n {
  gate_result = verdict_to_record n.node_type n.gate_result verdict;
  status = NodeStatus.accepted;
  output_hash = some output_hash;
  evidence_refs = sorted (distinct (n.evidence_refs ++ refs));
}

abbrev pub is_nil : List String → Bool
is_nil [] = true
is_nil (_ ∷ _) = false

-- The first global gate was accepted and passed, and every node has a success status.
unfoldable pub is_finished : Graph → Bool
unfolding find_first all
is_finished g = elim (find_first (λ n. is_gate n.node_type && n.gate_policy.is_global) g.nodes) [
  | none ↦ false
  | some n ↦
      is_accepted n.status
      && is_pass n.gate_result
      && all (λ m. in_success_statuses m.status) g.nodes
]

-- What a verdict other than PASS does to the status of the graph.
unfoldable pub after_verdict : GateResult → Bool → GraphStatus → GraphStatus
after_verdict GateResult.pass is_global status = status
after_verdict _ true status = GraphStatus.failed
after_verdict _ false status = GraphStatus.running

module _ (h : Hashes) (now : String) where
  unfoldable pub accept_node :
      Graph → String → String → List String → Option GateResult → Result GraphError Graph
  unfolding find_node with_node accept mark_ready is_finished
  accept_node g id output refs verdict = do
    n ← find_node g id
    require (is_running n.status) accepted_before_running
    require (not (n.gate_policy.required && is_nil refs)) gate_evidence_required
    require (is_gate n.node_type || not (is_some verdict)) gate_result_on_other_node
    let accepted : Graph = with_node g id (accept (h.of_output output) refs verdict)
    value ← mark_ready h (record accepted { updated_at = now }) 3
    ok (if is_finished value then record value { status = GraphStatus.accepted } else value)

  unfoldable pub resolve_gate_result :
      Graph → String → GateResult → String → List String → Result GraphError Graph
  unfolding accept_node find_node after_verdict
  resolve_gate_result g id verdict output refs = do
    value ← accept_node g id output refs (some verdict)
    gate ← find_node value id
    ok (record value { status = after_verdict verdict gate.gate_policy.is_global value.status })

abbrev pub is_retryable : NodeStatus → Bool
is_retryable status = is_running status || is_ready status || is_completed status

unfoldable pub invalidate : Node → Node
unfolding clear_result
invalidate n =
    if in_success_statuses n.status || is_ready n.status || is_running n.status
    then clear_result (record n { status = NodeStatus.invalidated })
    else n

-- A loop over ids that changes the node that `_node` finds.
unfoldable pub change_each : (Node → Node) → Graph → List String → Result GraphError Graph
unfolding find_node with_node fold_result
change_each f g ids =
    fold_result (λ value id. find_node value id >>= λ _. ok (with_node value id f)) g ids

unfoldable pub freeze : String → List String → Node → Node
unfolding contains ◌==◌
freeze id affected n =
    if not (n.node_id == id) && is_accepted n.status && not (contains affected n.node_id)
    then record n { status = NodeStatus.frozen }
    else n

unfoldable pub fail_node : String → Graph → String → Result GraphError Graph
unfolding find_node with_node downstream change_each invalidate freeze
fail_node now g id = do
  n ← find_node g id
  require (is_retryable n.status) cannot_fail
  let failed : Graph = with_node g id (λ m. record m { status = NodeStatus.failed })
  let affected : List String = downstream failed id
  value ← change_each invalidate failed affected
  ok (record value {
    nodes = map (freeze id affected) value.nodes;
    status = GraphStatus.failed;
    updated_at = now;
  })

-- The typed condition of a `send_back` edge, as the filter of `apply_send_back` reads it.
abbrev pub transitions : Condition → Option ℕ
transitions (Condition.control_transition GateResult.fail maximum) = some maximum
transitions _ = none

abbrev pub is_send_back : EdgeType → Bool
is_send_back EdgeType.send_back = true
is_send_back _ = false

unfoldable pub send_backs : Graph → String → List Edge
unfolding keep ◌==◌
send_backs g id =
    keep (λ e. is_send_back e.edge_type && (e.source == id) && is_some (transitions e.condition))
      g.edges

unfoldable pub is_exhausted : ℕ → Edge → Bool
is_exhausted attempt e = elim (transitions e.condition) [ none ↦ false | some m ↦ ltb m attempt ]

abbrev pub is_failing : Option GateResult → Bool
is_failing (some GateResult.fail) = true
is_failing (some GateResult.inconclusive) = true
is_failing _ = false

unfoldable pub send_one : String → Graph → Edge → Result GraphError Graph
unfolding find_node fail_node
send_one now g e = do
  target ← find_node g e.target
  require (is_retryable target.status) send_back_target_not_retryable
  fail_node now g target.node_id

unfoldable pub apply_send_back : String → Graph → String → Result GraphError Graph
unfolding find_node send_backs is_exhausted any send_one fold_result sort_by text_le
apply_send_back now g id = do
  source ← find_node g id
  require (is_gate source.node_type && is_completed source.status) send_back_requires_gate
  require (is_failing source.gate_result) send_back_requires_failure
  let edges : List Edge = send_backs g id
  require (any (λ _. true) edges) no_active_send_back
  require (not (any (is_exhausted source.attempt) edges)) convergence_failed
  value ← fold_result (send_one now) g (sort_by (λ a b. text_le a.target b.target) edges)
  ok (record value { status = GraphStatus.running; updated_at = now })

unfoldable pub retry_node : String → Graph → String → Result GraphError Graph
unfolding find_node with_node set_ready
retry_node now g id = do
  n ← find_node g id
  require (is_failed n.status) only_failed_can_retry
  require (ltb n.attempt n.retry_policy.max_attempts) convergence_failed
  ok (record (with_node g id set_ready) { status = GraphStatus.running; updated_at = now })

unfoldable pub invalidate_success : Node → Node
unfolding clear_result
invalidate_success n =
    if in_success_statuses n.status
    then clear_result (record n { status = NodeStatus.invalidated })
    else n

-- The ids that a constraint names and all that needs one of them.
unfoldable pub affected_by : Graph → List String → List String
unfolding downstream
affected_by g [] = []
affected_by g (id ∷ ids) = id ∷ (downstream g id ++ affected_by g ids)

unfoldable pub add_constraint : Hashes → String → Graph → Constraint → Result GraphError Graph
unfolding sort_by text_le affected_by distinct sorted change_each invalidate_success
    recompute_input_hashes
add_constraint h now g c = do
  let value : Graph = record g {
    constraints =
        sort_by (λ a b. text_le a.constraint_id b.constraint_id) (g.constraints ++ c ∷ []);
  }
  marked ←
      change_each invalidate_success value
        (sorted (distinct (affected_by value (distinct c.invalidates))))
  recompute_input_hashes h (record marked { updated_at = now })

unfoldable pub replan : String → Graph → Graph
replan now g = record g {
  graph_revision = g.graph_revision + 1;
  status = GraphStatus.draft;
  updated_at = now;
}
