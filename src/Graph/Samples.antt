-- ===== src/Graph/Samples.antt =====
-- Small graphs, and what the kernel does on them.
pub mod Witnesses
pub mod Candidates
pub mod Plans
pub mod Values
use codex_routecraft.Prelude.{String, true, [], ◌∷◌, ◌≡◌, refl, ok}
use codex_routecraft.Graph.Types.{
  NodeType, EdgeType, GateResult, Risk, Condition, RetryPolicy, Node, Edge, Intent, Graph,
}
use codex_routecraft.Graph.Ir.{make_node, make_graph, single_attempt, unlimited}
use codex_routecraft.Graph.Scheduler.{downstream}
use codex_routecraft.Graph.Ready.{ready_nodes, critical_path_lengths}

abbrev pub edge : String → String → EdgeType → Condition → Edge
edge source target edge_type condition = record {
  source = source;
  target = target;
  edge_type = edge_type;
  condition = condition;
  data_contract = [];
}

abbrev pub three_attempts : RetryPolicy
three_attempts = record single_attempt { max_attempts = 3 }

abbrev pub intent : Intent
intent = record {
  request_summary = "add a parser";
  acceptance_criteria = record { criterion_id = "c1"; statement = "tests pass" } ∷ [];
  risk_level = Risk.low;
  external_mutations = [];
  budget = unlimited;
}

-- Two workers on sibling folders, a gate that reads both, and a way back to the first.
abbrev pub build : Node
unfolding make_node
build = make_node "build" NodeType.agent "write" [] "luna" ("src/app" ∷ []) Risk.low three_attempts

abbrev pub docs : Node
unfolding make_node
docs = make_node "docs" NodeType.agent "explain" [] "luna" ("docs" ∷ []) Risk.low three_attempts

abbrev pub check : Node
unfolding make_node
check =
    record (make_node "check" NodeType.gate "verify" ("build" ∷ "docs" ∷ []) "none" [] Risk.low
      three_attempts) { gate_policy = record { required = true; is_global = true } }

abbrev pub sample : Graph
unfolding make_graph build docs check
sample =
    make_graph "bounded" (build ∷ check ∷ docs ∷ [])
      (edge "build" "check" EdgeType.depends_on Condition.null
        ∷ edge "docs" "check" EdgeType.depends_on Condition.null
        ∷ edge "check" "build" EdgeType.send_back (Condition.control_transition GateResult.fail 1)
        ∷ [])
      intent "g_1" "2026-01-01T00:00:00Z"

downstream-sample : downstream sample "build" ≡ "check" ∷ []
unfolding downstream sample
downstream-sample = refl

ready_nodes-sample : ready_nodes sample 3 ≡ ok ("build" ∷ "docs" ∷ [])
unfolding ready_nodes sample
ready_nodes-sample = refl

critical-sample : critical_path_lengths sample ≡ ok (("build", 2) ∷ ("check", 1) ∷ ("docs", 2) ∷ [])
unfolding critical_path_lengths sample
critical-sample = refl
