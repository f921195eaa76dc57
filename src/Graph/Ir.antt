-- ===== src/Graph/Ir.antt =====
-- routecraft_graph/ir.py: the canonical form of edge conditions, and how plans are built.
use codex_routecraft.Prelude.{
  Bool, true, false, String, none, some, List, [], ◌∷◌, ◌==◌, if◌then◌else◌, ltb, not, map, sorted,
  distinct, sort_by, text_le,
}
use codex_routecraft.Graph.Types.{
  NodeType, NodeStatus, EdgeType, GateResult, Risk, Mode, GraphStatus, Condition, Schema,
  Properties, RetryPolicy, Node, Edge, Budget, Intent, Graph,
}

-- `null` on a gate edge means the verdict of the edge's own type.
unfoldable pub normalized_edge_condition : EdgeType → Condition → Condition
normalized_edge_condition EdgeType.gate_pass Condition.null = Condition.gate_result GateResult.pass
normalized_edge_condition EdgeType.gate_fail Condition.null = Condition.gate_result GateResult.fail
normalized_edge_condition _ condition = condition

-- The typed predicate that each edge type accepts; the error texts are left out.
unfoldable pub valid_gate_condition : GateResult → Condition → Bool
valid_gate_condition GateResult.pass (Condition.gate_result GateResult.pass) = true
valid_gate_condition GateResult.fail (Condition.gate_result GateResult.fail) = true
valid_gate_condition _ _ = false

unfoldable pub valid_ordinary_condition : Condition → Bool
valid_ordinary_condition Condition.null = true
valid_ordinary_condition _ = false

unfoldable pub valid_send_back_condition : Condition → Bool
valid_send_back_condition (Condition.control_transition GateResult.fail maximum) = ltb 0 maximum
valid_send_back_condition _ = false

unfoldable pub valid_feedback_condition : Condition → Bool
valid_feedback_condition (Condition.verified_constraint identifier) =
    if identifier == "" then false else true
valid_feedback_condition _ = false

unfoldable pub validate_edge_condition : EdgeType → Condition → Bool
unfolding normalized_edge_condition valid_gate_condition valid_ordinary_condition
    valid_send_back_condition valid_feedback_condition ◌==◌
validate_edge_condition EdgeType.gate_pass condition =
    valid_gate_condition GateResult.pass (normalized_edge_condition EdgeType.gate_pass condition)
validate_edge_condition EdgeType.gate_fail condition =
    valid_gate_condition GateResult.fail (normalized_edge_condition EdgeType.gate_fail condition)
validate_edge_condition EdgeType.send_back condition = valid_send_back_condition condition
validate_edge_condition EdgeType.constraint_feedback condition = valid_feedback_condition condition
validate_edge_condition _ condition = valid_ordinary_condition condition

abbrev pub empty_object : Schema
empty_object = Schema.object Properties.end []

abbrev pub single_attempt : RetryPolicy
single_attempt = record {
  max_attempts = 1;
  max_tokens = none;
  max_duration_seconds = some 30;
  max_failed_gates = some 0;
}

-- `make_node` with its keyword arguments `dependencies`, `lane`, `write_scopes`, `risk` and
-- `retry_policy`; the schemas stand at their default.
unfoldable pub make_node :
    (node_id : String) (node_type : NodeType) (objective : String) (dependencies : List String)
    (lane : String) (write_scopes : List String) (risk : Risk) (retry_policy : RetryPolicy)
    → Node
unfolding ◌==◌
make_node node_id node_type objective dependencies lane write_scopes risk retry_policy = record {
  node_id = node_id;
  node_type = node_type;
  objective = objective;
  dependencies = dependencies;
  ownership = record { workstream = node_id; write_scopes = write_scopes };
  input_schema = empty_object;
  output_schema = empty_object;
  lane = lane;
  reasoning_effort = if lane == "none" then "none" else "medium";
  risk = risk;
  capability_profile = if lane == "none" then "deterministic-v1" else "agent-v1";
  allowed_tools = [];
  denied_operations = [];
  required_evidence_types = "schema_result" ∷ [];
  gate_policy = record { required = true; is_global = false };
  retry_policy = retry_policy;
  status = NodeStatus.pending;
  attempt = 0;
  input_hash = none;
  output_hash = none;
  evidence_refs = [];
  gate_result = none;
}

abbrev pub unlimited : Budget
unlimited = record { max_tokens = none; max_duration_seconds = none; max_child_runs = none }

-- The collections whose order means nothing are sorted, and their repeats dropped.
unfoldable pub canonical_node : Node → Node
unfolding sorted distinct
canonical_node n = record n {
  dependencies = sorted (distinct n.dependencies);
  evidence_refs = sorted (distinct n.evidence_refs);
  allowed_tools = sorted (distinct n.allowed_tools);
  denied_operations = sorted (distinct n.denied_operations);
  ownership = record n.ownership { write_scopes = sorted (distinct n.ownership.write_scopes) };
}

unfoldable pub canonical_edge : Edge → Edge
unfolding normalized_edge_condition
canonical_edge e = record e { condition = normalized_edge_condition e.edge_type e.condition }

abbrev pub edge_type_text : EdgeType → String
edge_type_text EdgeType.depends_on = "depends_on"
edge_type_text EdgeType.fan_out = "fan_out"
edge_type_text EdgeType.sequence = "sequence"
edge_type_text EdgeType.merge = "merge"
edge_type_text EdgeType.gate_pass = "gate_pass"
edge_type_text EdgeType.gate_fail = "gate_fail"
edge_type_text EdgeType.send_back = "send_back"
edge_type_text EdgeType.constraint_feedback = "constraint_feedback"

-- The order of the triples (from, to, edge_type).
unfoldable pub edge_le : Edge → Edge → Bool
unfolding text_le ◌==◌
edge_le a b =
    if not (a.source == b.source)
    then text_le a.source b.source
    else if not (a.target == b.target)
    then text_le a.target b.target
    else text_le (edge_type_text a.edge_type) (edge_type_text b.edge_type)

unfoldable pub canonical_ir : Graph → Graph
unfolding canonical_node canonical_edge edge_le sort_by text_le
canonical_ir g = record g {
  nodes = map canonical_node (sort_by (λ a b. text_le a.node_id b.node_id) g.nodes);
  edges = map canonical_edge (sort_by edge_le g.edges);
}

-- `make_graph` with the id and the time given, and its other keyword arguments at their default.
unfoldable pub make_graph :
    (task_class : String) (nodes : List Node) (edges : List Edge) (intent : Intent)
    (graph_id now : String)
    → Graph
unfolding canonical_ir
make_graph task_class nodes edges intent graph_id now = canonical_ir record {
  graph_id = graph_id;
  graph_revision = 1;
  policy_version = "routecraft-production-v1";
  task_class = task_class;
  mode = Mode.observe;
  event_classification = "normal";
  nodes = nodes;
  edges = edges;
  intent = intent;
  global_acceptance = intent.acceptance_criteria;
  constraints = [];
  budgets = unlimited;
  created_at = now;
  updated_at = now;
  status = GraphStatus.draft;
}
