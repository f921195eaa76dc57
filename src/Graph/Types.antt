-- ===== src/Graph/Types.antt =====
-- routecraft_graph/constants.py and the shapes of Graph IR v1 that ir.py and contracts.py accept.
use codex_routecraft.Prelude.{ℕ, Bool, true, false, String, Option, List}

pub data NodeType : Type 0 where
  agent tool deterministic gate merge human_approval memory_recall benchmark security checkpoint
        quality :
      NodeType

pub data NodeStatus : Type 0 where
  pending ready running accepted frozen failed invalidated blocked skipped cancelled : NodeStatus

pub data EdgeType : Type 0 where
  depends_on fan_out sequence merge gate_pass gate_fail send_back constraint_feedback : EdgeType

pub data GateResult : Type 0 where
  pass fail inconclusive : GateResult

pub data Risk : Type 0 where
  low medium high critical : Risk

pub data Mode : Type 0 where
  off observe enforce : Mode

pub data GraphStatus : Type 0 where
  draft compiled running blocked failed accepted cancelled : GraphStatus

-- The frozen sets of constants.py.
abbrev pub in_success_statuses : NodeStatus → Bool
in_success_statuses NodeStatus.accepted = true
in_success_statuses NodeStatus.frozen = true
in_success_statuses NodeStatus.skipped = true
in_success_statuses _ = false

abbrev pub in_dependency_edge_types : EdgeType → Bool
in_dependency_edge_types EdgeType.send_back = false
in_dependency_edge_types EdgeType.constraint_feedback = false
in_dependency_edge_types _ = true

abbrev pub in_conditional_edge_types : EdgeType → Bool
in_conditional_edge_types EdgeType.gate_pass = true
in_conditional_edge_types EdgeType.gate_fail = true
in_conditional_edge_types _ = false

-- An edge's condition: JSON null, one of the three typed objects, or a text, which no edge type
-- accepts.
pub data Condition : Type 0 where
  null : Condition
  gate_result : (equals : GateResult) → Condition
  control_transition : (on : GateResult) (max_transitions : ℕ) → Condition
  verified_constraint : (constraint_id : String) → Condition
  text : String → Condition

-- The JSON-schema subset of contracts.py: an object's properties and its required keys.
pub data Scalar : Type 0 where
  string integer number boolean null : Scalar

mutual
  pub data Schema : Type 0 where
    scalar : Scalar → Schema
    array : Schema
    array_of : Schema → Schema
    object : Properties → List String → Schema

  pub data Properties : Type 0 where
    end : Properties
    property : String → Schema → Properties → Properties

pub record RetryPolicy : Type 0 where
  pub max_attempts : ℕ
  pub max_tokens : Option ℕ
  pub max_duration_seconds : Option ℕ
  pub max_failed_gates : Option ℕ

-- `inconclusive` is always "FAIL" and is left out.
pub record GatePolicy : Type 0 where
  pub required : Bool
  pub is_global : Bool

pub record Ownership : Type 0 where
  pub workstream : String
  pub write_scopes : List String

pub record Node : Type 0 where
  pub node_id : String
  pub node_type : NodeType
  pub objective : String
  pub dependencies : List String
  pub ownership : Ownership
  pub input_schema : Schema
  pub output_schema : Schema
  pub lane : String
  pub reasoning_effort : String
  pub risk : Risk
  pub capability_profile : String
  pub allowed_tools : List String
  pub denied_operations : List String
  pub required_evidence_types : List String
  pub gate_policy : GatePolicy
  pub retry_policy : RetryPolicy
  pub status : NodeStatus
  pub attempt : ℕ
  pub input_hash : Option String
  pub output_hash : Option String
  pub evidence_refs : List String
  pub gate_result : Option GateResult

pub record Edge : Type 0 where
  pub source : String
  pub target : String
  pub edge_type : EdgeType
  pub condition : Condition
  pub data_contract : List (String × String)

pub record Constraint : Type 0 where
  pub constraint_id : String
  pub scope : String
  pub statement : String
  pub evidence_refs : List String
  pub confidence : String
  pub applies_to : List String
  pub invalidates : List String
  pub created_by : String

pub record Budget : Type 0 where
  pub max_tokens : Option ℕ
  pub max_duration_seconds : Option ℕ
  pub max_child_runs : Option ℕ

pub record Criterion : Type 0 where
  pub criterion_id : String
  pub statement : String

pub record Mutation : Type 0 where
  pub kind : String
  pub target_scope : String
  pub reversible : Bool

-- The Intent Contract, less the free-text keys that no decision of the kernel reads.
pub record Intent : Type 0 where
  pub request_summary : String
  pub acceptance_criteria : List Criterion
  pub risk_level : Risk
  pub external_mutations : List Mutation
  pub budget : Budget

pub record Graph : Type 0 where
  pub graph_id : String
  pub graph_revision : ℕ
  pub policy_version : String
  pub task_class : String
  pub mode : Mode
  pub event_classification : String
  pub nodes : List Node
  pub edges : List Edge
  pub intent : Intent
  pub global_acceptance : List Criterion
  pub constraints : List Constraint
  pub budgets : Budget
  pub created_at : String
  pub updated_at : String
  pub status : GraphStatus

-- What the kernel raises: Python's own errors, and the messages of StateTransitionError.
pub data GraphError : Type 0 where
  key_error : String → GraphError
  recursion_error : GraphError
  max_parallelism_not_positive : GraphError
  unknown_node : String → GraphError
  not_ready : GraphError
  accepted_before_running : GraphError
  gate_evidence_required : GraphError
  gate_result_on_other_node : GraphError
  cannot_fail : GraphError
  send_back_requires_gate : GraphError
  send_back_requires_failure : GraphError
  no_active_send_back : GraphError
  convergence_failed : GraphError
  send_back_target_not_retryable : GraphError
  only_failed_can_retry : GraphError
