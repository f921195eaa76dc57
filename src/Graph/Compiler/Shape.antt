-- ===== src/Graph/Compiler/Shape.antt =====
-- routecraft_graph/ir.py: `validate_node`, `validate_edge`, `validate_ir_shape`, and the intent and
-- constraint checks of routecraft_graph/contracts.py, on graphs whose JSON has the right shape:
-- what is left are the checks of values. The messages are the source's.
use codex_routecraft.Prelude.{
  ℕ, Bool, true, false, not, ◌&&◌, ◌||◌, String, Option, none, some, List, [], ◌∷◌, ◌++◌, all, any,
  contains, length, ltb, leb, ◌==◌,
}
use text.Mathlib.Text.{starts_with}
use codex_routecraft.Core.Words.{codes, strip, same_number, between}
use codex_routecraft.Graph.Types.{
  NodeType, EdgeType, Condition, GateResult, Node, Edge, Constraint, Criterion, Budget, Intent,
  Graph,
}
use codex_routecraft.Graph.Ir.{validate_edge_condition}
use codex_routecraft.Graph.State.{is_gate}
use codex_routecraft.Graph.Compiler.Issues.{CompileIssue, ir_schema_invalid, flag, each}

abbrev pub is_agent : NodeType → Bool
is_agent NodeType.agent = true
is_agent _ = false

abbrev pub is_tool : NodeType → Bool
is_tool NodeType.tool = true
is_tool _ = false

abbrev pub is_human_approval : NodeType → Bool
is_human_approval NodeType.human_approval = true
is_human_approval _ = false

abbrev pub is_merge_or_quality : NodeType → Bool
is_merge_or_quality NodeType.merge = true
is_merge_or_quality NodeType.quality = true
is_merge_or_quality _ = false

abbrev pub is_given {ℓ} : {A : Type ℓ} → Option A → Bool
is_given none = false
is_given (some _) = true

abbrev pub is_empty {ℓ} : {A : Type ℓ} → List A → Bool
is_empty [] = true
is_empty (_ ∷ _) = false

-- `errors.append(message)`, reported as IR_SCHEMA_INVALID.
abbrev pub invalid : Bool → String → List CompileIssue
invalid test message = flag test ir_schema_invalid message

abbrev pub hexadecimal : ℕ → Bool
hexadecimal c = between b'0' b'9' c || between b'a' b'f' c

-- The characters of the text: seven, which are "sha256:", and 64 digits.
unfoldable pub has_digest : String → List ℕ → Bool
unfolding all
has_digest s (s0 ∷ h0 ∷ a0 ∷ d0 ∷ d1 ∷ d2 ∷ colon ∷ digits) =
    starts_with s "sha256:"
    && all hexadecimal digits
    && leb (length digits) 64
    && leb 64 (length digits)
has_digest s _ = false

unfoldable pub is_digest : String → Bool
unfolding has_digest
is_digest s = has_digest s (codes s)

-- A scope is relative, and names no drive.
unfoldable pub valid_scope : String → Bool
unfolding any ◌==◌
valid_scope s =
    not (s == "")
    && not (starts_with s "/")
    && not (starts_with s "\\")
    && not (any (λ c. same_number c b':') (codes s))

unfoldable pub wrong_hash : Option String → Bool
unfolding is_digest
wrong_hash none = false
wrong_hash (some h) = not (is_digest h)

unfoldable pub validate_node : Node → List CompileIssue
unfolding ◌==◌ all valid_scope wrong_hash
validate_node n =
    invalid (n.node_id == "") "node_id invalid"
    ++ invalid (not (is_gate n.node_type) && is_given n.gate_result) "non-gate has gate result"
    ++ invalid (not (all valid_scope n.ownership.write_scopes)) "node ownership invalid"
    ++ invalid (n.objective == "") "node objective invalid"
    ++ invalid (wrong_hash n.input_hash) "node input hash invalid"
    ++ invalid (wrong_hash n.output_hash) "node output hash invalid"
    ++ invalid (not (all (λ t. not (t == "")) n.required_evidence_types))
        "node verification invalid"
    ++ invalid (ltb n.retry_policy.max_attempts 1) "node retry policy invalid"
    ++ invalid (is_agent n.node_type && (n.lane == "none")) "agent needs lane"
    ++ invalid
        (is_merge_or_quality n.node_type
          && (n.lane == "none")
          && not (n.capability_profile == "deterministic-v1"))
        "deterministic merge/quality capability invalid"

-- The message for a condition that `validate_edge_condition` refuses.
abbrev pub condition_message : EdgeType → Condition → String
condition_message EdgeType.gate_pass _ = "gate edge condition must be typed gate_result predicate"
condition_message EdgeType.gate_fail _ = "gate edge condition must be typed gate_result predicate"
condition_message EdgeType.send_back (Condition.control_transition GateResult.fail _) =
    "send_back max_transitions invalid"
condition_message EdgeType.send_back (Condition.control_transition _ _) =
    "send_back condition must trigger on FAIL"
condition_message EdgeType.send_back _ =
    "send_back condition must be typed bounded control transition"
condition_message EdgeType.constraint_feedback (Condition.verified_constraint _) =
    "constraint feedback condition invalid"
condition_message EdgeType.constraint_feedback _ = "constraint feedback condition must be typed"
condition_message _ _ = "ordinary dependency condition must be null"

unfoldable pub validate_edge : Edge → List CompileIssue
unfolding validate_edge_condition all contains ◌==◌
validate_edge e =
    invalid (not (validate_edge_condition e.edge_type e.condition))
      (condition_message e.edge_type e.condition)
    ++ invalid
        (not (all (λ entry. contains ("producer" ∷ "consumer" ∷ []) entry.0) e.data_contract))
        "edge data contract invalid"

unfoldable pub validate_verified_constraint : Constraint → List CompileIssue
unfolding contains ◌==◌
validate_verified_constraint c =
    invalid (not (contains ("graph" ∷ "node" ∷ "artifact" ∷ "interface" ∷ []) c.scope))
      "constraint scope invalid"
    ++ invalid (not (contains ("high" ∷ "medium" ∷ "low" ∷ []) c.confidence))
        "constraint confidence invalid"
    ++ invalid (is_empty c.evidence_refs) "constraint needs evidence refs"
    ++ invalid (c.constraint_id == "") "constraint constraint_id invalid"
    ++ invalid (c.statement == "") "constraint statement invalid"
    ++ invalid (c.created_by == "") "constraint created_by invalid"

abbrev pub same_limit : Option ℕ → Option ℕ → Bool
same_limit none none = true
same_limit none (some _) = false
same_limit (some _) none = false
same_limit (some a) (some b) = same_number a b

unfoldable pub same_budget : Budget → Budget → Bool
same_budget a b =
    same_limit a.max_tokens b.max_tokens
    && same_limit a.max_duration_seconds b.max_duration_seconds
    && same_limit a.max_child_runs b.max_child_runs

unfoldable pub same_criteria : List Criterion → List Criterion → Bool
unfolding ◌==◌
same_criteria [] [] = true
same_criteria [] (_ ∷ _) = false
same_criteria (_ ∷ _) [] = false
same_criteria (a ∷ as') (b ∷ bs) =
    (a.criterion_id == b.criterion_id) && (a.statement == b.statement) && same_criteria as' bs

-- The values of EVENT_CLASSIFICATIONS.
abbrev pub known_events : List String
known_events =
    "normal" ∷ "benchmark_run" ∷ "migration_event" ∷ "incident_response" ∷ "token_burn_event"
    ∷ "reset_expectation" ∷ "manual_stress_test" ∷ "release_validation" ∷ []

-- `is_time` is the match of the time pattern by `re`.
unfoldable pub validate_ir_shape : (is_time : String → Bool) → Graph → List CompileIssue
unfolding ◌==◌ contains each validate_node validate_edge same_criteria validate_verified_constraint
validate_ir_shape is_time g =
    invalid (not (starts_with g.graph_id "g_")) "graph_id invalid"
    ++ invalid (ltb g.graph_revision 1) "graph revision invalid"
    ++ invalid (not (contains known_events g.event_classification)) "event classification invalid"
    ++ invalid (is_empty g.nodes) "nodes invalid"
    ++ each validate_node g.nodes
    ++ each validate_edge g.edges
    ++ invalid (not (same_criteria g.global_acceptance g.intent.acceptance_criteria))
        "global acceptance must match intent acceptance criteria"
    ++ each validate_verified_constraint g.constraints
    ++ invalid (g.policy_version == "") "policy version invalid"
    ++ invalid (g.task_class == "") "task class invalid"
    ++ invalid (not (is_time g.created_at)) "created_at invalid"
    ++ invalid (not (is_time g.updated_at)) "updated_at invalid"

-- `validate_intent`, on the keys that `Intent` has.
unfoldable pub validate_intent : Intent → List CompileIssue
unfolding strip
validate_intent i =
    invalid (ltb (length (strip (codes i.request_summary))) 1) "intent request_summary invalid"
    ++ invalid (is_empty i.acceptance_criteria) "intent requires acceptance criteria"
