-- ===== src/Graph/Compiler/Checks.antt =====
-- `compile_graph` of routecraft_graph/compiler.py: the checks of nodes, edges and constraints.
use Prim.Native.String.{◌++◌ as ◌<>◌}
use codex_routecraft.Prelude.{
  ℕ, Bool, true, false, not, ◌&&◌, ◌||◌, String, Option, none, some, List, [], ◌∷◌, ◌++◌, map, keep,
  any, contains, distinct, sorted, sort_by, text_le, length, ltb, leb, ◌==◌, if◌then◌else◌,
}
use codex_routecraft.Core.Words.{same_number}
use codex_routecraft.Graph.Types.{
  GateResult, EdgeType, Condition, Node, Edge, Constraint, Graph, in_dependency_edge_types,
}
use codex_routecraft.Graph.Ir.{validate_edge_condition, edge_type_text}
use codex_routecraft.Graph.Closure.{Pairs}
use codex_routecraft.Graph.Scheduler.{by_id}
use codex_routecraft.Graph.Compiler.{outgoing, reaches}
use codex_routecraft.Graph.Compiler.Orders.{schema_compatible}
use codex_routecraft.Graph.Compiler.Shape.{is_human_approval, is_given, is_empty, condition_message}
use codex_routecraft.Graph.State.{is_gate, is_send_back}
use codex_routecraft.Graph.Compiler.Issues

-- `(a, b) in pairs`
unfoldable pub has_pair : Pairs → String → String → Bool
unfolding any ◌==◌
has_pair ps a b = any (λ p. (p.0 == a) && (p.1 == b)) ps

unfoldable pub ids_in : Graph → List String
ids_in g = map (λ n. n.node_id) g.nodes

-- `len(xs) != len(set(xs))`
unfoldable pub has_repeats : List String → Bool
unfolding distinct
has_repeats xs = ltb (length (distinct xs)) (length xs)

abbrev pub condition_texts : Condition → List String
condition_texts Condition.null = "null" ∷ []
condition_texts (Condition.gate_result GateResult.pass) = "gate_result" ∷ "PASS" ∷ []
condition_texts (Condition.gate_result GateResult.fail) = "gate_result" ∷ "FAIL" ∷ []
condition_texts (Condition.gate_result GateResult.inconclusive) =
    "gate_result" ∷ "INCONCLUSIVE" ∷ []
condition_texts (Condition.control_transition GateResult.pass _) = "control" ∷ "PASS" ∷ []
condition_texts (Condition.control_transition GateResult.fail _) = "control" ∷ "FAIL" ∷ []
condition_texts (Condition.control_transition GateResult.inconclusive _) =
    "control" ∷ "INCONCLUSIVE" ∷ []
condition_texts (Condition.verified_constraint id) = "constraint" ∷ id ∷ []
condition_texts (Condition.text s) = "text" ∷ s ∷ []

abbrev pub condition_number : Condition → ℕ
condition_number (Condition.control_transition _ maximum) = maximum
condition_number _ = 0

unfoldable pub same_texts : List String → List String → Bool
unfolding ◌==◌
same_texts [] [] = true
same_texts [] (_ ∷ _) = false
same_texts (_ ∷ _) [] = false
same_texts (a ∷ as') (b ∷ bs) = (a == b) && same_texts as' bs

-- `tuple(sorted(edge["data_contract"].items()))`
unfoldable pub sorted_contract : List (String × String) → List String
unfolding sort_by text_le
sorted_contract entries =
    Issues.each (λ (entry : String × String). entry.0 ∷ entry.1 ∷ [])
      (sort_by (λ a b. text_le a.0 b.0) entries)

-- Two edges with one key. A condition's text is taken to stand for the condition: conditions whose
-- keys are written in another order are the same here.
unfoldable pub same_edge : Edge → Edge → Bool
unfolding ◌==◌ same_texts sorted_contract
same_edge a b =
    (a.source == b.source)
    && (a.target == b.target)
    && (edge_type_text a.edge_type == edge_type_text b.edge_type)
    && same_texts (condition_texts a.condition) (condition_texts b.condition)
    && same_number (condition_number a.condition) (condition_number b.condition)
    && same_texts (sorted_contract a.data_contract) (sorted_contract b.data_contract)

unfoldable pub has_duplicate_edge : List Edge → Bool
unfolding same_edge any
has_duplicate_edge [] = false
has_duplicate_edge (e ∷ es) = any (same_edge e) es || has_duplicate_edge es

-- The node, and its type as a test that is "no" for a node that is missing.
unfoldable pub is_known : Graph → String → Bool
unfolding by_id
is_known g id = is_given (by_id g id)

unfoldable pub check_dependency : Graph → Node → String → List Issues.CompileIssue
unfolding is_known has_pair outgoing
check_dependency g n dep =
    if not (is_known g dep)
    then Issues.flag true Issues.dependency_missing (n.node_id <> " -> " <> dep)
    else Issues.flag (not (has_pair (outgoing g.edges) dep n.node_id)) Issues.dependency_missing
        ("missing edge " <> dep <> " -> " <> n.node_id)

unfoldable pub check_node : Graph → Node → List Issues.CompileIssue
unfolding check_dependency contains
check_node g n =
    Issues.each (check_dependency g n) n.dependencies
    ++ Issues.flag
        (n.gate_policy.required
          && not (is_gate n.node_type)
          && not (is_human_approval n.node_type)
          && is_empty n.required_evidence_types)
        Issues.gate_missing n.node_id
    ++ Issues.flag
        (is_human_approval n.node_type && not (contains n.required_evidence_types "human_approval"))
        Issues.approval_required (n.node_id <> " requires human_approval evidence")
    ++ Issues.flag (ltb n.retry_policy.max_attempts 1) Issues.retry_budget_invalid n.node_id

-- The `max_transitions` of a condition that has one.
abbrev pub maximum_of : Condition → Option ℕ
maximum_of (Condition.control_transition _ maximum) = some maximum
maximum_of _ = none

-- `isinstance(maximum, int) and maximum >= node["retry_policy"]["max_attempts"]`
abbrev pub exceeds : Condition → Node → Bool
exceeds condition n = elim (maximum_of condition) [
  | none ↦ false
  | some maximum ↦ leb n.retry_policy.max_attempts maximum
]

-- A test of a node that may be missing.
abbrev pub when {ℓ} : {A : Type ℓ} → Option A → (A → Bool) → Bool
when none test = false
when (some a) test = test a

unfoldable pub check_send_back : Graph → Edge → List Issues.CompileIssue
unfolding by_id reaches
check_send_back g e =
    let source = by_id g e.source in
    let target = by_id g e.target in
    Issues.flag (when source (λ s. not (is_gate s.node_type))) Issues.send_back_invalid
      "send_back source must be a GATE node"
    ++ Issues.flag (when source (λ s. when target (λ t. not (reaches t.node_id s.node_id g.edges))))
        Issues.send_back_invalid "send_back target must be upstream of its gate"
    ++ Issues.flag (when target (λ t. exceeds e.condition t)) Issues.retry_budget_invalid
        "send_back exceeds remaining target retry budget"
    ++ Issues.flag (when target (λ _. when source (λ s. exceeds e.condition s)))
        Issues.retry_budget_invalid "send_back exceeds remaining Gate evaluation budget"
    ++ Issues.flag (not (is_empty e.data_contract)) Issues.data_contract_mismatch
        "send_back may not transfer data"

abbrev pub is_gate_fail : EdgeType → Bool
is_gate_fail EdgeType.gate_fail = true
is_gate_fail _ = false

-- The dependency edge of two nodes that are known.
unfoldable pub check_contract : Edge → Node → Node → List Issues.CompileIssue
unfolding contains schema_compatible
check_contract e source target =
    Issues.flag (not (contains target.dependencies e.source)) Issues.dependency_missing
      ("node contract missing " <> e.source <> " -> " <> e.target)
    ++ Issues.flag (not (schema_compatible source.output_schema target.input_schema))
        Issues.data_contract_mismatch (e.source <> " -> " <> e.target)

unfoldable pub check_endpoints : Graph → Edge → List Issues.CompileIssue
unfolding by_id check_contract
check_endpoints g e = elim (by_id g e.source) [
  | none ↦ Issues.flag true Issues.edge_endpoint_invalid (e.source <> " -> " <> e.target)
  | some source ↦ elim (by_id g e.target) [
    | none ↦ Issues.flag true Issues.edge_endpoint_invalid (e.source <> " -> " <> e.target)
    | some target ↦
        if in_dependency_edge_types e.edge_type then check_contract e source target else []
  ]
]

unfoldable pub check_edge : Graph → Edge → List Issues.CompileIssue
unfolding check_endpoints check_send_back validate_edge_condition by_id
check_edge g e =
    check_endpoints g e
    ++ Issues.flag (not (validate_edge_condition e.edge_type e.condition))
        Issues.edge_condition_invalid (condition_message e.edge_type e.condition)
    ++ Issues.flag
        (is_gate_fail e.edge_type && when (by_id g e.source) (λ s. not (is_gate s.node_type)))
        Issues.edge_condition_invalid "gate_fail source must be a GATE node"
    ++ (if is_send_back e.edge_type then check_send_back g e else [])

-- `(set(applies_to) | set(invalidates)) - node_ids`, sorted
unfoldable pub unknown_nodes : Graph → Constraint → List String
unfolding keep contains sorted distinct ids_in
unknown_nodes g c =
    sorted (distinct (keep (λ id. not (contains (ids_in g) id)) (c.applies_to ++ c.invalidates)))

unfoldable pub check_constraints : Graph → List String → List Constraint → List Issues.CompileIssue
unfolding contains unknown_nodes
check_constraints g seen [] = []
check_constraints g seen (c ∷ cs) =
    Issues.flag (contains seen c.constraint_id) Issues.ir_schema_invalid
      ("duplicate constraint " <> c.constraint_id)
    ++ Issues.flag (not (is_empty (unknown_nodes g c))) Issues.dependency_missing
        ("constraint references " <> Issues.join (unknown_nodes g c))
    ++ check_constraints g (c.constraint_id ∷ seen) cs
