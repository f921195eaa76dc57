-- ===== src/Graph/Contracts/Intent.antt =====
-- `validate_intent` of routecraft_graph/contracts.py, over JSON values. What `\d` matches is the
-- parameter `is_digit`.
pub mod Meaning
pub mod Valid
use codex_routecraft.Prelude.{
  ℕ, Bool, true, false, not, ◌&&◌, String, Option, none, some, List, [], ◌∷◌, ◌++◌, ◌≡◌, refl, ap,
  ◌∙◌, Result, ok, ◌>>=◌, >>=-elim, ok-injective, contains, length, leb, and-eq-true,
}
use codex_routecraft.Core.Words.{Value, Items, Fields, codes, strip}
use codex_routecraft.Graph.Compiler.Shape.{is_empty}
use codex_routecraft.Graph.Compiler.Issues.{append-eq-nil}
use codex_routecraft.Graph.Contracts.{ContractError, field_at, is_text}
use codex_routecraft.Graph.Contracts.Evidence.{
  keys_of, lacking, report, in_set, text_with, check_keys,
}
use codex_routecraft.Graph.Contracts.Patterns.{is_timestamp}

abbrev pub intent_keys : List String
intent_keys =
    "request_summary" ∷ "objectives" ∷ "non_goals" ∷ "constraints" ∷ "acceptance_criteria"
    ∷ "risk_level" ∷ "external_mutations" ∷ "approval_requirements" ∷ "privacy_boundary" ∷ "budget"
    ∷ "deadline_if_known" ∷ []

unfoldable pub every_item : (Value → Bool) → Items → Bool
every_item test Items.nil = true
every_item test (Items.item v items) = test v && every_item test items

abbrev pub list_with : (Value → Bool) → Option Value → Bool
list_with test (some (Value.array items)) = every_item test items
list_with test _ = false

-- `isinstance(v, dict) and set(v) == keys and ...`
unfoldable pub has_only : List String → Fields → Bool
unfolding lacking keys_of
has_only keys fields =
    is_empty (lacking keys (keys_of fields)) && is_empty (lacking (keys_of fields) keys)

abbrev pub object_with : List String → (Fields → Bool) → Value → Bool
object_with keys test (Value.object fields) = has_only keys fields && test fields
object_with keys test _ = false

abbrev pub is_text_at : Option Value → Bool
is_text_at (some v) = is_text v
is_text_at none = false

abbrev pub is_bool_at : Option Value → Bool
is_bool_at (some (Value.bool _)) = true
is_bool_at _ = false

unfoldable pub is_criterion : Value → Bool
unfolding field_at has_only
is_criterion v =
    object_with ("criterion_id" ∷ "statement" ∷ [])
      (λ fields.
        is_text_at (field_at fields "criterion_id") && is_text_at (field_at fields "statement"))
      v

unfoldable pub is_mutation : Value → Bool
unfolding field_at has_only
is_mutation v =
    object_with ("kind" ∷ "target_scope" ∷ "reversible" ∷ [])
      (λ fields.
        is_text_at (field_at fields "kind")
        && is_text_at (field_at fields "target_scope")
        && is_bool_at (field_at fields "reversible"))
      v

unfoldable pub is_approval : Value → Bool
unfolding field_at has_only
is_approval v =
    object_with ("operation" ∷ "required" ∷ [])
      (λ fields.
        is_text_at (field_at fields "operation") && is_bool_at (field_at fields "required"))
      v

unfoldable pub is_boundary : Value → Bool
unfolding field_at has_only every_item
is_boundary v =
    object_with ("local_only" ∷ "exportable" ∷ [])
      (λ fields.
        list_with is_text (field_at fields "local_only")
        && list_with is_text (field_at fields "exportable"))
      v

-- Null, or an integer that is not negative.
abbrev pub is_limit : Option Value → Bool
is_limit (some (Value.num _)) = true
is_limit (some Value.null) = true
is_limit _ = false

unfoldable pub is_budget : Value → Bool
unfolding field_at has_only
is_budget v =
    object_with ("max_tokens" ∷ "max_duration_seconds" ∷ "max_child_runs" ∷ [])
      (λ fields.
        is_limit (field_at fields "max_tokens")
        && is_limit (field_at fields "max_duration_seconds")
        && is_limit (field_at fields "max_child_runs"))
      v

-- A test of a key's value that a missing key does not pass.
abbrev pub passes : (Value → Bool) → Option Value → Bool
passes test none = false
passes test (some v) = test v

abbrev pub check_criteria : Option Value → List String
check_criteria (some (Value.array (Items.item v items))) =
    report (not (is_criterion v && every_item is_criterion items))
      "intent acceptance criterion invalid"
check_criteria _ = "intent requires acceptance criteria" ∷ []

-- No deadline, null, or a time.
unfoldable pub is_deadline : (ℕ → Bool) → Option Value → Bool
unfolding is_timestamp
is_deadline is_digit none = true
is_deadline is_digit (some Value.null) = true
is_deadline is_digit v = text_with (is_timestamp is_digit) v

unfoldable pub has_words : String → Bool
unfolding strip
has_words s = leb 1 (length (strip (codes s)))

unfoldable pub validate_intent_value :
    (is_digit : ℕ → Bool) → Value → Result ContractError (List String)
unfolding check_keys field_at has_words is_criterion is_mutation is_approval is_boundary is_budget
    every_item contains is_deadline
validate_intent_value is_digit (Value.object fields) = do
  known ← in_set (field_at fields "risk_level") ("low" ∷ "medium" ∷ "high" ∷ "critical" ∷ [])
  ok (
      check_keys "intent" intent_keys fields
      ++ report (not (text_with has_words (field_at fields "request_summary")))
          "intent request_summary invalid"
      ++ report (not (list_with is_text (field_at fields "objectives"))) "intent objectives invalid"
      ++ report (not (list_with is_text (field_at fields "non_goals"))) "intent non_goals invalid"
      ++ report (not (list_with is_text (field_at fields "constraints")))
          "intent constraints invalid"
      ++ report (not known) "intent risk_level invalid"
      ++ check_criteria (field_at fields "acceptance_criteria")
      ++ report (not (list_with is_mutation (field_at fields "external_mutations")))
          "intent external_mutations invalid"
      ++ report (not (list_with is_approval (field_at fields "approval_requirements")))
          "intent approval requirements invalid"
      ++ report (not (passes is_boundary (field_at fields "privacy_boundary")))
          "intent privacy boundary invalid"
      ++ report (not (passes is_budget (field_at fields "budget"))) "intent budget invalid"
      ++ report (not (is_deadline is_digit (field_at fields "deadline_if_known")))
          "intent deadline invalid")
validate_intent_value is_digit _ = ok ("intent must be object" ∷ [])
