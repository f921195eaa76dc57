-- ===== src/Graph/Contracts/Intent/Valid.antt =====
-- `validate_intent` of routecraft_graph/contracts.py, and what an Intent Contract consists of.
use codex_routecraft.Prelude.{
  ℕ, Bool, true, ◌&&◌, String, Option, none, some, [], ◌∷◌, ◌≡◌, refl, ap, ◌∙◌, inl, inr, ok,
  >>=-elim, ok-injective, and-eq-true,
}
use codex_routecraft.Core.Words.{Value, Items, Fields, codes, strip}
use codex_routecraft.Graph.Compiler.Issues.{append-eq-nil}
use codex_routecraft.Graph.Contracts.{field_at, is_text}
use codex_routecraft.Graph.Contracts.Evidence.{in_set}
use codex_routecraft.Graph.Contracts.Patterns.Meaning.{is_timestamp-IsTime}
use codex_routecraft.Graph.Contracts.Entries.{
  HasText-HasEntry, accepted, nonempty, in_set-HasText, check_keys-HasKeys, text_with-HasText,
}
use codex_routecraft.Graph.Contracts.Intent.{
  intent_keys, every_item, list_with, is_text_at, is_bool_at, is_criterion, is_mutation,
  is_approval, is_boundary, is_limit, is_budget, check_criteria, is_deadline, has_words,
  validate_intent_value,
}
use codex_routecraft.Graph.Contracts.Intent.Meaning.{
  IsCriterion, IsMutation, IsApproval, IsBoundary, IsBudget, IsText, DeadlineAt, CriteriaAt,
  IsIntent, is_text-IsText, is_text_at-TextAt, is_bool_at-BoolAt, is_limit-LimitAt,
  list_with-ListAt, passes_entry, every_item-Each, object_with-IsObject,
}

is_criterion-IsCriterion : (v : Value) → is_criterion v ≡ true → IsCriterion v
unfolding is_criterion
is_criterion-IsCriterion = object_with-IsObject ("criterion_id" ∷ "statement" ∷ []) _ _ λ fields h.
    let (name, statement) =
      (and-eq-true (is_text_at (field_at fields "criterion_id"))
          (is_text_at (field_at fields "statement"))).0
        h in
    (is_text_at-TextAt fields "criterion_id" name, is_text_at-TextAt fields "statement" statement)

is_mutation-IsMutation : (v : Value) → is_mutation v ≡ true → IsMutation v
unfolding is_mutation
is_mutation-IsMutation =
    object_with-IsObject ("kind" ∷ "target_scope" ∷ "reversible" ∷ []) _ _ λ fields h.
      let (texts, reversible) =
        (and-eq-true
            (is_text_at (field_at fields "kind") && is_text_at (field_at fields "target_scope"))
            (is_bool_at (field_at fields "reversible"))).0
          h in
      let (kind, scope) =
        (and-eq-true (is_text_at (field_at fields "kind"))
            (is_text_at (field_at fields "target_scope"))).0
          texts in
      (
        is_text_at-TextAt fields "kind" kind,
        is_text_at-TextAt fields "target_scope" scope,
        is_bool_at-BoolAt fields "reversible" reversible,
      )

is_approval-IsApproval : (v : Value) → is_approval v ≡ true → IsApproval v
unfolding is_approval
is_approval-IsApproval = object_with-IsObject ("operation" ∷ "required" ∷ []) _ _ λ fields h.
    let (operation, required) =
      (and-eq-true (is_text_at (field_at fields "operation"))
          (is_bool_at (field_at fields "required"))).0
        h in
    (is_text_at-TextAt fields "operation" operation, is_bool_at-BoolAt fields "required" required)

is_boundary-IsBoundary : (v : Value) → is_boundary v ≡ true → IsBoundary v
unfolding is_boundary
is_boundary-IsBoundary = object_with-IsObject ("local_only" ∷ "exportable" ∷ []) _ _ λ fields h.
    let (local, exportable) =
      (and-eq-true (list_with is_text (field_at fields "local_only"))
          (list_with is_text (field_at fields "exportable"))).0
        h in
    (
      list_with-ListAt is_text IsText is_text-IsText fields "local_only" local,
      list_with-ListAt is_text IsText is_text-IsText fields "exportable" exportable,
    )

is_budget-IsBudget : (v : Value) → is_budget v ≡ true → IsBudget v
unfolding is_budget
is_budget-IsBudget =
    object_with-IsObject ("max_tokens" ∷ "max_duration_seconds" ∷ "max_child_runs" ∷ []) _ _
      λ fields h.
        let (two, runs) =
          (and-eq-true
              (is_limit (field_at fields "max_tokens")
                && is_limit (field_at fields "max_duration_seconds"))
              (is_limit (field_at fields "max_child_runs"))).0
            h in
        let (tokens, seconds) =
          (and-eq-true (is_limit (field_at fields "max_tokens"))
              (is_limit (field_at fields "max_duration_seconds"))).0
            two in
        (
          is_limit-LimitAt fields "max_tokens" tokens,
          is_limit-LimitAt fields "max_duration_seconds" seconds,
          is_limit-LimitAt fields "max_child_runs" runs,
        )

check_criteria-CriteriaAt :
    (fields : Fields) (key : String)
    → check_criteria (field_at fields key) ≡ []
    → CriteriaAt fields key
check_criteria-CriteriaAt fields key h = by_value (field_at fields key) refl h
  where
    by_value :
        (o : Option Value) → field_at fields key ≡ o → check_criteria o ≡ [] → CriteriaAt fields key
    by_value none e h = cc
    by_value (some (Value.array Items.nil)) e h = cc
    by_value (some (Value.array (Items.item v items))) e h =
        let (first, rest) =
          (and-eq-true (is_criterion v) (every_item is_criterion items)).0 (accepted _ _ h) in
        (
          v,
          items,
          e,
          is_criterion-IsCriterion v first,
          every_item-Each is_criterion IsCriterion is_criterion-IsCriterion items rest,
        )
    by_value (some (Value.text s)) e h = cc
    by_value (some Value.null) e h = cc
    by_value (some (Value.bool b)) e h = cc
    by_value (some (Value.num n)) e h = cc
    by_value (some (Value.negative n)) e h = cc
    by_value (some (Value.fraction m d k)) e h = cc
    by_value (some (Value.object entries)) e h = cc

is_deadline-DeadlineAt :
    (d : ℕ → Bool) (fields : Fields) (key : String)
    → is_deadline d (field_at fields key) ≡ true
    → DeadlineAt d fields key
unfolding is_deadline
is_deadline-DeadlineAt d fields key h = by_value (field_at fields key) refl h
  where
    by_value :
        (o : Option Value)
        → field_at fields key ≡ o
        → is_deadline d o ≡ true
        → DeadlineAt d fields key
    by_value none e h = inl e
    by_value (some Value.null) e h = inr (inl e)
    by_value (some (Value.text s)) e h = inr (inr (s, e, is_timestamp-IsTime d s h))
    by_value (some (Value.bool b)) e h = cc
    by_value (some (Value.num n)) e h = cc
    by_value (some (Value.negative n)) e h = cc
    by_value (some (Value.fraction m dd k)) e h = cc
    by_value (some (Value.array items)) e h = cc
    by_value (some (Value.object entries)) e h = cc

has_words-nonempty : (s : String) → has_words s ≡ true → strip (codes s) ≡ [] → ⊥
unfolding has_words
has_words-nonempty s h = nonempty (strip (codes s)) h

-- An Intent Contract without errors has exactly the eleven keys, a summary that is not blank, lists
-- of texts as objectives, non-goals and constraints, one of the four risk levels, and at least one
-- acceptance criterion. Each criterion has exactly an id and a statement, each external mutation a
-- kind, a scope and whether it is reversible, and each approval requirement an operation and whether
-- it is required. The privacy boundary has exactly two lists of texts, and the budget exactly three
-- limits, each null or an integer that is not negative. The deadline is missing, null, or a time.
pub validate_intent_value-IsIntent :
    (is_digit : ℕ → Bool) (fields : Fields)
    → validate_intent_value is_digit (Value.object fields) ≡ ok []
    → IsIntent is_digit fields
unfolding validate_intent_value
validate_intent_value-IsIntent is_digit fields e =
    >>=-elim (in_set (field_at fields "risk_level") ("low" ∷ "medium" ∷ "high" ∷ "critical" ∷ [])) e
      λ known is e.
        let texts = list_with-ListAt is_text IsText is_text-IsText fields in
        let e = ok-injective e in
        let (e, deadline) = append-eq-nil _ _ e in
        let (e, budget) = append-eq-nil _ _ e in
        let (e, boundary) = append-eq-nil _ _ e in
        let (e, approvals) = append-eq-nil _ _ e in
        let (e, mutations) = append-eq-nil _ _ e in
        let (e, criteria) = append-eq-nil _ _ e in
        let (e, risk) = append-eq-nil _ _ e in
        let (e, constraints) = append-eq-nil _ _ e in
        let (e, others) = append-eq-nil _ _ e in
        let (e, objectives) = append-eq-nil _ _ e in
        let (keys, summary) = append-eq-nil _ _ e in
        record {
          keys = check_keys-HasKeys "intent" intent_keys fields keys;
          request_summary =
              HasText-HasEntry has_words _ fields "request_summary" has_words-nonempty
                (text_with-HasText has_words fields "request_summary" (accepted _ _ summary));
          objectives = texts "objectives" (accepted _ _ objectives);
          non_goals = texts "non_goals" (accepted _ _ others);
          constraints = texts "constraints" (accepted _ _ constraints);
          risk_level =
              in_set-HasText fields "risk_level" ("low" ∷ "medium" ∷ "high" ∷ "critical" ∷ [])
                (is ∙ ap ok (accepted known _ risk));
          acceptance_criteria = check_criteria-CriteriaAt fields "acceptance_criteria" criteria;
          external_mutations =
              list_with-ListAt is_mutation IsMutation is_mutation-IsMutation fields
                "external_mutations" (accepted _ _ mutations);
          approval_requirements =
              list_with-ListAt is_approval IsApproval is_approval-IsApproval fields
                "approval_requirements" (accepted _ _ approvals);
          privacy_boundary =
              passes_entry is_boundary IsBoundary is_boundary-IsBoundary fields "privacy_boundary"
                (accepted _ _ boundary);
          budget =
              passes_entry is_budget IsBudget is_budget-IsBudget fields "budget"
                (accepted _ _ budget);
          deadline =
              is_deadline-DeadlineAt is_digit fields "deadline_if_known" (accepted _ _ deadline);
        }
