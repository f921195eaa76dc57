-- ===== src/Core/Verification.antt =====
-- routecraft_core/verification.py: the Verification Budget of a request.
pub mod Bounds
pub mod Outcome
use codex_routecraft.Prelude.{
  ℕ, Bool, true, false, not, ◌&&◌, ◌||◌, String, Option, none, some, List, [], ◌∷◌, ◌++◌, contains,
  leb, length, ◌==◌, if◌then◌else◌,
}
use codex_routecraft.Core.Settings.{Setting, VerificationBudget}
use codex_routecraft.Core.Words.{
  Value, Items, Config, text_of, enum_token, word_in, normalized, is_safe_check, get, is_truthy,
}

pub record VerificationPlan : Type 0 where
  pub setting : Setting
  pub budget : VerificationBudget
  pub reason : String
  pub task_class : String
  pub change_scope : String
  pub risk_level : String
  pub targeted_checks : List String
  pub skipped_checks : List String
  pub max_targeted_checks : ℕ
  pub full_suite_allowed : Bool
  pub stop_condition : String
  pub event_classification : String

abbrev pub task_classes : List String
task_classes =
    "general" ∷ "debugging" ∷ "implementation" ∷ "ci" ∷ "refactor" ∷ "docs" ∷ "release"
    ∷ "integration" ∷ "test" ∷ []

abbrev pub change_scopes : List String
change_scopes = "none" ∷ "single_file" ∷ "module" ∷ "cross_module" ∷ "repository" ∷ "release" ∷ []

abbrev pub risk_levels : List String
risk_levels = "low" ∷ "medium" ∷ "high" ∷ "critical" ∷ []

abbrev pub event_classifications : List String
event_classifications =
    "normal" ∷ "token_burn_event" ∷ "reset_expectation" ∷ "benchmark_event" ∷ "migration_event"
    ∷ "stress_test" ∷ "manual_override" ∷ []

-- The words of `VerificationSetting`, with the two other names of AUTO_MIN.
unfoldable pub setting_of_word : List ℕ → Setting
unfolding word_in
setting_of_word cs = elim (word_in cs ("none" ∷ [])) [
  | some _ ↦ Setting.none
  | none ↦ elim (word_in cs ("min" ∷ [])) [
    | some _ ↦ Setting.min
    | none ↦ elim (word_in cs ("strict" ∷ [])) [
      | some _ ↦ Setting.strict
      | none ↦ elim (word_in cs ("release" ∷ [])) [
        | some _ ↦ Setting.release
        | none ↦ Setting.auto_min
      ]
    ]
  ]
]

unfoldable pub setting_of_value : Option Value → Setting
unfolding setting_of_word normalized
setting_of_value none = Setting.auto_min
setting_of_value (some v) = elim (text_of v) [
  | none ↦ Setting.auto_min
  | some s ↦ setting_of_word (normalized s)
]

-- `config.get("test_budget", config.get("verification_budget", "auto_min"))`
unfoldable pub setting_of : Config → Setting
unfolding setting_of_value get
setting_of c = elim (get c "test_budget") [
  | some v ↦ setting_of_value (some v)
  | none ↦ setting_of_value (get c "verification_budget")
]

abbrev pub is_false : Option Value → Bool
is_false (some (Value.bool false)) = true
is_false _ = false

abbrev pub is_one_of : List String → String → Bool
is_one_of ws w = contains ws w

-- What AUTO_MIN chooses, with its reason.
unfoldable pub automatic :
    (required : Bool) (task_class change_scope risk_level : String) → VerificationBudget × String
unfolding contains ◌==◌
automatic required task_class change_scope risk_level =
    if not required || (change_scope == "none") || (task_class == "docs")
    then (VerificationBudget.none, "verification_not_required")
    else if contains ("high" ∷ "critical" ∷ []) risk_level
        || contains ("cross_module" ∷ "repository" ∷ "release" ∷ []) change_scope
    then (VerificationBudget.strict, "auto_risk_or_scope_requires_strict")
    else (VerificationBudget.min, "auto_min_targeted_verification")

unfoldable pub choose_budget : Setting → VerificationBudget × String → VerificationBudget × String
choose_budget Setting.auto_min chosen = chosen
choose_budget Setting.none chosen = (VerificationBudget.none, "explicit_test_budget_override")
choose_budget Setting.min chosen = (VerificationBudget.min, "explicit_test_budget_override")
choose_budget Setting.strict chosen = (VerificationBudget.strict, "explicit_test_budget_override")
choose_budget Setting.release chosen = (VerificationBudget.release, "explicit_test_budget_override")

unfoldable pub limit_of : VerificationBudget → ℕ
limit_of VerificationBudget.none = 0
limit_of VerificationBudget.min = 3
limit_of VerificationBudget.strict = 8
limit_of VerificationBudget.release = 12

unfoldable pub stop_condition_of : VerificationBudget → String
stop_condition_of VerificationBudget.none = "no_check_required"
stop_condition_of VerificationBudget.min = "targeted_checks_pass"
stop_condition_of VerificationBudget.strict = "risk_checks_pass"
stop_condition_of VerificationBudget.release = "release_gate_pass"

unfoldable pub add_check : List String → Value → List String
unfolding is_safe_check contains
add_check result v = elim (text_of v) [
  | none ↦ result
  | some s ↦ (if is_safe_check s && not (contains result s) then result ++ s ∷ [] else result)
]

-- The loop of `_safe_checks`.
unfoldable pub collect_checks : ℕ → List String → Items → List String
unfolding add_check
collect_checks limit result Items.nil = result
collect_checks limit result (Items.item v vs) =
    let next = add_check result v in
    let more = collect_checks limit next vs in if leb limit (length next) then next else more

unfoldable pub safe_checks : Option Value → ℕ → List String
unfolding collect_checks
safe_checks (some (Value.array items)) limit = collect_checks limit [] items
safe_checks _ limit = []

-- The checks that a budget keeps, the checks that it skips, and whether the full suite may run.
unfoldable pub targeted_of : VerificationBudget → List String → List String
targeted_of VerificationBudget.none checks = []
targeted_of _ checks = checks

unfoldable pub skipped_of : VerificationBudget → List String
skipped_of VerificationBudget.release = []
skipped_of _ =
    "repository_full_suite" ∷ "full_e2e" ∷ "all_lint" ∷ "coverage" ∷ "multi_platform_build" ∷ []

unfoldable pub full_suite : VerificationBudget → Option Value → Bool
full_suite VerificationBudget.strict (some v) = is_truthy v
full_suite VerificationBudget.release (some v) = is_truthy v
full_suite _ _ = false

unfoldable pub required : Config → Bool
unfolding get
required c = not (is_false (get c "verification_required"))

unfoldable pub task_class_of : Config → String
unfolding enum_token get
task_class_of c = enum_token (get c "task_class") task_classes "general"

unfoldable pub change_scope_of : Config → String
unfolding enum_token get
change_scope_of c = enum_token (get c "change_scope") change_scopes "module"

unfoldable pub risk_level_of : Config → String
unfolding enum_token get
risk_level_of c = enum_token (get c "risk_level") risk_levels "medium"

-- The budget with its reason.
unfoldable pub budget_of : Config → VerificationBudget × String
unfolding setting_of automatic choose_budget required task_class_of change_scope_of risk_level_of
budget_of c =
    choose_budget (setting_of c)
      (automatic (required c) (task_class_of c) (change_scope_of c) (risk_level_of c))

unfoldable pub select_verification_plan : Config → VerificationPlan
unfolding setting_of enum_token get budget_of limit_of stop_condition_of safe_checks targeted_of
    skipped_of full_suite
select_verification_plan c =
    let (budget, reason) = budget_of c in
    record {
      setting = setting_of c;
      budget = budget;
      reason = reason;
      task_class = task_class_of c;
      change_scope = change_scope_of c;
      risk_level = risk_level_of c;
      targeted_checks =
          targeted_of budget (safe_checks (get c "verification_tests") (limit_of budget));
      skipped_checks = skipped_of budget;
      max_targeted_checks = limit_of budget;
      full_suite_allowed = full_suite budget (get c "full_suite_reason");
      stop_condition = stop_condition_of budget;
      event_classification =
          enum_token (get c "event_classification") event_classifications "normal";
    }
