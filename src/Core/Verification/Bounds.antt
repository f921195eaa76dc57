-- ===== src/Core/Verification/Bounds.antt =====
-- What a selected budget bounds.
use codex_routecraft.Prelude.{
  ℕ, ◌+◌, ◌≤◌, ◌<◌, Bool, true, String, Option, none, some, List, [], ◌∷◌, ◌++◌, ◌≡◌, refl, ◌≢◌,
  arith, length, length-append,
}
use codex_routecraft.Core.Words.{Value, Items, Config, is_safe_check, get}
use codex_routecraft.Core.Settings.{Setting, VerificationBudget}
use codex_routecraft.Core.Verification.{
  VerificationPlan, setting_of, automatic, choose_budget, limit_of, add_check, collect_checks,
  safe_checks, targeted_of, full_suite, select_verification_plan, required, task_class_of,
  change_scope_of, risk_level_of, budget_of,
}

length-add_check :
    (result : List String) (v : Value) → length (add_check result v) ≤ length result + 1
unfolding add_check
length-add_check result (Value.text s) = ground (arith, length-append result (s ∷ []))
length-add_check result _ = omega arith

length-collect_checks :
    (limit : ℕ) (result : List String) (items : Items)
    → length result < limit
    → length (collect_checks limit result items) ≤ limit
unfolding collect_checks
length-collect_checks limit result Items.nil h = omega arith
length-collect_checks limit result (Items.item v vs) h =
    ground (arith, length-add_check result v, length-collect_checks limit (add_check result v) vs)

-- Safe names, each once.
abbrev pub AreSafe : List String → Type 0
AreSafe [] = Unit
AreSafe (s ∷ ss) = (is_safe_check s ≡ true) × AreSafe ss

AreSafe-snoc :
    (ss : List String) (s : String) → AreSafe ss → is_safe_check s ≡ true → AreSafe (ss ++ s ∷ [])
AreSafe-snoc [] s h k = (k, tt)
AreSafe-snoc (t ∷ ss) s h k = (h.0, AreSafe-snoc ss s h.1 k)

add_check-AreSafe :
    (result : List String) (v : Value) → AreSafe result → AreSafe (add_check result v)
unfolding add_check
add_check-AreSafe result (Value.text s) h = ground (arith, AreSafe-snoc result s h)
add_check-AreSafe result _ h = h

collect_checks-AreSafe :
    (limit : ℕ) (result : List String) (items : Items)
    → AreSafe result
    → AreSafe (collect_checks limit result items)
unfolding collect_checks
collect_checks-AreSafe limit result Items.nil h = h
collect_checks-AreSafe limit result (Items.item v vs) h =
    let next = add_check-AreSafe result v h in
    ground (arith, collect_checks-AreSafe limit (add_check result v) vs next)

safe_checks-AreSafe : (v : Option Value) (limit : ℕ) → AreSafe (safe_checks v limit)
unfolding safe_checks
safe_checks-AreSafe (some (Value.array items)) limit = collect_checks-AreSafe limit [] items tt
safe_checks-AreSafe none limit = tt
safe_checks-AreSafe _ limit = tt

length-safe_checks :
    (v : Option Value) (limit : ℕ) → 0 < limit → length (safe_checks v limit) ≤ limit
unfolding safe_checks
length-safe_checks (some (Value.array items)) limit h = length-collect_checks limit [] items h
length-safe_checks none limit h = omega arith
length-safe_checks _ limit h = omega arith

-- The checks of every plan are names of the safe form, at most as many as the budget's limit.
pub record IsBounded (plan : VerificationPlan) : Type 0 where
  pub within : length plan.targeted_checks ≤ plan.max_targeted_checks
  pub limit : plan.max_targeted_checks ≤ 12
  pub safe : AreSafe plan.targeted_checks

targeted-le :
    (b : VerificationBudget) (v : Option Value)
    → (length (targeted_of b (safe_checks v (limit_of b))) ≤ limit_of b) × (limit_of b ≤ 12)
unfolding targeted_of limit_of
targeted-le VerificationBudget.none v = omega arith
targeted-le VerificationBudget.min v = (length-safe_checks v 3 (omega arith), omega arith)
targeted-le VerificationBudget.strict v = (length-safe_checks v 8 (omega arith), omega arith)
targeted-le VerificationBudget.release v = (length-safe_checks v 12 (omega arith), omega arith)

targeted-AreSafe :
    (b : VerificationBudget) (checks : List String)
    → AreSafe checks
    → AreSafe (targeted_of b checks)
unfolding targeted_of
targeted-AreSafe VerificationBudget.none checks h = tt
targeted-AreSafe _ checks h = h

-- Whatever the request's configuration says, its plan names at most twelve checks, at most as many
-- as the plan's own limit, and each name has the safe form.
pub select_verification_plan-IsBounded : (c : Config) → IsBounded (select_verification_plan c)
unfolding select_verification_plan
select_verification_plan-IsBounded c =
    let plan = select_verification_plan c in
    let tests = get c "verification_tests" in
    record {
      within = (targeted-le plan.budget tests).0;
      limit = (targeted-le plan.budget tests).1;
      safe = targeted-AreSafe plan.budget _ (safe_checks-AreSafe tests (limit_of plan.budget));
    }

automatic-ne-release :
    (required : Bool) (t s r : String) → (automatic required t s r).0 ≢ VerificationBudget.release
unfolding automatic
automatic-ne-release required t s r = ground arith

choose_budget-release :
    (s : Setting) (chosen : VerificationBudget × String)
    → chosen.0 ≢ VerificationBudget.release
    → (choose_budget s chosen).0 ≡ VerificationBudget.release
    → s ≡ Setting.release
unfolding choose_budget
choose_budget-release Setting.release chosen h e = refl
choose_budget-release Setting.auto_min chosen h e = absurd (h e)
choose_budget-release _ chosen h e = cc

full_suite_needs :
    (b : VerificationBudget) (v : Option Value)
    → full_suite b v ≡ true
    → (b ≢ VerificationBudget.none) × (b ≢ VerificationBudget.min)
unfolding full_suite
full_suite_needs VerificationBudget.none v e = cc
full_suite_needs VerificationBudget.min v e = cc
full_suite_needs VerificationBudget.strict v e = ground arith
full_suite_needs VerificationBudget.release v e = ground arith

-- Only an explicit setting asks for the RELEASE budget, and only the STRICT and RELEASE budgets let
-- the full suite run.
pub select_verification_plan_escalation :
    (c : Config)
    → ((select_verification_plan c).budget ≡ VerificationBudget.release
        → (select_verification_plan c).setting ≡ Setting.release)
      × ((select_verification_plan c).full_suite_allowed ≡ true
          → ((select_verification_plan c).budget ≢ VerificationBudget.none)
            × ((select_verification_plan c).budget ≢ VerificationBudget.min))
unfolding select_verification_plan budget_of
select_verification_plan_escalation c = (
  choose_budget-release (setting_of c)
      (automatic (required c) (task_class_of c) (change_scope_of c) (risk_level_of c))
      (automatic-ne-release (required c) (task_class_of c) (change_scope_of c) (risk_level_of c)),
  full_suite_needs (budget_of c).0 (get c "full_suite_reason"),
)
