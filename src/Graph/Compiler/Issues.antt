-- ===== src/Graph/Compiler/Issues.antt =====
-- `CompileIssue` of routecraft_graph/compiler.py, and how the checks put a list of them together.
use Prim.Native.String.{◌++◌ as ◌<>◌}
use codex_routecraft.Prelude.{
  Bool, true, false, String, List, [], ◌∷◌, ◌++◌, ◌≡◌, refl, All, if◌then◌else◌,
}

pub data IssueCode : Type 0 where
  ir_schema_invalid capability_invalid node_id_duplicate acceptance_criteria_missing
        dependency_missing gate_missing approval_required retry_budget_invalid edge_endpoint_invalid
        data_contract_mismatch edge_condition_invalid send_back_invalid dependency_cycle
        node_unreachable lane_invalid parallel_write_conflict ownership_conflict
        resource_budget_invalid policy_version_mismatch task_class_not_allowlisted
        graph_mode_not_enabled :
      IssueCode

pub record CompileIssue : Type 0 where
  pub code : IssueCode
  pub detail : String

-- `if test: issues.append(CompileIssue(code, detail))`
abbrev pub flag : Bool → IssueCode → String → List CompileIssue
flag test code detail = if test then record { code = code; detail = detail } ∷ [] else []

module _ {ℓ κ} {A : Type ℓ} {B : Type κ} where
  -- `for x in xs: issues.extend(f(x))`
  unfoldable pub each : (A → List B) → List A → List B
  each f [] = []
  each f (x ∷ xs) = f x ++ each f xs

-- `", ".join(xs)`
unfoldable pub join : List String → String
join [] = ""
join (x ∷ []) = x
join (x ∷ y ∷ xs) = x <> ", " <> join (y ∷ xs)

-- Nothing was reported exactly where no check reported anything.
pub append-eq-nil {ℓ} : {A : Type ℓ} (xs ys : List A) → xs ++ ys ≡ [] → (xs ≡ []) × (ys ≡ [])
append-eq-nil [] ys e = (refl, e)
append-eq-nil (x ∷ xs) ys e = cc

pub flag-eq-nil :
    (test : Bool) (code : IssueCode) (detail : String) → flag test code detail ≡ [] → test ≡ false
flag-eq-nil true code detail e = cc
flag-eq-nil false code detail e = refl

pub each-eq-nil {ℓ κ} :
    {A : Type ℓ} {B : Type κ} (f : A → List B) (xs : List A)
    → each f xs ≡ []
    → All (λ x. f x ≡ []) xs
unfolding each
each-eq-nil f [] e = tt
each-eq-nil f (x ∷ xs) e =
    let (first, rest) = append-eq-nil (f x) (each f xs) e in (first, each-eq-nil f xs rest)
