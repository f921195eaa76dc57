-- ===== src/Graph/Samples/Plans.antt =====
-- Plans that compile, plans that do not, and the theorems on the compiler applied to them.
use codex_routecraft.Prelude.{
  ℕ, String, Bool, true, false, Option, none, some, List, [], ◌∷◌, ◌≡◌, ◌↔◌, refl, ok, err, Result,
  arith, All, contains,
}
use codex_routecraft.Graph.Types.{NodeType, EdgeType, Risk, Condition, Node, Graph}
use codex_routecraft.Graph.Ir.{make_node, make_graph, single_attempt}
use codex_routecraft.Graph.Scheduler.{by_id}
use codex_routecraft.Graph.Ready.{ready_nodes}
use codex_routecraft.Graph.Ready.Paths.{IsRanking}
use codex_routecraft.Graph.State.{mark_ready, start_node, accept_node}
use codex_routecraft.Graph.State.Budget.{Run, here, next, mark, start, accept}
use codex_routecraft.Graph.Skip.{Hashes}
use codex_routecraft.Graph.Policy.Config.{default_config}
use codex_routecraft.Graph.Compiler.Cycle.{inner, has_cycle}
use codex_routecraft.Graph.Compiler.Cycle.Exact.{has_cycle_iff}
use codex_routecraft.Graph.Compiler.Issues.{approval_required}
use codex_routecraft.Graph.Compiler.Globals.{external_kinds}
use codex_routecraft.Graph.Compiler.Compile.{Compiled, compile_graph, compiled_of}
use codex_routecraft.Graph.Compiler.Compile.Schedulable.{IsSchedulable, compile_graph-IsSchedulable}
use codex_routecraft.Graph.Compiler.Compile.Roots.{IsFresh}
use codex_routecraft.Graph.Compiler.Compile.Starts.{compile_graph-starts}
use codex_routecraft.Graph.Compiler.Compile.Always.{compile_graph-ready_nodes}
use codex_routecraft.Graph.Compiler.Compile.Approvals.{IsApproved, compile_graph-approvals}
use codex_routecraft.Graph.Compiler.Compile.Separate.{
  AllPairs, AreSeparate, compile_graph-AreSeparate,
}
use codex_routecraft.Graph.Compiler.Compile.Gates.{IsGated, compile_graph-IsGated}
use codex_routecraft.Graph.Samples.{edge, intent, sample}

abbrev any_time : String → Bool
any_time _ = true

abbrev hashes : Hashes
hashes = record { of_input = λ i. "h"; of_output = λ s. s }

-- A deployment that a person approves, and the gate after it.
abbrev approve : Node
unfolding make_node
approve =
    record (make_node "approve" NodeType.human_approval "approve" [] "none" [] Risk.low
      single_attempt) {
        allowed_tools = "approve:deploy" ∷ [];
        required_evidence_types = "human_approval" ∷ [];
      }

abbrev deploy : Node
unfolding make_node
deploy =
    record (make_node "deploy" NodeType.tool "deploy" ("approve" ∷ []) "none" ("site" ∷ []) Risk.low
      single_attempt) { allowed_tools = "external:deploy" ∷ [] }

abbrev final : Node
unfolding make_node
final =
    record (make_node "final" NodeType.gate "verify" ("deploy" ∷ []) "none" [] Risk.low
      single_attempt) { gate_policy = record { required = true; is_global = true } }

abbrev plan : Graph
unfolding make_graph approve deploy final
plan =
    make_graph "release" (final ∷ deploy ∷ approve ∷ [])
      (edge "approve" "deploy" EdgeType.gate_pass Condition.null
        ∷ edge "deploy" "final" EdgeType.depends_on Condition.null
        ∷ [])
      (record intent {
        external_mutations =
            record { kind = "deploy"; target_scope = "site"; reversible = true } ∷ [];
      })
      "g_2" "2026-01-01T00:00:00Z"

abbrev result_or {κ} : {E : Type 0} {A : Type κ} → Result E A → A → A
result_or (ok a) fallback = a
result_or (err e) fallback = fallback

abbrev is_ok {κ} : {E : Type 0} {A : Type κ} → Result E A → Bool
is_ok (ok _) = true
is_ok (err _) = false

ok_result_or {κ} :
    {E : Type 0} {A : Type κ} (r : Result E A) (fallback : A)
    → is_ok r ≡ true
    → r ≡ ok (result_or r fallback)
ok_result_or (ok a) fallback h = refl
ok_result_or (err e) fallback h = cc

abbrev option_or {κ} : {A : Type κ} → Option A → A → A
option_or none fallback = fallback
option_or (some a) fallback = a

abbrev compiled : Compiled
unfolding compile_graph plan compiled_of
compiled = result_or (compile_graph any_time none (some default_config) plan) (compiled_of plan)

plan-compiles : compile_graph any_time none (some default_config) plan ≡ ok compiled
unfolding compile_graph compiled plan
plan-compiles = refl

order-sample : compiled.node_order ≡ "approve" ∷ "deploy" ∷ "final" ∷ []
unfolding compiled
order-sample = refl

has_cycle_iff_example :
    (has_cycle ("build" ∷ "check" ∷ "docs" ∷ []) sample.edges ≡ false)
    ↔ ((rank : String → ℕ) × IsRanking (inner ("build" ∷ "check" ∷ "docs" ∷ []) sample.edges) rank)
has_cycle_iff_example = has_cycle_iff ("build" ∷ "check" ∷ "docs" ∷ []) sample.edges

compile_graph-IsSchedulable_example : IsSchedulable compiled.ir
compile_graph-IsSchedulable_example =
    compile_graph-IsSchedulable any_time none (some default_config) plan compiled plan-compiles

compile_graph-AreSeparate_example : AllPairs (AreSeparate compiled.ir) compiled.ir.nodes
compile_graph-AreSeparate_example =
    compile_graph-AreSeparate any_time none (some default_config) plan compiled plan-compiles

compile_graph-IsGated_example : IsGated compiled.ir
compile_graph-IsGated_example =
    compile_graph-IsGated any_time none (some default_config) plan compiled plan-compiles

plan-IsFresh : All IsFresh plan.nodes
unfolding plan approve deploy final
plan-IsFresh = ((refl, refl), ((refl, refl), ((refl, refl), tt)))

compile_graph-starts_example :
    (id : String) × (ids : List String) × (ready_nodes compiled.ir 3 ≡ ok (id ∷ ids))
compile_graph-starts_example =
    compile_graph-starts any_time none (some default_config) plan compiled 3 plan-compiles
      plan-IsFresh (omega arith)

-- The run in which the approval was given.
abbrev marked : Graph
unfolding mark_ready compiled
marked = result_or (mark_ready hashes compiled.ir 3) plan

abbrev started : Graph
unfolding start_node marked
started = result_or (start_node "t" marked "approve") plan

abbrev approved : Graph
unfolding accept_node started
approved = result_or (accept_node hashes "t" started "approve" "yes" ("e1" ∷ []) none) plan

is_marked_ok : is_ok (mark_ready hashes compiled.ir 3) ≡ true
unfolding mark_ready compiled
is_marked_ok = refl

is_marked : mark_ready hashes compiled.ir 3 ≡ ok marked
unfolding marked
is_marked = ok_result_or (mark_ready hashes compiled.ir 3) plan is_marked_ok

is_started_ok : is_ok (start_node "t" marked "approve") ≡ true
unfolding start_node marked
is_started_ok = refl

is_started : start_node "t" marked "approve" ≡ ok started
unfolding started
is_started = ok_result_or (start_node "t" marked "approve") plan is_started_ok

is_accepted_ok : is_ok (accept_node hashes "t" started "approve" "yes" ("e1" ∷ []) none) ≡ true
unfolding accept_node started
is_accepted_ok = refl

is_accepted : accept_node hashes "t" started "approve" "yes" ("e1" ∷ []) none ≡ ok approved
unfolding approved
is_accepted =
    ok_result_or (accept_node hashes "t" started "approve" "yes" ("e1" ∷ []) none) plan
      is_accepted_ok

approval-Run : Run hashes compiled.ir approved
approval-Run =
    next (next (next here (mark 3 is_marked)) (start "t" "approve" is_started))
      (accept "t" "approve" "yes" ("e1" ∷ []) none is_accepted)

compile_graph-ready_nodes_example : (ids : List String) × (ready_nodes approved 3 ≡ ok ids)
compile_graph-ready_nodes_example =
    compile_graph-ready_nodes any_time none (some default_config) plan compiled hashes approved 3
      plan-compiles approval-Run (omega arith)

deploy-is_offered : ready_nodes approved 3 ≡ ok ("deploy" ∷ [])
unfolding ready_nodes approved
deploy-is_offered = refl

abbrev deploying : Node
unfolding approved by_id
deploying = option_or (by_id approved "deploy") deploy

deploy-is_found : by_id approved "deploy" ≡ some deploying
unfolding deploying approved by_id
deploy-is_found = refl

deploy-acts : contains (external_kinds deploying) "deploy" ≡ true
unfolding deploying approved by_id external_kinds contains
deploy-acts = refl

deploy-in_list : contains ("deploy" ∷ []) "deploy" ≡ true
unfolding contains
deploy-in_list = refl

compile_graph-approvals_example : IsApproved approved "deploy"
compile_graph-approvals_example =
    compile_graph-approvals any_time none (some default_config) plan compiled hashes approved 3
      ("deploy" ∷ []) "deploy" "deploy" deploying plan-compiles approval-Run deploy-is_offered
      deploy-in_list deploy-is_found deploy-acts

-- Without the approving edge the plan is refused, and so is a plan with a cycle.
abbrev unapproved : Graph
unfolding plan
unapproved = record plan {
  edges =
      edge "approve" "deploy" EdgeType.depends_on Condition.null
      ∷ edge "deploy" "final" EdgeType.depends_on Condition.null
      ∷ [];
}

unapproved-sample :
    compile_graph any_time none (some default_config) unapproved
    ≡ err (record { code = approval_required; detail = "deploy:deploy" } ∷ [])
unfolding compile_graph unapproved plan
unapproved-sample = refl
