-- ===== src/Core/Samples/Witnesses.antt =====
-- The theorems on the core, each applied to the sample registry.
use codex_routecraft.Prelude.{
  ℕ, Bool, true, false, ◌==◌, String, Option, none, some, [], ◌∷◌, ◌⊎◌, ◌≡◌, ◌≢◌, refl, ok, err,
}
use codex_routecraft.Core.Words.{Value, between}
use codex_routecraft.Core.Routing.Observed.{
  Recall, listed, recall, IsRecall, recall-IsRecall, HostFacts, route_changed, AreDifferent,
  route_changed-AreDifferent,
}
use codex_routecraft.Core.Settings.{Setting, VerificationBudget}
use codex_routecraft.Core.Capabilities.{
  Capabilities, ProviderCapability, Registry, find_provider, state_of,
}
use codex_routecraft.Core.Capabilities.Declared.{IsScope, capability-IsDeclared}
use codex_routecraft.Core.Verification.{select_verification_plan}
use codex_routecraft.Core.Verification.Bounds.{
  IsBounded, select_verification_plan-IsBounded, select_verification_plan_escalation,
}
use codex_routecraft.Core.Routing.{
  RoutingMode, RoutingRequest, RoutingDecision, type_error, from_value, plan_route,
}
use codex_routecraft.Core.Routing.Decisions.{IsDispatched, plan_route-IsDispatched}
use codex_routecraft.Core.Routing.Unchecked.{plan_route-type_error, plan_route-unlisted_host}
use codex_routecraft.Core.Routing.Execution.{Host, execute}
use codex_routecraft.Core.Routing.Execution.Legacy.{untouched, execute-legacy}
use codex_routecraft.Core.Words.{Fields}
use codex_routecraft.Core.Verification.Outcome.{
  IsCategorical, verification_outcome, verification_outcome-IsCategorical,
}
use codex_routecraft.Core.Samples.{
  closed_provider, registry, request, checked, tests, is_declared, native_request, native_decision,
  native_plan, lane_request, risky, is_risky, unlisted, is_unlisted, is_legacy_request, lists_shut,
  is_shut, no_host, no_risk, is_open, has_list,
}

select_verification_plan-IsBounded_example : IsBounded (select_verification_plan tests)
select_verification_plan-IsBounded_example = select_verification_plan-IsBounded tests

select_verification_plan_escalation_example :
    ((select_verification_plan tests).budget ≡ VerificationBudget.release
      → (select_verification_plan tests).setting ≡ Setting.release)
    × ((select_verification_plan tests).full_suite_allowed ≡ true
        → ((select_verification_plan tests).budget ≢ VerificationBudget.none)
          × ((select_verification_plan tests).budget ≢ VerificationBudget.min))
select_verification_plan_escalation_example = select_verification_plan_escalation tests

capability-IsDeclared_example :
    (p : String) × (found : ProviderCapability) × (some "acme" ≡ some p)
    × (find_provider registry p ≡ some found)
    × ((c : Capabilities) × IsScope found (some "cli") none c
        × (state_of c "native_routing" ≡ some true))
    × ((c : Capabilities)
        → IsScope found (some "cli") none c
        → ("native_routing" == "available") ≡ true
        → state_of c "native_routing" ≡ some false
        → true ≡ false)
capability-IsDeclared_example =
    capability-IsDeclared registry "native_routing" (some "acme") (some "cli") none true is_declared

plan_route-IsDispatched_example :
    (q : RoutingRequest) × (r : Registry) × (from_value native_request ≡ some q)
    × (some registry ≡ some r)
    × IsDispatched r q native_decision
plan_route-IsDispatched_example =
    plan_route-IsDispatched (some registry) native_request native_decision native_plan refl

execute-legacy_example :
    ((r : Option Registry)
      → plan_route r (request "legacy" (some "shut") none [])
        ≡ ok (untouched (checked RoutingMode.legacy (some "shut") none [])))
    × ((h : Host) (r : Registry) (max_retries : Value)
        → execute h r max_retries (request "legacy" (some "shut") none [])
          ≡ ok (record {
            status = "not_dispatched";
            succeeded = false;
            attempts = 0;
            decision = untouched (checked RoutingMode.legacy (some "shut") none []);
          }))
execute-legacy_example =
    execute-legacy (request "legacy" (some "shut") none [])
      (checked RoutingMode.legacy (some "shut") none []) is_legacy_request refl

plan_route-type_error_example : plan_route (some registry) (lane_request risky) ≡ err type_error
plan_route-type_error_example =
    plan_route-type_error registry (lane_request risky)
      (checked RoutingMode.routecraft none none risky) is_risky refl refl is_open has_list

plan_route-unlisted_host_example :
    (d : RoutingDecision) × (plan_route (some registry) unlisted ≡ ok d) × (d.dispatch ≡ true)
plan_route-unlisted_host_example =
    plan_route-unlisted_host registry unlisted
      (checked RoutingMode.routecraft (some "shut") (some "cli") []) "shut" "cli" closed_provider
      is_unlisted refl refl refl refl lists_shut is_shut no_host no_risk

abbrev host_report : Option (Option Value)
host_report = some (some (Value.object (Fields.field "status" (Value.text "PASS") Fields.end)))

verification_outcome-IsCategorical_example :
    IsCategorical (verification_outcome host_report VerificationBudget.strict)
verification_outcome-IsCategorical_example =
    verification_outcome-IsCategorical host_report VerificationBudget.strict

abbrev letters : ℕ → Bool
letters c = between b'a' b'z' c

abbrev answer : Recall
answer = listed (some "case-a" ∷ none ∷ some "case-a" ∷ some "no case" ∷ some "b" ∷ [])

is_recalled : (recall letters answer).1 ≡ some ("case-a" ∷ "b" ∷ [])
unfolding recall
is_recalled = refl

recall-IsRecall_example : IsRecall letters ("case-a" ∷ "b" ∷ [])
recall-IsRecall_example = recall-IsRecall letters answer ("case-a" ∷ "b" ∷ []) is_recalled

abbrev asked : RoutingRequest
asked = record (checked RoutingMode.routecraft none none []) { model = some "m1" }

abbrev observed : HostFacts
observed = record {
  actual_model = some "m2";
  actual_reasoning = none;
  retry_count = none;
  counts = [];
}

is_changed : route_changed asked observed ≡ some true
unfolding route_changed ◌==◌
is_changed = refl

route_changed-AreDifferent_example :
    AreDifferent asked.model observed.actual_model
    ⊎ (asked.model ≡ observed.actual_model)
      × AreDifferent asked.requested_reasoning observed.actual_reasoning
route_changed-AreDifferent_example = route_changed-AreDifferent asked observed is_changed
