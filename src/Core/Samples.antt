-- ===== src/Core/Samples.antt =====
-- A small registry, and what the core does with requests over it.
pub mod Witnesses
use codex_routecraft.Prelude.{
  ℕ, ◌≤◌, Bool, true, false, ◌==◌, if◌then◌else◌, leb, String, Option, none, some, List, [], ◌∷◌,
  ◌≡◌, ◌≢◌, refl, Result, ok, err,
}
use codex_routecraft.Core.Words.{Value, Items, Config, get}
use codex_routecraft.Core.Settings.{Setting, VerificationBudget}
use codex_routecraft.Core.Capabilities.{
  is_declared_false, ModelCapability, HostCapability, ProviderCapability, Registry, capability,
  find_provider, find_host, host_states, state_of,
}
use codex_routecraft.Core.Capabilities.Declared.{IsAmong, capability-IsDeclared}
use codex_routecraft.Core.Verification.{select_verification_plan}
use codex_routecraft.Core.Verification.Bounds.{
  IsBounded, select_verification_plan-IsBounded, select_verification_plan_escalation,
}
use codex_routecraft.Core.Routing.{
  RoutingMode, RawRequest, RoutingRequest, RoutingDecision, RoutingError, type_error, from_value,
  plan_route, decision_for, default_decision,
}
use codex_routecraft.Core.Routing.Decisions.{IsDispatched, plan_route-IsDispatched}
use codex_routecraft.Core.Routing.Unchecked.{
  has_no_hash, is_array, plan_route-type_error, plan_route-unlisted_host,
}
use codex_routecraft.Core.Routing.Execution.{Host, Response, ExecutionResult}
use codex_routecraft.Core.Routing.Execution.Attempts.{IsExecuted}

abbrev open_provider : ProviderCapability
open_provider = record {
  provider = "acme";
  capabilities = ("native_routing", some true) ∷ [];
  hosts =
      record {
        host = "cli";
        capabilities = ("available", some true) ∷ [];
        models = record { model = "m1"; capabilities = [] } ∷ [];
      }
      ∷ [];
}

abbrev closed_provider : ProviderCapability
closed_provider = record {
  provider = "shut";
  capabilities = ("available", some false) ∷ [];
  hosts = [];
}

abbrev registry : Registry
registry = open_provider ∷ closed_provider ∷ []

abbrev request : String → Option String → Option String → Config → RawRequest
request mode provider host config = record {
  api_version = "1";
  task_id = some "t-1";
  task = "fix the parser";
  mode = mode;
  provider = provider;
  host = host;
  model = none;
  requested_reasoning = none;
  project = none;
  config = config;
}

abbrev checked : RoutingMode → Option String → Option String → Config → RoutingRequest
checked mode provider host config = record {
  task_id = some "t-1";
  task = "fix the parser";
  mode = mode;
  provider = provider;
  host = host;
  model = none;
  requested_reasoning = none;
  project = none;
  config = config;
}

abbrev tests : Config
tests =
    ("test_budget", Value.text "Strict")
    ∷ (
      "verification_tests",
      Value.array (
          Items.item (Value.text "unit")
            (Items.item (Value.text "no way") (Items.item (Value.text "lint") Items.nil))),
    )
    ∷ []

select_verification_plan-sample :
    (select_verification_plan tests).targeted_checks ≡ "unit" ∷ "lint" ∷ []
unfolding select_verification_plan
select_verification_plan-sample = refl

is_declared : capability registry "native_routing" (some "acme") (some "cli") none ≡ some true
unfolding capability
is_declared = refl

abbrev native_request : RawRequest
native_request = request "native" (some "acme") (some "cli") tests

abbrev native_decision : RoutingDecision
native_decision =
    record (decision_for (checked RoutingMode.native (some "acme") (some "cli") tests)) {
      dispatch = true;
      authority = "host";
      reason = "native_routing_declared";
      verification = some (select_verification_plan tests);
    }

native_plan : plan_route (some registry) native_request ≡ ok native_decision
unfolding plan_route select_verification_plan
native_plan = refl

-- The host fails, then succeeds.
abbrev host : Host
host n = if leb n 1 then Response.plain false else Response.plain true

abbrev lane_request : Config → RawRequest
lane_request config = request "routecraft" none none config

abbrev done : ExecutionResult
done = record {
  status = "succeeded";
  succeeded = true;
  attempts = 2;
  decision = record (decision_for (checked RoutingMode.routecraft none none [])) {
    lane = some "luna_medium";
    reasoning_effort = some "medium";
    dispatch = true;
    authority = "routecraft";
    reason = "routecraft_lane_hint";
    verification = some (select_verification_plan []);
  };
}

abbrev risky : Config
risky = ("risk_level", Value.array Items.nil) ∷ []

is_risky : from_value (lane_request risky) ≡ some (checked RoutingMode.routecraft none none risky)
unfolding from_value
is_risky = refl

abbrev unlisted : RawRequest
unlisted = request "routecraft" (some "shut") (some "cli") []

is_unlisted :
    from_value unlisted ≡ some (checked RoutingMode.routecraft (some "shut") (some "cli") [])
unfolding from_value
is_unlisted = refl

is_legacy_request :
    from_value (request "legacy" (some "shut") none [])
    ≡ some (checked RoutingMode.legacy (some "shut") none [])
unfolding from_value
is_legacy_request = refl

lists_shut : find_provider registry "shut" ≡ some closed_provider
unfolding find_provider
lists_shut = refl

is_shut : state_of closed_provider.capabilities "available" ≡ some false
unfolding state_of
is_shut = refl

no_host : find_host closed_provider "cli" ≡ none
unfolding find_host
no_host = refl

no_risk : has_no_hash (get [] "risk_level") ≡ false
unfolding get
no_risk = refl

is_open : is_declared_false (capability registry "available" none none none) ≡ false
unfolding capability
is_open = refl

has_list : is_array (get risky "risk_level") ≡ true
unfolding get
has_list = refl
