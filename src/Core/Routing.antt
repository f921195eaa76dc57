-- ===== src/Core/Routing.antt =====
-- routecraft_core/contracts.py and routing.py: requests and route plans.
pub mod Decisions
pub mod Execution
pub mod Unchecked
pub mod Observed
use Prim.Native.Nat.{max, min}
use codex_routecraft.Prelude.{
  ℕ, zero, suc, ◌+◌, ◌-◌, Bool, true, false, not, ◌&&◌, ◌||◌, String, Option, none, some, List, [],
  ◌∷◌, Result, ok, err, ◌>>=◌, all, contains, leb, length, ◌==◌, if◌then◌else◌,
}
use codex_routecraft.Core.Words.{Value, Config, codes, get, is_opaque_id, is_space, strip}
use codex_routecraft.Core.Capabilities.{Registry, capability, model_known, is_declared_false}
use codex_routecraft.Core.Verification.{VerificationPlan, select_verification_plan}

pub data RoutingMode : Type 0 where
  native advisory routecraft legacy : RoutingMode

-- A request's fields before `__post_init__` has checked them.
pub record RawRequest : Type 0 where
  pub api_version : String
  pub task_id : Option String
  pub task : String
  pub mode : String
  pub provider : Option String
  pub host : Option String
  pub model : Option String
  pub requested_reasoning : Option String
  pub project : Option String
  pub config : Config

pub record RoutingRequest : Type 0 where
  pub task_id : Option String
  pub task : String
  pub mode : RoutingMode
  pub provider : Option String
  pub host : Option String
  pub model : Option String
  pub requested_reasoning : Option String
  pub project : Option String
  pub config : Config

unfoldable pub mode_of : String → Option RoutingMode
unfolding ◌==◌
mode_of s =
    if s == "native"
    then some RoutingMode.native
    else if s == "advisory"
    then some RoutingMode.advisory
    else if s == "routecraft"
    then some RoutingMode.routecraft
    else if s == "legacy"
    then some RoutingMode.legacy
    else none

unfoldable pub valid_id : Option String → Bool
unfolding is_opaque_id
valid_id none = true
valid_id (some s) = is_opaque_id s

unfoldable pub valid_task : String → Bool
unfolding strip
valid_task s = not (leb (length (strip (codes s))) 0) && leb (length (codes s)) 8000

unfoldable pub valid_fields : RawRequest → Bool
unfolding valid_id valid_task ◌==◌
valid_fields r =
    (r.api_version == "1")
    && valid_task r.task
    && valid_id r.task_id
    && valid_id r.provider
    && valid_id r.host
    && valid_id r.model
    && valid_id r.requested_reasoning
    && valid_id r.project

-- `RoutingRequest.from_value`; `none` is the ValueError.
unfoldable pub from_value : RawRequest → Option RoutingRequest
unfolding mode_of valid_fields
from_value r =
    if valid_fields r
    then elim (mode_of r.mode) [
      | none ↦ none
      | some mode ↦ some record {
        task_id = r.task_id;
        task = r.task;
        mode = mode;
        provider = r.provider;
        host = r.host;
        model = r.model;
        requested_reasoning = r.requested_reasoning;
        project = r.project;
        config = r.config;
      }
    ]
    else none

pub record RoutingDecision : Type 0 where
  pub mode : RoutingMode
  pub lane : Option String
  pub reasoning_effort : Option String
  pub dispatch : Bool
  pub authority : String
  pub status : String
  pub reason : String
  pub provider : Option String
  pub host : Option String
  pub model : Option String
  -- `hints["native_routing"]`, where the key is there.
  pub native_hint : Option (Option Bool)
  pub verification : Option VerificationPlan

-- The defaults of the dataclass.
abbrev pub default_decision : RoutingDecision
default_decision = record {
  mode = RoutingMode.legacy;
  lane = none;
  reasoning_effort = none;
  dispatch = false;
  authority = "legacy";
  status = "ok";
  reason = "legacy_authority_preserved";
  provider = none;
  host = none;
  model = none;
  native_hint = none;
  verification = none;
}

-- A membership test in a set raises a TypeError for a list or an object, which have no hash.
pub data RoutingError : Type 0 where
  type_error : RoutingError

abbrev pub decision_for : RoutingRequest → RoutingDecision
decision_for q = record default_decision {
  mode = q.mode;
  provider = q.provider;
  host = q.host;
  model = q.model;
}

unfoldable pub configuration_error : RoutingRequest → String → RoutingDecision
configuration_error q reason = record (decision_for q) {
  authority = "core";
  status = "invalid_configuration";
  reason = reason;
}

unfoldable pub is_high_risk : Option Value → Result RoutingError Bool
unfolding contains
is_high_risk (some (Value.text s)) = ok (contains ("high" ∷ "critical" ∷ []) s)
is_high_risk (some (Value.array _)) = err type_error
is_high_risk (some (Value.object _)) = err type_error
is_high_risk _ = ok false

abbrev pub is_true : Option Value → Bool
is_true (some (Value.bool true)) = true
is_true _ = false

-- The lane and the effort.
unfoldable pub routecraft_hints : Config → Result RoutingError (String × String)
unfolding is_high_risk get
routecraft_hints c = is_high_risk (get c "risk_level") >>= λ high.
    if high
    then ok ("terra_high", "high")
    else if is_true (get c "parallel")
    then ok ("terra_medium", "medium")
    else ok ("luna_medium", "medium")

unfoldable pub with_lane : RoutingDecision → String × String → RoutingDecision
with_lane d (lane, effort) = record d { lane = some lane; reasoning_effort = some effort }

unfoldable pub advise : Registry → RoutingRequest → Result RoutingError RoutingDecision
unfolding routecraft_hints with_lane capability
advise r q = do
  hints ← routecraft_hints q.config
  ok (
      with_lane
        (record (decision_for q) {
          authority = "host";
          reason = "advisory_hints_only";
          native_hint = some (capability r "native_routing" q.provider q.host q.model);
        })
        hints)

unfoldable pub fall_back : RoutingRequest → String → Result RoutingError RoutingDecision
unfolding routecraft_hints with_lane
fall_back q reason = do
  hints ← routecraft_hints q.config
  ok (
      with_lane
        (record (decision_for q) {
          mode = RoutingMode.advisory;
          authority = "host";
          status = "fallback";
          reason = reason;
        })
        hints)

abbrev pub is_declared_true : Option Bool → Bool
is_declared_true (some true) = true
is_declared_true _ = false

abbrev pub is_missing : Option String → Bool
is_missing none = true
is_missing (some _) = false

unfoldable pub route_natively : Registry → RoutingRequest → Result RoutingError RoutingDecision
unfolding fall_back capability
route_natively r q =
    if is_missing q.provider || is_missing q.host
    then fall_back q "native_routing_context_unknown_fallback_to_advisory"
    else if is_declared_true (capability r "native_routing" q.provider q.host q.model)
    then ok (record (decision_for q) {
      dispatch = true;
      authority = "host";
      reason = "native_routing_declared";
    })
    else fall_back q "native_routing_unavailable_fallback_to_advisory"

abbrev pub lane_decision : RoutingRequest → RoutingDecision
lane_decision q = record (decision_for q) {
  mode = RoutingMode.routecraft;
  dispatch = true;
  authority = "routecraft";
  reason = "routecraft_lane_hint";
}

unfoldable pub route_by_lane : RoutingRequest → Result RoutingError RoutingDecision
unfolding routecraft_hints with_lane
route_by_lane q = do hints ← routecraft_hints q.config; ok (with_lane (lane_decision q) hints)

-- The part of `_plan_route_base` behind the tests of the registry.
unfoldable pub route_by_mode :
    RoutingMode → Registry → RoutingRequest → Result RoutingError RoutingDecision
unfolding advise route_natively route_by_lane
route_by_mode RoutingMode.advisory r q = advise r q
route_by_mode RoutingMode.native r q = route_natively r q
route_by_mode _ r q = route_by_lane q

unfoldable pub unavailable_scope : RoutingRequest → String
unavailable_scope q =
    if not (is_missing q.model)
    then "requested_model_is_unavailable"
    else if not (is_missing q.host)
    then "requested_host_is_unavailable"
    else "requested_provider_is_unavailable"

unfoldable pub check_and_route : Registry → RoutingRequest → Result RoutingError RoutingDecision
unfolding model_known capability configuration_error unavailable_scope route_by_mode
check_and_route r q =
    if not (is_missing q.model) && not (model_known r q.provider q.host q.model)
    then ok (configuration_error q "requested_model_is_unknown")
    else if is_declared_false (capability r "available" q.provider q.host q.model)
    then ok (configuration_error q (unavailable_scope q))
    else route_by_mode q.mode r q

abbrev pub invalid_request : RoutingDecision
invalid_request = record default_decision {
  status = "invalid_configuration";
  reason = "invalid_routing_request";
}

abbrev pub is_legacy : RoutingMode → Bool
is_legacy RoutingMode.legacy = true
is_legacy _ = false

-- `none` is a registry that `from_mapping` refuses.
unfoldable pub route_request :
    Option Registry → RoutingRequest → Result RoutingError RoutingDecision
unfolding check_and_route
route_request registry q =
    if is_legacy q.mode
    then ok (decision_for q)
    else elim registry [ none ↦ ok invalid_request | some r ↦ check_and_route r q ]

unfoldable pub plan_route_base : Option Registry → RawRequest → Result RoutingError RoutingDecision
unfolding from_value route_request
plan_route_base registry raw = elim (from_value raw) [
  | none ↦ ok invalid_request
  | some q ↦ route_request registry q
]

unfoldable pub plan_route : Option Registry → RawRequest → Result RoutingError RoutingDecision
unfolding plan_route_base from_value select_verification_plan
plan_route registry raw = do
  decision ← plan_route_base registry raw
  ok (elim (from_value raw) [
    | none ↦ decision
    | some q ↦ record decision { verification = some (select_verification_plan q.config) }
  ])
