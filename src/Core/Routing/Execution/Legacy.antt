-- ===== src/Core/Routing/Execution/Legacy.antt =====
-- LEGACY requests, from the plan to the execution.
use codex_routecraft.Prelude.{false, Option, none, some, ◌≡◌, refl, arith, ok}
use codex_routecraft.Core.Words.{Value}
use codex_routecraft.Core.Capabilities.{Registry}
use codex_routecraft.Core.Verification.{select_verification_plan}
use codex_routecraft.Core.Routing.{
  RawRequest, RoutingMode, RoutingRequest, RoutingDecision, from_value, plan_route, plan_route_base,
  route_request,
}
use codex_routecraft.Core.Routing.Execution.{Host, execute, execute_decision, refused}

-- The plan that leaves a request as it was made.
abbrev pub untouched : RoutingRequest → RoutingDecision
untouched q = record {
  mode = RoutingMode.legacy;
  lane = none;
  reasoning_effort = none;
  dispatch = false;
  authority = "legacy";
  status = "ok";
  reason = "legacy_authority_preserved";
  provider = q.provider;
  host = q.host;
  model = q.model;
  native_hint = none;
  verification = some (select_verification_plan q.config);
}

plan_route-untouched :
    (r : Option Registry) (raw : RawRequest) (q : RoutingRequest)
    → from_value raw ≡ some q
    → q.mode ≡ RoutingMode.legacy
    → plan_route r raw ≡ ok (untouched q)
unfolding plan_route plan_route_base route_request
plan_route-untouched r raw q good m = ground arith

-- A valid LEGACY request has the same plan with every registry and with none: authority legacy, no
-- dispatch, no lane, no effort and no hint, with the provider, host and model of the request. Its
-- execution returns without a call of the host, whatever the host would answer and whatever number of
-- retries is configured.
pub execute-legacy :
    (raw : RawRequest) (q : RoutingRequest)
    → from_value raw ≡ some q
    → q.mode ≡ RoutingMode.legacy
    → ((r : Option Registry) → plan_route r raw ≡ ok (untouched q))
      × ((host : Host) (r : Registry) (max_retries : Value)
          → execute host r max_retries raw
            ≡ ok (record {
              status = "not_dispatched";
              succeeded = false;
              attempts = 0;
              decision = untouched q;
            }))
unfolding execute execute_decision refused
execute-legacy raw q good m = (
  λ r. plan_route-untouched r raw q good m,
  λ host r v. rw (execute, good, plan_route-untouched (some r) raw q good m) refl,
)
