-- ===== src/Core/Routing/Unchecked.antt =====
-- Plans of requests with a list as their risk level, and over hosts that are not listed.
use codex_routecraft.Prelude.{
  Bool, true, false, String, Option, none, some, ◌≡◌, refl, ◌∙◌, inl, inr, arith, ok, err,
  Bool-cases,
}
use codex_routecraft.Core.Words.{Value, get}
use codex_routecraft.Core.Capabilities.{
  is_declared_false, Registry, ProviderCapability, capability, find_provider, find_host, state_of,
  host_states,
}
use codex_routecraft.Core.Verification.{select_verification_plan}
use codex_routecraft.Core.Routing.{
  RoutingMode, RawRequest, RoutingRequest, RoutingDecision, type_error, from_value, is_high_risk,
  routecraft_hints, with_lane, route_by_lane, route_by_mode, check_and_route, route_request,
  plan_route_base, is_true, lane_decision, plan_route,
}
use codex_routecraft.Core.Routing.Decisions.{plan_route_base-some}

abbrev pub is_array : Option Value → Bool
is_array (some (Value.array _)) = true
is_array _ = false

-- A ROUTECRAFT request with a valid shape and a list as its `risk_level`, over a registry that does
-- not rule it out, raises a TypeError: no decision is returned.
pub plan_route-type_error :
    (r : Registry) (raw : RawRequest) (q : RoutingRequest)
    → from_value raw ≡ some q
    → q.mode ≡ RoutingMode.routecraft
    → q.model ≡ none
    → is_declared_false (capability r "available" q.provider q.host q.model) ≡ false
    → is_array (get q.config "risk_level") ≡ true
    → plan_route (some r) raw ≡ err type_error
unfolding plan_route plan_route_base route_request check_and_route route_by_mode route_by_lane
    routecraft_hints is_high_risk
plan_route-type_error r raw q good m no_model up list = ground arith

abbrev pub has_no_hash : Option Value → Bool
has_no_hash (some (Value.array _)) = true
has_no_hash (some (Value.object _)) = true
has_no_hash _ = false

is_high_risk_ok : (v : Option Value) → has_no_hash v ≡ false → (b : Bool) × (is_high_risk v ≡ ok b)
unfolding is_high_risk
is_high_risk_ok none h = (_, refl)
is_high_risk_ok (some Value.null) h = (_, refl)
is_high_risk_ok (some (Value.bool _)) h = (_, refl)
is_high_risk_ok (some (Value.num _)) h = (_, refl)
is_high_risk_ok (some (Value.negative _)) h = (_, refl)
is_high_risk_ok (some (Value.fraction _ _ _)) h = (_, refl)
is_high_risk_ok (some (Value.text _)) h = (_, refl)
is_high_risk_ok (some (Value.array _)) h = absurd (ground arith)
is_high_risk_ok (some (Value.object _)) h = absurd (ground arith)

route_by_lane_ok :
    (q : RoutingRequest) (b : Bool)
    → is_high_risk (get q.config "risk_level") ≡ ok b
    → (d : RoutingDecision) × (route_by_lane q ≡ ok d) × (d.dispatch ≡ true)
unfolding route_by_lane routecraft_hints with_lane
route_by_lane_ok q true h = (with_lane (lane_decision q) ("terra_high", "high"), rw h refl, refl)
route_by_lane_ok q false h = elim (Bool-cases (is_true (get q.config "parallel"))) [
  | inl p ↦ (with_lane (lane_decision q) ("terra_medium", "medium"), rw (h, p) refl, refl)
  | inr p ↦ (with_lane (lane_decision q) ("luna_medium", "medium"), rw (h, p) refl, refl)
]

capability_unlisted :
    (r : Registry) (name p h : String) (found : ProviderCapability)
    → find_provider r p ≡ some found
    → find_host found h ≡ none
    → capability r name (some p) (some h) none ≡ none
unfolding capability host_states
capability_unlisted r name p h found listed unlisted = ground arith

route_request_lane :
    (r : Registry) (q : RoutingRequest)
    → q.mode ≡ RoutingMode.routecraft
    → q.model ≡ none
    → capability r "available" q.provider q.host q.model ≡ none
    → route_request (some r) q ≡ route_by_lane q
unfolding route_request check_and_route route_by_mode
route_request_lane r q m no_model unknown = ground arith

-- A provider that is declared unavailable does not stop a ROUTECRAFT request for a host that the
-- provider does not list: where no model is asked for and the `risk_level` has a hash, the plan
-- dispatches.
pub plan_route-unlisted_host :
    (r : Registry) (raw : RawRequest) (q : RoutingRequest) (p h : String)
    (found : ProviderCapability)
    → from_value raw ≡ some q
    → q.mode ≡ RoutingMode.routecraft
    → q.model ≡ none
    → q.provider ≡ some p
    → q.host ≡ some h
    → find_provider r p ≡ some found
    → state_of found.capabilities "available" ≡ some false
    → find_host found h ≡ none
    → has_no_hash (get q.config "risk_level") ≡ false
    → (d : RoutingDecision) × (plan_route (some r) raw ≡ ok d) × (d.dispatch ≡ true)
unfolding plan_route
plan_route-unlisted_host r raw q p h found good m no_model is_p is_h listed down unlisted hash =
    let (b, is_b) = is_high_risk_ok (get q.config "risk_level") hash in
    let (d, is_d, sent) = route_by_lane_ok q b is_b in
    let unknown : capability r "available" q.provider q.host q.model ≡ none =
      rw (is_p, is_h, no_model) (capability_unlisted r "available" p h found listed unlisted) in
    let base =
      plan_route_base-some (some r) raw q good ∙ route_request_lane r q m no_model unknown ∙ is_d in
    (
      record d { verification = some (select_verification_plan q.config) },
      rw (base, good) refl,
      sent,
    )
