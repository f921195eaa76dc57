-- ===== src/Core/Routing/Decisions.antt =====
-- Plans that dispatch, and what stands behind them.
use codex_routecraft.Prelude.{
  true, false, not, ◌&&◌, ◌||◌, String, Option, none, some, ◌≡◌, refl, ap, subst, ◌∙◌, ◌⊎◌, inl,
  inr, arith, ok, >>=-eq-ok, ok-injective, Bool-cases, Option-cases,
}
use codex_routecraft.Core.Capabilities.{is_declared_false, Registry, capability, model_known}
use codex_routecraft.Core.Verification.{select_verification_plan}
use codex_routecraft.Core.Routing.{
  RoutingMode, RawRequest, RoutingRequest, RoutingDecision, from_value, configuration_error,
  with_lane, advise, fall_back, is_missing, is_legacy, route_natively, route_by_lane, route_by_mode,
  check_and_route, route_request, plan_route_base, plan_route, invalid_request,
}

-- Who may start the work that a decision dispatches.
abbrev pub IsAuthorised : Registry → RoutingRequest → RoutingDecision → Type 0
IsAuthorised r q d =
    (q.mode ≡ RoutingMode.routecraft) × (d.authority ≡ "routecraft")
    ⊎ (q.mode ≡ RoutingMode.native)
      × (d.authority ≡ "host")
      × (is_missing q.provider ≡ false)
      × (is_missing q.host ≡ false)
      × (capability r "native_routing" q.provider q.host q.model ≡ some true)

fall_back-dispatch :
    (q : RoutingRequest) (reason : String) (d : RoutingDecision)
    → fall_back q reason ≡ ok d
    → d.dispatch ≡ false
unfolding fall_back with_lane
fall_back-dispatch q reason d e = ground arith

route_natively-IsAuthorised :
    (r : Registry) (q : RoutingRequest) (d : RoutingDecision)
    → route_natively r q ≡ ok d
    → d.dispatch ≡ true
    → (d.authority ≡ "host")
      × (is_missing q.provider ≡ false)
      × (is_missing q.host ≡ false)
      × (capability r "native_routing" q.provider q.host q.model ≡ some true)
unfolding route_natively
route_natively-IsAuthorised r q d e h =
    let a = fall_back-dispatch q "native_routing_context_unknown_fallback_to_advisory" d in
    let b = fall_back-dispatch q "native_routing_unavailable_fallback_to_advisory" d in ground arith

advise-dispatch :
    (r : Registry) (q : RoutingRequest) (d : RoutingDecision)
    → advise r q ≡ ok d
    → d.dispatch ≡ false
unfolding advise with_lane
advise-dispatch r q d e = ground arith

route_by_lane-authority :
    (q : RoutingRequest) (d : RoutingDecision) → route_by_lane q ≡ ok d → d.authority ≡ "routecraft"
unfolding route_by_lane with_lane
route_by_lane-authority q d e = ground arith

route_by_mode-IsAuthorised :
    (mode : RoutingMode) (r : Registry) (q : RoutingRequest) (d : RoutingDecision)
    → q.mode ≡ mode
    → is_legacy mode ≡ false
    → route_by_mode mode r q ≡ ok d
    → d.dispatch ≡ true
    → IsAuthorised r q d
unfolding route_by_mode
route_by_mode-IsAuthorised RoutingMode.advisory r q d m l e h =
    absurd (ground (arith, advise-dispatch r q d e))
route_by_mode-IsAuthorised RoutingMode.native r q d m l e h =
    let (a, p, k, c) = route_natively-IsAuthorised r q d e h in inr (m, a, p, k, c)
route_by_mode-IsAuthorised RoutingMode.routecraft r q d m l e h =
    inl (m, route_by_lane-authority q d e)
route_by_mode-IsAuthorised RoutingMode.legacy r q d m l e h = cc

-- What is known of a request whose decision dispatches.
pub record IsDispatched (r : Registry) (q : RoutingRequest) (d : RoutingDecision) : Type 0 where
  pub not_legacy : is_legacy q.mode ≡ false
  pub model_declared : (is_missing q.model || model_known r q.provider q.host q.model) ≡ true
  pub not_unavailable :
      is_declared_false (capability r "available" q.provider q.host q.model) ≡ false
  pub authorised : IsAuthorised r q d

check_and_route-IsDispatched :
    (r : Registry) (q : RoutingRequest) (d : RoutingDecision)
    → is_legacy q.mode ≡ false
    → check_and_route r q ≡ ok d
    → d.dispatch ≡ true
    → IsDispatched r q d
unfolding check_and_route configuration_error
check_and_route-IsDispatched r q d l e h =
    elim (Bool-cases (not (is_missing q.model) && not (model_known r q.provider q.host q.model))) [
      | inl unknown ↦ absurd (ground arith)
      | inr known ↦
          elim (Bool-cases
            (is_declared_false (capability r "available" q.provider q.host q.model))) [
              | inl down ↦ absurd (ground arith)
              | inr up ↦ record {
                not_legacy = l;
                model_declared = ground arith;
                not_unavailable = up;
                authorised = route_by_mode-IsAuthorised q.mode r q d refl l (rw (known, up) at e) h;
              }
            ]
    ]

route_request-IsDispatched :
    (registry : Option Registry) (q : RoutingRequest) (d : RoutingDecision)
    → route_request registry q ≡ ok d
    → d.dispatch ≡ true
    → (r : Registry) × (registry ≡ some r) × IsDispatched r q d
unfolding route_request
route_request-IsDispatched none q d e h = absurd (ground arith)
route_request-IsDispatched (some r) q d e h = elim (Bool-cases (is_legacy q.mode)) [
  | inl l ↦ absurd (ground arith)
  | inr l ↦ (r, refl, check_and_route-IsDispatched r q d l (rw l at e) h)
]

plan_route_base-none :
    (registry : Option Registry) (raw : RawRequest)
    → from_value raw ≡ none
    → plan_route_base registry raw ≡ ok invalid_request
unfolding plan_route_base
plan_route_base-none registry raw bad = rw (plan_route_base, bad)

pub plan_route_base-some :
    (registry : Option Registry) (raw : RawRequest) (q : RoutingRequest)
    → from_value raw ≡ some q
    → plan_route_base registry raw ≡ route_request registry q
unfolding plan_route_base route_request
plan_route_base-some registry raw q good = rw (plan_route_base, good)

plan_route-cases :
    (registry : Option Registry) (raw : RawRequest) (d : RoutingDecision)
    → plan_route registry raw ≡ ok d
    → (from_value raw ≡ none) × (invalid_request ≡ d)
      ⊎ ((q : RoutingRequest) × (base : RoutingDecision) × (from_value raw ≡ some q)
          × (route_request registry q ≡ ok base)
          × (record base { verification = some (select_verification_plan q.config) } ≡ d))
unfolding plan_route
plan_route-cases registry raw d e = elim (Option-cases (from_value raw)) [
  | inl bad ↦ inl (bad, ok-injective (rw (plan_route_base-none registry raw bad, bad) at e))
  | inr (q, good) ↦
      let (base, is, last) =
        >>=-eq-ok (route_request registry q)
          (λ b. ok (record b { verification = some (select_verification_plan q.config) }))
          (rw (plan_route_base-some registry raw q good, good) at e) in
      inr (q, base, good, is, ok-injective last)
]

-- A plan dispatches only for a valid request that is not LEGACY, over a valid registry that knows
-- the requested model and does not declare it unavailable; then either the request asks for
-- ROUTECRAFT and RouteCraft has the authority, or it asks for NATIVE with a provider and a host
-- whose native routing is declared, and the host has the authority.
pub plan_route-IsDispatched :
    (registry : Option Registry) (raw : RawRequest) (d : RoutingDecision)
    → plan_route registry raw ≡ ok d
    → d.dispatch ≡ true
    → (q : RoutingRequest) × (r : Registry) × (from_value raw ≡ some q)
      × (registry ≡ some r)
      × IsDispatched r q d
plan_route-IsDispatched registry raw d e h = elim (plan_route-cases registry raw d e) [
  | inl (_, last) ↦ absurd (ground arith)
  | inr (q, base, good, is, last) ↦
      let (r, given, known) =
        route_request-IsDispatched registry q base is (ap (λ k. k.dispatch) last ∙ h) in
      (
        q,
        r,
        good,
        given,
        subst (IsDispatched r q) last record {
          not_legacy = known.not_legacy;
          model_declared = known.model_declared;
          not_unavailable = known.not_unavailable;
          authorised = known.authorised;
        },
      )
]
