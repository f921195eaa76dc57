-- ===== src/Core/Routing/Execution.antt =====
-- routecraft_core/routing.py: `RouteCraftCore.execute`, with the host adapter as a parameter.
pub mod Attempts
pub mod Legacy
use Prim.Native.Nat.{max, min}
use codex_routecraft.Prelude.{
  ℕ, zero, suc, ◌+◌, Bool, true, false, not, String, Option, none, some, List, [], ◌∷◌, Result, ok,
  err, ◌>>=◌, contains, ◌==◌, if◌then◌else◌,
}
use codex_routecraft.Core.Words.{Value, Config, get}
use codex_routecraft.Core.Capabilities.{Registry}
use codex_routecraft.Core.Routing.{
  RawRequest, RoutingRequest, RoutingDecision, RoutingError, from_value, plan_route,
  invalid_request, is_true,
}

-- What `host.dispatch` does: it raises, it returns a mapping, or another value, of which only
-- whether it is `True` matters.
pub data Response : Type 0 where
  raised : Response
  mapping : Config → Response
  plain : Bool → Response

-- The host's answer to the first, the second, ... dispatch of an execution.
abbrev pub Host : Type 0
Host = ℕ → Response

-- What the loop of `execute` holds.
pub record Attempt : Type 0 where
  pub succeeded : Bool
  pub host_status : String
  pub attempts : ℕ

abbrev pub host_statuses : List String
host_statuses = "succeeded" ∷ "host_adapter_unavailable" ∷ "host_adapter_failed" ∷ "rejected" ∷ []

abbrev pub default_status : Bool → String
default_status true = "succeeded"
default_status false = "host_adapter_failed"

-- A list or an object as the status raises within the `try`.
unfoldable pub read_mapping : Bool → Option Value → Bool × String
unfolding contains
read_mapping succeeded none = (succeeded, default_status succeeded)
read_mapping succeeded (some (Value.text s)) =
    (succeeded, if contains host_statuses s then s else "host_adapter_failed")
read_mapping succeeded (some (Value.array _)) = (false, "host_adapter_failed")
read_mapping succeeded (some (Value.object _)) = (false, "host_adapter_failed")
read_mapping succeeded (some _) = (succeeded, "host_adapter_failed")

unfoldable pub read_response : Response → Bool × String
unfolding read_mapping get
read_response raised = (false, "host_adapter_failed")
read_response (mapping c) = read_mapping (is_true (get c "succeeded")) (get c "status")
read_response (plain b) = (b, default_status b)

unfoldable pub attempt : Host → ℕ → Attempt
unfolding read_response
attempt host n =
    let (succeeded, status) = read_response (host n) in
    record { succeeded = succeeded; host_status = status; attempts = n }

-- The passes of `for attempts in range(1, attempts_limit + 1)` that are left.
unfoldable pub dispatch_loop : Host → ℕ → Attempt → Attempt
unfolding attempt
dispatch_loop host zero s = s
dispatch_loop host (suc left) s =
    let next = attempt host (s.attempts + 1) in
    let rest = dispatch_loop host left next in if next.succeeded then next else rest

-- `self.max_retries`
unfoldable pub clamp_retries : Value → ℕ
clamp_retries (Value.num n) = min n 3
clamp_retries (Value.negative _) = 0
clamp_retries _ = 1

-- `attempts_limit`
unfoldable pub attempts_limit : Config → ℕ → ℕ
unfolding get
attempts_limit c max_retries = elim (get c "max_retries") [
  | some (Value.num n) ↦ max 1 (min n max_retries + 1)
  | some (Value.negative _) ↦ 1
  | _ ↦ max_retries + 1
]

abbrev pub first_attempt : Attempt
first_attempt = record { succeeded = false; host_status = "host_adapter_failed"; attempts = 0 }

pub record ExecutionResult : Type 0 where
  pub status : String
  pub succeeded : Bool
  pub attempts : ℕ
  pub decision : RoutingDecision

unfoldable pub refused : String → RoutingDecision → ExecutionResult
refused status d = record { status = status; succeeded = false; attempts = 0; decision = d }

unfoldable pub dispatch_result : RoutingDecision → Attempt → ExecutionResult
dispatch_result d s = record {
  status = if s.succeeded then "succeeded" else s.host_status;
  succeeded = s.succeeded;
  attempts = s.attempts;
  decision = d;
}

unfoldable pub execute_decision : Host → ℕ → Config → RoutingDecision → ExecutionResult
unfolding refused dispatch_result dispatch_loop attempts_limit ◌==◌
execute_decision host max_retries c d =
    if d.status == "invalid_configuration"
    then refused "invalid_configuration" d
    else if d.dispatch
    then dispatch_result d (dispatch_loop host (attempts_limit c max_retries) first_attempt)
    else refused "not_dispatched" d

-- `execute` of a core with the registry `r` and the argument `max_retries`.
unfoldable pub execute : Host → Registry → Value → RawRequest → Result RoutingError ExecutionResult
unfolding from_value plan_route execute_decision clamp_retries refused
execute host r max_retries raw = elim (from_value raw) [
  | none ↦ ok (refused "invalid_configuration" invalid_request)
  | some q ↦
      (plan_route (some r) raw >>= λ d.
      ok (execute_decision host (clamp_retries max_retries) q.config d))
]
