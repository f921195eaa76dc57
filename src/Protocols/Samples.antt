-- ===== src/Protocols/Samples.antt =====
-- A telemetry envelope that is accepted, and the theorems applied to it.
use codex_routecraft.Prelude.{
  String, Bool, true, false, none, some, List, [], ◌∷◌, map, ◌≡◌, refl, Result, ok, err,
}
use codex_routecraft.Core.Words.{Value, Items, Fields}
use codex_routecraft.Core.Routing.{RoutingMode, RoutingRequest}
use codex_routecraft.Core.Routing.Observed.{HostFacts, route_changed}
use codex_routecraft.Protocols.Telemetry.{
  Envelope, TelemetryError, validate_telemetry, check_route, route_inconsistent,
}
use codex_routecraft.Protocols.Telemetry.Consistent.{
  IsConsistent, validate_telemetry-IsConsistent, check_route-route_changed,
}
use codex_routecraft.Protocols.Events.{Searches, EventError, bounded_json}
use codex_routecraft.Protocols.Events.Bounds.{height, bounded_json-depth}
use codex_routecraft.Prelude.{◌≤◌, suc, zero, ℕ, ◌==◌}

abbrev fields_from : List (String × Value) → Fields
fields_from [] = Fields.end
fields_from ((k, v) ∷ es) = Fields.field k v (fields_from es)

abbrev nulls : List String → List (String × Value)
nulls names = map (λ name. (name, Value.null)) names

abbrev sent : Bool → Fields
sent changed = fields_from (
    ("schema_version", Value.text "1")
    ∷ ("requested_model", Value.text "m1")
    ∷ ("actual_model", Value.text "m2")
    ∷ ("route_changed", Value.bool changed)
    ∷ ("input_tokens", Value.num 10)
    ∷ ("cached_input_tokens", Value.num 4)
    ∷ nulls (
        "requested_reasoning" ∷ "selected_model" ∷ "selected_reasoning" ∷ "actual_reasoning"
        ∷ "route_decision_model" ∷ "route_decision_reasoning" ∷ "decision_reason"
        ∷ "routecraft_version" ∷ "memory_version" ∷ "collector_version" ∷ "dashboard_version"
        ∷ "output_tokens" ∷ "reasoning_tokens" ∷ "total_tokens" ∷ "execution_time_ms"
        ∷ "retry_count" ∷ "model_calls" ∷ "tool_calls" ∷ "file_reads" ∷ "run_id" ∷ "session_id"
        ∷ "decision_source" ∷ "decision_confidence" ∷ "memory_recall_used" ∷ "memory_case_ids"
        ∷ "rules_applied" ∷ "benchmark" ∷ []))

abbrev nothing_private : String → Bool
nothing_private _ = false

abbrev blank : Envelope
blank = record {
  ids = [];
  labels = [];
  decision_source = "unknown";
  decision_confidence = none;
  route_changed = none;
  memory_recall_used = none;
  memory_case_ids = none;
  rules_applied = none;
  counts = [];
  benchmark = none;
}

abbrev envelope_or : Result TelemetryError Envelope → Envelope
envelope_or (ok e) = e
envelope_or (err _) = blank

abbrev is_returned : Result TelemetryError Envelope → Bool
is_returned (ok _) = true
is_returned (err _) = false

returned_as : (r : Result TelemetryError Envelope) → is_returned r ≡ true → r ≡ ok (envelope_or r)
returned_as (ok e) h = refl
returned_as (err _) h = cc

is_accepted : is_returned (validate_telemetry nothing_private (Value.object (sent true))) ≡ true
unfolding validate_telemetry
is_accepted = refl

validate_telemetry-IsConsistent_example :
    IsConsistent (envelope_or (validate_telemetry nothing_private (Value.object (sent true))))
validate_telemetry-IsConsistent_example =
    validate_telemetry-IsConsistent nothing_private (sent true)
      (envelope_or (validate_telemetry nothing_private (Value.object (sent true))))
      (returned_as (validate_telemetry nothing_private (Value.object (sent true))) is_accepted)

-- The same envelope with the contrary claim is refused.
contrary-sample :
    validate_telemetry nothing_private (Value.object (sent false)) ≡ err route_inconsistent
unfolding validate_telemetry
contrary-sample = refl

abbrev asked : RoutingRequest
asked = record {
  task_id = none;
  task = "add a parser";
  mode = RoutingMode.routecraft;
  provider = none;
  host = none;
  model = some "m1";
  requested_reasoning = none;
  project = none;
  config = [];
}

abbrev observed : HostFacts
observed = record {
  actual_model = some "m1";
  actual_reasoning = some "high";
  retry_count = none;
  counts = [];
}

check_route-route_changed_example :
    check_route
      (route_changed asked observed)
      asked.model
      asked.requested_reasoning
      observed.actual_model
      observed.actual_reasoning
    ≡ ok tt
check_route-route_changed_example = check_route-route_changed asked observed

abbrev searches : Searches
searches = record {
  casefold = λ key. key;
  is_secret_key = λ key. key == "password";
  is_body_key = λ key. key == "prompt";
  is_private = λ text. false;
}

-- The value in as many lists.
abbrev nested : ℕ → Value → Value
nested zero v = v
nested (suc n) v = Value.array (Items.item (nested n v) Items.nil)

abbrev notes : Value
notes = Value.object (
    Fields.field "sizes" (nested 5 (Value.num 3)) (Fields.field "name" (Value.text "x") Fields.end))

notes-pass : bounded_json searches 0 "notes" notes ≡ ok tt
unfolding bounded_json
notes-pass = refl

too_deep-sample :
    bounded_json searches 0 "notes" (nested 7 (Value.num 3)) ≡ err EventError.nesting_limit
unfolding bounded_json
too_deep-sample = refl

inner_password-sample :
    bounded_json searches 0 "notes" (Value.object (Fields.field "password" Value.null Fields.end))
    ≡ err EventError.key_unsafe
unfolding bounded_json
inner_password-sample = refl

bounded_json-depth_example : height notes ≤ 6
bounded_json-depth_example = bounded_json-depth searches "notes" notes notes-pass
