-- ===== src/Protocols/Telemetry.antt =====
-- routecraft_protocols/telemetry.py: the routing telemetry envelope, over JSON
-- values. The searches of privacy.py by Python's re are the parameter `is_private`: the text
-- looks like a secret or has an absolute path.
pub mod Consistent
use Prim.Native.Nat.{◌^◌}
use codex_routecraft.Prelude.{
  ℕ, zero, suc, Bool, true, false, not, ◌&&◌, ◌||◌, String, Option, none, some, List, [], ◌∷◌,
  Result, ok, err, ◌>>=◌, ◌>>◌, require, map_result, all, contains, distinct, length, leb, ltb,
  ◌==◌, if◌then◌else◌,
}
use codex_routecraft.Core.Words.{
  Value, Items, Fields, codes, is_opaque_id, is_alphanumeric, check_char, same_number,
}
use codex_routecraft.Graph.Contracts.{field_at}
use codex_routecraft.Graph.Contracts.Evidence.{keys_of}

pub data TelemetryError : Type 0 where
  keys_invalid version_unsupported id_invalid label_invalid count_invalid confidence_invalid
        bool_invalid list_invalid duplicates source_invalid route_unobserved route_inconsistent
        cached_exceeds_input total_too_small benchmark_invalid :
      TelemetryError
  type_error key_error : TelemetryError

abbrev pub label_names : List String
label_names =
    "requested_model" ∷ "requested_reasoning" ∷ "selected_model" ∷ "selected_reasoning"
    ∷ "actual_model" ∷ "actual_reasoning" ∷ "route_decision_model" ∷ "route_decision_reasoning"
    ∷ "decision_reason" ∷ "routecraft_version" ∷ "memory_version" ∷ "collector_version"
    ∷ "dashboard_version" ∷ []

abbrev pub count_names : List String
count_names =
    "input_tokens" ∷ "cached_input_tokens" ∷ "output_tokens" ∷ "reasoning_tokens" ∷ "total_tokens"
    ∷ "execution_time_ms" ∷ "retry_count" ∷ "model_calls" ∷ "tool_calls" ∷ "file_reads" ∷ []

abbrev pub other_names : List String
other_names =
    "schema_version" ∷ "run_id" ∷ "session_id" ∷ "decision_source" ∷ "decision_confidence"
    ∷ "route_changed" ∷ "memory_recall_used" ∷ "memory_case_ids" ∷ "rules_applied" ∷ "benchmark"
    ∷ []

-- The keys of the envelope are these three lists'.
unfoldable pub has_exact_keys : Fields → Bool
unfolding keys_of contains all
has_exact_keys fields =
    all (contains (keys_of fields)) label_names
    && all (contains (keys_of fields)) count_names
    && all (contains (keys_of fields)) other_names
    && all (λ k. contains label_names k || contains count_names k || contains other_names k)
        (keys_of fields)

-- [A-Za-z0-9][A-Za-z0-9._:+/-]{0,127}
unfoldable pub is_label : String → Bool
unfolding all is_alphanumeric check_char
is_label s = elim (codes s) [
  | [] ↦ false
  | c ∷ cs ↦ is_alphanumeric c && all check_char cs && leb (length cs) 127
]

-- `value[name]`: the keys are checked before.
unfoldable pub at_key : Fields → String → Result TelemetryError Value
unfolding field_at
at_key fields name = elim (field_at fields name) [ none ↦ err key_error | some v ↦ ok v ]

abbrev pub decision_sources : List String
decision_sources = "routecraft" ∷ "user" ∷ "codex" ∷ "fallback" ∷ "unknown" ∷ []

abbrev pub nullable_bool : Value → Result TelemetryError (Option Bool)
nullable_bool Value.null = ok none
nullable_bool (Value.bool b) = ok (some b)
nullable_bool _ = err bool_invalid

-- At most 10 ** 12.
unfoldable pub nullable_count : Value → Result TelemetryError (Option ℕ)
nullable_count Value.null = ok none
nullable_count (Value.num n) = if leb n 1000000000000 then ok (some n) else err count_invalid
nullable_count _ = err count_invalid

unfoldable pub is_probability : Value → Bool
is_probability (Value.num n) = leb n 1
is_probability (Value.fraction true digits scale) = leb digits 0
is_probability (Value.fraction false digits scale) = leb digits (10 ^ scale)
is_probability _ = false

unfoldable pub nullable_probability : Value → Result TelemetryError (Option Value)
unfolding is_probability
nullable_probability Value.null = ok none
nullable_probability v = if is_probability v then ok (some v) else err confidence_invalid

-- `value in {...}`
abbrev pub choose_word : List String → TelemetryError → Value → Result TelemetryError String
choose_word words e (Value.text s) = if contains words s then ok s else err e
choose_word words e (Value.array _) = err type_error
choose_word words e (Value.object _) = err type_error
choose_word words e _ = err e

-- A missing source is "unknown".
abbrev pub decision_source_of : Value → Result TelemetryError String
decision_source_of Value.null = ok "unknown"
decision_source_of v = choose_word decision_sources source_invalid v

unfoldable pub count_of : Fields → String → Result TelemetryError (String × Option ℕ)
unfolding at_key nullable_count
count_of fields name = do v ← at_key fields name; n ← nullable_count v; ok (name, n)

-- `result[name]`
unfoldable pub value_at {ℓ} : {A : Type ℓ} → List (String × Option A) → String → Option A
unfolding ◌==◌
value_at [] name = none
value_at ((k, v) ∷ vs) name = if k == name then v else value_at vs name

-- What is asked of `route_changed` where it is not null.
abbrev pub check_reasoning : Bool → Option String → Option String → Result TelemetryError (Unit {0})
check_reasoning changed (some requested) (some actual) =
    require (if requested == actual then not changed else changed) route_inconsistent
check_reasoning changed _ _ = err route_unobserved

abbrev pub check_model :
    Bool
    → Option String
    → Option String
    → Result TelemetryError (Unit {0})
    → Result TelemetryError (Unit {0})
check_model changed (some requested) (some actual) reasoning =
    if requested == actual then reasoning else require changed route_inconsistent
check_model changed _ _ reasoning = err route_unobserved

unfoldable pub check_route :
    Option Bool
    → (model reasoning actual_model actual_reasoning : Option String)
    → Result TelemetryError (Unit {0})
check_route none model reasoning actual_model actual_reasoning = ok tt
check_route (some changed) model reasoning actual_model actual_reasoning =
    check_model changed model actual_model (check_reasoning changed reasoning actual_reasoning)

-- `a is not None and b is not None and b < a`
abbrev pub is_below : Option ℕ → Option ℕ → Bool
is_below (some a) (some b) = ltb b a
is_below _ _ = false

unfoldable pub check_tokens : List (String × Option ℕ) → Result TelemetryError (Unit {0})
unfolding value_at
check_tokens counts = do
  let input = value_at counts "input_tokens"
  let cached = value_at counts "cached_input_tokens"
  let total = value_at counts "total_tokens"
  require (not (is_below cached input)) cached_exceeds_input
  require (not (is_below input total)) total_too_small
  require (not (is_below cached total)) total_too_small
  require (not (is_below (value_at counts "output_tokens") total)) total_too_small
  require (not (is_below (value_at counts "reasoning_tokens") total)) total_too_small

pub record Benchmark : Type 0 where
  pub version : String
  pub mode : String
  pub test_result : Option String
  pub final_success : Option Bool
  pub pair_id : Option String
  pub scope_id : Option String

pub record Envelope : Type 0 where
  pub ids : List (String × Option String)
  pub labels : List (String × Option String)
  pub decision_source : String
  pub decision_confidence : Option Value
  pub route_changed : Option Bool
  pub memory_recall_used : Option Bool
  pub memory_case_ids : Option (List String)
  pub rules_applied : Option (List String)
  pub counts : List (String × Option ℕ)
  pub benchmark : Option Benchmark

unfoldable pub texts_of : Items → Result TelemetryError (List String)
texts_of Items.nil = ok []
texts_of (Items.item (Value.text s) items) = do rest ← texts_of items; ok (s ∷ rest)
texts_of (Items.item _ items) = err list_invalid

unfoldable pub count_items : Items → ℕ
count_items Items.nil = 0
count_items (Items.item _ items) = suc (count_items items)

unfoldable pub only_keys : Fields → List String → Bool
unfolding keys_of contains all
only_keys fields names =
    all (contains (keys_of fields)) names && all (contains names) (keys_of fields)

abbrev pub v1_keys : List String
v1_keys = "schema_version" ∷ "mode" ∷ "test_result" ∷ "final_success" ∷ []

abbrev pub v2_keys : List String
v2_keys = "schema_version" ∷ "mode" ∷ "pair_id" ∷ "scope_id" ∷ "test_result" ∷ "final_success" ∷ []

abbrev pub test_result_of : Value → Result TelemetryError (Option String)
test_result_of Value.null = ok none
test_result_of v =
    choose_word ("passed" ∷ "failed" ∷ "unknown" ∷ []) benchmark_invalid v >>= λ s. ok (some s)

abbrev pub version_of : Option Value → Option String
version_of (some (Value.text s)) = some s
version_of _ = none

abbrev pub is_version_one : Option Value → Bool
is_version_one (some (Value.text s)) = s == "1"
is_version_one _ = false

module _ (is_private : String → Bool) where
  abbrev pub checked_text :
      (String → Bool) → TelemetryError → Value → Result TelemetryError (Option String)
  checked_text form e Value.null = ok none
  checked_text form e (Value.text s) = if form s && not (is_private s) then ok (some s) else err e
  checked_text form e _ = err e

  unfoldable pub nullable_id : Value → Result TelemetryError (Option String)
  unfolding is_opaque_id
  nullable_id v = checked_text is_opaque_id id_invalid v

  unfoldable pub nullable_label : Value → Result TelemetryError (Option String)
  unfolding is_label
  nullable_label v = checked_text is_label label_invalid v

  unfoldable pub required_id : Value → Result TelemetryError (Option String)
  unfolding nullable_id
  required_id v = nullable_id v >>= λ o. elim o [ none ↦ err id_invalid | some s ↦ ok (some s) ]

  unfoldable pub id_of : Fields → String → Result TelemetryError (String × Option String)
  unfolding at_key nullable_id
  id_of fields name = do v ← at_key fields name; s ← nullable_id v; ok (name, s)

  unfoldable pub label_of : Fields → String → Result TelemetryError (String × Option String)
  unfolding at_key nullable_label
  label_of fields name = do v ← at_key fields name; s ← nullable_label v; ok (name, s)

  -- `_nullable_label_list`, for identifiers or for labels.
  unfoldable pub label_list :
      (String → Bool) → TelemetryError → Value → Result TelemetryError (Option (List String))
  unfolding texts_of count_items distinct all
  label_list form e Value.null = ok none
  label_list form e (Value.array items) = do
    require (leb (count_items items) 32) list_invalid
    ss ← texts_of items
    require (all (λ s. form s && not (is_private s)) ss) e
    require (leb (length ss) (length (distinct ss))) duplicates
    ok (some ss)
  label_list form e _ = err list_invalid

  -- The ids that version 2 asks for.
  unfoldable pub pair_of : Fields → Bool → String → Result TelemetryError (Option String)
  unfolding at_key required_id
  pair_of fields true name = at_key fields name >>= required_id
  pair_of fields false name = ok none

  unfoldable pub benchmark_of : Fields → Bool → String → Result TelemetryError Benchmark
  unfolding at_key contains pair_of
  benchmark_of fields second version = do
    m ← at_key fields "mode"
    mode ← choose_word ("on" ∷ "off" ∷ []) benchmark_invalid m
    t ← at_key fields "test_result"
    result ← test_result_of t
    f ← at_key fields "final_success"
    success ← nullable_bool f
    pair ← pair_of fields second "pair_id"
    scope ← pair_of fields second "scope_id"
    ok record {
      version = version;
      mode = mode;
      test_result = result;
      final_success = success;
      pair_id = pair;
      scope_id = scope;
    }

  unfoldable pub validate_benchmark : Value → Result TelemetryError (Option Benchmark)
  unfolding field_at only_keys benchmark_of ◌==◌
  validate_benchmark Value.null = ok none
  validate_benchmark (Value.object fields) = elim (version_of (field_at fields "schema_version")) [
    | none ↦ err benchmark_invalid
    | some v ↦
        if v == "1"
        then (require (only_keys fields v1_keys) benchmark_invalid
            >> (benchmark_of fields false v >>= λ b. ok (some b)))
        else if v == "2"
        then (require (only_keys fields v2_keys) benchmark_invalid
            >> (benchmark_of fields true v >>= λ b. ok (some b)))
        else err benchmark_invalid
  ]
  validate_benchmark _ = err benchmark_invalid

  unfoldable pub validate_telemetry : Value → Result TelemetryError Envelope
  unfolding has_exact_keys field_at at_key id_of label_of count_of label_list check_route
      check_tokens validate_benchmark nullable_probability map_result value_at is_opaque_id is_label
  validate_telemetry (Value.object fields) = do
    require (has_exact_keys fields) keys_invalid
    require (is_version_one (field_at fields "schema_version")) version_unsupported
    ids ← map_result (id_of fields) ("run_id" ∷ "session_id" ∷ [])
    labels ← map_result (label_of fields) label_names
    s ← at_key fields "decision_source"
    source ← decision_source_of s
    c ← at_key fields "decision_confidence"
    confidence ← nullable_probability c
    r ← at_key fields "route_changed"
    changed ← nullable_bool r
    check_route changed (value_at labels "requested_model") (value_at labels "requested_reasoning")
        (value_at labels "actual_model") (value_at labels "actual_reasoning")
    u ← at_key fields "memory_recall_used"
    used ← nullable_bool u
    m ← at_key fields "memory_case_ids"
    cases ← label_list is_opaque_id id_invalid m
    a ← at_key fields "rules_applied"
    rules ← label_list is_label label_invalid a
    counts ← map_result (count_of fields) count_names
    check_tokens counts
    b ← at_key fields "benchmark"
    benchmark ← validate_benchmark b
    ok record {
      ids = ids;
      labels = labels;
      decision_source = source;
      decision_confidence = confidence;
      route_changed = changed;
      memory_recall_used = used;
      memory_case_ids = cases;
      rules_applied = rules;
      counts = counts;
      benchmark = benchmark;
    }
  validate_telemetry _ = err keys_invalid
