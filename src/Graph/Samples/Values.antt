-- ===== src/Graph/Samples/Values.antt =====
-- JSON values, and what the validators of contracts.py say of them.
use codex_routecraft.Prelude.{ℕ, String, Bool, true, false, [], ◌∷◌, ◌≡◌, refl, ok, err}
use codex_routecraft.Core.Words.{Value, Items, Fields, between}
use codex_routecraft.Graph.Contracts.Patterns.{is_timestamp, is_pathlike}
use codex_routecraft.Graph.Types.{Scalar, Schema, Properties}
use codex_routecraft.Graph.Contracts.{type_error, validate_schema, validate_value}
use codex_routecraft.Graph.Contracts.Conforms.{encode, conforms, validate_value-conforms}
use codex_routecraft.Graph.Contracts.Evidence.{validate_operation_descriptor}
use codex_routecraft.Graph.Contracts.Accepted.{
  IsDescriptor, validate_operation_descriptor-IsDescriptor,
}
use codex_routecraft.Graph.Contracts.Intent.{validate_intent_value}
use codex_routecraft.Graph.Contracts.Intent.Meaning.{IsIntent}
use codex_routecraft.Graph.Contracts.Intent.Valid.{validate_intent_value-IsIntent}

abbrev digest : String
digest = "sha256:0123456789abcdef0123456789abcdef0123456789abcdef0123456789abcdef"

abbrev report_schema : Schema
report_schema =
    Schema.object
      (Properties.property "name" (Schema.scalar Scalar.string) (
        Properties.property "sizes" (Schema.array_of (Schema.scalar Scalar.integer))
          Properties.end))
      ("name" ∷ [])

abbrev a_report : Value
a_report = Value.object (
    Fields.field "name" (Value.text "x")
      (Fields.field "sizes" (Value.array (Items.item (Value.num 3) Items.nil)) Fields.end))

conforms-sample : conforms a_report report_schema ≡ true
unfolding conforms
conforms-sample = refl

validate_value-conforms_example :
    (validate_schema (encode report_schema) ≡ ok true)
    × (validate_value a_report (encode report_schema) ≡ ok (conforms a_report report_schema))
validate_value-conforms_example = validate_value-conforms a_report report_schema

-- A list under "type" is not hashable: the answer is an exception instead of `False`.
type_list-sample :
    validate_schema (Value.object (Fields.field "type" (Value.array Items.nil) Fields.end))
    ≡ err type_error
unfolding validate_schema
type_list-sample = refl

abbrev descriptor : Fields
descriptor = Fields.field "kind" (Value.text "deploy") (
    Fields.field "target_scope" (Value.text "site")
      (Fields.field "parameters_hash" (Value.text digest) Fields.end))

descriptor-passes : validate_operation_descriptor (Value.object descriptor) ≡ []
unfolding validate_operation_descriptor
descriptor-passes = refl

validate_operation_descriptor-IsDescriptor_example : IsDescriptor descriptor
validate_operation_descriptor-IsDescriptor_example =
    validate_operation_descriptor-IsDescriptor descriptor descriptor-passes

abbrev ascii_digit : ℕ → Bool
ascii_digit c = between b'0' b'9' c

timestamp-sample :
    (is_timestamp ascii_digit "2026-01-01T00:00:00.25Z" ≡ true)
    × (is_timestamp ascii_digit "2026-01-01T00:00:00.Z" ≡ false)
    × (is_timestamp ascii_digit "2026-01-01T00:00:00Z+" ≡ false)
unfolding is_timestamp
timestamp-sample = (refl, refl, refl)

pathlike-sample :
    (is_pathlike "see C:/logs" ≡ false)
    × (is_pathlike "C:/logs" ≡ true)
    × (is_pathlike "see x/home/me" ≡ true)
unfolding is_pathlike
pathlike-sample = (refl, refl, refl)

-- A float is a number and no integer.
float-sample :
    (validate_value (Value.fraction false 15 1) (encode (Schema.scalar Scalar.integer)) ≡ ok false)
    × (validate_value (Value.fraction false 15 1) (encode (Schema.scalar Scalar.number)) ≡ ok true)
unfolding validate_value encode
float-sample = (refl, refl)

abbrev evidence : Fields
evidence = Fields.field "evidence_id" (Value.text "e1") (
    Fields.field "classification" (Value.text "FACT") (
      Fields.field "evidence_type" (Value.text "test") (
        Fields.field "statement" (Value.text "all tests pass") (
          Fields.field "source_kind" (Value.text "ci") (
            Fields.field "artifact_hash" (Value.text digest) (
              Fields.field "result" (Value.text "PASS") (
                Fields.field "created_at" (Value.text "2026-01-01T00:00:00Z")
                  (Fields.field "node_id" (Value.text "build") Fields.end))))))))

abbrev a_criterion : Value
a_criterion = Value.object (
    Fields.field "criterion_id" (Value.text "c1")
      (Fields.field "statement" (Value.text "all tests pass") Fields.end))

abbrev a_mutation : Value
a_mutation = Value.object (
    Fields.field "kind" (Value.text "deploy") (
      Fields.field "target_scope" (Value.text "site")
        (Fields.field "reversible" (Value.bool true) Fields.end)))

abbrev a_boundary : Value
a_boundary = Value.object (
    Fields.field "local_only" (Value.array (Items.item (Value.text "keys") Items.nil))
      (Fields.field "exportable" (Value.array Items.nil) Fields.end))

abbrev a_budget : Value
a_budget = Value.object (
    Fields.field "max_tokens" (Value.num 9000) (
      Fields.field "max_duration_seconds" Value.null
        (Fields.field "max_child_runs" (Value.num 0) Fields.end)))

abbrev intent : Fields
intent = Fields.field "request_summary" (Value.text "ship it") (
    Fields.field "objectives" (Value.array (Items.item (Value.text "release") Items.nil)) (
      Fields.field "non_goals" (Value.array Items.nil) (
        Fields.field "constraints" (Value.array Items.nil) (
          Fields.field "acceptance_criteria" (Value.array (Items.item a_criterion Items.nil)) (
            Fields.field "risk_level" (Value.text "high") (
              Fields.field "external_mutations" (Value.array (Items.item a_mutation Items.nil)) (
                Fields.field "approval_requirements" (Value.array Items.nil) (
                  Fields.field "privacy_boundary" a_boundary (
                    Fields.field "budget" a_budget
                      (Fields.field "deadline_if_known" Value.null Fields.end))))))))))

intent-passes : validate_intent_value ascii_digit (Value.object intent) ≡ ok []
unfolding validate_intent_value
intent-passes = refl

validate_intent_value-IsIntent_example : IsIntent ascii_digit intent
validate_intent_value-IsIntent_example =
    validate_intent_value-IsIntent ascii_digit intent intent-passes
