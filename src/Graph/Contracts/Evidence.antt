-- ===== src/Graph/Contracts/Evidence.antt =====
-- `validate_evidence` and `validate_operation_descriptor` of routecraft_graph/contracts.py. What `\d`
-- matches is the parameter `is_digit`.
use Prim.Native.String.{◌++◌ as ◌<>◌}
use codex_routecraft.Prelude.{
  ℕ, Bool, false, not, ◌&&◌, String, Option, some, List, [], ◌∷◌, ◌++◌, Result, ok, err, ◌>>=◌,
  keep, sorted, contains, length, leb, ◌==◌, if◌then◌else◌,
}
use codex_routecraft.Core.Words.{Value, Fields, codes, strip}
use codex_routecraft.Graph.Compiler.Shape.{is_digest, is_empty}
use codex_routecraft.Graph.Compiler.Issues.{join}
use codex_routecraft.Graph.Contracts.Patterns.{is_timestamp, is_pathlike}
use codex_routecraft.Graph.Contracts.{ContractError, type_error, field_at}

-- `set(value)`
unfoldable pub keys_of : Fields → List String
keys_of Fields.end = []
keys_of (Fields.field key v fields) = key ∷ keys_of fields

-- `a - b` of two sets, sorted
unfoldable pub lacking : List String → List String → List String
unfolding keep contains sorted
lacking xs ys = sorted (keep (λ x. not (contains ys x)) xs)

-- `if test: errors.append(message)`
abbrev pub report : Bool → String → List String
report test message = if test then message ∷ [] else []

-- `value in {...}`
abbrev pub in_set : Option Value → List String → Result ContractError Bool
in_set (some (Value.text s)) words = ok (contains words s)
in_set (some (Value.array _)) words = err type_error
in_set (some (Value.object _)) words = err type_error
in_set _ words = ok false

-- `isinstance(value, str) and test(value)`
abbrev pub text_with : (String → Bool) → Option Value → Bool
text_with test (some (Value.text s)) = test s
text_with test _ = false

abbrev pub evidence_keys : List String
evidence_keys =
    "evidence_id" ∷ "classification" ∷ "evidence_type" ∷ "statement" ∷ "source_kind"
    ∷ "artifact_hash" ∷ "result" ∷ "created_at" ∷ "node_id" ∷ []

abbrev pub evidence_classifications : List String
evidence_classifications =
    "FACT" ∷ "HYPOTHESIS" ∷ "ASSUMPTION" ∷ "VERIFIED_CONSTRAINT" ∷ "RECOMMENDATION" ∷ []

abbrev pub gate_results : List String
gate_results = "PASS" ∷ "FAIL" ∷ "INCONCLUSIVE" ∷ []

unfoldable pub check_text : Fields → String → List String
unfolding field_at ◌==◌
check_text fields key =
    report (not (text_with (λ s. not (s == "")) (field_at fields key)))
      ("evidence " <> key <> " invalid")

-- The keys: missing ones first, then unknown ones.
unfoldable pub check_keys : String → List String → Fields → List String
unfolding lacking keys_of join
check_keys name required fields =
    let missing = lacking required (keys_of fields) in
    let unknown = lacking (keys_of fields) required in
    report (not (is_empty missing)) (name <> " missing " <> join missing)
    ++ report (not (is_empty unknown)) (name <> " unknown " <> join unknown)

-- What follows the tests that may raise.
unfoldable pub check_texts : (is_digit : ℕ → Bool) → Fields → List String
unfolding check_text field_at is_digest is_timestamp is_pathlike
check_texts is_digit fields =
    check_text fields "evidence_id"
    ++ check_text fields "evidence_type"
    ++ check_text fields "statement"
    ++ check_text fields "source_kind"
    ++ check_text fields "node_id"
    ++ report (not (text_with is_digest (field_at fields "artifact_hash")))
        "evidence artifact_hash invalid"
    ++ report (not (text_with (is_timestamp is_digit) (field_at fields "created_at")))
        "evidence created_at invalid"
    ++ report (text_with is_pathlike (field_at fields "statement"))
        "evidence statement must not expose path"

unfoldable pub validate_evidence :
    (is_digit : ℕ → Bool) → Value → Result ContractError (List String)
unfolding check_keys check_texts field_at contains
validate_evidence is_digit (Value.object fields) = do
  classified ← in_set (field_at fields "classification") evidence_classifications
  judged ← in_set (field_at fields "result") gate_results
  ok (
      check_keys "evidence" evidence_keys fields
      ++ report (not classified) "evidence classification invalid"
      ++ report (not judged) "evidence result invalid"
      ++ check_texts is_digit fields)
validate_evidence is_digit _ = ok ("evidence must be object" ∷ [])

-- `isinstance(...) and value.strip() and len(value) <= 120`
unfoldable pub is_short_text : String → Bool
unfolding strip
is_short_text s = leb 1 (length (strip (codes s))) && leb (length (codes s)) 120

abbrev pub descriptor_keys : List String
descriptor_keys = "kind" ∷ "target_scope" ∷ "parameters_hash" ∷ []

unfoldable pub validate_operation_descriptor : Value → List String
unfolding lacking keys_of field_at is_short_text is_digest
validate_operation_descriptor (Value.object fields) =
    report
      (not (
        is_empty (lacking descriptor_keys (keys_of fields))
        && is_empty (lacking (keys_of fields) descriptor_keys)))
      "operation descriptor keys invalid"
    ++ report (not (text_with is_short_text (field_at fields "kind")))
        "operation descriptor kind invalid"
    ++ report (not (text_with is_short_text (field_at fields "target_scope")))
        "operation descriptor target_scope invalid"
    ++ report (not (text_with is_digest (field_at fields "parameters_hash")))
        "operation descriptor parameters_hash invalid"
validate_operation_descriptor _ = "operation descriptor must be object" ∷ []
