-- ===== src/Graph/Contracts/Conforms.antt =====
-- What a schema means, for validate_schema and validate_value of contracts.py.
use codex_routecraft.Prelude.{
  ℕ, Bool, true, false, ◌&&◌, String, Option, none, some, List, [], ◌∷◌, ◌≡◌, refl, sym, ap, ap₂,
  ◌∙◌, Result, ok, contains, ◌==◌, if◌then◌else◌, Bool-cases, Option-cases, inl, inr,
}
use mathlib.Core.Option
use codex_routecraft.Core.Words.{Value, Items, Fields}
use codex_routecraft.Graph.Types.{Scalar, Schema, Properties}
use codex_routecraft.Graph.Compiler.Orders.{schema_type, scalar_text}
use codex_routecraft.Graph.Contracts.{
  ContractError, and_then, field_at, all_texts, kind_of, validate_schema, validate_schemas, fits,
  has_key, has_required, is_number_kind, validate_value, validate_elements, validate_fields,
}

-- A typed schema as the JSON value that stands for it.
unfoldable pub texts : List String → Items
texts [] = Items.nil
texts (s ∷ ss) = Items.item (Value.text s) (texts ss)

unfoldable mutual
  unfolding texts

  pub encode : Schema → Value
  encode (Schema.scalar k) =
      Value.object (Fields.field "type" (Value.text (scalar_text k)) Fields.end)
  encode Schema.array = Value.object (Fields.field "type" (Value.text "array") Fields.end)
  encode (Schema.array_of s) =
      Value.object
        (Fields.field "type" (Value.text "array") (Fields.field "items" (encode s) Fields.end))
  encode (Schema.object ps required) = Value.object (
      Fields.field "type" (Value.text "object") (
        Fields.field "properties" (Value.object (encode_properties ps))
          (Fields.field "required" (Value.array (texts required)) Fields.end)))

  pub encode_properties : Properties → Fields
  encode_properties Properties.end = Fields.end
  encode_properties (Properties.property key s ps) =
      Fields.field key (encode s) (encode_properties ps)

-- What the schema of a scalar admits.
unfoldable pub admits : Scalar → Value → Bool
admits Scalar.string (Value.text _) = true
admits Scalar.integer (Value.num _) = true
admits Scalar.integer (Value.negative _) = true
admits Scalar.number (Value.num _) = true
admits Scalar.number (Value.negative _) = true
admits Scalar.number (Value.fraction _ _ _) = true
admits Scalar.boolean (Value.bool _) = true
admits Scalar.null Value.null = true
admits _ _ = false

unfoldable pub schema_at : Properties → String → Option Schema
unfolding ◌==◌
schema_at Properties.end key = none
schema_at (Properties.property k s ps) key = if k == key then some s else schema_at ps key

unfoldable pub all_present : List String → Fields → Bool
unfolding field_at
all_present [] fields = true
all_present (key ∷ keys) fields = has_key (field_at fields key) && all_present keys fields

-- What a schema means: the elements of a list fit its item schema; an object has every required
-- key, and each entry that is described fits its description.
unfoldable mutual
  unfolding admits schema_at all_present

  pub conforms : Value → Schema → Bool
  conforms v (Schema.scalar k) = admits k v
  conforms (Value.array _) Schema.array = true
  conforms (Value.array items) (Schema.array_of s) = all_conform items s
  conforms (Value.object fields) (Schema.object ps required) =
      all_present required fields && fields_conform fields ps
  conforms _ _ = false

  pub all_conform : Items → Schema → Bool
  all_conform Items.nil s = true
  all_conform (Items.item v items) s = conforms v s && all_conform items s

  pub fields_conform : Fields → Properties → Bool
  fields_conform Fields.end ps = true
  fields_conform (Fields.field key v fields) ps =
      elim (schema_at ps key) [ none ↦ true | some s ↦ conforms v s ] && fields_conform fields ps

all_texts-texts : (ss : List String) → all_texts (texts ss) ≡ true
unfolding all_texts texts
all_texts-texts [] = refl
all_texts-texts (s ∷ ss) = all_texts-texts ss

mutual
  unfolding validate_schema encode kind_of field_at contains ◌==◌

  validate_schema-encode : (s : Schema) → validate_schema (encode s) ≡ ok true
  validate_schema-encode (Schema.scalar Scalar.string) = refl
  validate_schema-encode (Schema.scalar Scalar.integer) = refl
  validate_schema-encode (Schema.scalar Scalar.number) = refl
  validate_schema-encode (Schema.scalar Scalar.boolean) = refl
  validate_schema-encode (Schema.scalar Scalar.null) = refl
  validate_schema-encode Schema.array = refl
  validate_schema-encode (Schema.array_of s) = validate_schema-encode s
  validate_schema-encode (Schema.object ps required) =
      rw (validate_schemas-encode ps, all_texts-texts required) refl

  validate_schemas-encode : (ps : Properties) → validate_schemas (encode_properties ps) ≡ ok true
  validate_schemas-encode Properties.end = refl
  validate_schemas-encode (Properties.property key s ps) =
      rw (validate_schema-encode s) (validate_schemas-encode ps)

fits-encode : (test : String → Bool) (s : Schema) → fits test (encode s) ≡ ok (test (schema_type s))
unfolding fits encode kind_of field_at contains ◌==◌
fits-encode test (Schema.scalar Scalar.string) = refl
fits-encode test (Schema.scalar Scalar.integer) = refl
fits-encode test (Schema.scalar Scalar.number) = refl
fits-encode test (Schema.scalar Scalar.boolean) = refl
fits-encode test (Schema.scalar Scalar.null) = refl
fits-encode test Schema.array = refl
fits-encode test (Schema.array_of s) = rw (validate_schema-encode s) refl
fits-encode test (Schema.object ps required) =
    rw (validate_schemas-encode ps, all_texts-texts required) refl

field_at-encode_properties :
    (ps : Properties) (key : String)
    → field_at (encode_properties ps) key ≡ Option.map encode (schema_at ps key)
unfolding field_at encode schema_at
field_at-encode_properties Properties.end key = refl
field_at-encode_properties (Properties.property k s ps) key = elim (Bool-cases (k == key)) [
  | inl here ↦ rw here refl
  | inr other ↦ rw other (field_at-encode_properties ps key)
]

has_required-texts :
    (ss : List String) (fields : Fields) → has_required (texts ss) fields ≡ all_present ss fields
unfolding has_required texts all_present
has_required-texts [] fields = refl
has_required-texts (s ∷ ss) fields =
    ap (λ b. has_key (field_at fields s) && b) (has_required-texts ss fields)

and_then-ok : (a b : Bool) → and_then (ok a) (ok b) ≡ ok (a && b)
and_then-ok true b = refl
and_then-ok false b = refl

-- The kinds that a scalar's value has.
null-admits : (s : Schema) → (schema_type s == "null") ≡ conforms Value.null s
unfolding conforms ◌==◌
null-admits (Schema.scalar Scalar.string) = refl
null-admits (Schema.scalar Scalar.integer) = refl
null-admits (Schema.scalar Scalar.number) = refl
null-admits (Schema.scalar Scalar.boolean) = refl
null-admits (Schema.scalar Scalar.null) = refl
null-admits Schema.array = refl
null-admits (Schema.array_of s) = refl
null-admits (Schema.object ps required) = refl

bool-admits : (b : Bool) (s : Schema) → (schema_type s == "boolean") ≡ conforms (Value.bool b) s
unfolding conforms ◌==◌
bool-admits b (Schema.scalar Scalar.string) = refl
bool-admits b (Schema.scalar Scalar.integer) = refl
bool-admits b (Schema.scalar Scalar.number) = refl
bool-admits b (Schema.scalar Scalar.boolean) = refl
bool-admits b (Schema.scalar Scalar.null) = refl
bool-admits b Schema.array = refl
bool-admits b (Schema.array_of s) = refl
bool-admits b (Schema.object ps required) = refl

text-admits : (t : String) (s : Schema) → (schema_type s == "string") ≡ conforms (Value.text t) s
unfolding conforms ◌==◌
text-admits t (Schema.scalar Scalar.string) = refl
text-admits t (Schema.scalar Scalar.integer) = refl
text-admits t (Schema.scalar Scalar.number) = refl
text-admits t (Schema.scalar Scalar.boolean) = refl
text-admits t (Schema.scalar Scalar.null) = refl
text-admits t Schema.array = refl
text-admits t (Schema.array_of s) = refl
text-admits t (Schema.object ps required) = refl

num-admits : (n : ℕ) (s : Schema) → is_number_kind (schema_type s) ≡ conforms (Value.num n) s
unfolding conforms ◌==◌
num-admits n (Schema.scalar Scalar.string) = refl
num-admits n (Schema.scalar Scalar.integer) = refl
num-admits n (Schema.scalar Scalar.number) = refl
num-admits n (Schema.scalar Scalar.boolean) = refl
num-admits n (Schema.scalar Scalar.null) = refl
num-admits n Schema.array = refl
num-admits n (Schema.array_of s) = refl
num-admits n (Schema.object ps required) = refl

negative-admits :
    (n : ℕ) (s : Schema) → is_number_kind (schema_type s) ≡ conforms (Value.negative n) s
unfolding conforms ◌==◌
negative-admits n (Schema.scalar Scalar.string) = refl
negative-admits n (Schema.scalar Scalar.integer) = refl
negative-admits n (Schema.scalar Scalar.number) = refl
negative-admits n (Schema.scalar Scalar.boolean) = refl
negative-admits n (Schema.scalar Scalar.null) = refl
negative-admits n Schema.array = refl
negative-admits n (Schema.array_of s) = refl
negative-admits n (Schema.object ps required) = refl

fraction-admits :
    (m : Bool) (d k : ℕ) (s : Schema)
    → (schema_type s == "number") ≡ conforms (Value.fraction m d k) s
unfolding conforms ◌==◌
fraction-admits m d k (Schema.scalar Scalar.string) = refl
fraction-admits m d k (Schema.scalar Scalar.integer) = refl
fraction-admits m d k (Schema.scalar Scalar.number) = refl
fraction-admits m d k (Schema.scalar Scalar.boolean) = refl
fraction-admits m d k (Schema.scalar Scalar.null) = refl
fraction-admits m d k Schema.array = refl
fraction-admits m d k (Schema.array_of s) = refl
fraction-admits m d k (Schema.object ps required) = refl

fits-false :
    (test : String → Bool) (s : Schema) (deep : Result ContractError Bool)
    → test (schema_type s) ≡ false
    → and_then (fits test (encode s)) deep ≡ ok false
fits-false test s deep h = ap (λ r. and_then r deep) (fits-encode test s ∙ ap ok h)

fits-true :
    (test : String → Bool) (s : Schema) (deep : Result ContractError Bool)
    → test (schema_type s) ≡ true
    → and_then (fits test (encode s)) deep ≡ deep
fits-true test s deep h = ap (λ r. and_then r deep) (fits-encode test s ∙ ap ok h)

scalar-no_array : (k : Scalar) → (scalar_text k == "array") ≡ false
unfolding ◌==◌
scalar-no_array Scalar.string = refl
scalar-no_array Scalar.integer = refl
scalar-no_array Scalar.number = refl
scalar-no_array Scalar.boolean = refl
scalar-no_array Scalar.null = refl

scalar-no_object : (k : Scalar) → (scalar_text k == "object") ≡ false
unfolding ◌==◌
scalar-no_object Scalar.string = refl
scalar-no_object Scalar.integer = refl
scalar-no_object Scalar.number = refl
scalar-no_object Scalar.boolean = refl
scalar-no_object Scalar.null = refl

array-admits : (k : Scalar) (items : Items) → admits k (Value.array items) ≡ false
unfolding admits
array-admits Scalar.string items = refl
array-admits Scalar.integer items = refl
array-admits Scalar.number items = refl
array-admits Scalar.boolean items = refl
array-admits Scalar.null items = refl

object-admits : (k : Scalar) (fields : Fields) → admits k (Value.object fields) ≡ false
unfolding admits
object-admits Scalar.string fields = refl
object-admits Scalar.integer fields = refl
object-admits Scalar.number fields = refl
object-admits Scalar.boolean fields = refl
object-admits Scalar.null fields = refl

validate_elements-none : (items : Items) → validate_elements items none ≡ ok true
unfolding validate_value
validate_elements-none Items.nil = refl
validate_elements-none (Items.item v items) = refl

-- One entry of an object, once it is known how its key is described.
validate_fields-cons :
    (key : String) (v : Value) (fields ps : Fields) (o : Option Value)
    → field_at ps key ≡ o
    → validate_fields (Fields.field key v fields) ps ≡ elim o [
      | none ↦ validate_fields fields ps
      | some schema ↦ and_then (validate_value v schema) (validate_fields fields ps)
    ]
unfolding validate_value
validate_fields-cons key v fields ps o e =
    ap
      (λ (d : Option Value). elim d as (λ _. Result ContractError Bool) [
        | none ↦ validate_fields fields ps
        | some schema ↦ and_then (validate_value v schema) (validate_fields fields ps)
      ])
      e

fields_conform-cons :
    (key : String) (v : Value) (fields : Fields) (ps : Properties) (o : Option Schema)
    → schema_at ps key ≡ o
    → fields_conform (Fields.field key v fields) ps
      ≡ (elim o [ none ↦ true | some s ↦ conforms v s ] && fields_conform fields ps)
unfolding conforms
fields_conform-cons key v fields ps o e =
    ap
      (λ (d : Option Schema).
        elim d as (λ _. Bool) [ none ↦ true | some s ↦ conforms v s ] && fields_conform fields ps)
      e

mutual
  unfolding validate_value encode conforms field_at ◌==◌

  validate_value-encode : (v : Value) (s : Schema) → validate_value v (encode s) ≡ ok (conforms v s)
  validate_value-encode Value.null s = fits-encode (λ k. k == "null") s ∙ ap ok (null-admits s)
  validate_value-encode (Value.bool b) s =
      fits-encode (λ k. k == "boolean") s ∙ ap ok (bool-admits b s)
  validate_value-encode (Value.num n) s = fits-encode is_number_kind s ∙ ap ok (num-admits n s)
  validate_value-encode (Value.negative n) s =
      fits-encode is_number_kind s ∙ ap ok (negative-admits n s)
  validate_value-encode (Value.fraction m d k) s =
      fits-encode (λ kind. kind == "number") s ∙ ap ok (fraction-admits m d k s)
  validate_value-encode (Value.text t) s =
      fits-encode (λ k. k == "string") s ∙ ap ok (text-admits t s)
  validate_value-encode (Value.array items) (Schema.scalar k) =
      fits-false (λ k. k == "array") (Schema.scalar k) _ (scalar-no_array k)
      ∙ ap ok (sym (array-admits k items))
  validate_value-encode (Value.array items) Schema.array =
      fits-true (λ k. k == "array") Schema.array _ refl ∙ validate_elements-none items
  validate_value-encode (Value.array items) (Schema.array_of s) =
      fits-true (λ k. k == "array") (Schema.array_of s) _ refl ∙ validate_elements-conform items s
  validate_value-encode (Value.array items) (Schema.object ps required) =
      fits-false (λ k. k == "array") (Schema.object ps required) _ refl
  validate_value-encode (Value.object fields) (Schema.scalar k) =
      fits-false (λ k. k == "object") (Schema.scalar k) _ (scalar-no_object k)
      ∙ ap ok (sym (object-admits k fields))
  validate_value-encode (Value.object fields) Schema.array =
      fits-false (λ k. k == "object") Schema.array (validate_fields fields Fields.end) refl
  validate_value-encode (Value.object fields) (Schema.array_of s) =
      fits-false (λ k. k == "object") (Schema.array_of s) (validate_fields fields Fields.end) refl
  validate_value-encode (Value.object fields) (Schema.object ps required) =
      fits-true (λ k. k == "object") (Schema.object ps required) _ refl
      ∙ ap₂ (λ a r. and_then (ok a) r) (has_required-texts required fields)
          (validate_fields-conform fields ps)
      ∙ and_then-ok (all_present required fields) (fields_conform fields ps)

  validate_elements-conform :
      (items : Items) (s : Schema)
      → validate_elements items (some (encode s)) ≡ ok (all_conform items s)
  validate_elements-conform Items.nil s = refl
  validate_elements-conform (Items.item v items) s =
      rw (validate_value-encode v s, validate_elements-conform items s) (and_then-ok _ _)

  validate_fields-conform :
      (fields : Fields) (ps : Properties)
      → validate_fields fields (encode_properties ps) ≡ ok (fields_conform fields ps)
  validate_fields-conform Fields.end ps = refl
  validate_fields-conform (Fields.field key v fields) ps = elim (Option-cases (schema_at ps key)) [
    | inl gone ↦
        validate_fields-cons key v fields (encode_properties ps) none
          (field_at-encode_properties ps key ∙ ap (Option.map encode) gone)
        ∙ validate_fields-conform fields ps
        ∙ ap ok (sym (fields_conform-cons key v fields ps none gone))
    | inr (s, is) ↦
        validate_fields-cons key v fields (encode_properties ps) (some (encode s))
          (field_at-encode_properties ps key ∙ ap (Option.map encode) is)
        ∙ ap₂ and_then (validate_value-encode v s) (validate_fields-conform fields ps)
        ∙ and_then-ok (conforms v s) (fields_conform fields ps)
        ∙ ap ok (sym (fields_conform-cons key v fields ps (some s) is))
  ]

-- `validate_schema` accepts every typed schema, and `validate_value` answers for every JSON value
-- whether it has the meaning of the schema; on such a schema neither raises.
pub validate_value-conforms :
    (v : Value) (s : Schema)
    → (validate_schema (encode s) ≡ ok true) × (validate_value v (encode s) ≡ ok (conforms v s))
validate_value-conforms v s = (validate_schema-encode s, validate_value-encode v s)
