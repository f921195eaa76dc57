-- ===== src/Graph/Contracts.antt =====
-- routecraft_graph/contracts.py: the JSON-schema subset, over JSON values. A
-- dictionary's keys are distinct, so the first entry of a key is its value.
pub mod Conforms
pub mod Evidence
pub mod Entries
pub mod Accepted
pub mod Intent
pub mod Patterns
use codex_routecraft.Prelude.{
  ℕ, Bool, true, false, not, ◌&&◌, ◌||◌, String, Option, none, some, List, [], ◌∷◌, Result, ok, err,
  ◌>>=◌, contains, ◌==◌, if◌then◌else◌,
}
use codex_routecraft.Core.Words.{Value, Items, Fields}

-- Python's `x in {...}` hashes `x`, and raises a TypeError on a list or a dictionary.
pub data ContractError : Type 0 where
  type_error : ContractError

-- Python's `a and b`, where `a` and `b` may raise.
abbrev pub and_then :
    Result ContractError Bool → Result ContractError Bool → Result ContractError Bool
and_then (err e) later = err e
and_then (ok false) later = ok false
and_then (ok true) later = later

-- `d.get(key)`
unfoldable pub field_at : Fields → String → Option Value
unfolding ◌==◌
field_at Fields.end key = none
field_at (Fields.field k v fields) key = if k == key then some v else field_at fields key

abbrev pub is_text : Value → Bool
is_text (Value.text _) = true
is_text _ = false

unfoldable pub all_texts : Items → Bool
all_texts Items.nil = true
all_texts (Items.item v items) = is_text v && all_texts items

abbrev pub schema_kinds : List String
schema_kinds = "object" ∷ "array" ∷ "string" ∷ "integer" ∷ "number" ∷ "boolean" ∷ "null" ∷ []

-- `schema.get("type")`, where it is one of the kinds.
abbrev pub kind_of_value : Option Value → Result ContractError (Option String)
kind_of_value none = ok none
kind_of_value (some (Value.text s)) = ok (if contains schema_kinds s then some s else none)
kind_of_value (some (Value.array _)) = err type_error
kind_of_value (some (Value.object _)) = err type_error
kind_of_value (some _) = ok none

unfoldable pub kind_of : Fields → Result ContractError (Option String)
unfolding field_at contains
kind_of fields = kind_of_value (field_at fields "type")

-- `schema.get("required", [])`: the tests that it is a list, and a list of texts.
abbrev pub is_list : Option Value → Bool
is_list none = true
is_list (some (Value.array _)) = true
is_list (some _) = false

abbrev pub is_text_list : Option Value → Bool
is_text_list none = true
is_text_list (some (Value.array items)) = all_texts items
is_text_list (some _) = false

unfoldable mutual
  unfolding kind_of field_at all_texts ◌==◌

  pub validate_schema : Value → Result ContractError Bool
  validate_schema (Value.object fields) =
      let described = validate_properties fields in
      let listed = validate_items fields in
      kind_of fields >>= λ kind. elim kind [
        | none ↦ ok false
        | some k ↦
            if k == "object"
            then and_then (ok (is_list (field_at fields "required")))
                (and_then described (ok (is_text_list (field_at fields "required"))))
            else if k == "array"
            then listed
            else ok true
      ]
  validate_schema _ = ok false

  -- The schemas under the key "properties"; no such key stands for an empty dictionary.
  pub validate_properties : Fields → Result ContractError Bool
  validate_properties Fields.end = ok true
  validate_properties (Fields.field key (Value.object ps) fields) =
      let here = validate_schemas ps in
      let later = validate_properties fields in if key == "properties" then here else later
  validate_properties (Fields.field key _ fields) =
      let later = validate_properties fields in if key == "properties" then ok false else later

  -- `all(validate_schema(v) for k, v in properties.items())`
  pub validate_schemas : Fields → Result ContractError Bool
  validate_schemas Fields.end = ok true
  validate_schemas (Fields.field key v fields) =
      let later = validate_schemas fields in and_then (validate_schema v) later

  -- The schema under the key "items", if there is one.
  pub validate_items : Fields → Result ContractError Bool
  validate_items Fields.end = ok true
  validate_items (Fields.field key v fields) =
      let here = validate_schema v in
      let later = validate_items fields in if key == "items" then here else later

-- What a schema says: its entries, or none where it is no dictionary.
abbrev pub entries_of_value : Value → Fields
entries_of_value (Value.object fields) = fields
entries_of_value _ = Fields.end

abbrev pub entries_at : Option Value → Fields
entries_at none = Fields.end
entries_at (some v) = entries_of_value v

abbrev pub items_at : Option Value → Items
items_at (some (Value.array items)) = items
items_at _ = Items.nil

abbrev pub has_key : Option Value → Bool
has_key none = false
has_key (some _) = true

-- `all(key in value for key in schema.get("required", []))`
unfoldable pub has_required : Items → Fields → Bool
unfolding field_at
has_required Items.nil fields = true
has_required (Items.item (Value.text key) items) fields =
    has_key (field_at fields key) && has_required items fields
has_required (Items.item _ items) fields = false

-- `validate_value` after its first test, for a value that is no list and no dictionary.
unfoldable pub fits : (String → Bool) → Value → Result ContractError Bool
unfolding validate_schema kind_of
fits test schema = and_then (validate_schema schema) (
    kind_of (entries_of_value schema) >>= λ kind. ok (elim kind [ none ↦ false | some k ↦ test k ]))

abbrev pub is_number_kind : String → Bool
is_number_kind k = (k == "integer") || (k == "number")

unfoldable mutual
  unfolding fits field_at has_required ◌==◌

  pub validate_value : Value → Value → Result ContractError Bool
  validate_value Value.null schema = fits (λ k. k == "null") schema
  validate_value (Value.bool _) schema = fits (λ k. k == "boolean") schema
  validate_value (Value.num _) schema = fits is_number_kind schema
  validate_value (Value.negative _) schema = fits is_number_kind schema
  validate_value (Value.fraction _ _ _) schema = fits (λ k. k == "number") schema
  validate_value (Value.text _) schema = fits (λ k. k == "string") schema
  validate_value (Value.array items) schema =
      let deep = validate_elements items (field_at (entries_of_value schema) "items") in
      and_then (fits (λ k. k == "array") schema) deep
  validate_value (Value.object fields) schema =
      let entries = entries_of_value schema in
      let deep = validate_fields fields (entries_at (field_at entries "properties")) in
      and_then (fits (λ k. k == "object") schema)
        (and_then (ok (has_required (items_at (field_at entries "required")) fields)) deep)

  -- `"items" not in schema or all(validate_value(v, schema["items"]) for v in value)`
  pub validate_elements : Items → Option Value → Result ContractError Bool
  validate_elements items none = ok true
  validate_elements Items.nil (some schema) = ok true
  validate_elements (Items.item v items) (some schema) =
      let later = validate_elements items (some schema) in and_then (validate_value v schema) later

  -- `all(key not in properties or validate_value(item, properties[key]) for ...)`
  pub validate_fields : Fields → Fields → Result ContractError Bool
  validate_fields Fields.end properties = ok true
  validate_fields (Fields.field key v fields) properties =
      let later = validate_fields fields properties in
      elim (field_at properties key) [
        | none ↦ later
        | some schema ↦ and_then (validate_value v schema) later
      ]
