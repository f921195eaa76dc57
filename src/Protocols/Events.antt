-- ===== src/Protocols/Events.antt =====
-- `_bounded_json` of routecraft_protocols/events.py: the bounds on an event's metadata, over JSON
-- values. Python's casefold, the searches by re and those of privacy.py are the
-- fields of `Searches`.
pub mod Bounds
use codex_routecraft.Prelude.{
  ℕ, suc, Bool, true, false, not, ◌&&◌, ◌||◌, String, List, [], ◌∷◌, Result, ok, err, ◌>>=◌, ◌>>◌,
  require, contains, length, leb, ltb, ◌==◌, if◌then◌else◌,
}
use codex_routecraft.Core.Words.{Value, Items, Fields, codes}

pub data EventError : Type 0 where
  nesting_limit measurement_invalid key_unsafe string_limit value_unsafe list_limit object_limit
        key_invalid :
      EventError

pub record Searches : Type 0 where
  pub casefold : String → String
  pub is_secret_key : String → Bool
  pub is_body_key : String → Bool
  pub is_private : String → Bool

abbrev pub safe_measurements : List String
safe_measurements =
    "token_count" ∷ "total_tokens" ∷ "input_tokens" ∷ "cached_tokens" ∷ "cached_input_tokens"
    ∷ "output_tokens" ∷ "reasoning_tokens" ∷ []

abbrev pub max_depth : ℕ
max_depth = 6

abbrev pub max_items : ℕ
max_items = 64

abbrev pub max_string : ℕ
max_string = 512

unfoldable pub item_count : Items → ℕ
item_count Items.nil = 0
item_count (Items.item v items) = suc (item_count items)

unfoldable pub field_count : Fields → ℕ
field_count Fields.end = 0
field_count (Fields.field key v fields) = suc (field_count fields)

-- `isinstance(value, int)` or a float, not a Boolean, and not negative
abbrev pub is_measurement : Value → Bool
is_measurement (Value.num _) = true
is_measurement (Value.fraction minus digits _) = not minus || leb digits 0
is_measurement _ = false

-- The tests of the depth and of the key, before `inside`, those of the value.
unfoldable pub admit :
    Searches → ℕ → String → Value → Result EventError (Unit {0}) → Result EventError (Unit {0})
unfolding contains
admit s depth key v inside =
    if ltb max_depth depth
    then err EventError.nesting_limit
    else if contains safe_measurements (s.casefold key)
    then require (is_measurement v) EventError.measurement_invalid
    else if s.is_secret_key key || s.is_body_key key
    then err EventError.key_unsafe
    else inside

unfoldable pub check_string : Searches → String → Result EventError (Unit {0})
check_string s t = do
  require (not (ltb max_string (length (codes t)))) EventError.string_limit
  require (not (s.is_private t)) EventError.value_unsafe

abbrev pub is_key : String → Bool
is_key key = not (key == "") && leb (length (codes key)) 96

unfoldable mutual
  unfolding admit check_string item_count field_count ◌==◌

  pub bounded_json : Searches → ℕ → String → Value → Result EventError (Unit {0})
  bounded_json s depth key Value.null = admit s depth key Value.null (ok tt)
  bounded_json s depth key (Value.bool b) = admit s depth key (Value.bool b) (ok tt)
  bounded_json s depth key (Value.num n) = admit s depth key (Value.num n) (ok tt)
  bounded_json s depth key (Value.negative n) = admit s depth key (Value.negative n) (ok tt)
  bounded_json s depth key (Value.fraction minus digits scale) =
      admit s depth key (Value.fraction minus digits scale) (ok tt)
  bounded_json s depth key (Value.text t) = admit s depth key (Value.text t) (check_string s t)
  bounded_json s depth key (Value.array items) =
      let deep = bounded_items s (suc depth) items in
      admit s depth key (Value.array items)
        (require (not (ltb max_items (item_count items))) EventError.list_limit >> deep)
  bounded_json s depth key (Value.object fields) =
      let deep = bounded_fields s (suc depth) fields in
      admit s depth key (Value.object fields)
        (require (not (ltb max_items (field_count fields))) EventError.object_limit >> deep)

  -- The loop over a list, whose items have no key.
  pub bounded_items : Searches → ℕ → Items → Result EventError (Unit {0})
  bounded_items s depth Items.nil = ok tt
  bounded_items s depth (Items.item v items) =
      let later = bounded_items s depth items in bounded_json s depth "" v >> later

  pub bounded_fields : Searches → ℕ → Fields → Result EventError (Unit {0})
  bounded_fields s depth Fields.end = ok tt
  bounded_fields s depth (Fields.field key v fields) =
      let here = bounded_json s depth key v in
      let later = bounded_fields s depth fields in
      require (is_key key) EventError.key_invalid >> here >> later
