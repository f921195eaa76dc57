-- ===== src/Core/Words.antt =====
-- Configuration values, and the words that the program reads from them.
use Prim.Native.Char.{code}
use Prim.Native.Nat.{compare, Ordering}
use mathlib.Core.List.{reverse}
use codex_routecraft.Prelude.{
  ℕ, ◌+◌, Bool, true, false, ◌&&◌, ◌||◌, String, Option, none, some, List, [], ◌∷◌, map, leb,
  if◌then◌else◌, length, all, ◌==◌,
}

-- A JSON value: `negative n` is the integer `- (n + 1)`, and `fraction minus digits scale` the float
-- `digits / 10 ^ scale`, negated where `minus` says so. A finite binary float is such a decimal.
mutual
  pub data Value : Type 0 where
    null : Value
    bool : Bool → Value
    num : ℕ → Value
    negative : ℕ → Value
    fraction : Bool → ℕ → ℕ → Value
    text : String → Value
    array : Items → Value
    object : Fields → Value

  pub data Items : Type 0 where
    nil : Items
    item : Value → Items → Items

  pub data Fields : Type 0 where
    end : Fields
    field : String → Value → Fields → Fields

abbrev pub codes : String → List ℕ
codes String.[] = []
codes (String.◌∷◌ c s) = code c ∷ codes s

abbrev pub same_number : ℕ → ℕ → Bool
same_number a b = elim (compare a b) [ Ordering.eq ↦ true | _ ↦ false ]

unfoldable pub same_codes : List ℕ → List ℕ → Bool
same_codes [] [] = true
same_codes [] (_ ∷ _) = false
same_codes (_ ∷ _) [] = false
same_codes (a ∷ as') (b ∷ bs) = same_number a b && same_codes as' bs

abbrev pub between : ℕ → ℕ → ℕ → Bool
between low high c = leb low c && leb c high

-- `str.isspace` on one character.
unfoldable pub is_space : ℕ → Bool
is_space c =
    between 9 13 c
    || between 28 32 c
    || same_number c 133
    || same_number c 160
    || same_number c 5760
    || between 8192 8202 c
    || between 8232 8233 c
    || same_number c 8239
    || same_number c 8287
    || same_number c 12288

unfoldable pub drop_spaces : List ℕ → List ℕ
unfolding is_space
drop_spaces [] = []
drop_spaces (c ∷ cs) = let rest = drop_spaces cs in if is_space c then rest else c ∷ cs

-- `s.strip()`
unfoldable pub strip : List ℕ → List ℕ
unfolding drop_spaces
strip cs = reverse (drop_spaces (reverse cs))

-- Only these capitals have a small letter of ASCII: A to Z, and the Kelvin sign.
unfoldable pub lower : ℕ → ℕ
lower c = if between b'A' b'Z' c then c + 32 else if same_number c 8490 then b'k' else c

unfoldable pub underscore : ℕ → ℕ
underscore c = if same_number c b'-' then b'_' else c

-- `s.strip().lower().replace("-", "_")`
unfoldable pub normalized : String → List ℕ
unfolding strip lower underscore
normalized s = map (λ c. underscore (lower c)) (strip (codes s))

unfoldable pub word_in : List ℕ → List String → Option String
unfolding same_codes
word_in cs [] = none
word_in cs (w ∷ ws) = let rest = word_in cs ws in if same_codes cs (codes w) then some w else rest

-- The text of a value. No other value is printed as one of the words that are looked for.
abbrev pub text_of : Value → Option String
text_of (Value.text s) = some s
text_of _ = none

-- `_enum_token`
unfoldable pub enum_token : Option Value → List String → String → String
unfolding normalized word_in
enum_token none allowed fallback = fallback
enum_token (some v) allowed fallback = elim (text_of v) [
  | none ↦ fallback
  | some s ↦ elim (word_in (normalized s) allowed) [ none ↦ fallback | some w ↦ w ]
]

-- A character of [A-Za-z0-9].
unfoldable pub is_alphanumeric : ℕ → Bool
is_alphanumeric c = between b'A' b'Z' c || between b'a' b'z' c || between b'0' b'9' c

unfoldable pub opaque_char : ℕ → Bool
unfolding is_alphanumeric
opaque_char c =
    is_alphanumeric c
    || same_number c b'.'
    || same_number c b'_'
    || same_number c b':'
    || same_number c b'-'

-- `_OPAQUE_ID.fullmatch`
unfoldable pub is_opaque_id : String → Bool
unfolding opaque_char is_alphanumeric all
is_opaque_id s = elim (codes s) [
  | [] ↦ false
  | c ∷ cs ↦ is_alphanumeric c && all opaque_char cs && leb (length cs) 127
]

unfoldable pub check_char : ℕ → Bool
unfolding opaque_char
check_char c = opaque_char c || same_number c b'+' || same_number c b'/'

-- `_SAFE_CHECK.fullmatch`
unfoldable pub is_safe_check : String → Bool
unfolding check_char is_alphanumeric all
is_safe_check s = elim (codes s) [
  | [] ↦ false
  | c ∷ cs ↦ is_alphanumeric c && all check_char cs && leb (length cs) 95
]

-- A mapping from keys to values, as the list of its items.
abbrev pub Config : Type 0
Config = List (String × Value)

-- `config.get(key)`
unfoldable pub get : Config → String → Option Value
unfolding ◌==◌
get [] key = none
get ((k, v) ∷ c) key = if k == key then some v else get c key

-- `bool(value)`
abbrev pub is_truthy : Value → Bool
is_truthy Value.null = false
is_truthy (Value.bool b) = b
is_truthy (Value.num n) = leb 1 n
is_truthy (Value.negative _) = true
is_truthy (Value.fraction _ digits _) = leb 1 digits
is_truthy (Value.text String.[]) = false
is_truthy (Value.text (String.◌∷◌ _ _)) = true
is_truthy (Value.array Items.nil) = false
is_truthy (Value.array (Items.item _ _)) = true
is_truthy (Value.object Fields.end) = false
is_truthy (Value.object (Fields.field _ _ _)) = true
