-- ===== src/Graph/Contracts/Entries.antt =====
-- The tests that the validators of contracts.py make of one entry of an object, or of its keys.
use codex_routecraft.Prelude.{
  Bool, true, false, not, ◌&&◌, String, Option, none, some, List, [], ◌∷◌, ◌≡◌, refl, ◌∙◌, arith, ℕ,
  ◌≤◌, ◌++◌, ◌⊎◌, length, leb, all, All, inl, inr, ok, ok-injective, keep, contains,
  contains-sorted, contains-nil, ◌==◌, ==_iff, Bool-cases, Within, and-eq-true,
}
use text.Mathlib.Text.{starts_with}
use codex_routecraft.Core.Words.{Value, Fields, codes, strip, between}
use codex_routecraft.Graph.Compiler.Shape.{is_digest, has_digest, is_empty, hexadecimal}
use codex_routecraft.Graph.Compiler.Issues.{append-eq-nil}
use codex_routecraft.Graph.Contracts.{field_at}
use codex_routecraft.Graph.Contracts.Evidence.{
  keys_of, lacking, report, in_set, text_with, check_keys, is_short_text,
}

-- The entry of the key is a text with the property.
abbrev pub HasText : (String → Bool) → Fields → String → Type 0
HasText test fields key =
    (s : String) × (field_at fields key ≡ some (Value.text s)) × (test s ≡ true)

abbrev pub HasKeys : List String → Fields → Type 0
HasKeys required fields = Within required (keys_of fields) × Within (keys_of fields) required

contains-keep_others :
    (xs ys : List String) (z : String)
    → contains (keep (λ x. not (contains ys x)) xs) z ≡ (contains xs z && not (contains ys z))
unfolding contains keep
contains-keep_others [] ys z = refl
contains-keep_others (x ∷ xs) ys z = elim (Bool-cases (x == z)) [
  | inl same ↦ ground (arith, contains-keep_others xs ys z, same, (==_iff x z).0 same)
  | inr other ↦ ground (arith, contains-keep_others xs ys z, other)
]

pub lacking-Within : (xs ys : List String) → is_empty (lacking xs ys) ≡ true → Within xs ys
unfolding lacking
lacking-Within xs ys h z on =
    let same =
      contains-sorted (keep (λ x. not (contains ys x)) xs) z ∙ contains-keep_others xs ys z in
    elim (Bool-cases (contains ys z)) [
      | inl there ↦ there
      | inr gone ↦
          let left : contains (lacking xs ys) z ≡ true = ground (arith, same, on, gone) in
          absurd (nothing (lacking xs ys) h left)
    ]
  where
    nothing : (l : List String) → is_empty l ≡ true → contains l z ≡ true → ⊥
    nothing [] e m = contains-nil z m
    nothing (k ∷ l) e m = cc

pub report-eq-nil : (test : Bool) (message : String) → report test message ≡ [] → test ≡ false
report-eq-nil true message e = cc
report-eq-nil false message e = refl

-- `if not test` reported nothing.
pub accepted : (test : Bool) (message : String) → report (not test) message ≡ [] → test ≡ true
accepted true message e = refl
accepted false message e = cc

pub text_with-HasText :
    (test : String → Bool) (fields : Fields) (key : String)
    → text_with test (field_at fields key) ≡ true
    → HasText test fields key
text_with-HasText test fields key h = by_value (field_at fields key) refl h
  where
    by_value :
        (o : Option Value)
        → field_at fields key ≡ o
        → text_with test o ≡ true
        → HasText test fields key
    by_value none e h = cc
    by_value (some (Value.text s)) e h = (s, e, h)
    by_value (some Value.null) e h = cc
    by_value (some (Value.bool b)) e h = cc
    by_value (some (Value.num n)) e h = cc
    by_value (some (Value.negative n)) e h = cc
    by_value (some (Value.fraction m d k)) e h = cc
    by_value (some (Value.array items)) e h = cc
    by_value (some (Value.object entries)) e h = cc

-- A text at the key that has what is asked for.
abbrev pub HasEntry : (String → Type 0) → Fields → String → Type 0
HasEntry P fields key = (s : String) × (field_at fields key ≡ some (Value.text s)) × P s

pub HasText-HasEntry :
    (test : String → Bool) (P : String → Type 0) (fields : Fields) (key : String)
    → ((s : String) → test s ≡ true → P s)
    → HasText test fields key
    → HasEntry P fields key
HasText-HasEntry test P fields key means (s, is, passes) = (s, is, means s passes)

-- Not blank, and at most 120 characters.
abbrev pub IsShort : String → Type 0
IsShort s = (strip (codes s) ≡ [] → ⊥) × (length (codes s) ≤ 120)

pub nonempty : (cs : List ℕ) → leb 1 (length cs) ≡ true → cs ≡ [] → ⊥
nonempty [] h e = cc
nonempty (c ∷ cs) h e = cc

pub is_short_text-IsShort : (s : String) → is_short_text s ≡ true → IsShort s
unfolding is_short_text
is_short_text-IsShort s h =
    let (full, short) =
      (and-eq-true (leb 1 (length (strip (codes s)))) (leb (length (codes s)) 120)).0 h in
    (nonempty (strip (codes s)) full, ground (arith, short))

-- A digit, or one of the letters from a to f.
abbrev IsHex : ℕ → Type 0
IsHex c = (b'0' ≤ c) × (c ≤ b'9') ⊎ (b'a' ≤ c) × (c ≤ b'f')

-- "sha256:", then 64 hexadecimal digits.
pub record IsDigest (s : String) : Type 0 where
  pub starts : starts_with s "sha256:" ≡ true
  pub front : List ℕ
  pub digits : List ℕ
  pub parts : codes s ≡ front ++ digits
  pub front_length : length front ≡ 7
  pub digits_length : length digits ≡ 64
  pub all_hex : All IsHex digits

hexadecimal-IsHex : (c : ℕ) → hexadecimal c ≡ true → IsHex c
hexadecimal-IsHex c h = elim (Bool-cases (between b'0' b'9' c)) [
  | inl digit ↦ inl (ground (arith, digit), ground (arith, digit))
  | inr other ↦
      let letter : between b'a' b'f' c ≡ true = ground (arith, h, other) in
      inr (ground (arith, letter), ground (arith, letter))
]

all-All : (cs : List ℕ) → all hexadecimal cs ≡ true → All IsHex cs
unfolding all
all-All [] h = tt
all-All (c ∷ cs) h =
    let (first, rest) = (and-eq-true (hexadecimal c) (all hexadecimal cs)).0 h in
    (hexadecimal-IsHex c first, all-All cs rest)

pub is_digest-IsDigest : (s : String) → is_digest s ≡ true → IsDigest s
unfolding is_digest has_digest
is_digest-IsDigest s h = by_codes (codes s) refl h
  where
    by_codes : (cs : List ℕ) → codes s ≡ cs → has_digest s cs ≡ true → IsDigest s
    by_codes [] e t = cc
    by_codes (a ∷ []) e t = cc
    by_codes (a ∷ b ∷ []) e t = cc
    by_codes (a ∷ b ∷ c ∷ []) e t = cc
    by_codes (a ∷ b ∷ c ∷ d ∷ []) e t = cc
    by_codes (a ∷ b ∷ c ∷ d ∷ f ∷ []) e t = cc
    by_codes (a ∷ b ∷ c ∷ d ∷ f ∷ g ∷ []) e t = cc
    by_codes (a ∷ b ∷ c ∷ d ∷ f ∷ g ∷ k ∷ digits) e t =
        let (t, least) =
          (and-eq-true (starts_with s "sha256:" && all hexadecimal digits && leb (length digits) 64)
              (leb 64 (length digits))).0
            t in
        let (t, most) =
          (and-eq-true (starts_with s "sha256:" && all hexadecimal digits)
              (leb (length digits) 64)).0
            t in
        let (begins, hex) = (and-eq-true (starts_with s "sha256:") (all hexadecimal digits)).0 t in
        record {
          starts = begins;
          front = a ∷ b ∷ c ∷ d ∷ f ∷ g ∷ k ∷ [];
          digits = digits;
          parts = e;
          front_length = refl;
          digits_length = ground (arith, most, least);
          all_hex = all-All digits hex;
        }

pub in_set-HasText :
    (fields : Fields) (key : String) (words : List String)
    → in_set (field_at fields key) words ≡ ok true
    → HasText (contains words) fields key
in_set-HasText fields key words h = by_value (field_at fields key) refl h
  where
    by_value :
        (o : Option Value)
        → field_at fields key ≡ o
        → in_set o words ≡ ok true
        → HasText (contains words) fields key
    by_value none e h = cc
    by_value (some (Value.text s)) e h = (s, e, ok-injective h)
    by_value (some Value.null) e h = cc
    by_value (some (Value.bool b)) e h = cc
    by_value (some (Value.num n)) e h = cc
    by_value (some (Value.negative n)) e h = cc
    by_value (some (Value.fraction m d k)) e h = cc
    by_value (some (Value.array items)) e h = cc
    by_value (some (Value.object entries)) e h = cc

pub check_keys-HasKeys :
    (name : String) (required : List String) (fields : Fields)
    → check_keys name required fields ≡ []
    → HasKeys required fields
unfolding check_keys
check_keys-HasKeys name required fields e =
    let (missing, unknown) = append-eq-nil _ _ e in
    (
      lacking-Within required (keys_of fields) (accepted _ _ missing),
      lacking-Within (keys_of fields) required (accepted _ _ unknown),
    )

-- The text is one of the words.
abbrev pub IsWord : List String → String → Type 0
IsWord words s = contains words s ≡ true
