-- ===== src/Graph/Contracts/Patterns.antt =====
-- The two patterns of contracts.py and canonical.py, `_timestamp` and `is_absolute_or_pathlike`, on
-- the characters of a text. What `\d` matches in Python, which Unicode says, is `is_digit`.
pub mod Meaning
pub mod Paths
use codex_routecraft.Prelude.{
  ℕ, Bool, true, false, ◌&&◌, ◌||◌, String, Option, none, some, List, [], ◌∷◌, ◌++◌, map, any,
  if◌then◌else◌,
}
use codex_routecraft.Core.Words.{codes, between, same_number}
use codex_routecraft.Graph.Compiler.Shape.{is_empty}

-- One test for each character: what follows them, where they pass.
unfoldable pub after : List (ℕ → Bool) → List ℕ → Option (List ℕ)
after [] cs = some cs
after (test ∷ tests) [] = none
after (test ∷ tests) (c ∷ cs) = let rest = after tests cs in if test c then rest else none

abbrev pub found : Option (List ℕ) → Bool
found none = false
found (some _) = true

abbrev pub exactly : ℕ → ℕ → Bool
exactly wanted c = same_number c wanted

-- The characters of `\d{4}-\d\d-\d\dT\d\d:\d\d:\d\d`
abbrev pub date_tests : (ℕ → Bool) → List (ℕ → Bool)
date_tests d =
    d
    ∷ d
    ∷ d
    ∷ d
    ∷ exactly b'-'
    ∷ d
    ∷ d
    ∷ exactly b'-'
    ∷ d
    ∷ d
    ∷ exactly b'T'
    ∷ d
    ∷ d
    ∷ exactly b':'
    ∷ d
    ∷ d
    ∷ exactly b':'
    ∷ d
    ∷ d
    ∷ []

-- `\d*Z` to the end
unfoldable pub ends_in_z : (ℕ → Bool) → List ℕ → Bool
ends_in_z is_digit [] = false
ends_in_z is_digit (c ∷ cs) =
    let rest = ends_in_z is_digit cs in (same_number c b'Z' && is_empty cs) || (is_digit c && rest)

-- `\d+Z` to the end
unfoldable pub is_fraction : (ℕ → Bool) → List ℕ → Bool
unfolding ends_in_z
is_fraction is_digit [] = false
is_fraction is_digit (c ∷ cs) = is_digit c && ends_in_z is_digit cs

-- `(?:\.\d+)?Z` to the end
unfoldable pub is_rest : (ℕ → Bool) → List ℕ → Bool
unfolding is_fraction
is_rest is_digit [] = false
is_rest is_digit (c ∷ cs) =
    (same_number c b'Z' && is_empty cs) || (same_number c b'.' && is_fraction is_digit cs)

unfoldable pub is_timestamp : (ℕ → Bool) → String → Bool
unfolding after is_rest
is_timestamp is_digit s = elim (after (date_tests is_digit) (codes s)) [
  | none ↦ false
  | some rest ↦ is_rest is_digit rest
]

abbrev pub is_letter : ℕ → Bool
is_letter c = between b'a' b'z' c || between b'A' b'Z' c

-- The backslash is the character 92.
abbrev pub is_slash : ℕ → Bool
is_slash c = same_number c 92 || same_number c b'/'

-- A drive, a root, or a share at the start
unfoldable pub is_absolute : List ℕ → Bool
unfolding after
is_absolute cs =
    found (after (is_letter ∷ exactly b':' ∷ is_slash ∷ []) cs)
    || found (after (exactly b'/' ∷ []) cs)
    || found (after (exactly 92 ∷ exactly 92 ∷ []) cs)

abbrev pub folders : List (List ℕ)
folders = codes "Users" ∷ codes "home" ∷ codes "workspace" ∷ []

-- `[\\/](?:Users|home|workspace)[\\/]` at the start
unfoldable pub starts_folder : List ℕ → Bool
unfolding after any
starts_folder cs =
    any (λ name. found (after (is_slash ∷ (map exactly name ++ is_slash ∷ [])) cs)) folders

unfoldable pub has_folder : List ℕ → Bool
unfolding starts_folder
has_folder [] = false
has_folder (c ∷ cs) = starts_folder (c ∷ cs) || has_folder cs

unfoldable pub is_pathlike : String → Bool
unfolding is_absolute has_folder
is_pathlike s = is_absolute (codes s) || has_folder (codes s)
