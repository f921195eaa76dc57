-- ===== src/Graph/Scope.antt =====
-- Write scopes: `_scope_conflict` of scheduler.py and `_overlap` of compiler.py.
use Prim.Native.Nat.{compare as compare_ℕ, Ordering}
use Prim.Native.Char.{Char, code}
use Prim.Native.String.{◌++◌ as ◌<>◌}
use text.Mathlib.Text.{starts_with}
use codex_routecraft.Prelude.{
  Bool, true, false, ◌||◌, String, List, any, ◌==◌, if◌then◌else◌, ◌≡◌, refl,
}

is_slash : Char → Bool
is_slash c = elim (compare_ℕ (code c) b'/') [ Ordering.eq ↦ true | _ ↦ false ]

strip_left : String → String
unfolding is_slash
strip_left String.[] = ""
strip_left (String.◌∷◌ c s) = let rest = strip_left s in if is_slash c then rest else String.◌∷◌ c s

-- A slash is dropped where nothing but slashes follows it.
strip_right : String → String
unfolding is_slash ◌==◌
strip_right String.[] = ""
strip_right (String.◌∷◌ c s) =
    let rest = strip_right s in
    if rest == "" then (if is_slash c then "" else String.◌∷◌ c "") else String.◌∷◌ c rest

-- `s.strip("/")`
unfoldable pub strip_slashes : String → String
unfolding strip_left strip_right
strip_slashes s = strip_right (strip_left s)

-- One scope is the other, or a folder above it.
unfoldable pub overlap : String → String → Bool
unfolding strip_slashes ◌==◌
overlap left right =
    let a = strip_slashes left in
    let b = strip_slashes right in (a == b) || starts_with a (b <> "/") || starts_with b (a <> "/")

unfoldable pub scope_conflict : List String → List String → Bool
unfolding overlap any
scope_conflict left right = any (λ a. any (λ b. overlap a b) right) left

overlap_nested : overlap "/src/app/" "src" ≡ true
unfolding overlap
overlap_nested = refl

overlap_sibling : overlap "src/app" "src/apple" ≡ false
unfolding overlap
overlap_sibling = refl
