-- ===== src/Prelude/Texts.antt =====
-- Sets of texts as lists, with membership as a Boolean test, and Python's order on `str`.

use Prim.Native.String.{String, compare}
use mathlib.Core.Path.{◌≡◌, refl, sym}
use mathlib.Core.Bool.{Bool, true, false, ◌||◌}
use mathlib.Core.Logic.{◌↔◌, ◌⊎◌, inl, inr}
use mathlib.Core.List.{List, [], ◌∷◌, ◌++◌}
use native.Mathlib.Omega.{arith}
use text.Mathlib.Text.{◌==◌ as text_eq, is_le}
use text.Mathlib.TextEquality.{eq_iff}
use codex_routecraft.Prelude.Tests.{if◌then◌else◌, Bool-cases, Bool-ext}

-- Kept shut in proofs, which use `==_iff`.
infix 50 ◌==◌
unfoldable pub ◌==◌ : String → String → Bool
a == b = text_eq a b

pub ==_iff : (a b : String) → ((a == b) ≡ true) ↔ (a ≡ b)
unfolding ◌==◌
==_iff a b = eq_iff a b

pub ==_refl : (a : String) → (a == a) ≡ true
==_refl a = (==_iff a a).1 refl

pub ==_comm : (a b : String) → (a == b) ≡ (b == a)
==_comm a b =
    Bool-ext _ _ (λ h. (==_iff b a).1 (sym ((==_iff a b).0 h)))
      (λ h. (==_iff a b).1 (sym ((==_iff b a).0 h)))

-- `x in xs`
unfoldable pub contains : List String → String → Bool
unfolding ◌==◌
contains [] x = false
contains (y ∷ ys) x = (y == x) || contains ys x

pub contains-append :
    (xs ys : List String) (x : String) → contains (xs ++ ys) x ≡ (contains xs x || contains ys x)
unfolding contains
contains-append [] ys x = refl
contains-append (y ∷ xs) ys x = ground (arith, contains-append xs ys x)

pub contains-nil : (x : String) → ¬ (contains [] x ≡ true)
unfolding contains
contains-nil x h = cc

pub contains-cons :
    (x y : String) (xs : List String)
    → contains (x ∷ xs) y ≡ true
    → (x ≡ y) ⊎ (contains xs y ≡ true)
unfolding contains
contains-cons x y xs h = ground (arith, ==_iff x y)

pub contains-head : (x : String) (xs : List String) → contains (x ∷ xs) x ≡ true
unfolding contains
contains-head x xs = ground (arith, ==_refl x)

pub contains-tail :
    (x y : String) (xs : List String) → contains xs y ≡ true → contains (x ∷ xs) y ≡ true
unfolding contains
contains-tail x y xs h = ground arith

pub contains-other :
    (x y : String) (xs : List String)
    → (x == y) ≡ false
    → contains (x ∷ xs) y ≡ true
    → contains xs y ≡ true
unfolding contains
contains-other x y xs other h = ground arith

-- The distinct elements, each at its last place.
unfoldable pub distinct : List String → List String
unfolding contains
distinct [] = []
distinct (x ∷ xs) = let rest = distinct xs in if contains xs x then rest else x ∷ rest

pub contains-distinct : (xs : List String) (x : String) → contains (distinct xs) x ≡ contains xs x
unfolding contains distinct
contains-distinct [] x = refl
contains-distinct (y ∷ ys) x = elim (Bool-cases (y == x)) [
  | inl e ↦ ground (arith, contains-distinct ys x, (==_iff y x).0 e)
  | inr e ↦ ground (arith, contains-distinct ys x)
]

-- Code points compared from the left, as `str.__lt__` does.
unfoldable pub text_le : String → String → Bool
text_le a b = is_le (compare a b)

-- `sorted` on texts.
unfoldable pub insert_sorted : String → List String → List String
unfolding text_le
insert_sorted x [] = x ∷ []
insert_sorted x (y ∷ ys) =
    let rest = insert_sorted x ys in if text_le x y then x ∷ y ∷ ys else y ∷ rest

unfoldable pub sorted : List String → List String
unfolding insert_sorted
sorted [] = []
sorted (x ∷ xs) = insert_sorted x (sorted xs)

contains-insert_sorted :
    (x : String) (xs : List String) (y : String)
    → contains (insert_sorted x xs) y ≡ ((x == y) || contains xs y)
unfolding contains insert_sorted
contains-insert_sorted x [] y = refl
contains-insert_sorted x (z ∷ zs) y = ground (arith, contains-insert_sorted x zs y)

pub contains-sorted : (xs : List String) (y : String) → contains (sorted xs) y ≡ contains xs y
unfolding contains sorted
contains-sorted [] y = refl
contains-sorted (x ∷ xs) y =
    ground (arith, contains-insert_sorted x (sorted xs) y, contains-sorted xs y)
