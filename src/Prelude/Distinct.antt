-- ===== src/Prelude/Distinct.antt =====
-- Lists without repetitions, and the pigeonhole principle.
use Prim.Native.Nat.{suc, ◌≤◌}
use Prim.Native.String.{String}
use mathlib.Core.Path.{◌≡◌, ◌∙◌}
use mathlib.Core.Bool.{true, false}
use mathlib.Core.Logic.{inl, inr}
use mathlib.Core.List.{List, [], ◌∷◌}
use native.Mathlib.Omega.{arith}
use codex_routecraft.Prelude.Tests.{if◌then◌else◌, Bool-cases}
use codex_routecraft.Prelude.Lists.{length}
use codex_routecraft.Prelude.Texts.{
  ◌==◌, ==_iff, contains, contains-head, contains-tail, distinct, contains-distinct,
}

abbrev pub NoRepeats : List String → Type 0
NoRepeats [] = Unit
NoRepeats (x ∷ xs) = (contains xs x ≡ false) × NoRepeats xs

-- Every text of the one list is in the other.
abbrev pub Within : List String → List String → Type 0
Within xs ys = (z : String) → contains xs z ≡ true → contains ys z ≡ true

remove : String → List String → List String
remove x [] = []
remove x (y ∷ ys) = if y == x then ys else y ∷ remove x ys

length-remove :
    (x : String) (ys : List String) → contains ys x ≡ true → suc (length (remove x ys)) ≡ length ys
unfolding contains remove
length-remove x [] h = cc
length-remove x (y ∷ ys) h = ground (arith, length-remove x ys)

contains-remove :
    (x z : String) (ys : List String)
    → (x == z) ≡ false
    → contains ys z ≡ true
    → contains (remove x ys) z ≡ true
unfolding contains remove
contains-remove x z [] other h = cc
contains-remove x z (y ∷ ys) other h = elim (Bool-cases (y == x)) [
  | inl same ↦ ground (arith, same, (==_iff y x).0 same, other, h)
  | inr apart ↦ ground (arith, contains-remove x z ys)
]

pub contains-ne :
    (x z : String) (xs : List String)
    → contains xs x ≡ false
    → contains xs z ≡ true
    → (x == z) ≡ false
contains-ne x z xs gone h = elim (Bool-cases (x == z)) [
  | inl same ↦ absurd (ground (arith, (==_iff x z).0 same, gone, h))
  | inr apart ↦ apart
]

pub length-le_of_Within :
    (xs ys : List String) → NoRepeats xs → Within xs ys → length xs ≤ length ys
length-le_of_Within [] ys d w = omega arith
length-le_of_Within (x ∷ xs) ys d w =
    let rest =
      length-le_of_Within xs (remove x ys) d.1
        (λ z h. contains-remove x z ys (contains-ne x z xs d.0 h) (w z (contains-tail x z xs h))) in
    let one = length-remove x ys (w x (contains-head x xs)) in omega (arith, rest, one)

pub distinct-NoRepeats : (xs : List String) → NoRepeats (distinct xs)
unfolding distinct
distinct-NoRepeats [] = tt
distinct-NoRepeats (x ∷ xs) = elim (Bool-cases (contains xs x)) [
  | inl again ↦ rw again (distinct-NoRepeats xs)
  | inr new ↦ rw new (contains-distinct xs x ∙ new, distinct-NoRepeats xs)
]

pub length-distinct : (xs : List String) → length (distinct xs) ≤ length xs
unfolding distinct
length-distinct [] = omega arith
length-distinct (x ∷ xs) = ground (arith, length-distinct xs)

-- Nothing is dropped only where nothing stands twice.
pub NoRepeats-of-length : (xs : List String) → length xs ≤ length (distinct xs) → NoRepeats xs
unfolding distinct
NoRepeats-of-length [] h = tt
NoRepeats-of-length (x ∷ xs) h = elim (Bool-cases (contains xs x)) [
  | inl again ↦ absurd (let few = length-distinct xs in ground arith)
  | inr new ↦ let h' = rw (new, distinct) at h in (new, NoRepeats-of-length xs (omega arith))
]
