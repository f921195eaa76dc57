-- ===== src/Graph/Contracts/Patterns/Meaning.antt =====
-- What the patterns of contracts.py and canonical.py say of the characters of a text.
use codex_routecraft.Prelude.{
  ℕ, Bool, true, false, ◌&&◌, String, Option, none, some, List, [], ◌∷◌, ◌++◌, ◌≡◌, refl, ap, ◌⊎◌,
  inl, inr, arith, All, Bool-cases, and-eq-true,
}
use codex_routecraft.Core.Words.{codes, same_number}
use codex_routecraft.Graph.Compiler.Shape.{is_empty}
use codex_routecraft.Graph.Contracts.Patterns.{
  after, date_tests, ends_in_z, is_fraction, is_rest, is_timestamp,
}

-- Each character passes the test at its place.
pub data Matched : List (ℕ → Bool) → List ℕ → Type 0 where
  nothing : Matched [] []
  next :
      {test : ℕ → Bool} {tests : List (ℕ → Bool)} {c : ℕ} {cs : List ℕ}
      → test c ≡ true
      → Matched tests cs
      → Matched (test ∷ tests) (c ∷ cs)

after-Matched :
    (tests : List (ℕ → Bool)) (cs rest : List ℕ)
    → after tests cs ≡ some rest
    → (front : List ℕ) × (cs ≡ front ++ rest) × Matched tests front
unfolding after
after-Matched [] cs rest e = ([], cc, nothing)
after-Matched (test ∷ tests) [] rest e = cc
after-Matched (test ∷ tests) (c ∷ cs) rest e = elim (Bool-cases (test c)) [
  | inl passes ↦
      let (front, is, m) = after-Matched tests cs rest (rw (after, passes) at e) in
      (c ∷ front, ap (◌∷◌ c) is, next passes m)
  | inr fails ↦ absurd (ground (arith, fails, e))
]

-- Digits, then the letter Z.
pub record AreDigits (is_digit : ℕ → Bool) (cs : List ℕ) : Type 0 where
  pub digits : List ℕ
  pub all_digits : All (λ c. is_digit c ≡ true) digits
  pub ends : cs ≡ digits ++ b'Z' ∷ []

same_number-eq : (a b : ℕ) → same_number a b ≡ true → a ≡ b
same_number-eq a b e = ground (arith, e)

is_empty-eq : (cs : List ℕ) → is_empty cs ≡ true → cs ≡ []
is_empty-eq [] e = refl
is_empty-eq (c ∷ cs) e = cc

-- The letter Z alone.
only_z : (c : ℕ) (cs : List ℕ) → (same_number c b'Z' && is_empty cs) ≡ true → c ∷ cs ≡ b'Z' ∷ []
only_z c cs e =
    let (z, end) = (and-eq-true (same_number c b'Z') (is_empty cs)).0 e in
    λ i. same_number-eq c b'Z' z i ∷ is_empty-eq cs end i

ends_in_z-AreDigits : (d : ℕ → Bool) (cs : List ℕ) → ends_in_z d cs ≡ true → AreDigits d cs
unfolding ends_in_z
ends_in_z-AreDigits d [] e = cc
ends_in_z-AreDigits d (c ∷ cs) e = elim (Bool-cases (same_number c b'Z' && is_empty cs)) [
  | inl z ↦ record { digits = []; all_digits = tt; ends = only_z c cs z }
  | inr more ↦
      let both : (d c && ends_in_z d cs) ≡ true = ground (arith, more, e) in
      let (digit, rest) = (and-eq-true (d c) (ends_in_z d cs)).0 both in
      let k = ends_in_z-AreDigits d cs rest in
      record { digits = c ∷ k.digits; all_digits = (digit, k.all_digits); ends = ap (◌∷◌ c) k.ends }
]

-- `YYYY-MM-DDThh:mm:ss`, then nothing or a point and at least one digit, then the letter Z.
pub record IsTime (is_digit : ℕ → Bool) (s : String) : Type 0 where
  pub date : List ℕ
  pub rest : List ℕ
  pub parts : codes s ≡ date ++ rest
  pub dated : Matched (date_tests is_digit) date
  pub ends :
      (rest ≡ b'Z' ∷ [])
      ⊎ (c : ℕ) × (cs : List ℕ) × (rest ≡ b'.' ∷ c ∷ cs)
        × (is_digit c ≡ true)
        × AreDigits is_digit cs

is_rest-ends :
    (d : ℕ → Bool) (rest : List ℕ)
    → is_rest d rest ≡ true
    → (rest ≡ b'Z' ∷ [])
      ⊎ (c : ℕ) × (cs : List ℕ) × (rest ≡ b'.' ∷ c ∷ cs) × (d c ≡ true) × AreDigits d cs
unfolding is_rest is_fraction
is_rest-ends d [] e = cc
is_rest-ends d (p ∷ []) e = inl (λ i. same_number-eq p b'Z' (ground (arith, e)) i ∷ [])
is_rest-ends d (p ∷ c ∷ cs) e =
    let both : (same_number p b'.' && (d c && ends_in_z d cs)) ≡ true = ground (arith, e) in
    let (point, more) = (and-eq-true (same_number p b'.') (d c && ends_in_z d cs)).0 both in
    let (digit, rest) = (and-eq-true (d c) (ends_in_z d cs)).0 more in
    inr (c, cs, (λ i. same_number-eq p b'.' point i ∷ c ∷ cs), digit, ends_in_z-AreDigits d cs rest)

pub is_timestamp-IsTime : (d : ℕ → Bool) (s : String) → is_timestamp d s ≡ true → IsTime d s
unfolding is_timestamp
is_timestamp-IsTime d s e = by_rest (after (date_tests d) (codes s)) refl e
  where
    by_rest :
        (o : Option (List ℕ))
        → after (date_tests d) (codes s) ≡ o
        → elim o as (λ _. Bool) [ none ↦ false | some rest ↦ is_rest d rest ] ≡ true
        → IsTime d s
    by_rest none is t = cc
    by_rest (some rest) is t =
        let (date, parts, dated) = after-Matched (date_tests d) (codes s) rest is in
        record {
          date = date;
          rest = rest;
          parts = parts;
          dated = dated;
          ends = is_rest-ends d rest t;
        }
