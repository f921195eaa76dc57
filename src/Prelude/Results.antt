-- ===== src/Prelude/Results.antt =====
-- Python's exceptions as values: `ok` is a return and `err` a raise.
use mathlib.Core.Path.{◌≡◌, refl, subst}
use mathlib.Core.Bool.{Bool, true, false}
use mathlib.Core.Option.{Option, none, some}
use mathlib.Core.List.{List, [], ◌∷◌}
use native.Mathlib.Omega.{arith}
use codex_routecraft.Prelude.Lists.{All, any, all}

pub data Result {ℓ} (E : Type 0) (A : Type ℓ) : Type ℓ where
  ok : A → Result E A
  err : E → Result E A

-- A raise ends the block that it stands in.
infixl 5 ◌>>=◌
abbrev pub ◌>>=◌ {α β} :
    {X : Type 0} {S : Type α} {T : Type β} → Result X S → (S → Result X T) → Result X T
err raised >>= next = err raised
ok value >>= next = next value

infixl 5 ◌>>◌
abbrev pub ◌>>◌ {α} : {X : Type 0} {S : Type α} → Result X (Unit {0}) → Result X S → Result X S
first >> second = first >>= λ _. second

-- `if not test: raise e`
abbrev pub require : {E : Type 0} → Bool → E → Result E (Unit {0})
require true e = ok tt
require false e = err e

-- A dictionary's `d[k]`: `e` is the `KeyError`.
abbrev pub or_raise {ℓ} : {E : Type 0} {A : Type ℓ} → Option A → E → Result E A
or_raise none e = err e
or_raise (some a) e = ok a

pub ok-injective {ℓ} :
    {E : Type 0} {A : Type ℓ} {a b : A} → ◌≡◌ {A = Result E A} (ok a) (ok b) → a ≡ b
ok-injective e = cc

-- A block that returned got a value from its first action.
pub >>=-eq-ok {α β} :
    {X : Type 0} {S : Type α} {T : Type β} (first : Result X S) (next : S → Result X T)
    → {last : T} → ((first >>= next) ≡ ok last)
    → (value : S) × (first ≡ ok value) × (next value ≡ ok last)
>>=-eq-ok (err raised) next returned = cc
>>=-eq-ok (ok value) next returned = (value, refl, returned)

-- The same, for a goal that does not depend on the value: a chain of these stays small.
pub >>=-elim {α β κ} :
    {X : Type 0} {S : Type α} {T : Type β} {P : Type κ} (first : Result X S) {next : S → Result X T}
    {last : T}
    → ((first >>= next) ≡ ok last)
    → ((value : S) → (first ≡ ok value) → (next value ≡ ok last) → P)
    → P
>>=-elim (err raised) returned goal = cc
>>=-elim (ok value) returned goal = goal value refl returned

module _ {ℓ} {E : Type 0} {A : Type ℓ} where
  -- `any(...)` and `all(...)` over a test that may raise: they stop at the first answer.
  unfoldable pub any_result : (A → Result E Bool) → List A → Result E Bool
  any_result p [] = ok false
  any_result p (x ∷ xs) =
      let rest = any_result p xs in
      elim (p x) [ ok true ↦ ok true | ok false ↦ rest | err e ↦ err e ]

  unfoldable pub all_result : (A → Result E Bool) → List A → Result E Bool
  all_result p [] = ok true
  all_result p (x ∷ xs) =
      let rest = all_result p xs in
      elim (p x) [ ok true ↦ rest | ok false ↦ ok false | err e ↦ err e ]

  pub any_result-false :
      (p : A → Result E Bool) (xs : List A)
      → any_result p xs ≡ ok false
      → All (λ x. p x ≡ ok false) xs
  unfolding any_result
  any_result-false p [] h = tt
  any_result-false p (x ∷ xs) h = ground (arith, any_result-false p xs)

  pub all_result-true :
      (p : A → Result E Bool) (xs : List A)
      → all_result p xs ≡ ok true
      → All (λ x. p x ≡ ok true) xs
  unfolding all_result
  all_result-true p [] h = tt
  all_result-true p (x ∷ xs) h = ground (arith, all_result-true p xs)

  -- A test that answers for every element answers for the list.
  pub any_result_total :
      (p : A → Result E Bool) (q : A → Bool) (xs : List A)
      → All (λ x. p x ≡ ok (q x)) xs
      → any_result p xs ≡ ok (any q xs)
  unfolding any_result any
  any_result_total p q [] h = refl
  any_result_total p q (x ∷ xs) h = ground (arith, any_result_total p q xs)

  pub all_result_total :
      (p : A → Result E Bool) (q : A → Bool) (xs : List A)
      → All (λ x. p x ≡ ok (q x)) xs
      → all_result p xs ≡ ok (all q xs)
  unfolding all_result all
  all_result_total p q [] h = refl
  all_result_total p q (x ∷ xs) h = ground (arith, all_result_total p q xs)

  pub any_result_returns :
      (p : A → Result E Bool) (xs : List A)
      → All (λ x. (b : Bool) × (p x ≡ ok b)) xs
      → (b : Bool) × (any_result p xs ≡ ok b)
  unfolding any_result
  any_result_returns p [] h = (false, refl)
  any_result_returns p (x ∷ xs) ((true, is), h) = (true, rw (is, any_result) refl)
  any_result_returns p (x ∷ xs) ((false, is), h) =
      let (b, rest) = any_result_returns p xs h in (b, rw (is, any_result) rest)

  pub all_result_returns :
      (p : A → Result E Bool) (xs : List A)
      → All (λ x. (b : Bool) × (p x ≡ ok b)) xs
      → (b : Bool) × (all_result p xs ≡ ok b)
  unfolding all_result
  all_result_returns p [] h = (true, refl)
  all_result_returns p (x ∷ xs) ((false, is), h) = (false, rw (is, all_result) refl)
  all_result_returns p (x ∷ xs) ((true, is), h) =
      let (b, rest) = all_result_returns p xs h in (b, rw (is, all_result) rest)

module _ {ℓ κ} {E : Type 0} {A : Type ℓ} {B : Type κ} where
  -- `[f(x) for x in xs]`, where `f` may raise.
  unfoldable pub map_result : (A → Result E B) → List A → Result E (List B)
  map_result f [] = ok []
  map_result f (x ∷ xs) = do y ← f x; ys ← map_result f xs; ok (y ∷ ys)

  -- `for x in xs: s = f(s, x)`, where `f` may raise.
  unfoldable pub fold_result : (B → A → Result E B) → B → List A → Result E B
  fold_result f s [] = ok s
  fold_result f s (x ∷ xs) = f s x >>= λ s'. fold_result f s' xs

-- What every step of a loop keeps, the loop keeps.
pub fold_result-keeps {ℓ κ μ} :
    {E : Type 0} {A : Type ℓ} {B : Type κ} (R : B → B → Type μ) (f : B → A → Result E B)
    → ((s : B) → R s s)
    → ((s t u : B) → R s t → R t u → R s u)
    → ((s t : B) (x : A) → f s x ≡ ok t → R s t)
    → (s t : B) (xs : List A) → fold_result f s xs ≡ ok t
    → R s t
unfolding fold_result
fold_result-keeps R f same trans step s t [] e = subst (R s) (ok-injective e) (same s)
fold_result-keeps R f same trans step s t (x ∷ xs) e =
    let (u, is, more) = >>=-eq-ok (f s x) (λ u. fold_result f u xs) e in
    trans s u t (step s u x is) (fold_result-keeps R f same trans step u t xs more)

pub require-eq-ok {ℓ} :
    {E : Type 0} {B : Type ℓ} (test : Bool) (e : E) (k : Result E B) {b : B}
    → (require test e >> k) ≡ ok b
    → (test ≡ true) × (k ≡ ok b)
require-eq-ok true e k h = (refl, h)
require-eq-ok false e k h = cc

pub require-ok :
    {E : Type 0} (test : Bool) (e : E)
    → ◌≡◌ {A = Result E (Unit {0})} (require test e) (ok tt)
    → test ≡ true
require-ok true e h = refl
require-ok false e h = cc
