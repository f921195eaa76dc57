-- ===== src/Graph/Closure.antt =====
-- The worklist that scheduler.py and compiler.py write out in each search: a stack, a set of what
-- was visited, and a dictionary from a node to its successors, kept as the list of its entries.
use mathlib.Core.List.{reverse, reverse-append}
use mathlib.Core.Option
use mathlib.Core.Option.{some_inj}
use codex_routecraft.Prelude.{
  ℕ, zero, suc, ◌+◌, ◌≤◌, ◌≡◌, refl, ap, ◌↔◌, ◌⊎◌, inl, inr, true, false, not, Option, none, some,
  List, [], ◌∷◌, ◌++◌, String, arith, length, length-append, count, count-le-length, contains,
  contains-append, contains-nil, contains-cons, contains-head, contains-tail, ◌==◌, ==_iff, ==_comm,
  if◌then◌else◌, Bool-cases,
}

abbrev pub Pairs : Type 0
Pairs = List (String × String)

-- `d.get(x, [])`, for a dictionary that `d.setdefault(k, []).append(v)` filled.
unfoldable pub targets : Pairs → String → List String
targets [] x = []
targets ((k, v) ∷ ps) x = if k == x then v ∷ targets ps x else targets ps x

-- `while stack: current = stack.pop(); if current not in seen: seen.add(current);
-- stack.extend(d.get(current, []))`. The top of the stack is its head. `none` is the lack of fuel.
unfoldable pub walk : Pairs → ℕ → List String → List String → Option (List String)
walk ps zero [] seen = some seen
walk ps zero (x ∷ stack) seen = none
walk ps (suc fuel) [] seen = some seen
walk ps (suc fuel) (x ∷ stack) seen =
    let again = walk ps fuel stack seen in
    let more = walk ps fuel (reverse (targets ps x) ++ stack) (x ∷ seen) in
    if contains seen x then again else more

-- The search from a stack, with fuel for every push.
unfoldable pub closure : Pairs → List String → List String
unfolding walk
closure ps stack = Option.get_or (walk ps (length stack + length ps) stack []) []

-- What can be reached from the stack: the specification of the search.
pub data Reaches (ps : Pairs) (stack : List String) : String → Type 0 where
  start : {y : String} → contains stack y ≡ true → Reaches ps stack y
  step : {x y : String} → Reaches ps stack x → contains (targets ps x) y ≡ true → Reaches ps stack y

pub contains-reverse : (xs : List String) (y : String) → contains (reverse xs) y ≡ contains xs y
unfolding contains
contains-reverse [] y = refl
contains-reverse (x ∷ xs) y = ground (
  arith,
  contains-reverse xs y,
  ap (λ l. contains l y) (reverse-append (x ∷ []) xs),
  contains-append (reverse xs) (x ∷ []) y,
)

length-reverse : (xs : List String) → length (reverse xs) ≡ length xs
length-reverse [] = refl
length-reverse (x ∷ xs) = omega (
  arith,
  length-reverse xs,
  ap length (reverse-append (x ∷ []) xs),
  length-append (reverse xs) (x ∷ []),
)

-- The entries whose key was not visited yet.
pending : Pairs → List String → ℕ
pending ps seen = count (λ p. not (contains seen p.0)) ps

pending-cons :
    (ps : Pairs) (x : String) (seen : List String)
    → contains seen x ≡ false
    → pending ps (x ∷ seen) + length (targets ps x) ≡ pending ps seen
unfolding pending targets count contains
pending-cons [] x seen h = refl
pending-cons ((k, v) ∷ ps) x seen h = elim (Bool-cases (k == x)) [
  | inl e ↦ ground (arith, pending-cons ps x seen h, (==_iff k x).0 e, ==_comm x k)
  | inr e ↦ ground (arith, pending-cons ps x seen h, ==_comm x k)
]

-- A round pops one element, and pushes only entries whose key it marks as visited.
walk_ends :
    (ps : Pairs) (fuel : ℕ) (stack seen : List String)
    → length stack + pending ps seen ≤ fuel
    → (r : List String) × (walk ps fuel stack seen ≡ some r)
unfolding walk
walk_ends ps zero [] seen h = (seen, refl)
walk_ends ps zero (x ∷ stack) seen h = absurd (omega arith)
walk_ends ps (suc fuel) [] seen h = (seen, refl)
walk_ends ps (suc fuel) (x ∷ stack) seen h = elim (Bool-cases (contains seen x)) [
  | inl e ↦ rw e (walk_ends ps fuel stack seen (omega arith))
  | inr e ↦ rw e (
      walk_ends ps fuel (reverse (targets ps x) ++ stack) (x ∷ seen) (
        omega (
          arith,
          pending-cons ps x seen e,
          length-append (reverse (targets ps x)) stack,
          length-reverse (targets ps x),
        )))
]

pub closure-walk :
    (ps : Pairs) (stack : List String)
    → walk ps (length stack + length ps) stack [] ≡ some (closure ps stack)
unfolding closure pending
closure-walk ps stack =
    let (r, e) =
      walk_ends ps (length stack + length ps) stack []
        (omega (arith, count-le-length (λ (p : String × String). not (contains [] p.0)) ps)) in
    rw e

pub contains-pushed :
    (xs stack : List String) (y : String)
    → contains (reverse xs ++ stack) y ≡ true
    → (contains xs y ≡ true) ⊎ (contains stack y ≡ true)
contains-pushed xs stack y h =
    ground (arith, contains-append (reverse xs) stack y, contains-reverse xs y)

contains-push_left :
    (xs stack : List String) (y : String)
    → contains xs y ≡ true
    → contains (reverse xs ++ stack) y ≡ true
contains-push_left xs stack y h =
    ground (arith, contains-append (reverse xs) stack y, contains-reverse xs y)

contains-push_right :
    (xs stack : List String) (y : String)
    → contains stack y ≡ true
    → contains (reverse xs ++ stack) y ≡ true
contains-push_right xs stack y h = ground (arith, contains-append (reverse xs) stack y)

module _ (ps : Pairs) where
  walk_sound :
      (P : String → Type 0)
      → ((x y : String) → P x → contains (targets ps x) y ≡ true → P y)
      → (fuel : ℕ) (stack seen r : List String) → walk ps fuel stack seen ≡ some r
      → ((y : String) → contains stack y ≡ true → P y)
      → ((y : String) → contains seen y ≡ true → P y)
      → (y : String) → contains r y ≡ true
      → P y
  unfolding walk
  walk_sound P next zero [] seen r e on_stack on_seen y m = on_seen y (rw (some_inj.0 e) m)
  walk_sound P next zero (x ∷ stack) seen r e on_stack on_seen y m = cc
  walk_sound P next (suc fuel) [] seen r e on_stack on_seen y m = on_seen y (rw (some_inj.0 e) m)
  walk_sound P next (suc fuel) (x ∷ stack) seen r e on_stack on_seen y m =
      elim (Bool-cases (contains seen x)) [
        | inl old ↦
            walk_sound P next fuel stack seen r (rw (old, walk) at e)
              (λ z h. on_stack z (contains-tail x z stack h)) on_seen y m
        | inr new ↦
            walk_sound P next fuel (reverse (targets ps x) ++ stack) (x ∷ seen) r
              (rw (new, walk) at e)
              (λ z h. elim (contains-pushed (targets ps x) stack z h) [
                | inl pushed ↦ next x z (on_stack x (contains-head x stack)) pushed
                | inr below ↦ on_stack z (contains-tail x z stack below)
              ])
              (λ z h. elim (contains-cons x z seen h) [
                | inl same ↦ rw (← same) (on_stack x (contains-head x stack))
                | inr older ↦ on_seen z older
              ])
              y m
      ]

  -- What a round keeps: the successors of a visited element are visited or wait on the stack.
  abbrev Covered : List String → List String → Type 0
  Covered stack seen =
      (x y : String)
      → contains seen x ≡ true
      → contains (targets ps x) y ≡ true
      → (contains seen y ≡ true) ⊎ (contains stack y ≡ true)

  walk_complete :
      (fuel : ℕ) (stack seen r : List String)
      → walk ps fuel stack seen ≡ some r
      → Covered stack seen
      → Covered [] r
        × ((y : String) → contains stack y ≡ true → contains r y ≡ true)
        × ((y : String) → contains seen y ≡ true → contains r y ≡ true)
  unfolding walk
  walk_complete zero [] seen r e cover =
      rw (← some_inj.0 e) (cover, λ y h. absurd (contains-nil y h), λ y h. h)
  walk_complete zero (x ∷ stack) seen r e cover = cc
  walk_complete (suc fuel) [] seen r e cover =
      rw (← some_inj.0 e) (cover, λ y h. absurd (contains-nil y h), λ y h. h)
  walk_complete (suc fuel) (x ∷ stack) seen r e cover = elim (Bool-cases (contains seen x)) [
    | inl old ↦
        let (covered, on_stack, on_seen) =
          walk_complete fuel stack seen r (rw (old, walk) at e) (λ a b h k. elim (cover a b h k) [
            | inl m ↦ inl m
            | inr m ↦ elim (contains-cons x b stack m) [
              | inl same ↦ inl (rw (← same) old)
              | inr rest ↦ inr rest
            ]
          ]) in
        (
          covered,
          λ y h. elim (contains-cons x y stack h) [
            | inl same ↦ on_seen y (rw (← same) old)
            | inr rest ↦ on_stack y rest
          ],
          on_seen,
        )
    | inr new ↦
        let (covered, on_stack, on_seen) =
          walk_complete fuel (reverse (targets ps x) ++ stack) (x ∷ seen) r (rw (new, walk) at e)
            (λ a b h k. elim (contains-cons x a seen h) [
              | inl same ↦ inr (contains-push_left (targets ps x) stack b (rw same k))
              | inr older ↦ elim (cover a b older k) [
                | inl m ↦ inl (contains-tail x b seen m)
                | inr m ↦ elim (contains-cons x b stack m) [
                  | inl same ↦ inl (rw (← same) (contains-head x seen))
                  | inr rest ↦ inr (contains-push_right (targets ps x) stack b rest)
                ]
              ]
            ]) in
        (
          covered,
          λ y h. elim (contains-cons x y stack h) [
            | inl same ↦ on_seen y (rw (← same) (contains-head x seen))
            | inr rest ↦ on_stack y (contains-push_right (targets ps x) stack y rest)
          ],
          λ y h. on_seen y (contains-tail x y seen h),
        )
  ]

  reached :
      (stack r : List String)
      → Covered [] r
        × ((z : String) → contains stack z ≡ true → contains r z ≡ true)
        × ((z : String) → contains [] z ≡ true → contains r z ≡ true)
      → {z : String} → Reaches ps stack z
      → contains r z ≡ true
  reached stack r found (start {y} h) = found.1 y h
  reached stack r found (step {x} {y} before h) =
      elim (found.0 x y (reached stack r found before) h) [
        | inl m ↦ m
        | inr m ↦ absurd (contains-nil y m)
      ]

  -- The search finds exactly what can be reached.
  pub closure_iff :
      (stack : List String) (y : String)
      → (contains (closure ps stack) y ≡ true) ↔ Reaches ps stack y
  closure_iff stack y = (sound, complete)
    where
      fuel : ℕ
      fuel = length stack + length ps

      sound : contains (closure ps stack) y ≡ true → Reaches ps stack y
      sound =
          walk_sound (Reaches ps stack) (λ a b r h. step r h) fuel stack [] (closure ps stack)
            (closure-walk ps stack) (λ z h. start h) (λ z h. absurd (contains-nil z h)) y

      found :
          Covered [] (closure ps stack)
          × ((z : String) → contains stack z ≡ true → contains (closure ps stack) z ≡ true)
          × ((z : String) → contains [] z ≡ true → contains (closure ps stack) z ≡ true)
      found =
          walk_complete fuel stack [] (closure ps stack) (closure-walk ps stack)
            (λ a b h k. absurd (contains-nil a h))

      complete : {z : String} → Reaches ps stack z → contains (closure ps stack) z ≡ true
      complete w = reached stack (closure ps stack) found w
