-- ===== src/Graph/Ready/Choice.antt =====
-- The loop of `ready_nodes` that fills `selected`.
use codex_routecraft.Prelude.{
  ℕ, ◌≤◌, ◌<◌, true, false, List, [], ◌∷◌, ◌++◌, ◌≡◌, refl, sym, ap, subst, ◌∙◌, ◌⊎◌, inl, inr,
  arith, any, All, All-append, All-const, any-append, length, length-append, leb, leb→le,
  Bool-cases,
}
use mathlib.Core.List.{Memᴰ, append_assoc, append-nil}
use mathlib.Core.List.Memᴰ
use codex_routecraft.Graph.Types.{Node}
use codex_routecraft.Graph.Ready.{clash, choose}

-- Every node of the list stands free of the active nodes and of the nodes before it.
abbrev pub IsFree : List Node → List Node → Type 0
IsFree others [] = Unit
IsFree others (n ∷ ns) = (any (clash n) others ≡ false) × IsFree (others ++ n ∷ []) ns

IsFree-snoc :
    (others ns : List Node) (n : Node)
    → IsFree others ns
    → any (clash n) (others ++ ns) ≡ false
    → IsFree others (ns ++ n ∷ [])
IsFree-snoc others [] n free apart = (ap (any (clash n)) (sym (append-nil others)) ∙ apart, tt)
IsFree-snoc others (m ∷ ns) n free apart = (
  free.0,
  IsFree-snoc (others ++ m ∷ []) ns n free.1
      (ap (any (clash n)) (append_assoc others (m ∷ []) ns) ∙ apart),
)

module _ (slots : ℕ) (active : List Node) where
  pub choose-IsFree :
      (selected ns : List Node)
      → IsFree active selected
      → IsFree active (choose slots active selected ns)
  unfolding choose
  choose-IsFree selected [] free = free
  choose-IsFree selected (n ∷ ns) free = ground (
    arith,
    choose-IsFree selected ns free,
    IsFree-snoc active selected n free,
    choose-IsFree (selected ++ n ∷ []) ns,
  )

  pub length-choose :
      (selected ns : List Node)
      → length selected < slots
      → length (choose slots active selected ns) ≤ slots
  unfolding choose
  length-choose selected [] h = omega arith
  length-choose selected (n ∷ ns) h = ground (
    arith,
    length-choose selected ns,
    length-append selected (n ∷ []),
    length-choose (selected ++ n ∷ []) ns,
  )

  pub choose-All :
      (P : Node → Type 0) (selected ns : List Node)
      → All P selected
      → All P ns
      → All P (choose slots active selected ns)
  unfolding choose
  choose-All P selected [] hs hn = hs
  choose-All P selected (n ∷ ns) hs hn = ground (
    arith,
    choose-All P selected ns hs,
    All-append P selected (n ∷ []) hs,
    choose-All P (selected ++ n ∷ []) ns,
  )

  -- The loop only appends.
  choose-extends :
      (selected ns : List Node)
      → (rest : List Node) × (choose slots active selected ns ≡ selected ++ rest)
  unfolding choose
  choose-extends selected [] = ([], sym (append-nil selected))
  choose-extends selected (n ∷ ns) = elim (Bool-cases (any (clash n) (active ++ selected))) [
    | inl e ↦ rw e (choose-extends selected ns)
    | inr e ↦ rw e (elim (Bool-cases (leb slots (length (selected ++ n ∷ [])))) [
      | inl full ↦ rw full (n ∷ [], refl)
      | inr room ↦
          let (rest, k) = choose-extends (selected ++ n ∷ []) ns in
          rw room (n ∷ rest, k ∙ append_assoc selected (n ∷ []) rest)
    ])
  ]

  module _ (selected ns : List Node) (n : Node) where
    choose_skip :
        any (clash n) (active ++ selected) ≡ true
        → choose slots active selected (n ∷ ns) ≡ choose slots active selected ns
    unfolding choose
    choose_skip e = rw e

    choose_last :
        any (clash n) (active ++ selected) ≡ false
        → leb slots (length (selected ++ n ∷ [])) ≡ true
        → choose slots active selected (n ∷ ns) ≡ selected ++ n ∷ []
    unfolding choose
    choose_last e full = rw (e, full)

    choose_take :
        any (clash n) (active ++ selected) ≡ false
        → leb slots (length (selected ++ n ∷ [])) ≡ false
        → choose slots active selected (n ∷ ns) ≡ choose slots active (selected ++ n ∷ []) ns
    unfolding choose
    choose_take e room = rw (e, room)

  -- A candidate that is left out clashes with a node that runs or was chosen, or no slot is left.
  abbrev pub IsServed : List Node → Node → Type 0
  IsServed chosen n =
      Memᴰ n chosen ⊎ (any (clash n) (active ++ chosen) ≡ true) ⊎ (slots ≤ length chosen)

  IsServed-by_clash :
      (selected ns : List Node) (n : Node)
      → any (clash n) (active ++ selected) ≡ true
      → IsServed (choose slots active selected ns) n
  IsServed-by_clash selected ns n h =
      let (rest, e) = choose-extends selected ns in
      inr (
        inl (
          ground (
            arith,
            ap (λ l. any (clash n) (active ++ l)) e,
            any-append (clash n) active (selected ++ rest),
            any-append (clash n) selected rest,
            any-append (clash n) active selected,
          )))

  IsServed-by_choice :
      (selected ns : List Node) (n : Node)
      → IsServed (choose slots active (selected ++ n ∷ []) ns) n
  IsServed-by_choice selected ns n =
      let (rest, e) = choose-extends (selected ++ n ∷ []) ns in
      inl (rw e (Memᴰ.append_left rest (Memᴰ.append_right selected (Memᴰ.head refl))))

  pub choose_maximal :
      (selected ns : List Node) → All (IsServed (choose slots active selected ns)) ns
  choose_maximal selected [] = tt
  choose_maximal selected (n ∷ ns) =
      let served = λ (r : List Node). All (IsServed r) (n ∷ ns) in
      elim (Bool-cases (any (clash n) (active ++ selected))) [
        | inl e ↦
            subst served (sym (choose_skip selected ns n e))
              (IsServed-by_clash selected ns n e, choose_maximal selected ns)
        | inr e ↦ elim (Bool-cases (leb slots (length (selected ++ n ∷ [])))) [
          | inl full ↦
              let enough = leb→le _ _ full in
              subst served (sym (choose_last selected ns n e full))
                (inr (inr enough), All-const _ ns (λ m. inr (inr enough)))
          | inr room ↦
              subst served (sym (choose_take selected ns n e room))
                (IsServed-by_choice selected ns n, choose_maximal (selected ++ n ∷ []) ns)
        ]
      ]
