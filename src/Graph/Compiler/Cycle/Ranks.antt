-- ===== src/Graph/Compiler/Cycle/Ranks.antt =====
-- The search of `_cycle` of compiler.py, and rankings of the nodes along the edges.
use codex_routecraft.Prelude.{
  ℕ, zero, suc, ◌≤◌, ◌<◌, true, false, String, List, [], ◌∷◌, ◌≡◌, ◌⊎◌, refl, sym, subst, inl, inr,
  arith, contains, contains-nil, contains-cons, contains-head, contains-tail, length, ◌==◌, ==_iff,
  Bool-cases, if◌then◌else◌, NoRepeats, Within,
}
use codex_routecraft.Graph.Closure.{Pairs, targets}
use codex_routecraft.Graph.Compiler.Cycle.{Visit, found, out, done, visit_all, visit}

pub Visit-cases : (v : Visit) → (v ≡ found) ⊎ (v ≡ out) ⊎ ((l : List String) × (v ≡ done l))
Visit-cases found = inl refl
Visit-cases out = inr (inl refl)
Visit-cases (done l) = inr (inr (l, refl))

visit_all-cons :
    (f : List String → String → Visit) (before after : List String) (c : String) (cs : List String)
    → visit_all f before (c ∷ cs) ≡ done after
    → (more : List String) × (f before c ≡ done more) × (visit_all f more cs ≡ done after)
unfolding visit_all
visit_all-cons f before after c cs e = elim (Visit-cases (f before c)) [
  | inl hit ↦ absurd (cc)
  | inr (inl stop) ↦ absurd (cc)
  | inr (inr (more, is)) ↦ (more, is, rw (is, visit_all) at e)
]

module _ (ps : Pairs) where
  -- The last node visited comes first: its targets were visited before it.
  abbrev pub Closed : List String → Type 0
  Closed [] = Unit
  Closed (v ∷ vs) = Within (targets ps v) vs × Closed vs

  -- The sets between two visits.
  abbrev pub IsState : List String → List String → List String → Type 0
  IsState ids visiting visited =
      Closed visited
      × ((z : String) → contains visiting z ≡ true → contains visited z ≡ false)
      × NoRepeats visited
      × Within visited ids

  -- What a visit that found no cycle leaves behind.
  abbrev pub IsVisited : List String → List String → List String → List String → Type 0
  IsVisited ids visiting before after = IsState ids visiting after × Within before after

  abbrev Visits : List String → List String → (List String → String → Visit) → Type 0
  Visits ids visiting visit_one =
      (before after : List String) (node : String)
      → IsState ids visiting before
      → contains ids node ≡ true
      → visit_one before node ≡ done after
      → IsVisited ids visiting before after × (contains after node ≡ true)

  pub visit_all-IsVisited :
      (ids visiting : List String) (visit_one : List String → String → Visit)
      → Visits ids visiting visit_one
      → (cs before after : List String) → IsState ids visiting before
      → Within cs ids
      → visit_all visit_one before cs ≡ done after
      → IsVisited ids visiting before after × Within cs after
  unfolding visit_all
  visit_all-IsVisited ids visiting f step [] before after s w e =
      let same : before ≡ after = cc in
      subst (λ l. IsVisited ids visiting before l × Within [] l) same
        ((s, λ z h. h), λ z h. absurd (contains-nil z h))
  visit_all-IsVisited ids visiting f step (c ∷ cs) before after s w e =
      let (more, is, rest) = visit_all-cons f before after c cs e in
      let (first, on) = step before more c s (w c (contains-head c cs)) is in
      let (later, all_on) =
        visit_all-IsVisited ids visiting f step cs more after first.0
          (λ z h. w z (contains-tail c z cs h)) rest in
      (
        (later.0, λ z h. later.1 z (first.1 z h)),
        λ z h. elim (contains-cons c z cs h) [
          | inl same ↦ subst (λ x. contains after x ≡ true) same (later.1 c on)
          | inr tail ↦ all_on z tail
        ],
      )

  IsState-push :
      (ids visiting visited : List String) (node : String)
      → IsState ids visiting visited
      → contains visited node ≡ false
      → IsState ids (node ∷ visiting) visited
  IsState-push ids visiting visited node (closed, apart, once, known) new = (
    closed,
    λ z h. elim (contains-cons node z visiting h) [
      | inl same ↦ subst (λ x. contains visited x ≡ false) same new
      | inr above ↦ apart z above
    ],
    once,
    known,
  )

  -- The node joins `visited` once its targets are in it.
  IsState-pop :
      (ids visiting visited : List String) (node : String)
      → IsState ids (node ∷ visiting) visited
      → contains visiting node ≡ false
      → contains ids node ≡ true
      → Within (targets ps node) visited
      → IsState ids visiting (node ∷ visited)
  IsState-pop ids visiting visited node (closed, apart, once, known) fresh k on = (
    (on, closed),
    λ z h. elim (Bool-cases (contains (node ∷ visited) z)) [
      | inl r ↦ elim (contains-cons node z visited r) [
        | inl same ↦ absurd (ground (arith, same, fresh, h))
        | inr old ↦ absurd (ground (arith, apart z (contains-tail node z visiting h), old))
      ]
      | inr r ↦ r
    ],
    (apart node (contains-head node visiting), once),
    λ z h. elim (contains-cons node z visited h) [
      | inl same ↦ subst (λ x. contains ids x ≡ true) same k
      | inr old ↦ known z old
    ],
  )

  pub visit-IsVisited :
      (ids : List String)
      → ((x : String) → Within (targets ps x) ids)
      → (fuel : ℕ) (visiting : List String) → Visits ids visiting (visit ps fuel visiting)
  unfolding visit
  visit-IsVisited ids inside zero visiting before after node s k e = cc
  visit-IsVisited ids inside (suc fuel) visiting before after node s k e =
      elim (Bool-cases (contains visiting node)) [
        | inl again ↦ absurd (let e' = rw (again, visit) at e in cc)
        | inr fresh ↦ elim (Bool-cases (contains before node)) [
          | inl old ↦
              let e' = rw (fresh, old, visit) at e in
              let same : before ≡ after = cc in
              subst (λ l. IsVisited ids visiting before l × (contains l node ≡ true)) same
                ((s, λ z h. h), old)
          | inr new ↦
              elim (Visit-cases
                (visit_all (visit ps fuel (node ∷ visiting)) before (targets ps node))) [
                  | inl hit ↦ absurd (let e' = rw (fresh, new, hit, visit) at e in cc)
                  | inr (inl stop) ↦ absurd (let e' = rw (fresh, new, stop, visit) at e in cc)
                  | inr (inr (more, is)) ↦
                      let ((t, grown), on) =
                        visit_all-IsVisited ids (node ∷ visiting) (visit ps fuel (node ∷ visiting))
                          (visit-IsVisited ids inside fuel (node ∷ visiting)) (targets ps node)
                          before more (IsState-push ids visiting before node s new) (inside node)
                          is in
                      let e' = rw (fresh, new, is, visit) at e in
                      let same : node ∷ more ≡ after = cc in
                      subst (λ l. IsVisited ids visiting before l × (contains l node ≡ true)) same
                        (
                          (
                            IsState-pop ids visiting more node t fresh k on,
                            λ z h. contains-tail node z more (grown z h),
                          ),
                          contains-head node more,
                        )
                ]
        ]
      ]

-- The place of a node's oldest entry, counted from the end.
unfoldable pub rank_in : List String → String → ℕ
unfolding contains ◌==◌
rank_in [] x = 0
rank_in (v ∷ vs) x =
    let rest = rank_in vs x in if contains vs x then rest else if v == x then suc (length vs) else 0

pub rank_in-le : (vs : List String) (x : String) → rank_in vs x ≤ length vs
unfolding rank_in
rank_in-le [] x = omega arith
rank_in-le (v ∷ vs) x = ground (arith, rank_in-le vs x)

pub rank_in-lt :
    (ps : Pairs) (vs : List String) (x y : String)
    → Closed ps vs
    → contains vs x ≡ true
    → contains (targets ps x) y ≡ true
    → (contains vs y ≡ true) × (rank_in vs y < rank_in vs x)
unfolding rank_in contains
rank_in-lt ps [] x y closed h on = cc
rank_in-lt ps (v ∷ vs) x y (within, closed) h on = elim (Bool-cases (contains vs x)) [
  | inl old ↦
      let (inside, lower) = rank_in-lt ps vs x y closed old on in
      (ground (arith, inside), rw (old, inside) lower)
  | inr new ↦
      let same : (v == x) ≡ true = ground (arith, h, new) in
      let on_v = subst (λ z. contains (targets ps z) y ≡ true) (sym ((==_iff v x).0 same)) on in
      let inside = within y on_v in
      let low = rank_in-le vs y in (ground (arith, inside), rw (new, inside, same) (omega arith))
]
