-- ===== src/Graph/Compiler/Cycle/Exact.antt =====
-- `_cycle` of compiler.py against rankings of the nodes along the edges.
use codex_routecraft.Prelude.{
  ℕ, zero, suc, ◌+◌, ◌≤◌, ◌<◌, true, false, ◌&&◌, String, List, [], ◌∷◌, keep, ◌≡◌, ◌↔◌, refl, sym,
  subst, ◌∙◌, inl, inr, arith, contains, contains-nil, contains-cons, contains-head, contains-tail,
  contains-sorted, sorted, length, ◌==◌, ==_iff, Bool-cases, NoRepeats, Within, length-le_of_Within,
}
use codex_routecraft.Graph.Types.{Edge, in_dependency_edge_types}
use codex_routecraft.Graph.Closure.{Pairs, targets}
use codex_routecraft.Graph.Ready.Paths.{IsRanking}
use codex_routecraft.Graph.Compiler.Cycle.{
  inner, Visit, found, out, done, visit_all, visit, search_cycle, has_cycle,
}
use codex_routecraft.Graph.Compiler.Cycle.Ranks.{
  IsState, Visit-cases, visit_all-IsVisited, visit-IsVisited, rank_in, rank_in-le, rank_in-lt,
}

-- An outcome that is not a set, and that no visit of a child has, is not the loop's.
visit_all-never :
    (bad : Visit) (f : List String → String → Visit) (cs : List String)
    → ((l : List String) → ¬ (done l ≡ bad))
    → ((l : List String) (c : String) → contains cs c ≡ true → ¬ (f l c ≡ bad))
    → (before : List String) → ¬ (visit_all f before cs ≡ bad)
unfolding visit_all
visit_all-never bad f [] shape never before e = shape before e
visit_all-never bad f (c ∷ cs) shape never before e = elim (Visit-cases (f before c)) [
  | inl is ↦ never before c (contains-head c cs) (is ∙ (rw (is, visit_all) at e))
  | inr (inl is) ↦ never before c (contains-head c cs) (is ∙ (rw (is, visit_all) at e))
  | inr (inr (more, is)) ↦
      visit_all-never bad f cs shape (λ l d h. never l d (contains-tail c d cs h)) more
        (rw (is, visit_all) at e)
]

module _ (ps : Pairs) where
  -- Along a ranking no visit comes back to a node that is being visited.
  visit-ranked :
      (rank : String → ℕ)
      → IsRanking ps rank
      → (fuel : ℕ) (visiting before : List String) (node : String)
      → ((z : String) → contains visiting z ≡ true → rank node < rank z)
      → ¬ (visit ps fuel visiting before node ≡ found)
  unfolding visit
  visit-ranked rank falls zero visiting before node above e = cc
  visit-ranked rank falls (suc fuel) visiting before node above e =
      elim (Bool-cases (contains visiting node)) [
        | inl again ↦ absurd (let low = above node again in omega arith)
        | inr fresh ↦ elim (Bool-cases (contains before node)) [
          | inl old ↦ absurd (let e' = rw (fresh, old, visit) at e in cc)
          | inr new ↦
              let never =
                visit_all-never found (visit ps fuel (node ∷ visiting)) (targets ps node)
                  (λ l h. cc)
                  (λ l c on. visit-ranked rank falls fuel (node ∷ visiting) l c (λ z h.
                    let step = falls node c on in
                    elim (contains-cons node z visiting h) [
                      | inl same ↦ subst (λ x. rank c < rank x) same step
                      | inr up ↦ let more = above z up in omega arith
                    ]))
                  before in
              elim (Visit-cases
                (visit_all (visit ps fuel (node ∷ visiting)) before (targets ps node))) [
                  | inl hit ↦ never hit
                  | inr (inl stop) ↦ absurd (let e' = rw (fresh, new, stop, visit) at e in cc)
                  | inr (inr (more, is)) ↦ absurd (let e' = rw (fresh, new, is, visit) at e in cc)
                ]
        ]
      ]

  -- The nodes being visited are distinct nodes of the graph, so their number limits the depth.
  visit-fuel :
      (ids : List String)
      → ((x : String) → Within (targets ps x) ids)
      → (fuel : ℕ) (visiting before : List String) (node : String) → NoRepeats visiting
      → Within visiting ids
      → contains ids node ≡ true
      → length ids < fuel + length visiting
      → ¬ (visit ps fuel visiting before node ≡ out)
  unfolding visit
  visit-fuel ids inside zero visiting before node once known k bound e =
      let few = length-le_of_Within visiting ids once known in absurd (omega arith)
  visit-fuel ids inside (suc fuel) visiting before node once known k bound e =
      elim (Bool-cases (contains visiting node)) [
        | inl again ↦ absurd (let e' = rw (again, visit) at e in cc)
        | inr fresh ↦ elim (Bool-cases (contains before node)) [
          | inl old ↦ absurd (let e' = rw (fresh, old, visit) at e in cc)
          | inr new ↦
              let never =
                visit_all-never out (visit ps fuel (node ∷ visiting)) (targets ps node) (λ l h. cc)
                  (λ l c on.
                    visit-fuel ids inside fuel (node ∷ visiting) l c (fresh, once)
                      (λ z h. elim (contains-cons node z visiting h) [
                        | inl same ↦ subst (λ x. contains ids x ≡ true) same k
                        | inr up ↦ known z up
                      ])
                      (inside node c on) (omega arith))
                  before in
              elim (Visit-cases
                (visit_all (visit ps fuel (node ∷ visiting)) before (targets ps node))) [
                  | inl hit ↦ absurd (let e' = rw (fresh, new, hit, visit) at e in cc)
                  | inr (inl stop) ↦ never stop
                  | inr (inr (more, is)) ↦ absurd (let e' = rw (fresh, new, is, visit) at e in cc)
                ]
        ]
      ]

-- The edges that `_cycle` follows join nodes of the graph.
inner-ids :
    (ids : List String) (edges : List Edge) (x y : String)
    → contains (targets (inner ids edges) x) y ≡ true
    → (contains ids x ≡ true) × (contains ids y ≡ true)
unfolding inner targets keep contains
inner-ids ids [] x y h = cc
inner-ids ids (b ∷ edges) x y h =
    elim (Bool-cases
      (in_dependency_edge_types b.edge_type && contains ids b.source && contains ids b.target)) [
        | inl kept ↦
            let h' = rw (kept, keep) at h in
            let ends : (contains ids b.source ≡ true) × (contains ids b.target ≡ true) =
              ground (arith, kept) in
            elim (Bool-cases (b.source == x)) [
              | inl from ↦
                  elim (contains-cons b.target y (targets (inner ids edges) x)
                    (rw (from, targets) at h')) [
                      | inl same ↦ (
                        subst (λ z. contains ids z ≡ true) ((==_iff b.source x).0 from) ends.0,
                        subst (λ z. contains ids z ≡ true) same ends.1,
                      )
                      | inr more ↦ inner-ids ids edges x y more
                    ]
              | inr other ↦ inner-ids ids edges x y (rw (other, targets) at h')
            ]
        | inr left ↦ inner-ids ids edges x y (rw (left, keep) at h)
      ]

-- The answer "no" comes with a set of all nodes, in an order along the edges.
search_cycle-done :
    (ids : List String) (edges : List Edge) (visited : List String)
    → search_cycle ids edges ≡ done visited
    → IsState (inner ids edges) ids [] visited × Within ids visited
unfolding search_cycle
search_cycle-done ids edges visited e =
    let ps = inner ids edges in
    let inside : (x : String) → Within (targets ps x) ids =
      λ x y h. (inner-ids ids edges x y h).1 in
    let (state, all) =
      visit_all-IsVisited ps ids [] (visit ps (suc (length ids)) [])
        (visit-IsVisited ps ids inside (suc (length ids)) []) (sorted ids) [] visited
        (tt, λ z h. refl, tt, λ z h. absurd (contains-nil z h))
        (λ z h. sym (contains-sorted ids z) ∙ h) e in
    (state.0, λ z h. all z (contains-sorted ids z ∙ h))

search_cycle-fuel : (ids : List String) (edges : List Edge) → ¬ (search_cycle ids edges ≡ out)
unfolding search_cycle
search_cycle-fuel ids edges =
    visit_all-never out (visit (inner ids edges) (suc (length ids)) []) (sorted ids) (λ l h. cc)
      (λ l c h.
        visit-fuel (inner ids edges) ids (λ x y on. (inner-ids ids edges x y on).1)
          (suc (length ids)) [] l c tt (λ z on. absurd (contains-nil z on))
          (sym (contains-sorted ids c) ∙ h) (omega arith))
      []

search_cycle-ranked :
    (ids : List String) (edges : List Edge) (rank : String → ℕ)
    → IsRanking (inner ids edges) rank
    → ¬ (search_cycle ids edges ≡ found)
unfolding search_cycle
search_cycle-ranked ids edges rank falls =
    visit_all-never found (visit (inner ids edges) (suc (length ids)) []) (sorted ids) (λ l h. cc)
      (λ l c h.
        visit-ranked (inner ids edges) rank falls (suc (length ids)) [] l c
          (λ z on. absurd (contains-nil z on)))
      []

-- The answer "no" gives such numbers, and none is above the number of the nodes.
pub has_cycle-IsRanking :
    (ids : List String) (edges : List Edge)
    → has_cycle ids edges ≡ false
    → (rank : String → ℕ) × IsRanking (inner ids edges) rank × ((x : String) → rank x ≤ length ids)
unfolding has_cycle
has_cycle-IsRanking ids edges e = elim (Visit-cases (search_cycle ids edges)) [
  | inl hit ↦ absurd (let e' = rw (hit, has_cycle) at e in cc)
  | inr (inl stop) ↦ absurd (search_cycle-fuel ids edges stop)
  | inr (inr (visited, is)) ↦
      let ((closed, apart, once, known), all) = search_cycle-done ids edges visited is in
      let few = length-le_of_Within visited ids once known in
      (
        rank_in visited,
        λ x y h.
            (rank_in-lt (inner ids edges) visited x y closed (all x (inner-ids ids edges x y h).0)
              h).1,
        λ x. let low = rank_in-le visited x in omega arith,
      )
]

-- `_cycle` answers "no cycle" exactly where the nodes can be numbered so that the numbers fall
-- along every dependency edge between them: it misses no cycle and reports none that is not there.
pub has_cycle_iff :
    (ids : List String) (edges : List Edge)
    → (has_cycle ids edges ≡ false) ↔ ((rank : String → ℕ) × IsRanking (inner ids edges) rank)
unfolding has_cycle
has_cycle_iff ids edges = (
  λ e. let (rank, falls, _) = has_cycle-IsRanking ids edges e in (rank, falls),
  λ (rank, falls). elim (Visit-cases (search_cycle ids edges)) [
    | inl hit ↦ absurd (search_cycle-ranked ids edges rank falls hit)
    | inr (inl stop) ↦ absurd (search_cycle-fuel ids edges stop)
    | inr (inr (visited, is)) ↦ rw (is, has_cycle) refl
  ],
)
