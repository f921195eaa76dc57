-- ===== src/Graph/Scheduler/Downstream.antt =====
-- `downstream` of scheduler.py, and the relation "needs, directly or not".
use mathlib.Core.List.{reverse}
use codex_routecraft.Prelude.{
  true, false, ◌&&◌, ◌||◌, String, none, List, [], ◌∷◌, ◌++◌, map, ◌≡◌, refl, sym, ◌∙◌, ◌↔◌, inl,
  inr, arith, keep, find_last, contains, contains-append, contains-distinct, contains-sorted,
  distinct, ◌==◌, ==_iff, Bool-cases,
}
use codex_routecraft.Graph.Types.{Node, Edge, Graph, in_dependency_edge_types}
use codex_routecraft.Graph.Closure.{
  Pairs, targets, closure, Reaches, start, step, closure_iff, contains-reverse,
}
use codex_routecraft.Graph.Scheduler.{
  by_id, incoming_edges, dependencies, dependency_keys, entries_of, entries, children, downstream,
}

targets-append :
    (ps qs : Pairs) (x y : String)
    → contains (targets (ps ++ qs) x) y ≡ (contains (targets ps x) y || contains (targets qs x) y)
unfolding targets contains
targets-append [] qs x y = refl
targets-append ((k, v) ∷ ps) qs x y = ground (arith, targets-append ps qs x y)

targets-entries_of :
    (ds : List String) (id x y : String)
    → contains (targets (map (λ d. (d, id)) ds) x) y ≡ (contains ds x && (id == y))
unfolding targets contains
targets-entries_of [] id x y = refl
targets-entries_of (d ∷ ds) id x y = ground (arith, targets-entries_of ds id x y)

targets-entries :
    (g : Graph) (ids : List String) (x y : String)
    → contains (targets (entries g ids) x) y ≡ (contains ids y && contains (dependencies g y) x)
unfolding entries entries_of targets contains
targets-entries g [] x y = refl
targets-entries g (id ∷ ids) x y = elim (Bool-cases (id == y)) [
  | inl e ↦ ground (
    arith,
    (==_iff id y).0 e,
    targets-append (entries_of g id) (entries g ids) x y,
    targets-entries_of (distinct (dependencies g id)) id x y,
    contains-distinct (dependencies g id) x,
    targets-entries g ids x y,
  )
  | inr e ↦ ground (
    arith,
    targets-append (entries_of g id) (entries g ids) x y,
    targets-entries_of (distinct (dependencies g id)) id x y,
    targets-entries g ids x y,
  )
]

pub find_last-contains :
    (ns : List Node) (id : String)
    → contains (map (λ n. n.node_id) ns) id ≡ false
    → find_last (λ n. n.node_id == id) ns ≡ none
unfolding find_last contains
find_last-contains [] id h = refl
find_last-contains (n ∷ ns) id h = ground (arith, find_last-contains ns id)

keep-contains :
    (es : List Edge) (id : String)
    → contains (map (λ e. e.target) (keep (λ e. in_dependency_edge_types e.edge_type) es)) id
      ≡ false
    → keep (λ e. (e.target == id) && in_dependency_edge_types e.edge_type) es ≡ []
unfolding keep contains
keep-contains [] id h = refl
keep-contains (e ∷ es) id h = ground (arith, keep-contains es id)

-- Only a key of the dictionary has dependencies.
pub dependencies-key :
    (g : Graph) (x y : String)
    → contains (dependencies g y) x ≡ true
    → contains (dependency_keys g) y ≡ true
unfolding dependencies dependency_keys by_id incoming_edges contains
dependencies-key g x y h =
    let ns = map (λ (n : Node). n.node_id) g.nodes in
    let es =
      map (λ (e : Edge). e.target)
        (keep (λ (e : Edge). in_dependency_edge_types e.edge_type) g.edges) in
    ground (
      arith,
      contains-distinct (ns ++ es) y,
      contains-append ns es y,
      find_last-contains g.nodes y,
      keep-contains g.edges y,
    )

-- The dictionary `children` holds the direct dependencies, turned round.
pub contains-children :
    (g : Graph) (x y : String) → contains (targets (children g) x) y ≡ contains (dependencies g y) x
unfolding children
contains-children g x y =
    ground (arith, targets-entries g (dependency_keys g) x y, dependencies-key g x y)

-- `target` needs `source`: in one step, or through another node that does.
pub data Needs (g : Graph) (source : String) : String → Type 0 where
  directly :
      {target : String} → contains (dependencies g target) source ≡ true → Needs g source target
  through :
      {middle target : String}
      → Needs g source middle
      → contains (dependencies g target) middle ≡ true
      → Needs g source target

-- The stack that the search starts with.
abbrev first : Graph → String → List String
first g source = reverse (targets (children g) source)

contains-first :
    (g : Graph) (source y : String)
    → contains (first g source) y ≡ contains (dependencies g y) source
contains-first g source y =
    contains-reverse (targets (children g) source) y ∙ contains-children g source y

Reaches-Needs :
    (g : Graph) (source : String) {t : String}
    → Reaches (children g) (first g source) t
    → Needs g source t
Reaches-Needs g source (start {y} h) = directly (sym (contains-first g source y) ∙ h)
Reaches-Needs g source (step {x} {y} r h) =
    through (Reaches-Needs g source r) (sym (contains-children g x y) ∙ h)

Needs-Reaches :
    (g : Graph) (source : String) {t : String}
    → Needs g source t
    → Reaches (children g) (first g source) t
Needs-Reaches g source (directly {target} h) = start (contains-first g source target ∙ h)
Needs-Reaches g source (through {middle} {target} n h) =
    step (Needs-Reaches g source n) (contains-children g middle target ∙ h)

-- `downstream` lists exactly the nodes that need the source, directly or through other nodes.
pub downstream_iff :
    (g : Graph) (source target : String)
    → (contains (downstream g source) target ≡ true) ↔ Needs g source target
unfolding downstream
downstream_iff g source target =
    let found = closure (children g) (first g source) in
    let (sound, complete) = closure_iff (children g) (first g source) target in
    (
      λ h. Reaches-Needs g source (sound (sym (contains-sorted found target) ∙ h)),
      λ n. contains-sorted found target ∙ complete (Needs-Reaches g source n),
    )
