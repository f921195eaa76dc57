-- ===== src/Graph/State/Structure.antt =====
-- Transitions and the dependency structure.
use codex_routecraft.Prelude.{
  ◌&&◌, String, Option, none, some, List, [], ◌∷◌, ◌++◌, map, ◌≡◌, refl, ap, ap₂, ◌∙◌, arith,
  find_last, keep, distinct, ◌==◌, map-eq_of_Pointwise,
}
use codex_routecraft.Graph.Types.{Node, Edge, Graph, in_dependency_edge_types}
use codex_routecraft.Graph.Closure.{Pairs}
use codex_routecraft.Graph.Scheduler.{
  by_id, incoming_edges, dependencies, dependency_keys, entries_of, entries, children, downstream,
}
use codex_routecraft.Graph.State.Change.{Change, Changes}
use codex_routecraft.Graph.State.Evolves.{Evolves}

declared : String → List Node → List String
declared id ns = elim (find_last (λ n. n.node_id == id) ns) [ none ↦ [] | some n ↦ n.dependencies ]

-- The last node of an id in two lists of which one is a change of the other.
abbrev pub Agree : Option Node → Option Node → Type 0
Agree none none = Unit
Agree none (some m) = ⊥
Agree (some n) none = ⊥
Agree (some n) (some m) = Change n m

pub find_last-Agree :
    (id : String) (ns ms : List Node)
    → Changes ns ms
    → Agree (find_last (λ n. n.node_id == id) ns) (find_last (λ n. n.node_id == id) ms)
unfolding find_last
find_last-Agree id [] [] c = tt
find_last-Agree id [] (m ∷ ms) c = absurd c
find_last-Agree id (n ∷ ns) [] c = absurd c
find_last-Agree id (n ∷ ns) (m ∷ ms) c =
    let later = find_last-Agree id ns ms c.1 in
    let same_test = ap (λ x. x == id) c.0.same_id in let head = c.0 in ground arith

same_declared :
    (a b : Option Node)
    → Agree a b
    → ◌≡◌ {A = List String}
        (elim a [ none ↦ [] | some n ↦ n.dependencies ])
        (elim b [ none ↦ [] | some m ↦ m.dependencies ])
same_declared none none agree = refl
same_declared none (some m) agree = absurd agree
same_declared (some n) none agree = absurd agree
same_declared (some n) (some m) agree = agree.same_dependencies

declared-Changes :
    (id : String) (ns ms : List Node) → Changes ns ms → declared id ns ≡ declared id ms
unfolding declared
declared-Changes id ns ms c =
    same_declared (find_last (λ n. n.node_id == id) ns) (find_last (λ n. n.node_id == id) ms)
      (find_last-Agree id ns ms c)

pub dependencies-Evolves :
    (g g' : Graph) (id : String) → Evolves g g' → dependencies g id ≡ dependencies g' id
unfolding dependencies by_id incoming_edges
dependencies-Evolves g g' id e =
    let d : declared id g.nodes ≡ declared id g'.nodes =
      declared-Changes id g.nodes g'.nodes e.nodes_change in
    ap₂
      (λ (ds : List String) (es : List Edge).
        ds
        ++ map (λ b. b.source)
            (keep (λ b. (b.target == id) && in_dependency_edge_types b.edge_type) es))
      (unfold declared in d) e.same_edges

dependency_keys-Evolves : (g g' : Graph) → Evolves g g' → dependency_keys g ≡ dependency_keys g'
unfolding dependency_keys
dependency_keys-Evolves g g' e =
    ap₂
      (λ (ids : List String) (es : List Edge).
        distinct (ids ++ map (λ b. b.target) (keep (λ b. in_dependency_edge_types b.edge_type) es)))
      (map-eq_of_Pointwise Change (λ n. n.node_id) (λ n m c. c.same_id) g.nodes g'.nodes
        e.nodes_change)
      e.same_edges

entries-Evolves : (g g' : Graph) (ids : List String) → Evolves g g' → entries g ids ≡ entries g' ids
unfolding entries entries_of
entries-Evolves g g' [] e = refl
entries-Evolves g g' (id ∷ ids) e =
    ap₂ (λ (ds : List String) (rest : Pairs). map (λ d. (d, id)) (distinct ds) ++ rest)
      (dependencies-Evolves g g' id e) (entries-Evolves g g' ids e)

children-Evolves : (g g' : Graph) → Evolves g g' → children g ≡ children g'
unfolding children
children-Evolves g g' e =
    entries-Evolves g g' (dependency_keys g) e ∙ ap (entries g') (dependency_keys-Evolves g g' e)

pub downstream-Evolves :
    (g g' : Graph) (id : String) → Evolves g g' → downstream g id ≡ downstream g' id
unfolding downstream
downstream-Evolves g g' id e = rw (children-Evolves g g' e)
