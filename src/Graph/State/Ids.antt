-- ===== src/Graph/State/Ids.antt =====
-- Distinct node ids, the dictionary `by_id` and the search of `_node`.
use codex_routecraft.Prelude.{
  NoRepeats, true, false, String, none, some, List, [], ◌∷◌, map, ◌≡◌, refl, subst, inl, inr, arith,
  All, contains, find_first, find_last, ◌==◌, ==_iff, Bool-cases, ok, map-eq_of_Pointwise,
}
use codex_routecraft.Graph.Types.{Node, Graph}
use codex_routecraft.Graph.Skip.{find_node}
use codex_routecraft.Graph.State.Change.{Change}
use codex_routecraft.Graph.State.Evolves.{Evolves}

abbrev pub ids_of : List Node → List String
ids_of ns = map (λ n. n.node_id) ns

abbrev pub HasDistinctIds : Graph → Type 0
HasDistinctIds g = NoRepeats (ids_of g.nodes)

pub Evolves-HasDistinctIds : (g g' : Graph) → Evolves g g' → HasDistinctIds g → HasDistinctIds g'
Evolves-HasDistinctIds g g' e d =
    subst NoRepeats
      (map-eq_of_Pointwise Change (λ n. n.node_id) (λ a b c. c.same_id) g.nodes g'.nodes
        e.nodes_change)
      d

-- Every node that goes by an id which the list lacks satisfies anything.
All-absent :
    (P : Node → Type 0) (id : String) (ns : List Node)
    → contains (ids_of ns) id ≡ false
    → All (λ n. (n.node_id == id) ≡ true → P n) ns
unfolding contains
All-absent P id [] h = tt
All-absent P id (n ∷ ns) h = (λ e. absurd (ground arith), All-absent P id ns (ground arith))

find_last-absent :
    (id : String) (ns : List Node)
    → contains (ids_of ns) id ≡ false
    → find_last (λ n. n.node_id == id) ns ≡ none
unfolding find_last contains
find_last-absent id [] h = refl
find_last-absent id (n ∷ ns) h = ground (arith, find_last-absent id ns)

-- What holds of the node that the dictionary gives holds of each node of that id.
pub All-find_last :
    (P : Node → Type 0) (id : String) (m : Node) (ns : List Node)
    → NoRepeats (ids_of ns)
    → find_last (λ n. n.node_id == id) ns ≡ some m
    → P m
    → All (λ n. (n.node_id == id) ≡ true → P n) ns
unfolding find_last
All-find_last P id m [] d e h = tt
All-find_last P id m (n ∷ ns) d e h = elim (Bool-cases (n.node_id == id)) [
  | inl same ↦
      let gone = subst (λ x. contains (ids_of ns) x ≡ false) ((==_iff n.node_id id).0 same) d.0 in
      (λ _. subst P (ground (arith, find_last-absent id ns gone)) h, All-absent P id ns gone)
  | inr other ↦ (λ k. cc, All-find_last P id m ns d.1 (ground arith) h)
]

-- So too for the node that `_node` finds.
pub All-find_first :
    (P : Node → Type 0) (id : String) (m : Node) (ns : List Node)
    → NoRepeats (ids_of ns)
    → find_first (λ n. n.node_id == id) ns ≡ some m
    → P m
    → All (λ n. (n.node_id == id) ≡ true → P n) ns
unfolding find_first
All-find_first P id m [] d e h = tt
All-find_first P id m (n ∷ ns) d e h = elim (Bool-cases (n.node_id == id)) [
  | inl same ↦
      let gone = subst (λ x. contains (ids_of ns) x ≡ false) ((==_iff n.node_id id).0 same) d.0 in
      (λ _. subst P (ground arith) h, All-absent P id ns gone)
  | inr other ↦ (λ k. cc, All-find_first P id m ns d.1 (ground arith) h)
]

pub find_node-some :
    (g : Graph) (id : String) (n : Node)
    → find_node g id ≡ ok n
    → find_first (λ m. m.node_id == id) g.nodes ≡ some n
unfolding find_node
find_node-some g id n e = ground arith
