-- ===== src/Graph/State/Failure.antt =====
-- `fail_node` of state.py, node by node.
use codex_routecraft.Prelude.{
  NoRepeats, Bool, false, String, none, List, [], ◌∷◌, map, ◌≡◌, refl, sym, ap, subst, ◌∙◌, inl,
  inr, arith, ok, ◌>>=◌, >>=-eq-ok, ok-injective, fold_result, contains, ◌==◌, ==_iff, ==_comm,
  Bool-cases, if◌then◌else◌,
}
use codex_routecraft.Graph.Types.{NodeStatus, GraphStatus, Node, Graph}
use codex_routecraft.Graph.Scheduler.{downstream}
use codex_routecraft.Graph.Skip.{find_node, update_first, clear_result}
use codex_routecraft.Graph.State.{
  is_accepted, with_node, invalidate, change_each, freeze, fail_node,
}
use codex_routecraft.Graph.State.Ids.{ids_of, HasDistinctIds}
use codex_routecraft.Graph.State.Inversion.{failed_graph, fail_node-ok}
use codex_routecraft.Graph.State.Structure.{downstream-Evolves}
use codex_routecraft.Graph.State.Transitions.{failed_graph-Evolves, fail_node-Evolves}

-- A write to the nodes that pass a test.
abbrev pub where_true : (Node → Bool) → (Node → Node) → Node → Node
where_true p f n = if p n then f n else n

map_absent :
    (id : String) (f : Node → Node) (ns : List Node)
    → contains (ids_of ns) id ≡ false
    → map (where_true (λ n. n.node_id == id) f) ns ≡ ns
unfolding contains
map_absent id f [] h = refl
map_absent id f (n ∷ ns) h = ground (arith, map_absent id f ns)

-- Where ids are distinct, a write to the first node of an id is a write to each.
update_first-map :
    (id : String) (f : Node → Node) (ns : List Node)
    → NoRepeats (ids_of ns)
    → update_first id f ns ≡ map (where_true (λ n. n.node_id == id) f) ns
unfolding update_first
update_first-map id f [] d = refl
update_first-map id f (n ∷ ns) d = elim (Bool-cases (n.node_id == id)) [
  | inl e ↦ rw e (
      ap (◌∷◌ (f n)) (
        sym (
          map_absent id f ns
            (subst (λ x. contains (ids_of ns) x ≡ false) ((==_iff n.node_id id).0 e) d.0))))
  | inr e ↦ rw e (ap (◌∷◌ n) (update_first-map id f ns d.1))
]

module _ (f : Node → Node) (keeps : (n : Node) → (f n).node_id ≡ n.node_id)
    (once : (n : Node) → f (f n) ≡ f n) where
  ids_of-write : (p : Node → Bool) (ns : List Node) → ids_of (map (where_true p f) ns) ≡ ids_of ns
  ids_of-write p [] = refl
  ids_of-write p (n ∷ ns) = elim (Bool-cases (p n)) [
    | inl e ↦ rw e (λ i. keeps n i ∷ ids_of-write p ns i)
    | inr e ↦ rw e (ap (◌∷◌ n.node_id) (ids_of-write p ns))
  ]

  compose :
      (id : String) (ids : List String) (ns : List Node)
      → map
          (where_true (λ n. contains ids n.node_id) f)
          (map (where_true (λ n. n.node_id == id) f) ns)
        ≡ map (where_true (λ n. contains (id ∷ ids) n.node_id) f) ns
  unfolding contains
  compose id ids [] = refl
  compose id ids (n ∷ ns) =
      let test = ap (contains ids) (keeps n) in
      let again = once n in let more = compose id ids ns in ground (arith, ==_comm n.node_id id)

  map_nothing : (ns : List Node) → ns ≡ map (where_true (λ n. contains [] n.node_id) f) ns
  unfolding contains
  map_nothing [] = refl
  map_nothing (n ∷ ns) = ap (◌∷◌ n) (map_nothing ns)

  change_each-cons :
      (g g' : Graph) (id : String) (ids : List String)
      → change_each f g (id ∷ ids) ≡ ok g'
      → change_each f (with_node g id f) ids ≡ ok g'
  unfolding change_each fold_result
  change_each-cons g g' id ids e =
      let (s, is, rest) =
        >>=-eq-ok (find_node g id >>= λ _. ok (with_node g id f)) (λ s. change_each f s ids) e in
      let (_, _, last) = >>=-eq-ok (find_node g id) (λ _. ok (with_node g id f)) is in
      subst (λ s. change_each f s ids ≡ ok g') (sym (ok-injective last)) rest

  change_each-nil : (g g' : Graph) → change_each f g [] ≡ ok g' → g ≡ g'
  unfolding change_each fold_result
  change_each-nil g g' e = ok-injective e

  with_node-map :
      (g : Graph) (id : String)
      → HasDistinctIds g
      → (with_node g id f).nodes ≡ map (where_true (λ n. n.node_id == id) f) g.nodes
  unfolding with_node
  with_node-map g id d = update_first-map id f g.nodes d

  -- The loop writes to the nodes of the listed ids, and to no other.
  pub change_each-map :
      (g g' : Graph) (ids : List String)
      → HasDistinctIds g
      → change_each f g ids ≡ ok g'
      → g'.nodes ≡ map (where_true (λ n. contains ids n.node_id) f) g.nodes
  change_each-map g g' [] d e =
      subst (λ k. k.nodes ≡ map (where_true (λ n. contains [] n.node_id) f) g.nodes)
        (change_each-nil g g' e) (map_nothing g.nodes)
  change_each-map g g' (id ∷ ids) d e =
      let g₁ = with_node g id f in
      let written = with_node-map g id d in
      let p = λ (n : Node). n.node_id == id in
      let d₁ : HasDistinctIds g₁ =
        subst NoRepeats (sym (ap ids_of written ∙ ids_of-write p g.nodes)) d in
      change_each-map g₁ g' ids d₁ (change_each-cons g g' id ids e)
      ∙ ap (map (where_true (λ n. contains ids n.node_id) f)) written
      ∙ compose id ids g.nodes

invalidate_keeps : (n : Node) → (invalidate n).node_id ≡ n.node_id
unfolding invalidate clear_result
invalidate_keeps n = ground arith

invalidate_once : (n : Node) → invalidate (invalidate n) ≡ invalidate n
unfolding invalidate clear_result
invalidate_once n = ground arith

-- A node that has lost its result.
abbrev pub without_result : Node → Node
without_result n = record n {
  status = NodeStatus.invalidated;
  output_hash = none;
  gate_result = none;
  evidence_refs = [];
}

-- What becomes of a node that needs a failed one.
abbrev pub after_undoing : Node → NodeStatus → Node
after_undoing n NodeStatus.ready = without_result n
after_undoing n NodeStatus.running = without_result n
after_undoing n NodeStatus.accepted = without_result n
after_undoing n NodeStatus.frozen = without_result n
after_undoing n NodeStatus.skipped = without_result n
after_undoing n NodeStatus.pending = n
after_undoing n NodeStatus.failed = n
after_undoing n NodeStatus.invalidated = n
after_undoing n NodeStatus.blocked = n
after_undoing n NodeStatus.cancelled = n

unfoldable pub after_failure : Graph → String → Node → Node
unfolding contains ◌==◌
after_failure g id n =
    if n.node_id == id
    then record n { status = NodeStatus.failed }
    else if contains (downstream g id) n.node_id
    then after_undoing n n.status
    else if is_accepted n.status
    then record n { status = NodeStatus.frozen }
    else n

invalidate-after_undoing : (n : Node) → invalidate n ≡ after_undoing n n.status
unfolding invalidate clear_result
invalidate-after_undoing n = by_status n.status refl
  where
    by_status : (s : NodeStatus) → n.status ≡ s → invalidate n ≡ after_undoing n s
    by_status NodeStatus.pending e = simp e
    by_status NodeStatus.ready e = simp e
    by_status NodeStatus.running e = simp e
    by_status NodeStatus.accepted e = simp e
    by_status NodeStatus.frozen e = simp e
    by_status NodeStatus.failed e = simp e
    by_status NodeStatus.invalidated e = simp e
    by_status NodeStatus.blocked e = simp e
    by_status NodeStatus.skipped e = simp e
    by_status NodeStatus.cancelled e = simp e

abbrev set_failed : Node → Node
set_failed m = record m { status = NodeStatus.failed }

-- What `after_failure` says, with a choice of what becomes of the nodes downstream.
abbrev settled : Graph → String → Node → Node → Node
settled g id n m =
    if n.node_id == id
    then record n { status = NodeStatus.failed }
    else if contains (downstream g id) n.node_id
    then m
    else if is_accepted n.status
    then record n { status = NodeStatus.frozen }
    else n

failure_invalidated :
    (g : Graph) (id : String) (n : Node)
    → freeze id (downstream g id) (
        where_true
          (λ m. contains (downstream g id) m.node_id)
          invalidate
          (where_true (λ m. m.node_id == id) set_failed n))
      ≡ settled g id n (invalidate n)
unfolding freeze invalidate clear_result
failure_invalidated g id n = ground arith

failure_one :
    (g : Graph) (id : String) (n : Node)
    → freeze id (downstream g id) (
        where_true
          (λ m. contains (downstream g id) m.node_id)
          invalidate
          (where_true (λ m. m.node_id == id) set_failed n))
      ≡ after_failure g id n
unfolding after_failure
failure_one g id n = failure_invalidated g id n ∙ ap (settled g id n) (invalidate-after_undoing n)

failure_all :
    (g : Graph) (id : String) (ns : List Node)
    → map (freeze id (downstream g id)) (
        map
          (where_true (λ m. contains (downstream g id) m.node_id) invalidate)
          (map (where_true (λ m. m.node_id == id) set_failed) ns))
      ≡ map (after_failure g id) ns
failure_all g id [] = refl
failure_all g id (n ∷ ns) = λ i. failure_one g id n i ∷ failure_all g id ns i

-- A returned failure of a node in a graph with distinct ids sets that node to FAILED. A node
-- downstream of it, in the graph before, becomes INVALIDATED without output hash, verdict and
-- evidence where it was READY, RUNNING, ACCEPTED, FROZEN or SKIPPED, and stays as it is where it
-- was PENDING, FAILED, INVALIDATED, BLOCKED or CANCELLED. Of the other nodes the ACCEPTED ones are
-- FROZEN and the rest stays. The graph is FAILED and has the same edges.
pub fail_node-map :
    (now : String) (g g' : Graph) (id : String)
    → HasDistinctIds g
    → fail_node now g id ≡ ok g'
    → (g'.nodes ≡ map (after_failure g id) g.nodes)
      × (g'.status ≡ GraphStatus.failed)
      × (g'.edges ≡ g.edges)
fail_node-map now g g' id d e =
    let (n, value, _, _, changed, last) = fail_node-ok now g g' id e in
    let failed = failed_graph g id in
    let affected = downstream failed id in
    let p = λ (m : Node). m.node_id == id in
    let written : failed.nodes ≡ map (where_true p set_failed) g.nodes =
      with_node-map set_failed (λ m. refl) (λ m. refl) g id d in
    let d₁ : HasDistinctIds failed =
      subst NoRepeats
        (sym (ap ids_of written ∙ ids_of-write set_failed (λ m. refl) (λ m. refl) p g.nodes)) d in
    let same : downstream g id ≡ affected =
      downstream-Evolves g failed id (failed_graph-Evolves g id) in
    let invalidated =
      change_each-map invalidate invalidate_keeps invalidate_once failed value affected d₁
        changed in
    let marked = λ (ids : List String) (ns : List Node).
      map (freeze id ids) (map (where_true (λ m. contains ids m.node_id) invalidate) ns) in
    let total : map (freeze id affected) value.nodes ≡ map (after_failure g id) g.nodes =
      ap (map (freeze id affected)) invalidated
      ∙ ap (marked affected) written
      ∙ ap (λ ids. marked ids (map (where_true p set_failed) g.nodes)) (sym same)
      ∙ failure_all g id g.nodes in
    (
      ap (λ k. k.nodes) (sym last) ∙ total,
      ap (λ k. k.status) (sym last),
      sym (fail_node-Evolves now g g' id e).same_edges,
    )
