-- ===== src/Graph/Compiler/Compile/Returns.antt =====
-- `ready_nodes` on a graph with the dependency structure of a compiled plan.
use codex_routecraft.Prelude.{
  ℕ, ◌-◌, ◌<◌, Bool, true, false, not, ◌&&◌, ◌||◌, String, none, some, List, [], ◌∷◌, map, ◌≡◌,
  refl, inl, inr, arith, All, All-map, ok, any_result_returns, all_result_returns, contains,
  contains-append, contains-head, contains-tail, find_last, length, distinct, sort_by, ◌==◌,
  if◌then◌else◌, Bool-cases, Option-cases, leb,
}
use codex_routecraft.Graph.Types.{Node, Edge, Graph}
use codex_routecraft.Graph.Scheduler.{
  by_id, dependencies, incoming_edges, edge_condition_state, is_active,
}
use codex_routecraft.Graph.Ready.{
  edge_blocks, predecessor_ready, prerequisites_met, is_startable, is_candidate, dictionary,
  candidates_of, candidates, candidate_le, choose, pick, fill, ready_selection, ready_nodes,
  running_ids, is_completed, is_skipped, is_merge,
}
use codex_routecraft.Graph.Compiler.Checks.{ids_in}
use codex_routecraft.Graph.Compiler.Compile.Schedulable.{
  IsSchedulable, schedulable-critical_path_lengths,
}

find_last-found :
    (ns : List Node) (id : String)
    → contains (map (λ n. n.node_id) ns) id ≡ true
    → (n : Node) × (find_last (λ n. n.node_id == id) ns ≡ some n)
unfolding contains find_last
find_last-found [] id h = cc
find_last-found (m ∷ ns) id h = elim (Option-cases (find_last (λ n. n.node_id == id) ns)) [
  | inr (n, is) ↦ (n, rw is refl)
  | inl gone ↦ elim (Bool-cases (m.node_id == id)) [
    | inl here ↦ (m, rw (gone, here) refl)
    | inr other ↦ let (n, is) = find_last-found ns id (ground (arith, other, h)) in (n, rw is refl)
  ]
]

pub by_id-found :
    (g : Graph) (id : String) → contains (ids_in g) id ≡ true → (n : Node) × (by_id g id ≡ some n)
unfolding by_id ids_in
by_id-found g id h = find_last-found g.nodes id h

self-All : (xs : List String) → All (λ x. contains xs x ≡ true) xs
self-All [] = tt
self-All (x ∷ xs) = (contains-head x xs, All-map (λ y h. contains-tail x y xs h) xs (self-All xs))

sources-All : (es : List Edge) → All (λ e. contains (map (λ b. b.source) es) e.source ≡ true) es
sources-All [] = tt
sources-All (e ∷ es) = (
  contains-head e.source (map (λ b. b.source) es),
  All-map (λ b h. contains-tail e.source b.source (map (λ b. b.source) es) h) es (sources-All es),
)

pub source-dependency :
    (g : Graph) (id x : String)
    → contains (map (λ e. e.source) (incoming_edges g id)) x ≡ true
    → contains (dependencies g id) x ≡ true
unfolding dependencies
source-dependency g id x h =
    let own : List String = elim (by_id g id) [ none ↦ [] | some n ↦ n.dependencies ] in
    ground (arith, contains-append own (map (λ e. e.source) (incoming_edges g id)) x, h)

module _ (g : Graph) (s : IsSchedulable g) where
  incoming-known :
      (id : String) → All (λ e. contains (ids_in g) e.source ≡ true) (incoming_edges g id)
  incoming-known id =
      All-map (λ e h. (s.known e.source id (source-dependency g id e.source h)).0)
        (incoming_edges g id) (sources-All (incoming_edges g id))

  prerequisites_met-returns : (n : Node) → (b : Bool) × (prerequisites_met g n ≡ ok b)
  unfolding prerequisites_met edge_blocks predecessor_ready
  prerequisites_met-returns n =
      let (blocked, is) = any_result_returns (edge_blocks g) (incoming_edges g n.node_id) (
        All-map
          (λ e h.
            let (m, found) = by_id-found g e.source h in
            (not (is_active (edge_condition_state e m)), rw (found, edge_blocks) refl))
          (incoming_edges g n.node_id) (incoming-known n.node_id)) in
      let (done, are) = all_result_returns (predecessor_ready g n) (dependencies g n.node_id) (
        All-map
          (λ d h.
            let (m, found) = by_id-found g d (s.known d n.node_id h).0 in
            (
              (is_completed m.status || is_merge n.node_type && is_skipped m.status),
              rw (found, predecessor_ready) refl,
            ))
          (dependencies g n.node_id) (self-All (dependencies g n.node_id))) in
      elim (Bool-cases blocked) [
        | inl stop ↦ (false, rw (is, stop, prerequisites_met) refl)
        | inr go ↦ (done, rw (is, go, prerequisites_met) are)
      ]

  pub is_candidate-returns : (n : Node) → (b : Bool) × (is_candidate g n ≡ ok b)
  unfolding is_candidate
  is_candidate-returns n = elim (Bool-cases (is_startable n.status)) [
    | inr no_start ↦ (false, rw no_start refl)
    | inl start ↦ elim (Bool-cases (leb n.retry_policy.max_attempts n.attempt)) [
      | inl spent ↦ (false, rw (start, spent) refl)
      | inr left ↦ let (b, is) = prerequisites_met-returns n in (b, rw (start, left) is)
    ]
  ]

  pub candidates_of-returns :
      (ns : List Node) → (found : List Node) × (candidates_of g ns ≡ ok found)
  unfolding candidates_of
  candidates_of-returns [] = ([], refl)
  candidates_of-returns (n ∷ ns) =
      let (b, is) = is_candidate-returns n in
      let (rest, are) = candidates_of-returns ns in
      ((if b then n ∷ rest else rest), rw (is, are) refl)

  pub candidates-returns : (found : List Node) × (candidates g ≡ ok found)
  unfolding candidates ids_in
  candidates-returns = candidates_of-returns (dictionary g (distinct (ids_in g)))

  fill-returns :
      (active : List String) (slots : ℕ)
      → (selected : List Node) × (fill g active slots ≡ ok selected)
  unfolding fill pick
  fill-returns active slots =
      let (critical, is) = schedulable-critical_path_lengths g s in
      let (found, are) = candidates-returns in
      (
        choose slots (dictionary g active) [] (sort_by (candidate_le critical) found),
        rw (is, are, fill, pick) refl,
      )

  pub schedulable-ready_nodes :
      (slots : ℕ) → 0 < slots → (ids : List String) × (ready_nodes g slots ≡ ok ids)
  unfolding ready_nodes ready_selection
  schedulable-ready_nodes slots some_slot =
      let active = running_ids g in
      let positive : leb slots 0 ≡ false = ground arith in
      elim (Bool-cases (leb (slots - length active) 0)) [
        | inl full ↦ ([], rw (positive, full, ready_nodes, ready_selection) refl)
        | inr free ↦
            let (selected, is) = fill-returns active (slots - length active) in
            (
              map (λ n. n.node_id) selected,
              rw (positive, free, is, ready_nodes, ready_selection) refl,
            )
      ]
