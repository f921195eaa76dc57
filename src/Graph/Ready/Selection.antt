-- ===== src/Graph/Ready/Selection.antt =====
-- The nodes that `ready_nodes` of scheduler.py returns.
use codex_routecraft.Prelude.{
  ℕ, ◌-◌, ◌≤◌, ◌<◌, Bool, true, false, some, String, List, [], ◌∷◌, map, ◌≡◌, ap, subst, ◌∙◌, ◌⊎◌,
  inl, inr, arith, any_result, all_result, All, All-map, All-sort_by, ok, >>=-eq-ok, ok-injective,
  any_result-false, all_result-true, length, leb, sort_by, distinct, Bool-cases, Option-cases,
  find_last-test, ==_iff, if◌then◌else◌,
}
use codex_routecraft.Graph.Types.{Node, Edge, Graph}
use codex_routecraft.Graph.Scheduler.{
  by_id, incoming_edges, dependencies, edge_condition_state, is_active,
}
use codex_routecraft.Graph.Ready.{
  is_startable, is_completed, is_merge, is_skipped, edge_blocks, predecessor_ready,
  prerequisites_met, is_candidate, dictionary, candidates_of, candidates, candidate_le, choose,
  running_ids, pick, fill, ready_selection, ready_nodes, critical_path_lengths,
}
use codex_routecraft.Graph.Ready.Choice.{IsFree, choose-IsFree, length-choose, choose-All}

-- The edge comes from a node, and its condition holds there.
abbrev pub IsOpen : Graph → Edge → Type 0
IsOpen g e =
    (source : Node) × (by_id g e.source ≡ some source)
    × (is_active (edge_condition_state e source) ≡ true)

-- The dependency is a completed node, or a skipped one whose consumer is a MERGE.
abbrev pub IsDone : Graph → Node → String → Type 0
IsDone g n id =
    (p : Node) × (by_id g id ≡ some p)
    × ((is_completed p.status ≡ true)
        ⊎ (is_merge n.node_type ≡ true) × (is_skipped p.status ≡ true))

pub record CanStart (g : Graph) (n : Node) : Type 0 where
  pub startable : is_startable n.status ≡ true
  pub attempts_left : n.attempt < n.retry_policy.max_attempts
  pub edges_open : All (IsOpen g) (incoming_edges g n.node_id)
  pub dependencies_done : All (IsDone g n) (dependencies g n.node_id)

edge_blocks-false : (g : Graph) (e : Edge) → edge_blocks g e ≡ ok false → IsOpen g e
unfolding edge_blocks
edge_blocks-false g e h = elim (Option-cases (by_id g e.source)) [
  | inl missing ↦ ground arith
  | inr (source, found) ↦ (source, found, ground arith)
]

predecessor_ready-true :
    (g : Graph) (n : Node) (id : String) → predecessor_ready g n id ≡ ok true → IsDone g n id
unfolding predecessor_ready
predecessor_ready-true g n id h = elim (Option-cases (by_id g id)) [
  | inl missing ↦ ground arith
  | inr (p, found) ↦ (p, found, ground arith)
]

prerequisites_met-true :
    (g : Graph) (n : Node)
    → prerequisites_met g n ≡ ok true
    → All (IsOpen g) (incoming_edges g n.node_id) × All (IsDone g n) (dependencies g n.node_id)
unfolding prerequisites_met
prerequisites_met-true g n h = let (blocked, edges, rest) = >>=-eq-ok _ _ h in go blocked edges rest
  where
    go :
        (blocked : Bool)
        → any_result (edge_blocks g) (incoming_edges g n.node_id) ≡ ok blocked
        → (if blocked
            then ok false
            else all_result (predecessor_ready g n) (dependencies g n.node_id))
          ≡ ok true
        → All (IsOpen g) (incoming_edges g n.node_id) × All (IsDone g n) (dependencies g n.node_id)
    go true edges rest = cc
    go false edges rest = (
      All-map (edge_blocks-false g) _ (any_result-false _ _ edges),
      All-map (predecessor_ready-true g n) _ (all_result-true _ _ rest),
    )

pub is_candidate-CanStart : (g : Graph) (n : Node) → is_candidate g n ≡ ok true → CanStart g n
unfolding is_candidate
is_candidate-CanStart g n h = record {
  startable = ground arith;
  attempts_left = ground arith;
  edges_open = (prerequisites_met-true g n (ground arith)).0;
  dependencies_done = (prerequisites_met-true g n (ground arith)).1;
}

-- A node under its own id, that may start.
abbrev pub IsChosen : Graph → Node → Type 0
IsChosen g n = (by_id g n.node_id ≡ some n) × CanStart g n

pub by_id-node_id : (g : Graph) (id : String) (n : Node) → by_id g id ≡ some n → n.node_id ≡ id
unfolding by_id
by_id-node_id g id n h = (==_iff n.node_id id).0 (find_last-test _ g.nodes n h)

dictionary-by_id :
    (g : Graph) (ids : List String) → All (λ n. by_id g n.node_id ≡ some n) (dictionary g ids)
unfolding dictionary
dictionary-by_id g [] = tt
dictionary-by_id g (id ∷ ids) = elim (Option-cases (by_id g id)) [
  | inl e ↦ rw (e, dictionary) (dictionary-by_id g ids)
  | inr (n, e) ↦
      rw (e, dictionary) (ap (by_id g) (by_id-node_id g id n e) ∙ e, dictionary-by_id g ids)
]

candidates_of-IsChosen :
    (g : Graph) (ns found : List Node)
    → All (λ n. by_id g n.node_id ≡ some n) ns
    → candidates_of g ns ≡ ok found
    → All (IsChosen g) found
unfolding candidates_of
candidates_of-IsChosen g [] found h e = subst (All (IsChosen g)) (ok-injective e) tt
candidates_of-IsChosen g (n ∷ ns) found h e =
    let (chosen, is, more) = >>=-eq-ok _ _ e in
    let (rest, are, last) = >>=-eq-ok _ _ more in
    subst (All (IsChosen g)) (ok-injective last)
      (add chosen is rest (candidates_of-IsChosen g ns rest h.1 are))
  where
    add :
        (chosen : Bool)
        → is_candidate g n ≡ ok chosen
        → (rest : List Node) → All (IsChosen g) rest
        → All (IsChosen g) (if chosen then n ∷ rest else rest)
    add true is rest all = ((h.0, is_candidate-CanStart g n is), all)
    add false is rest all = all

candidates-IsChosen :
    (g : Graph) (found : List Node) → candidates g ≡ ok found → All (IsChosen g) found
unfolding candidates
candidates-IsChosen g found e =
    candidates_of-IsChosen g (dictionary g ids) found (dictionary-by_id g ids) e
  where
    ids : List String
    ids = distinct (map (λ n. n.node_id) g.nodes)

-- A selection that the slots and the active nodes allow.
pub record IsSelection (g : Graph) (active : List String) (slots : ℕ) (selected : List Node)
    : Type 0 where
  pub chosen : All (IsChosen g) selected
  pub fits : length selected ≤ slots
  pub free : IsFree (dictionary g active) selected

pick-IsSelection :
    (g : Graph) (active : List String) (slots : ℕ) (critical : List (String × ℕ))
    (selected : List Node)
    → 0 < slots
    → pick g active slots critical ≡ ok selected
    → IsSelection g active slots selected
unfolding pick
pick-IsSelection g active slots critical selected h e =
    let order = candidate_le critical in
    let others = dictionary g active in
    let (found, are, last) =
      >>=-eq-ok (candidates g) (λ found. ok (choose slots others [] (sort_by order found))) e in
    subst (IsSelection g active slots) (ok-injective last) record {
      chosen =
          choose-All slots others (IsChosen g) [] (sort_by order found) tt
            (All-sort_by order (IsChosen g) found (candidates-IsChosen g found are));
      fits = length-choose slots others [] (sort_by order found) h;
      free = choose-IsFree slots others [] (sort_by order found) tt;
    }

fill-IsSelection :
    (g : Graph) (active : List String) (slots : ℕ) (selected : List Node)
    → 0 < slots
    → fill g active slots ≡ ok selected
    → IsSelection g active slots selected
unfolding fill
fill-IsSelection g active slots selected h e =
    let (critical, _, picked) = >>=-eq-ok (critical_path_lengths g) (pick g active slots) e in
    pick-IsSelection g active slots critical selected h picked

nothing_left :
    (g : Graph) (active : List String) (m : ℕ) (selected : List Node)
    → leb m 0 ≡ false
    → leb (m - length active) 0 ≡ true
    → ready_selection g active m ≡ ok selected
    → [] ≡ selected
unfolding ready_selection
nothing_left g active m selected some_slots full e = ground arith

ready_selection-IsSelection :
    (g : Graph) (active : List String) (m : ℕ) (selected : List Node)
    → ready_selection g active m ≡ ok selected
    → IsSelection g active (m - length active) selected
unfolding ready_selection
ready_selection-IsSelection g active m selected e = elim (Bool-cases (leb m 0)) [
  | inl zero ↦ ground arith
  | inr some_slots ↦ elim (Bool-cases (leb (m - length active) 0)) [
    | inl full ↦
        subst (IsSelection g active (m - length active))
          (nothing_left g active m selected some_slots full e)
          record { chosen = tt; fits = omega arith; free = tt }
    | inr room ↦
        fill-IsSelection g active (m - length active) selected (ground arith)
          (rw (some_slots, room) at e)
  ]
]

-- What `ready_nodes` returns are the ids of nodes that may start: each has a startable status,
-- attempts left, active incoming edges and finished predecessors. They fit into the slots that the
-- running nodes leave, and none clashes with a running node or with one listed before it.
pub ready_nodes-IsSelection :
    (g : Graph) (m : ℕ) (ids : List String)
    → ready_nodes g m ≡ ok ids
    → (selected : List Node) × (map (λ n. n.node_id) selected ≡ ids)
      × IsSelection g (running_ids g) (m - length (running_ids g)) selected
unfolding ready_nodes
ready_nodes-IsSelection g m ids e =
    let (selected, are, last) = >>=-eq-ok _ _ e in
    (selected, ok-injective last, ready_selection-IsSelection g (running_ids g) m selected are)
