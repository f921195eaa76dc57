-- ===== src/Graph/State/Marks.antt =====
-- READY marks, and the attempts that a node has left.
use codex_routecraft.Prelude.{
  ℕ, ◌<◌, true, String, List, [], ◌∷◌, map, ◌≡◌, refl, subst, inl, inr, ok, ◌>>=◌, >>=-eq-ok,
  ok-injective, All, All-map, Pointwise-map, ◌==◌, Bool-cases,
}
use codex_routecraft.Graph.Types.{Node, Graph}
use codex_routecraft.Graph.Scheduler.{by_id}
use codex_routecraft.Graph.Ready.{ready_nodes}
use codex_routecraft.Graph.Ready.Selection.{IsChosen, ready_nodes-IsSelection}
use codex_routecraft.Graph.Skip.{
  Hashes, update_first, recompute_input_hashes, skip_unselected_branches,
}
use codex_routecraft.Graph.State.{
  unready, set_ready, mark_one, mark_all, clear_ready, mark_selected, mark_ready,
}
use codex_routecraft.Graph.State.Change.{
  Change, Changes, Changes-refl, Changes-trans, update_first-Changes,
}
use codex_routecraft.Graph.State.Evolves.{
  Evolves, Evolves-trans, recompute_input_hashes-Evolves, skip_unselected_branches-Evolves,
  unready-Change,
}
use codex_routecraft.Graph.State.Ids.{HasDistinctIds, Evolves-HasDistinctIds, All-find_last}

abbrev pub HasAttempts : Node → Type 0
HasAttempts n = n.attempt < n.retry_policy.max_attempts

pub set_ready-Change : (n : Node) → HasAttempts n → Change n (set_ready n)
unfolding set_ready
set_ready-Change n left = record {
  same_id = refl;
  same_type = refl;
  same_dependencies = refl;
  same_tools = refl;
  same_policy = refl;
  budget = λ h. (h.0, λ _. left);
}

-- The nodes of an id have attempts left.
abbrev IsOpenTo : List Node → String → Type 0
IsOpenTo ns id = All (λ n. (n.node_id == id) ≡ true → HasAttempts n) ns

mark_one-IsOpenTo :
    (mark id : String) (ns : List Node) → IsOpenTo ns id → IsOpenTo (mark_one ns mark) id
unfolding mark_one update_first set_ready
mark_one-IsOpenTo mark id [] h = tt
mark_one-IsOpenTo mark id (n ∷ ns) h = elim (Bool-cases (n.node_id == mark)) [
  | inl e ↦ rw e h
  | inr e ↦ rw e (h.0, mark_one-IsOpenTo mark id ns h.1)
]

mark_all-Changes :
    (ids : List String) (ns : List Node) → All (IsOpenTo ns) ids → Changes ns (mark_all ns ids)
unfolding mark_all mark_one
mark_all-Changes [] ns h = Changes-refl ns
mark_all-Changes (id ∷ ids) ns h =
    Changes-trans ns (mark_one ns id) (mark_all (mark_one ns id) ids)
      (update_first-Changes id set_ready ns
        (All-map (λ n left e. set_ready-Change n (left e)) ns h.0))
      (mark_all-Changes ids (mark_one ns id) (All-map (λ k. mark_one-IsOpenTo id k ns) ids h.1))

chosen-IsOpenTo :
    (g : Graph)
    → HasDistinctIds g
    → (selected : List Node) → All (IsChosen g) selected
    → All (IsOpenTo g.nodes) (map (λ n. n.node_id) selected)
unfolding by_id
chosen-IsOpenTo g d [] h = tt
chosen-IsOpenTo g d (n ∷ ns) h = (
  All-find_last HasAttempts n.node_id n g.nodes d h.0.0 h.0.1.attempts_left,
  chosen-IsOpenTo g d ns h.1,
)

mark_selected-Evolves :
    (g g' : Graph) (m : ℕ) → HasDistinctIds g → mark_selected m g ≡ ok g' → Evolves g g'
unfolding mark_selected
mark_selected-Evolves g g' m d e =
    let (ids, are, last) =
      >>=-eq-ok (ready_nodes g m) (λ ids. ok (record g { nodes = mark_all g.nodes ids })) e in
    let (selected, named, sel) = ready_nodes-IsSelection g m ids are in
    subst (Evolves g) (ok-injective last) record {
      nodes_change =
          mark_all-Changes ids g.nodes
            (subst (All (IsOpenTo g.nodes)) named (chosen-IsOpenTo g d selected sel.chosen));
      same_edges = refl;
    }

clear_ready-Evolves : (g : Graph) → Evolves g (clear_ready g)
unfolding clear_ready
clear_ready-Evolves g = record {
  nodes_change = Pointwise-map Change unready unready-Change g.nodes;
  same_edges = refl;
}

pub mark_ready-Evolves :
    (h : Hashes) (g g' : Graph) (m : ℕ) → HasDistinctIds g → mark_ready h g m ≡ ok g' → Evolves g g'
unfolding mark_ready
mark_ready-Evolves h g g' m d e =
    let (hashed, is_hashed, after) =
      >>=-eq-ok (recompute_input_hashes h g)
        (λ hashed. skip_unselected_branches hashed >>= λ value. mark_selected m (clear_ready value))
        e in
    let (value, is_value, marked) =
      >>=-eq-ok (skip_unselected_branches hashed) (λ value. mark_selected m (clear_ready value))
        after in
    let until_value =
      Evolves-trans g hashed value (recompute_input_hashes-Evolves h g hashed is_hashed)
        (skip_unselected_branches-Evolves hashed value is_value) in
    let until_cleared =
      Evolves-trans g value (clear_ready value) until_value (clear_ready-Evolves value) in
    Evolves-trans g (clear_ready value) g' until_cleared (
      mark_selected-Evolves (clear_ready value) g' m
        (Evolves-HasDistinctIds g (clear_ready value) until_cleared d) marked)
