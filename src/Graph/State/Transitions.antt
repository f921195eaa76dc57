-- ===== src/Graph/State/Transitions.antt =====
-- Each transition as a change of the nodes' contracts and retry budgets.
use codex_routecraft.Prelude.{
  true, not, ◌&&◌, ◌||◌, String, Option, some, List, [], ◌∷◌, ◌++◌, ◌≡◌, refl, subst, ◌∙◌, inl, inr,
  arith, ok, ◌>>=◌, ◌>>◌, require, require-eq-ok, >>=-eq-ok, ok-injective, fold_result-keeps, All,
  All-map, All-const, Pointwise, Pointwise-map, contains, distinct, sorted, sort_by, text_le,
  ltb→lt, ◌==◌, Bool-cases,
}
use codex_routecraft.Graph.Types.{
  NodeStatus, GateResult, Node, Edge, Constraint, Graph, in_success_statuses,
  send_back_target_not_retryable,
}
use codex_routecraft.Graph.Scheduler.{downstream}
use codex_routecraft.Graph.Skip.{Hashes, find_node, clear_result, recompute_input_hashes}
use codex_routecraft.Graph.State.{
  is_ready, is_running, is_accepted, is_retryable, set_ready, with_node, run, accept, start_node,
  accept_node, resolve_gate_result, invalidate, invalidate_success, change_each, freeze, fail_node,
  send_one, apply_send_back, retry_node, affected_by, add_constraint, replan,
}
use codex_routecraft.Graph.State.Change.{Change, Change-refl, IsQuiet-Change, update_first-Changes}
use codex_routecraft.Graph.State.Evolves.{
  Evolves, Evolves-refl, Evolves-trans, recompute_input_hashes-Evolves,
}
use codex_routecraft.Graph.State.Ids.{
  HasDistinctIds, Evolves-HasDistinctIds, All-find_first, find_node-some,
}
use codex_routecraft.Graph.State.Marks.{HasAttempts, set_ready-Change, mark_ready-Evolves}
use codex_routecraft.Graph.State.Inversion.{
  start_node-ok, retry_node-ok, accepted_graph, finish, accept_node-ok, resolve_gate_result-ok,
  failed_graph, frozen_graph, fail_node-ok, apply_send_back-ok,
}

-- A change of status to another than READY, and of results.
quiet :
    (n m : Node)
    → n.node_id ≡ m.node_id
    → n.node_type ≡ m.node_type
    → n.dependencies ≡ m.dependencies
    → n.allowed_tools ≡ m.allowed_tools
    → n.retry_policy ≡ m.retry_policy
    → n.attempt ≡ m.attempt
    → (is_ready m.status ≡ true → is_ready n.status ≡ true)
    → Change n m
quiet n m a b c t d e f = IsQuiet-Change n m record {
  same_id = a;
  same_type = b;
  same_dependencies = c;
  same_tools = t;
  same_policy = d;
  same_attempt = e;
  claim = f;
}

run-Change : (n : Node) → is_ready n.status ≡ true → Change n (run n)
unfolding run
run-Change n r = record {
  same_id = refl;
  same_type = refl;
  same_dependencies = refl;
  same_tools = refl;
  same_policy = refl;
  budget = λ h. let below = h.1 r in (omega arith, λ k. cc);
}

accept-Change :
    (hash : String) (refs : List String) (verdict : Option GateResult) (n : Node)
    → Change n (accept hash refs verdict n)
unfolding accept
accept-Change hash refs verdict n = quiet n _ refl refl refl refl refl refl (λ k. cc)

fail-Change : (n : Node) → Change n (record n { status = NodeStatus.failed })
fail-Change n = quiet n _ refl refl refl refl refl refl (λ k. cc)

invalidate-Change : (n : Node) → Change n (invalidate n)
unfolding invalidate clear_result
invalidate-Change n =
    elim (Bool-cases (in_success_statuses n.status || is_ready n.status || is_running n.status)) [
      | inl e ↦ rw e (quiet n _ refl refl refl refl refl refl (λ k. cc))
      | inr e ↦ rw e (Change-refl n)
    ]

invalidate_success-Change : (n : Node) → Change n (invalidate_success n)
unfolding invalidate_success clear_result
invalidate_success-Change n = elim (Bool-cases (in_success_statuses n.status)) [
  | inl e ↦ rw e (quiet n _ refl refl refl refl refl refl (λ k. cc))
  | inr e ↦ rw e (Change-refl n)
]

freeze-Change : (id : String) (affected : List String) (n : Node) → Change n (freeze id affected n)
unfolding freeze
freeze-Change id affected n =
    elim (Bool-cases
      (not (n.node_id == id) && is_accepted n.status && not (contains affected n.node_id))) [
        | inl e ↦ rw e (quiet n _ refl refl refl refl refl refl (λ k. cc))
        | inr e ↦ rw e (Change-refl n)
      ]

-- A write to one node, where the write is a change for each node of the id.
with_node-Evolves :
    (g : Graph) (id : String) (f : Node → Node)
    → All (λ n. (n.node_id == id) ≡ true → Change n (f n)) g.nodes
    → Evolves g (with_node g id f)
unfolding with_node
with_node-Evolves g id f h = record {
  nodes_change = update_first-Changes id f g.nodes h;
  same_edges = refl;
}

everywhere :
    (id : String) (f : Node → Node) (ns : List Node)
    → ((n : Node) → Change n (f n))
    → All (λ n. (n.node_id == id) ≡ true → Change n (f n)) ns
everywhere id f ns h = All-const _ ns (λ n _. h n)

-- The graph's own fields do not matter.
same_nodes : {g a b : Graph} → Evolves g a → a.nodes ≡ b.nodes → a.edges ≡ b.edges → Evolves g b
same_nodes {g} e p q = record {
  nodes_change = subst (λ ns. Pointwise Change g.nodes ns) p e.nodes_change;
  same_edges = e.same_edges ∙ q;
}

pub start_node-Evolves :
    (now : String) (g g' : Graph) (id : String)
    → HasDistinctIds g
    → start_node now g id ≡ ok g'
    → Evolves g g'
start_node-Evolves now g g' id d e =
    let (n, found, ready, last) = start_node-ok now g g' id e in
    let changed = with_node-Evolves g id run (
      All-map (λ m r k. run-Change m (r k)) g.nodes
        (All-find_first (λ m. is_ready m.status ≡ true) id n g.nodes d (find_node-some g id n found)
          ready)) in
    subst (Evolves g) last (same_nodes changed refl refl)

pub retry_node-Evolves :
    (now : String) (g g' : Graph) (id : String)
    → HasDistinctIds g
    → retry_node now g id ≡ ok g'
    → Evolves g g'
retry_node-Evolves now g g' id d e =
    let (n, found, _, left, last) = retry_node-ok now g g' id e in
    let changed = with_node-Evolves g id set_ready (
      All-map (λ m r k. set_ready-Change m (r k)) g.nodes
        (All-find_first HasAttempts id n g.nodes d (find_node-some g id n found)
          (ltb→lt _ _ left))) in
    subst (Evolves g) last (same_nodes changed refl refl)

finish-Evolves : (g : Graph) → Evolves g (finish g)
finish-Evolves g = same_nodes (Evolves-refl g) (ground arith) (ground arith)

pub accept_node-Evolves :
    (h : Hashes) (now : String) (g g' : Graph) (id output : String) (refs : List String)
    (verdict : Option GateResult)
    → HasDistinctIds g
    → accept_node h now g id output refs verdict ≡ ok g'
    → Evolves g g'
accept_node-Evolves h now g g' id output refs verdict d e =
    let (n, value, _, _, _, _, marked, last) = accept_node-ok h now g g' id output refs verdict e in
    let f = accept (h.of_output output) refs verdict in
    let written =
      with_node-Evolves g id f
        (everywhere id f g.nodes (accept-Change (h.of_output output) refs verdict)) in
    let accepted = accepted_graph h now g id output refs verdict in
    let before : Evolves g accepted = same_nodes written refl refl in
    let after =
      mark_ready-Evolves h accepted value 3 (Evolves-HasDistinctIds g accepted before d) marked in
    subst (Evolves g) last (
      Evolves-trans g value (finish value) (Evolves-trans g accepted value before after)
        (finish-Evolves value))

pub resolve_gate_result-Evolves :
    (h : Hashes) (now : String) (g g' : Graph) (id : String) (verdict : GateResult)
    (output : String) (refs : List String)
    → HasDistinctIds g
    → resolve_gate_result h now g id verdict output refs ≡ ok g'
    → Evolves g g'
resolve_gate_result-Evolves h now g g' id verdict output refs d e =
    let (value, gate, accepted, _, last) =
      resolve_gate_result-ok h now g g' id verdict output refs e in
    subst (Evolves g) last (
      same_nodes (accept_node-Evolves h now g value id output refs (some verdict) d accepted) refl
        refl)

change_each-Evolves :
    (f : Node → Node)
    → ((n : Node) → Change n (f n))
    → (g g' : Graph) (ids : List String) → change_each f g ids ≡ ok g'
    → Evolves g g'
unfolding change_each
change_each-Evolves f h g g' ids e =
    fold_result-keeps Evolves (λ value id. find_node value id >>= λ _. ok (with_node value id f))
      Evolves-refl Evolves-trans
      (λ s t id k.
        let (_, _, last) = >>=-eq-ok (find_node s id) (λ _. ok (with_node s id f)) k in
        subst (Evolves s) (ok-injective last)
          (with_node-Evolves s id f (everywhere id f s.nodes h)))
      g g' ids e

pub failed_graph-Evolves : (g : Graph) (id : String) → Evolves g (failed_graph g id)
failed_graph-Evolves g id =
    with_node-Evolves g id (λ m. record m { status = NodeStatus.failed })
      (everywhere id (λ m. record m { status = NodeStatus.failed }) g.nodes fail-Change)

pub fail_node-Evolves :
    (now : String) (g g' : Graph) (id : String) → fail_node now g id ≡ ok g' → Evolves g g'
fail_node-Evolves now g g' id e =
    let (n, value, _, _, changed, last) = fail_node-ok now g g' id e in
    let failed = failed_graph g id in
    let affected = downstream failed id in
    let first = failed_graph-Evolves g id in
    let second = change_each-Evolves invalidate invalidate-Change failed value affected changed in
    let third : Evolves value (frozen_graph now id affected value) = record {
      nodes_change =
          Pointwise-map Change (freeze id affected) (freeze-Change id affected) value.nodes;
      same_edges = refl;
    } in
    subst (Evolves g) last (
      Evolves-trans g value (frozen_graph now id affected value)
        (Evolves-trans g failed value first second) third)

send_one-Evolves :
    (now : String) (g g' : Graph) (b : Edge) → send_one now g b ≡ ok g' → Evolves g g'
unfolding send_one
send_one-Evolves now g g' b e =
    let (target, _, more) =
      >>=-eq-ok (find_node g b.target)
        (λ target.
          require (is_retryable target.status) send_back_target_not_retryable
          >> fail_node now g target.node_id)
        e in
    let (_, failed) =
      require-eq-ok (is_retryable target.status) send_back_target_not_retryable
        (fail_node now g target.node_id) more in
    fail_node-Evolves now g g' target.node_id failed

pub apply_send_back-Evolves :
    (now : String) (g g' : Graph) (id : String) → apply_send_back now g id ≡ ok g' → Evolves g g'
apply_send_back-Evolves now g g' id e =
    let (_, value, _, _, _, _, _, looped, last) = apply_send_back-ok now g g' id e in
    let kept =
      fold_result-keeps Evolves (send_one now) Evolves-refl Evolves-trans
        (λ s t b. send_one-Evolves now s t b) g value _ looped in
    subst (Evolves g) last (same_nodes kept refl refl)

pub add_constraint-Evolves :
    (h : Hashes) (now : String) (g g' : Graph) (c : Constraint)
    → add_constraint h now g c ≡ ok g'
    → Evolves g g'
unfolding add_constraint
add_constraint-Evolves h now g g' c e =
    let value : Graph = record g {
      constraints =
          sort_by (λ a b. text_le a.constraint_id b.constraint_id) (g.constraints ++ c ∷ []);
    } in
    let ids = sorted (distinct (affected_by value (distinct c.invalidates))) in
    let (marked, changed, hashed) =
      >>=-eq-ok (change_each invalidate_success value ids)
        (λ marked. recompute_input_hashes h (record marked { updated_at = now })) e in
    let first : Evolves g value = same_nodes (Evolves-refl g) refl refl in
    let second =
      change_each-Evolves invalidate_success invalidate_success-Change value marked ids changed in
    let third : Evolves marked (record marked { updated_at = now }) =
      same_nodes (Evolves-refl marked) refl refl in
    let fourth = recompute_input_hashes-Evolves h (record marked { updated_at = now }) g' hashed in
    Evolves-trans g marked g' (Evolves-trans g value marked first second)
      (Evolves-trans marked (record marked { updated_at = now }) g' third fourth)

pub replan-Evolves : (now : String) (g : Graph) → Evolves g (replan now g)
unfolding replan
replan-Evolves now g = same_nodes (Evolves-refl g) refl refl
