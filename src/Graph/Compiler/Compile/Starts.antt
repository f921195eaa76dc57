-- ===== src/Graph/Compiler/Compile/Starts.antt =====
-- What `ready_nodes` offers of a compiled plan in which no node was started yet, with a slot free.
use codex_routecraft.Prelude.{
  ℕ, ◌-◌, ◌<◌, Bool, true, false, String, Option, some, List, [], ◌∷◌, ◌++◌, map, ◌≡◌, refl, ap,
  subst, ◌∙◌, inl, inr, arith, All, All-sort_by, ok, keep, any, contains, contains-distinct,
  find_last-test, length, distinct, sort_by, insert_by, ◌==◌, ==_iff, Bool-cases, leb, text_le,
}
use mathlib.Core.Option
use codex_routecraft.Graph.Types.{Node, Graph}
use codex_routecraft.Graph.Ir.{canonical_ir, canonical_node}
use codex_routecraft.Graph.Policy.Config.{KernelConfig, LaneRegistry, default_lane_registry}
use codex_routecraft.Graph.Scheduler.{by_id, dependencies}
use codex_routecraft.Graph.Ready.{
  critical_path_lengths, is_candidate, dictionary, candidates, candidate_le, choose, pick, fill,
  ready_selection, ready_nodes, running_ids, running_nodes, clash,
}
use codex_routecraft.Graph.Compiler.Checks.{ids_in, check_node}
use codex_routecraft.Graph.Compiler.Globals.{check_gates, global_gates}
use codex_routecraft.Graph.Compiler.Compile.{Compiled, compile_graph, compiled_of}
use codex_routecraft.Graph.Compiler.Compile.Accepted.{compile_graph-ok}
use codex_routecraft.Graph.Compiler.Compile.Structure.{find_last-All}
use codex_routecraft.Graph.Compiler.Compile.Schedulable.{
  IsSchedulable, IsClean-IsSchedulable, schedulable-critical_path_lengths,
}
use codex_routecraft.Graph.Compiler.Compile.Returns.{by_id-found, candidates-returns}
use codex_routecraft.Graph.Compiler.Compile.Roots.{
  IsFresh, root-of, root-is_candidate, dictionary-candidate,
}

choose-keeps :
    (slots : ℕ) (active : List Node) (s : Node) (ss ns : List Node)
    → (m : Node) × (ms : List Node) × (choose slots active (s ∷ ss) ns ≡ m ∷ ms)
unfolding choose
choose-keeps slots active s ss [] = (s, ss, refl)
choose-keeps slots active s ss (n ∷ ns) = elim (Bool-cases (any (clash n) (active ++ s ∷ ss))) [
  | inl clashes ↦
      let (m, ms, is) = choose-keeps slots active s ss ns in (m, ms, rw (clashes, choose) is)
  | inr fits ↦ elim (Bool-cases (leb slots (length (s ∷ (ss ++ n ∷ []))))) [
    | inl full ↦ (s, ss ++ n ∷ [], rw (fits, full, choose) refl)
    | inr free ↦
        let (m, ms, is) = choose-keeps slots active s (ss ++ n ∷ []) ns in
        (m, ms, rw (fits, free, choose) is)
  ]
]

-- With nothing running, the first candidate is taken.
choose-first :
    (slots : ℕ) (n : Node) (ns : List Node)
    → (m : Node) × (ms : List Node) × (choose slots [] [] (n ∷ ns) ≡ m ∷ ms)
unfolding choose any
choose-first slots n ns = elim (Bool-cases (leb slots 1)) [
  | inl full ↦ (n, [], rw (full, choose) refl)
  | inr free ↦ let (m, ms, is) = choose-keeps slots [] n [] ns in (m, ms, rw (free, choose) is)
]

insert_by-cons :
    {A : Type 0} (le : A → A → Bool) (x : A) (xs : List A)
    → (y : A) × (ys : List A) × (insert_by le x xs ≡ y ∷ ys)
unfolding insert_by
insert_by-cons le x [] = (x, [], refl)
insert_by-cons le x (y ∷ ys) = elim (Bool-cases (le x y)) [
  | inl first ↦ (x, y ∷ ys, rw (first, insert_by) refl)
  | inr later ↦ (y, insert_by le x ys, rw (later, insert_by) refl)
]

none-running : (ns : List Node) → All IsFresh ns → running_nodes ns ≡ []
unfolding running_nodes
none-running [] fresh = refl
none-running (n ∷ ns) ((waiting, _), fresh) = rw (waiting, running_nodes) (none-running ns fresh)

IsFresh-canonical_nodes : (ns : List Node) → All IsFresh ns → All IsFresh (map canonical_node ns)
unfolding canonical_node
IsFresh-canonical_nodes [] fresh = tt
IsFresh-canonical_nodes (n ∷ ns) (f, fresh) = (f, IsFresh-canonical_nodes ns fresh)

some-gate : (g : Graph) → check_gates g (global_gates g) ≡ [] → ¬ (ids_in g ≡ [])
unfolding ids_in global_gates check_gates keep
some-gate g clean e = absurd (by_nodes g.nodes refl)
  where
    by_nodes : (ns : List Node) → g.nodes ≡ ns → ⊥
    by_nodes [] is = let clean' = rw (is, global_gates) at clean in cc
    by_nodes (n ∷ ns) is = let e' = rw (is, ids_in) at e in cc

fill-starts :
    (g : Graph) (slots : ℕ)
    → IsSchedulable g
    → All IsFresh g.nodes
    → All (λ n. check_node g n ≡ []) g.nodes
    → ¬ (ids_in g ≡ [])
    → (m : Node) × (ms : List Node) × (fill g [] slots ≡ ok (m ∷ ms))
unfolding fill pick candidates sort_by dictionary ids_in
fill-starts g slots s fresh clean some_node =
    let (id, on, free) = root-of g s some_node in
    let (n, is) = by_id-found g id on in
    let named : n.node_id ≡ id =
      (==_iff n.node_id id).0
        (find_last-test (λ m. m.node_id == id) g.nodes n (unfold by_id in is)) in
    let pick_all = λ (P : Node → Type 0) (all : All P g.nodes).
      find_last-All P (λ m. m.node_id == id) g.nodes n all (unfold by_id in is) in
    let good =
      root-is_candidate g n (pick_all IsFresh fresh) (pick_all (λ m. check_node g m ≡ []) clean)
        (ap (dependencies g) named ∙ free) in
    let (critical, are) = schedulable-critical_path_lengths g s in
    let (found, those) = candidates-returns g s in first_of id n on is good critical are found those
  where
    first_of :
        (id : String) (n : Node)
        → contains (ids_in g) id ≡ true
        → by_id g id ≡ some n
        → is_candidate g n ≡ ok true
        → (critical : List (String × ℕ)) → critical_path_lengths g ≡ ok critical
        → (found : List Node) → candidates g ≡ ok found
        → (m : Node) × (ms : List Node) × (fill g [] slots ≡ ok (m ∷ ms))
    first_of id n on is good critical are [] those = absurd (
        dictionary-candidate g (distinct (ids_in g)) id n (contains-distinct (ids_in g) id ∙ on) is
          good [] those refl)
    first_of id n on is good critical are (k ∷ ks) those =
        let (m, ms, sorted_is) =
          insert_by-cons (candidate_le critical) k (sort_by (candidate_le critical) ks) in
        let (c, cs, chosen) = choose-first slots m ms in
        (c, cs, rw (are, those, sorted_is, fill, pick, sort_by) (ap ok chosen))

starts :
    (g : Graph)
    → IsSchedulable g
    → All IsFresh g.nodes
    → All (λ n. check_node g n ≡ []) g.nodes
    → ¬ (ids_in g ≡ [])
    → (slots : ℕ) → 0 < slots
    → (id : String) × (ids : List String) × (ready_nodes g slots ≡ ok (id ∷ ids))
unfolding ready_nodes ready_selection running_ids distinct
starts g s fresh clean some_node slots some_slot =
    let (m, ms, is) = fill-starts g slots s fresh clean some_node in
    let quiet = none-running g.nodes fresh in
    let positive : leb slots 0 ≡ false = ground arith in
    let all : slots - 0 ≡ slots = omega arith in
    (
      m.node_id,
      map (λ n. n.node_id) ms,
      rw (quiet, all, positive, is, ready_nodes, ready_selection, running_ids) refl,
    )

-- A plan that compiles and in which no node was started yet offers a node to start, as soon as there
-- is a slot: it is not stuck before its first step.
pub compile_graph-starts :
    (is_time : String → Bool) (registry : Option LaneRegistry) (config : Option KernelConfig)
    (g : Graph) (c : Compiled) (slots : ℕ)
    → compile_graph is_time registry config g ≡ ok c
    → All IsFresh g.nodes
    → 0 < slots
    → (id : String) × (ids : List String) × (ready_nodes c.ir slots ≡ ok (id ∷ ids))
unfolding compiled_of canonical_ir
compile_graph-starts is_time registry config g c slots e fresh some_slot =
    let (_, clean, same) = compile_graph-ok is_time registry config g c e in
    let ready =
      IsFresh-canonical_nodes (sort_by (λ a b. text_le a.node_id b.node_id) g.nodes)
        (All-sort_by (λ a b. text_le a.node_id b.node_id) IsFresh g.nodes fresh) in
    subst (λ k. (id : String) × (ids : List String) × (ready_nodes k.ir slots ≡ ok (id ∷ ids))) same
      (starts (canonical_ir g)
        (IsClean-IsSchedulable config (Option.get_or registry default_lane_registry)
          (canonical_ir g) clean)
        ready clean.nodes_pass (some-gate (canonical_ir g) clean.gates_pass) slots some_slot)
