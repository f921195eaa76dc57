-- ===== src/Graph/Compiler/Compile/Approvals.antt =====
-- Nodes of a compiled plan that act outside: the compiler's check of approvals, the transitions and
-- `ready_nodes` together. About a node that is READY from the start, which `start_node` takes
-- whatever comes before it, nothing is said.
use codex_routecraft.Prelude.{
  ℕ, Bool, true, false, not, ◌&&◌, ◌||◌, String, Option, none, some, List, [], ◌∷◌, map, ◌≡◌, refl,
  sym, ap, subst, ◌∙◌, inl, inr, arith, All, ok, keep, any, all, contains, contains-cons,
  contains-nil, contains-distinct, find_last, distinct, ◌==◌, Bool-cases, and-eq-true, NoRepeats,
  ==_refl,
}
use Prim.Native.String.{◌++◌ as ◌<>◌}
use mathlib.Core.Option
use mathlib.Core.Option.{some_inj}
use codex_routecraft.Graph.Types.{NodeType, EdgeType, Node, Edge, Graph, in_dependency_edge_types}
use codex_routecraft.Graph.Ir.{canonical_ir}
use codex_routecraft.Graph.Policy.Config.{KernelConfig, LaneRegistry, default_lane_registry}
use codex_routecraft.Graph.Skip.{Hashes}
use codex_routecraft.Graph.Scheduler.{by_id, dependencies, incoming_edges}
use codex_routecraft.Graph.Ready.{is_completed, is_merge, ready_nodes}
use codex_routecraft.Graph.Ready.Selection.{
  CanStart, IsDone, IsChosen, by_id-node_id, ready_nodes-IsSelection,
}
use codex_routecraft.Graph.State.Change.{Change}
use codex_routecraft.Graph.State.Evolves.{Evolves}
use codex_routecraft.Graph.State.Ids.{HasDistinctIds, ids_of}
use codex_routecraft.Graph.State.Structure.{Agree, find_last-Agree}
use codex_routecraft.Graph.Scheduler.Downstream.{find_last-contains}
use codex_routecraft.Graph.State.Budget.{Run, Run-Evolves}
use codex_routecraft.Graph.Compiler.Shape.{is_agent, is_tool, is_human_approval}
use codex_routecraft.Graph.Compiler.Globals.{
  is_external_tool, external_kind, external_kinds, passes_gate, is_approved_by, check_kind,
  check_external, check_mutations, is_gate_pass,
}
use codex_routecraft.Graph.Compiler.Issues
use codex_routecraft.Graph.Compiler.Issues.{append-eq-nil, each-eq-nil, flag-eq-nil}
use codex_routecraft.Graph.Compiler.Compile.{Compiled, compile_graph, compiled_of}
use codex_routecraft.Graph.Compiler.Compile.Accepted.{compile_graph-ok}
use codex_routecraft.Graph.Compiler.Compile.Structure.{find_last-All}
use codex_routecraft.Graph.Compiler.Compile.Returns.{source-dependency}
use codex_routecraft.Graph.Compiler.Compile.Schedulable.{IsClean-IsSchedulable}

-- A node of the later graph was a node of the earlier one, with the same contract.
by_id-before :
    (g g' : Graph) (id : String) (m : Node)
    → Evolves g g'
    → by_id g' id ≡ some m
    → (n : Node) × (by_id g id ≡ some n) × Change n m
unfolding by_id
by_id-before g g' id m e is =
    agreed (find_last (λ k. k.node_id == id) g.nodes) (find_last (λ k. k.node_id == id) g'.nodes)
      (find_last-Agree id g.nodes g'.nodes e.nodes_change) is
  where
    agreed : (a b : Option Node) → Agree a b → b ≡ some m → (n : Node) × (a ≡ some n) × Change n m
    agreed none none c h = cc
    agreed none (some k) c h = absurd c
    agreed (some n) none c h = absurd c
    agreed (some n) (some k) c h = (n, refl, subst (Change n) (some_inj.0 h) c)

-- The node that approved: a HUMAN_APPROVAL node for the operation that is completed.
pub record IsApproved (g : Graph) (kind : String) : Type 0 where
  pub approver : Node
  pub found : by_id g approver.node_id ≡ some approver
  pub human : is_human_approval approver.node_type ≡ true
  pub asked : contains approver.allowed_tools ("approve:" <> kind) ≡ true
  pub completed : is_completed approver.status ≡ true

any-found :
    (p : Node → Bool) (ns : List Node)
    → NoRepeats (ids_of ns)
    → any p ns ≡ true
    → (n : Node) × (p n ≡ true) × (find_last (λ k. k.node_id == n.node_id) ns ≡ some n)
unfolding any find_last
any-found p [] once h = cc
any-found p (n ∷ ns) once h = elim (Bool-cases (p n)) [
  | inl here ↦
      (n, here, rw (find_last-contains ns n.node_id once.0, ==_refl n.node_id, find_last) refl)
  | inr other ↦
      let (m, is, last) = any-found p ns once.1 (ground (arith, other, h)) in
      (m, is, rw (last, find_last) refl)
]

each-contains :
    (f : String → List Issues.CompileIssue) (xs : List String) (x : String)
    → Issues.each f xs ≡ []
    → contains xs x ≡ true
    → f x ≡ []
unfolding Issues.each contains
each-contains f [] x e h = cc
each-contains f (y ∷ ys) x e h =
    let (first, rest) = append-eq-nil (f y) (Issues.each f ys) e in
    elim (contains-cons y x ys h) [
      | inl same ↦ subst (λ z. f z ≡ []) same first
      | inr later ↦ each-contains f ys x rest later
    ]

not-false : (b : Bool) → not b ≡ false → b ≡ true
not-false true h = refl
not-false false h = cc

-- What the compiler checked of a node's external operation.
kind-approved :
    (g : Graph) (n : Node) (kind : String)
    → check_mutations g ≡ []
    → HasDistinctIds g
    → by_id g n.node_id ≡ some n
    → contains (external_kinds n) kind ≡ true
    → ((is_tool n.node_type || is_agent n.node_type) ≡ true)
      × ((a : Node) × (is_approved_by g n kind a ≡ true) × (by_id g a.node_id ≡ some a))
unfolding check_mutations check_external check_kind by_id
kind-approved g n kind clean once is h =
    let (clean, _) = append-eq-nil _ _ clean in
    let (_, nodes) = append-eq-nil _ _ clean in
    let mine =
      find_last-All (λ k. check_external g k ≡ []) (λ k. k.node_id == n.node_id) g.nodes n
        (each-eq-nil (check_external g) g.nodes nodes) is in
    let (_, kinds) = append-eq-nil _ _ mine in
    let this =
      each-contains (check_kind g n) (distinct (external_kinds n)) kind kinds
        (contains-distinct (external_kinds n) kind ∙ h) in
    let (acts, approved) = append-eq-nil _ _ this in
    let acts = flag-eq-nil (not (is_tool n.node_type || is_agent n.node_type)) _ _ acts in
    let approved = flag-eq-nil (not (any (is_approved_by g n kind) g.nodes)) _ _ approved in
    (not-false _ acts, any-found (is_approved_by g n kind) g.nodes once (not-false _ approved))

-- A node that acts outside is no MERGE.
acts-no_merge : (t : NodeType) → (is_tool t || is_agent t) ≡ true → is_merge t ≡ true → ⊥
acts-no_merge NodeType.agent acts merges = cc
acts-no_merge NodeType.tool acts merges = cc
acts-no_merge NodeType.deterministic acts merges = cc
acts-no_merge NodeType.gate acts merges = cc
acts-no_merge NodeType.merge acts merges = cc
acts-no_merge NodeType.human_approval acts merges = cc
acts-no_merge NodeType.memory_recall acts merges = cc
acts-no_merge NodeType.benchmark acts merges = cc
acts-no_merge NodeType.security acts merges = cc
acts-no_merge NodeType.checkpoint acts merges = cc
acts-no_merge NodeType.quality acts merges = cc

gate_pass-dependency : (t : EdgeType) → is_gate_pass t ≡ true → in_dependency_edge_types t ≡ true
gate_pass-dependency EdgeType.depends_on h = cc
gate_pass-dependency EdgeType.fan_out h = cc
gate_pass-dependency EdgeType.sequence h = cc
gate_pass-dependency EdgeType.merge h = cc
gate_pass-dependency EdgeType.gate_pass h = refl
gate_pass-dependency EdgeType.gate_fail h = cc
gate_pass-dependency EdgeType.send_back h = cc
gate_pass-dependency EdgeType.constraint_feedback h = cc

passes_gate-incoming :
    (es : List Edge) (a b : String)
    → passes_gate es a b ≡ true
    → contains
        (map
          (λ e. e.source)
          (keep (λ e. (e.target == b) && in_dependency_edge_types e.edge_type) es))
        a
      ≡ true
unfolding passes_gate any contains keep
passes_gate-incoming [] a b h = cc
passes_gate-incoming (e ∷ es) a b h =
    let rest = passes_gate-incoming es a b in
    elim (Bool-cases (is_gate_pass e.edge_type && (e.source == a) && (e.target == b))) [
      | inl here ↦ ground (arith, here, gate_pass-dependency e.edge_type)
      | inr other ↦ ground (arith, rest, other, h)
    ]

IsChosen-found :
    (g : Graph) (selected : List Node) (x : String)
    → All (IsChosen g) selected
    → contains (map (λ n. n.node_id) selected) x ≡ true
    → (s : Node) × (s.node_id ≡ x) × IsChosen g s
unfolding contains
IsChosen-found g [] x all h = cc
IsChosen-found g (s ∷ selected) x all h =
    elim (contains-cons s.node_id x (map (λ n. n.node_id) selected) h) [
      | inl same ↦ (s, same, all.0)
      | inr later ↦ IsChosen-found g selected x all.1 later
    ]

All-contains :
    (P : String → Type 0) (xs : List String) (x : String) → All P xs → contains xs x ≡ true → P x
All-contains P [] x all h = absurd (contains-nil x h)
All-contains P (y ∷ ys) x all h = elim (contains-cons y x ys h) [
  | inl same ↦ subst P same all.0
  | inr later ↦ All-contains P ys x all.1 later
]

-- One step of the argument: the plan `g` was clean, and `g'` evolved from it.
IsChosen-IsApproved :
    (g g' : Graph) (n : Node) (kind : String)
    → check_mutations g ≡ []
    → HasDistinctIds g
    → Evolves g g'
    → by_id g' n.node_id ≡ some n
    → CanStart g' n
    → contains (external_kinds n) kind ≡ true
    → IsApproved g' kind
unfolding is_approved_by external_kinds incoming_edges
IsChosen-IsApproved g g' n kind clean once e is start h =
    let (n₀, is₀, change) = by_id-before g g' n.node_id n e is in
    let same_id = change.same_id in
    let (acts, approval) = kind-approved g n₀ kind clean once (ap (by_id g) same_id ∙ is₀) (
      ap (λ tools. contains (map external_kind (keep is_external_tool tools)) kind)
        change.same_tools
      ∙ h) in
    let (a, approves, is_a) = approval in
    let (first, edge) = (and-eq-true _ (passes_gate g.edges a.node_id n₀.node_id)).0 approves in
    let (human, asked) =
      (and-eq-true (is_human_approval a.node_type)
          (contains a.allowed_tools ("approve:" <> kind))).0
        first in
    let needed = source-dependency g' n.node_id a.node_id (
      passes_gate-incoming g'.edges a.node_id n.node_id (
        subst (λ es. passes_gate es a.node_id n.node_id ≡ true) e.same_edges
          (subst (λ z. passes_gate g.edges a.node_id z ≡ true) same_id edge))) in
    let (p, is_p, done) =
      All-contains (IsDone g' n) (dependencies g' n.node_id) a.node_id start.dependencies_done
        needed in
    let (q, is_q, change_q) = by_id-before g g' a.node_id p e is_p in
    let same : q ≡ a = some_inj.0 (sym is_q ∙ is_a) in
    let change_a : Change a p = subst (λ k. Change k p) same change_q in
    record {
      approver = p;
      found = ap (by_id g') (by_id-node_id g' a.node_id p is_p) ∙ is_p;
      human = ap is_human_approval (sym change_a.same_type) ∙ human;
      asked = ap (λ tools. contains tools ("approve:" <> kind)) (sym change_a.same_tools) ∙ asked;
      completed = elim done [
        | inl is_done ↦ is_done
        | inr (merges, _) ↦
            absurd (acts-no_merge n₀.node_type acts (ap is_merge change.same_type ∙ merges))
      ];
    }

-- Take a plan that compiled, and any graph that a sequence of returned transitions makes of it. If
-- the scheduler then offers a node with an external operation, a HUMAN_APPROVAL node for this
-- operation is completed in that graph.
pub compile_graph-approvals :
    (is_time : String → Bool) (registry : Option LaneRegistry) (config : Option KernelConfig)
    (plan : Graph) (c : Compiled) (h : Hashes) (g : Graph) (slots : ℕ) (ids : List String)
    (id kind : String) (n : Node)
    → compile_graph is_time registry config plan ≡ ok c
    → Run h c.ir g
    → ready_nodes g slots ≡ ok ids
    → contains ids id ≡ true
    → by_id g id ≡ some n
    → contains (external_kinds n) kind ≡ true
    → IsApproved g kind
unfolding compiled_of
compile_graph-approvals is_time registry config plan c h g slots ids id kind n e run offered on is
      acts =
    let (_, clean, same) = compile_graph-ok is_time registry config plan c e in
    let first = canonical_ir plan in
    let run' : Run h first g = subst (λ k. Run h k.ir g) (sym same) run in
    let plain =
      IsClean-IsSchedulable config (Option.get_or registry default_lane_registry) first clean in
    let once = plain.distinct_ids in
    let (selected, are, selection) = ready_nodes-IsSelection g slots ids offered in
    let (s, named, picked) =
      IsChosen-found g selected id selection.chosen
        (subst (λ l. contains l id ≡ true) (sym are) on) in
    let (is_s, start) = picked in
    let same_node : s ≡ n = some_inj.0 (sym is_s ∙ ap (by_id g) named ∙ is) in
    IsChosen-IsApproved first g s kind clean.mutations_pass once (Run-Evolves h run' once) is_s
      start (ap (λ k. contains (external_kinds k) kind) same_node ∙ acts)
