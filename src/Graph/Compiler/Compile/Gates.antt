-- ===== src/Graph/Compiler/Compile/Gates.antt =====
-- The global gate of a compiled plan.
use codex_routecraft.Prelude.{
  Bool, false, not, ◌&&◌, String, Option, List, [], ◌∷◌, ◌≡◌, refl, subst, ◌⊎◌, inl, inr, arith,
  All, All-map, ok, any, keep, ◌==◌, ==_iff, Bool-cases,
}
use mathlib.Core.List.{reverse}
use codex_routecraft.Graph.Types.{Node, Edge, Graph, in_dependency_edge_types}
use codex_routecraft.Graph.Ir.{canonical_ir}
use codex_routecraft.Graph.Policy.Config.{KernelConfig, LaneRegistry}
use codex_routecraft.Graph.Closure.{targets, Reaches}
use codex_routecraft.Graph.Compiler.{outgoing, reaches}
use codex_routecraft.Graph.Compiler.Paths.{reaches_iff}
use codex_routecraft.Graph.Compiler.Globals.{global_gates, check_gates, check_reaches_gate}
use codex_routecraft.Graph.Compiler.Issues.{append-eq-nil, each-eq-nil, flag-eq-nil}
use codex_routecraft.Graph.Compiler.Compile.{Compiled, compile_graph, compiled_of}
use codex_routecraft.Graph.Compiler.Compile.Accepted.{compile_graph-ok}

-- The way starts with an edge that leaves the node.
abbrev pub LeadsTo : Graph → String → String → Type 0
LeadsTo g x y = Reaches (outgoing g.edges) (reverse (targets (outgoing g.edges) x)) y

pub record IsGated (g : Graph) : Type 0 where
  pub gate : Node
  pub only : global_gates g ≡ gate ∷ []
  pub reached : All (λ n. (n.node_id ≡ gate.node_id) ⊎ LeadsTo g n.node_id gate.node_id) g.nodes
  pub is_sink : targets (outgoing g.edges) gate.node_id ≡ []

no-targets :
    (es : List Edge) (id : String)
    → any (λ e. (e.source == id) && in_dependency_edge_types e.edge_type) es ≡ false
    → targets (outgoing es) id ≡ []
unfolding any targets outgoing keep
no-targets [] id h = refl
no-targets (e ∷ es) id h = ground (arith, no-targets es id, h)

check_reaches_gate-LeadsTo :
    (g : Graph) (gate n : Node)
    → check_reaches_gate g gate n ≡ []
    → (n.node_id ≡ gate.node_id) ⊎ LeadsTo g n.node_id gate.node_id
unfolding check_reaches_gate
check_reaches_gate-LeadsTo g gate n clean =
    let fine =
      flag-eq-nil (not (n.node_id == gate.node_id) && not (reaches n.node_id gate.node_id g.edges))
        _ _ clean in
    elim (Bool-cases (n.node_id == gate.node_id)) [
      | inl same ↦ inl ((==_iff n.node_id gate.node_id).0 same)
      | inr other ↦ elim (Bool-cases (reaches n.node_id gate.node_id g.edges)) [
        | inl leads ↦ inr ((reaches_iff n.node_id gate.node_id g.edges).0 leads)
        | inr stays ↦ absurd (let fine' = rw (other, stays) at fine in cc)
      ]
    ]

check_gates-IsGated :
    (g : Graph) (gates : List Node) → global_gates g ≡ gates → check_gates g gates ≡ [] → IsGated g
unfolding check_gates
check_gates-IsGated g [] is clean = cc
check_gates-IsGated g (gate ∷ []) is clean =
    let (all, sink) = append-eq-nil _ _ clean in
    record {
      gate = gate;
      only = is;
      reached =
          All-map (check_reaches_gate-LeadsTo g gate) g.nodes
            (each-eq-nil (check_reaches_gate g gate) g.nodes all);
      is_sink = no-targets g.edges gate.node_id (
          flag-eq-nil
            (any (λ e. (e.source == gate.node_id) && in_dependency_edge_types e.edge_type) g.edges)
            _ _ sink);
    }
check_gates-IsGated g (a ∷ b ∷ more) is clean = cc

-- A plan that compiles has exactly one global gate; from every other node there is a way along the
-- dependency edges to it, and no dependency edge leaves it.
pub compile_graph-IsGated :
    (is_time : String → Bool) (registry : Option LaneRegistry) (config : Option KernelConfig)
    (g : Graph) (c : Compiled)
    → compile_graph is_time registry config g ≡ ok c
    → IsGated c.ir
unfolding compiled_of
compile_graph-IsGated is_time registry config g c e =
    let (_, clean, same) = compile_graph-ok is_time registry config g c e in
    subst (λ k. IsGated k.ir) same
      (check_gates-IsGated (canonical_ir g) (global_gates (canonical_ir g)) refl clean.gates_pass)
