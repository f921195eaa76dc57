-- ===== src/Graph/Compiler/Compile/Accepted.antt =====
-- The checks of compiler.py, read from a plan that compiles.
use codex_routecraft.Prelude.{
  Bool, false, String, Option, none, some, List, [], ◌∷◌, ◌≡◌, refl, subst, All, Result, ok,
  >>=-eq-ok, ok-injective,
}
use mathlib.Core.Option
use codex_routecraft.Graph.Types.{Graph}
use codex_routecraft.Graph.Ir.{canonical_ir}
use codex_routecraft.Graph.Policy.Config.{
  KernelConfig, LaneRegistry, default_lane_registry, validate_config, validate_lane_registry,
}
use codex_routecraft.Graph.Compiler.Shape.{validate_ir_shape}
use codex_routecraft.Graph.Compiler.Checks.{
  ids_in, has_repeats, has_duplicate_edge, check_node, check_edge,
}
use codex_routecraft.Graph.Compiler.Globals.{
  check_paths, global_gates, check_gates, check_capability, check_pairs, check_mutations,
  check_config,
}
use codex_routecraft.Graph.Compiler.Issues
use codex_routecraft.Graph.Compiler.Issues.{append-eq-nil, each-eq-nil, flag-eq-nil}
use codex_routecraft.Graph.Compiler.Compile.{
  Compiled, parts_of, issues_of, compiled_of, compile_graph, raise_if_any, or_capability_issue,
}

pub record IsClean (config : Option KernelConfig) (registry : LaneRegistry) (g : Graph)
    : Type 0 where
  pub distinct_ids : has_repeats (ids_in g) ≡ false
  pub distinct_edges : has_duplicate_edge g.edges ≡ false
  pub nodes_pass : All (λ n. check_node g n ≡ []) g.nodes
  pub edges_pass : All (λ e. check_edge g e ≡ []) g.edges
  pub paths_pass : check_paths g ≡ []
  pub gates_pass : check_gates g (global_gates g) ≡ []
  pub capabilities_pass : All (λ n. check_capability config registry n ≡ []) g.nodes
  pub pairs_pass : check_pairs g g.nodes ≡ []
  pub mutations_pass : check_mutations g ≡ []
  pub config_pass : (c : KernelConfig) → config ≡ some c → check_config g c ≡ []

config-eq-nil :
    (config : Option KernelConfig) (f : KernelConfig → List Issues.CompileIssue)
    → ◌≡◌ {A = List Issues.CompileIssue} (elim config [ none ↦ [] | some c ↦ f c ]) []
    → (c : KernelConfig) → config ≡ some c
    → f c ≡ []
config-eq-nil none f e c is = cc
config-eq-nil (some d) f e c is = subst (λ x. f x ≡ []) (cc) e

pub issues_of-IsClean :
    (config : Option KernelConfig) (registry : LaneRegistry) (g : Graph)
    → issues_of config registry g ≡ []
    → IsClean config registry g
unfolding issues_of
issues_of-IsClean config registry g e =
    let all =
      each-eq-nil (λ (issues : List Issues.CompileIssue). issues) (parts_of config registry g) e in
    let (ids, more) = all in
    let (edges, more) = more in
    let (intent, more) = more in
    let (acceptance, more) = more in
    let (nodes, more) = more in
    let (all_edges, more) = more in
    let (constraints, more) = more in
    let (paths, more) = more in
    let (gates, more) = more in
    let (capabilities, more) = more in
    let (pairs, more) = more in
    let (mutations, more) = more in
    let (budget, more) = more in
    let (conf, more) = more in
    record {
      distinct_ids = flag-eq-nil _ _ _ ids;
      distinct_edges = flag-eq-nil _ _ _ edges;
      nodes_pass = each-eq-nil _ _ nodes;
      edges_pass = each-eq-nil _ _ all_edges;
      paths_pass = paths;
      gates_pass = gates;
      capabilities_pass = each-eq-nil _ _ capabilities;
      pairs_pass = pairs;
      mutations_pass = mutations;
      config_pass = config-eq-nil config (check_config g) conf;
    }

raise_if_any-ok :
    (issues : List Issues.CompileIssue)
    → ◌≡◌ {A = Result (List Issues.CompileIssue) (Unit {0})} (raise_if_any issues) (ok tt)
    → issues ≡ []
raise_if_any-ok [] e = refl
raise_if_any-ok (i ∷ is) e = cc

-- What compiles is the canonical form of the graph, clean under the registry that was given or the
-- default one.
pub compile_graph-ok :
    (is_time : String → Bool) (registry : Option LaneRegistry) (config : Option KernelConfig)
    (g : Graph) (c : Compiled)
    → compile_graph is_time registry config g ≡ ok c
    → (validate_ir_shape is_time g ≡ [])
      × IsClean config (Option.get_or registry default_lane_registry) (canonical_ir g)
      × (compiled_of (canonical_ir g) ≡ c)
unfolding compile_graph
compile_graph-ok is_time registry config g c e =
    let (_, shape, e) = >>=-eq-ok (raise_if_any (validate_ir_shape is_time g)) _ e in
    let (_, _, e) =
      >>=-eq-ok
        (or_capability_issue
          (validate_lane_registry (Option.get_or registry default_lane_registry)))
        _ e in
    let (_, _, e) =
      >>=-eq-ok (or_capability_issue (elim config [ none ↦ ok tt | some c ↦ validate_config c ])) _
        e in
    let (_, clean, e) =
      >>=-eq-ok
        (raise_if_any
          (issues_of config (Option.get_or registry default_lane_registry) (canonical_ir g)))
        _ e in
    (
      raise_if_any-ok _ shape,
      issues_of-IsClean config (Option.get_or registry default_lane_registry) (canonical_ir g)
          (raise_if_any-ok _ clean),
      ok-injective e,
    )
