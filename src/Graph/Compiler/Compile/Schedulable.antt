-- ===== src/Graph/Compiler/Compile/Schedulable.antt =====
-- What the scheduler relies on, and the checks of compiler.py that look for it.
use codex_routecraft.Prelude.{
  ℕ, ◌≤◌, ◌<◌, Bool, true, false, not, ◌&&◌, String, Option, List, [], ◌∷◌, ◌++◌, map, ◌≡◌, refl,
  subst, ◌∙◌, arith, ok, keep, contains, contains-append, length, distinct, contains-distinct,
  length-distinct, NoRepeats-of-length, length-le_of_Within, ltb-eq-false,
}
use mathlib.Core.Option
use codex_routecraft.Graph.Types.{Graph, in_dependency_edge_types}
use codex_routecraft.Graph.Ir.{canonical_ir}
use codex_routecraft.Graph.Policy.Config.{KernelConfig, LaneRegistry, default_lane_registry}
use codex_routecraft.Graph.Scheduler.{dependencies, dependency_keys}
use codex_routecraft.Graph.Ready.{critical_path_lengths}
use codex_routecraft.Graph.Ready.Paths.{critical_path_lengths-total}
use codex_routecraft.Graph.State.Ids.{HasDistinctIds}
use codex_routecraft.Graph.Compiler.Cycle.{has_cycle}
use codex_routecraft.Graph.Compiler.Cycle.Exact.{has_cycle-IsRanking}
use codex_routecraft.Graph.Compiler.Shape.{is_empty}
use codex_routecraft.Graph.Compiler.Checks.{ids_in, has_repeats}
use codex_routecraft.Graph.Compiler.Globals.{check_paths}
use codex_routecraft.Graph.Compiler.Issues.{append-eq-nil, flag-eq-nil}
use codex_routecraft.Graph.Compiler.Compile.{Compiled, compile_graph, compiled_of}
use codex_routecraft.Graph.Compiler.Compile.Accepted.{IsClean, compile_graph-ok}
use codex_routecraft.Graph.Compiler.Compile.Structure.{
  is_known-ids, has_pair-known, has_pair-targets, dependencies-Joined,
}

-- What the scheduler and the transitions rely on: distinct ids, dependencies between nodes of the
-- graph only, and numbers for the nodes, at most their count, that fall along every dependency.
pub record IsSchedulable (g : Graph) : Type 0 where
  pub distinct_ids : HasDistinctIds g
  pub known :
      (x y : String)
      → contains (dependencies g y) x ≡ true
      → (contains (ids_in g) x ≡ true) × (contains (ids_in g) y ≡ true)
  pub rank : String → ℕ
  pub falls : (x y : String) → contains (dependencies g y) x ≡ true → rank y < rank x
  pub bounded : (x : String) → rank x ≤ length (ids_in g)

acyclic_of : (g : Graph) → check_paths g ≡ [] → has_cycle (distinct (ids_in g)) g.edges ≡ false
unfolding check_paths
acyclic_of g clean =
    let (cycle, _) = append-eq-nil _ _ clean in
    let none_found : not (is_empty (distinct (ids_in g))) && has_cycle (distinct (ids_in g)) g.edges
        ≡ false =
      flag-eq-nil _ _ _ cycle in
    not_empty (distinct (ids_in g)) none_found
  where
    not_empty :
        (ids : List String)
        → (not (is_empty ids) && has_cycle ids g.edges ≡ false)
        → has_cycle ids g.edges ≡ false
    not_empty [] h = refl
    not_empty (x ∷ xs) h = h

pub IsClean-IsSchedulable :
    (config : Option KernelConfig) (registry : LaneRegistry) (g : Graph)
    → IsClean config registry g
    → IsSchedulable g
unfolding has_repeats ids_in
IsClean-IsSchedulable config registry g clean =
    let ids = distinct (ids_in g) in
    let (rank, falls, low) = has_cycle-IsRanking ids g.edges (acyclic_of g clean.paths_pass) in
    let known : (x y : String)
        → contains (dependencies g y) x ≡ true
        → (contains (ids_in g) x ≡ true) × (contains (ids_in g) y ≡ true) =
      λ x y h.
        let (kx, ky) =
          has_pair-known g g.edges x y clean.edges_pass
            (dependencies-Joined config registry g clean x y h) in
        (is_known-ids g x kx, is_known-ids g y ky) in
    record {
      distinct_ids = NoRepeats-of-length (ids_in g) (ltb-eq-false _ _ clean.distinct_ids);
      known = known;
      rank = rank;
      falls = λ x y h.
          let (kx, ky) = known x y h in
          falls x y (
            has_pair-targets ids g.edges x y (dependencies-Joined config registry g clean x y h)
              (contains-distinct (ids_in g) x ∙ kx) (contains-distinct (ids_in g) y ∙ ky));
      bounded = λ x. let a = low x in let b = length-distinct (ids_in g) in omega arith;
    }

-- A plan that compiles has distinct node ids, dependencies between its own nodes only, and no
-- dependency cycle: the conditions on which the theorems about the scheduler rest.
pub compile_graph-IsSchedulable :
    (is_time : String → Bool) (registry : Option LaneRegistry) (config : Option KernelConfig)
    (g : Graph) (c : Compiled)
    → compile_graph is_time registry config g ≡ ok c
    → IsSchedulable c.ir
unfolding compiled_of
compile_graph-IsSchedulable is_time registry config g c e =
    let (_, clean, same) = compile_graph-ok is_time registry config g c e in
    subst (λ k. IsSchedulable k.ir) same
      (IsClean-IsSchedulable config (Option.get_or registry default_lane_registry) (canonical_ir g)
        clean)

ids-within-keys : (g : Graph) → IsSchedulable g → length (ids_in g) ≤ length (dependency_keys g)
unfolding dependency_keys ids_in
ids-within-keys g s = length-le_of_Within (ids_in g) (dependency_keys g) s.distinct_ids (λ z h.
    let ends = map (λ e. e.target) (keep (λ e. in_dependency_edge_types e.edge_type) g.edges) in
    ground (arith, contains-distinct (ids_in g ++ ends) z, contains-append (ids_in g) ends z, h))

-- A schedulable graph has a critical path for every node.
pub schedulable-critical_path_lengths :
    (g : Graph) → IsSchedulable g → (ls : List (String × ℕ)) × (critical_path_lengths g ≡ ok ls)
schedulable-critical_path_lengths g s =
    critical_path_lengths-total g s.rank s.falls
      (λ x h. let a = s.bounded x in let b = ids-within-keys g s in omega arith)
