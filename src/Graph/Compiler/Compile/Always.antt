-- ===== src/Graph/Compiler/Compile/Always.antt =====
-- `ready_nodes` on the graphs that transitions make of a compiled plan, for one slot or more.
use codex_routecraft.Prelude.{
  ℕ, ◌<◌, ◌≤◌, Bool, true, String, Option, List, ◌≡◌, sym, subst, ok, contains, length,
  map-eq_of_Pointwise,
}
use codex_routecraft.Graph.Types.{Graph}
use codex_routecraft.Graph.Policy.Config.{KernelConfig, LaneRegistry}
use codex_routecraft.Graph.Skip.{Hashes}
use codex_routecraft.Graph.Scheduler.{dependencies}
use codex_routecraft.Graph.Ready.{ready_nodes}
use codex_routecraft.Graph.State.Change.{Change}
use codex_routecraft.Graph.State.Evolves.{Evolves}
use codex_routecraft.Graph.State.Ids.{Evolves-HasDistinctIds}
use codex_routecraft.Graph.State.Structure.{dependencies-Evolves}
use codex_routecraft.Graph.State.Budget.{Run, Run-Evolves}
use codex_routecraft.Graph.Compiler.Checks.{ids_in}
use codex_routecraft.Graph.Compiler.Compile.{Compiled, compile_graph}
use codex_routecraft.Graph.Compiler.Compile.Schedulable.{IsSchedulable, compile_graph-IsSchedulable}
use codex_routecraft.Graph.Compiler.Compile.Returns.{schedulable-ready_nodes}

ids_in-Evolves : (g g' : Graph) → Evolves g g' → ids_in g ≡ ids_in g'
unfolding ids_in
ids_in-Evolves g g' e =
    map-eq_of_Pointwise Change (λ n. n.node_id) (λ n m c. c.same_id) g.nodes g'.nodes e.nodes_change

-- Transitions keep what the scheduler relies on.
pub Evolves-IsSchedulable : (g g' : Graph) → Evolves g g' → IsSchedulable g → IsSchedulable g'
Evolves-IsSchedulable g g' e s =
    let ids = ids_in-Evolves g g' e in
    let before = λ (x y : String) (h : contains (dependencies g' y) x ≡ true).
      subst (λ l. contains l x ≡ true) (sym (dependencies-Evolves g g' y e)) h in
    record {
      distinct_ids = Evolves-HasDistinctIds g g' e s.distinct_ids;
      known = λ x y h.
          subst (λ l. (contains l x ≡ true) × (contains l y ≡ true)) ids
            (s.known x y (before x y h));
      rank = s.rank;
      falls = λ x y h. s.falls x y (before x y h);
      bounded = λ x. subst (λ l. s.rank x ≤ length l) ids (s.bounded x);
    }

-- Take a plan that compiled, and any graph that a sequence of returned transitions makes of it.
-- With at least one slot, `ready_nodes` returns on that graph: no node is missing, and no critical
-- path is endless.
pub compile_graph-ready_nodes :
    (is_time : String → Bool) (registry : Option LaneRegistry) (config : Option KernelConfig)
    (plan : Graph) (c : Compiled) (h : Hashes) (g : Graph) (slots : ℕ)
    → compile_graph is_time registry config plan ≡ ok c
    → Run h c.ir g
    → 0 < slots
    → (ids : List String) × (ready_nodes g slots ≡ ok ids)
compile_graph-ready_nodes is_time registry config plan c h g slots e run some_slot =
    let s = compile_graph-IsSchedulable is_time registry config plan c e in
    schedulable-ready_nodes g (Evolves-IsSchedulable c.ir g (Run-Evolves h run s.distinct_ids) s)
      slots some_slot
