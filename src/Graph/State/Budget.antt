-- ===== src/Graph/State/Budget.antt =====
-- Sequences of transitions, the retry budget and the dependency structure.
use codex_routecraft.Prelude.{ℕ, String, Option, List, ◌≡◌, ok, All, Pointwise-All}
use codex_routecraft.Graph.Types.{GateResult, Constraint, Graph}
use codex_routecraft.Graph.Skip.{Hashes}
use codex_routecraft.Graph.State.{
  mark_ready, start_node, accept_node, resolve_gate_result, fail_node, apply_send_back, retry_node,
  add_constraint, replan,
}
use codex_routecraft.Graph.State.Change.{IsWithinBudget, Change}
use codex_routecraft.Graph.State.Evolves.{Evolves, Evolves-refl, Evolves-trans}
use codex_routecraft.Graph.State.Ids.{HasDistinctIds, Evolves-HasDistinctIds}
use codex_routecraft.Graph.State.Structure.{downstream-Evolves}
use codex_routecraft.Graph.Scheduler.{downstream}
use codex_routecraft.Graph.State.Marks.{mark_ready-Evolves}
use codex_routecraft.Graph.State.Transitions.{
  start_node-Evolves, retry_node-Evolves, accept_node-Evolves, resolve_gate_result-Evolves,
  fail_node-Evolves, apply_send_back-Evolves, add_constraint-Evolves, replan-Evolves,
}

-- One call of the state module that returned, at any time and with any arguments.
pub data Step (h : Hashes) : Graph → Graph → Type 0 where
  mark : {g g' : Graph} (m : ℕ) → mark_ready h g m ≡ ok g' → Step h g g'
  start : {g g' : Graph} (now id : String) → start_node now g id ≡ ok g' → Step h g g'
  accept :
      {g g' : Graph} (now id output : String) (refs : List String) (verdict : Option GateResult)
      → accept_node h now g id output refs verdict ≡ ok g'
      → Step h g g'
  resolve :
      {g g' : Graph} (now id output : String) (refs : List String) (verdict : GateResult)
      → resolve_gate_result h now g id verdict output refs ≡ ok g'
      → Step h g g'
  fail : {g g' : Graph} (now id : String) → fail_node now g id ≡ ok g' → Step h g g'
  send_back : {g g' : Graph} (now id : String) → apply_send_back now g id ≡ ok g' → Step h g g'
  retry : {g g' : Graph} (now id : String) → retry_node now g id ≡ ok g' → Step h g g'
  constrain :
      {g g' : Graph} (now : String) (c : Constraint)
      → add_constraint h now g c ≡ ok g'
      → Step h g g'
  revise : {g : Graph} (now : String) → Step h g (replan now g)

pub data Run (h : Hashes) (g : Graph) : Graph → Type 0 where
  here : Run h g g
  next : {a b : Graph} → Run h g a → Step h a b → Run h g b

pub Step-Evolves : (h : Hashes) {g g' : Graph} → Step h g g' → HasDistinctIds g → Evolves g g'
Step-Evolves h (mark {g} {g'} m e) d = mark_ready-Evolves h g g' m d e
Step-Evolves h (start {g} {g'} now id e) d = start_node-Evolves now g g' id d e
Step-Evolves h (accept {g} {g'} now id output refs verdict e) d =
    accept_node-Evolves h now g g' id output refs verdict d e
Step-Evolves h (resolve {g} {g'} now id output refs verdict e) d =
    resolve_gate_result-Evolves h now g g' id verdict output refs d e
Step-Evolves h (fail {g} {g'} now id e) d = fail_node-Evolves now g g' id e
Step-Evolves h (send_back {g} {g'} now id e) d = apply_send_back-Evolves now g g' id e
Step-Evolves h (retry {g} {g'} now id e) d = retry_node-Evolves now g g' id d e
Step-Evolves h (constrain {g} {g'} now c e) d = add_constraint-Evolves h now g g' c e
Step-Evolves h (revise {g} now) d = replan-Evolves now g

pub record IsSound (g : Graph) : Type 0 where
  pub distinct_ids : HasDistinctIds g
  pub budgets : All IsWithinBudget g.nodes

Step-IsSound : (h : Hashes) {g g' : Graph} → Step h g g' → IsSound g → IsSound g'
Step-IsSound h {g} {g'} s v =
    let e = Step-Evolves h s v.distinct_ids in
    record {
      distinct_ids = Evolves-HasDistinctIds g g' e v.distinct_ids;
      budgets =
          Pointwise-All Change IsWithinBudget (λ n m c. c.budget) g.nodes g'.nodes e.nodes_change
            v.budgets;
    }

-- Take a graph with distinct node ids whose nodes are within their retry budgets. After any
-- sequence of returned transitions the ids are still distinct, no node has been started more often
-- than its `max_attempts`, and a node that is READY has an attempt left.
pub Run-IsSound : (h : Hashes) {g g' : Graph} → Run h g g' → IsSound g → IsSound g'
Run-IsSound h here v = v
Run-IsSound h (next r s) v = Step-IsSound h s (Run-IsSound h r v)

pub Run-Evolves : (h : Hashes) {g g' : Graph} → Run h g g' → HasDistinctIds g → Evolves g g'
Run-Evolves h {g} here d = Evolves-refl g
Run-Evolves h {g} (next {a} {b} r s) d =
    let before = Run-Evolves h r d in
    Evolves-trans g a b before (Step-Evolves h s (Evolves-HasDistinctIds g a before d))

-- From a graph with distinct node ids, no sequence of returned transitions changes what is
-- downstream of a node.
pub Run-downstream :
    (h : Hashes) {g g' : Graph} (id : String)
    → Run h g g'
    → HasDistinctIds g
    → downstream g id ≡ downstream g' id
Run-downstream h {g} {g'} id r d = downstream-Evolves g g' id (Run-Evolves h r d)
