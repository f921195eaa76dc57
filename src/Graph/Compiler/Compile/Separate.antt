-- ===== src/Graph/Compiler/Compile/Separate.antt =====
-- Write scopes of the nodes of a compiled plan that no path orders.
use codex_routecraft.Prelude.{
  ℕ, zero, suc, Bool, true, false, not, ◌&&◌, String, Option, List, [], ◌∷◌, ◌++◌, ◌≡◌, subst, ◌⊎◌,
  inl, inr, All, All-map, length, ok, contains, contains-head, contains-tail, ◌==◌, ==_iff,
  Bool-cases, and-eq-true,
}
use mathlib.Core.List.{reverse}
use codex_routecraft.Graph.Types.{Node, Graph}
use codex_routecraft.Graph.Ir.{canonical_ir}
use codex_routecraft.Graph.Scope.{scope_conflict}
use codex_routecraft.Graph.Policy.Config.{KernelConfig, LaneRegistry}
use codex_routecraft.Graph.Closure.{Pairs, targets, Reaches, start, step, contains-pushed}
use codex_routecraft.Graph.Compiler.{outgoing}
use codex_routecraft.Graph.Compiler.Orders.{search_other, reaches_other, ordered_transitively}
use codex_routecraft.Graph.Compiler.Globals.{check_pair, check_pairs}
use codex_routecraft.Graph.Compiler.Issues
use codex_routecraft.Graph.Compiler.Issues.{append-eq-nil, each-eq-nil, flag-eq-nil}
use codex_routecraft.Graph.Compiler.Compile.{Compiled, compile_graph, compiled_of}
use codex_routecraft.Graph.Compiler.Compile.Accepted.{compile_graph-ok}

-- There is a way along the dependency edges from the one node to the other.
abbrev pub Precedes : Graph → String → String → Type 0
Precedes g x y = Reaches (outgoing g.edges) (x ∷ []) y

search_other-sound :
    (ps : Pairs) (source target : String) (P : String → Type 0)
    → ((x y : String) → P x → contains (targets ps x) y ≡ true → P y)
    → (fuel : ℕ) (stack seen : List String) → search_other ps source target fuel stack seen ≡ true
    → ((y : String) → contains stack y ≡ true → P y)
    → P target
unfolding search_other
search_other-sound ps s t P next zero stack seen e on = cc
search_other-sound ps s t P next (suc fuel) [] seen e on = cc
search_other-sound ps s t P next (suc fuel) (x ∷ stack) seen e on =
    elim (Bool-cases ((x == t) && not (x == s))) [
      | inl hit ↦
          let is_target = (==_iff x t).0 (((and-eq-true (x == t) (not (x == s))).0 hit).0) in
          subst P is_target (on x (contains-head x stack))
      | inr miss ↦ elim (Bool-cases (contains seen x)) [
        | inl old ↦
            search_other-sound ps s t P next fuel stack seen (rw (miss, old, search_other) at e)
              (λ y h. on y (contains-tail x y stack h))
        | inr new ↦
            search_other-sound ps s t P next fuel (reverse (targets ps x) ++ stack) (x ∷ seen)
              (rw (miss, new, search_other) at e)
              (λ y h. elim (contains-pushed (targets ps x) stack y h) [
                | inl pushed ↦ next x y (on x (contains-head x stack)) pushed
                | inr below ↦ on y (contains-tail x y stack below)
              ])
      ]
    ]

reaches_other-Precedes :
    (g : Graph) (x y : String) → reaches_other x y g.edges ≡ true → Precedes g x y
unfolding reaches_other
reaches_other-Precedes g x y e =
    search_other-sound (outgoing g.edges) x y (Precedes g x) (λ a b r h. step r h)
      (suc (length (outgoing g.edges))) (x ∷ []) [] e (λ z h. start h)

-- The nodes are ordered, or no write scope of the one is a scope of the other or lies above it.
abbrev pub AreSeparate : Graph → Node → Node → Type 0
AreSeparate g a b =
    (Precedes g a.node_id b.node_id ⊎ Precedes g b.node_id a.node_id)
    ⊎ (scope_conflict a.ownership.write_scopes b.ownership.write_scopes ≡ false)

-- The relation holds between each element and every later one.
abbrev pub AllPairs : (Node → Node → Type 0) → List Node → Type 0
AllPairs R [] = Unit
AllPairs R (n ∷ ns) = All (R n) ns × AllPairs R ns

check_pair-AreSeparate : (g : Graph) (a b : Node) → check_pair g a b ≡ [] → AreSeparate g a b
unfolding check_pair ordered_transitively
check_pair-AreSeparate g a b clean =
    let (conflict, _) = append-eq-nil _ _ clean in
    let free =
      flag-eq-nil
        (not (ordered_transitively a.node_id b.node_id g.edges)
          && scope_conflict a.ownership.write_scopes b.ownership.write_scopes)
        _ _ conflict in
    elim (Bool-cases (reaches_other a.node_id b.node_id g.edges)) [
      | inl before ↦ inl (inl (reaches_other-Precedes g a.node_id b.node_id before))
      | inr not_before ↦ elim (Bool-cases (reaches_other b.node_id a.node_id g.edges)) [
        | inl after ↦ inl (inr (reaches_other-Precedes g b.node_id a.node_id after))
        | inr not_after ↦ inr (rw (not_before, not_after, ordered_transitively) at free)
      ]
    ]

check_pairs-AllPairs :
    (g : Graph) (ns : List Node) → check_pairs g ns ≡ [] → AllPairs (AreSeparate g) ns
unfolding check_pairs
check_pairs-AllPairs g [] clean = tt
check_pairs-AllPairs g (n ∷ ns) clean =
    let (first, rest) = append-eq-nil (Issues.each (check_pair g n) ns) (check_pairs g ns) clean in
    (
      All-map (check_pair-AreSeparate g n) ns (each-eq-nil (check_pair g n) ns first),
      check_pairs-AllPairs g ns rest,
    )

-- In a plan that compiles, two nodes of which neither comes before the other along the dependency
-- edges do not write to the same place, nor one below a place of the other.
pub compile_graph-AreSeparate :
    (is_time : String → Bool) (registry : Option LaneRegistry) (config : Option KernelConfig)
    (g : Graph) (c : Compiled)
    → compile_graph is_time registry config g ≡ ok c
    → AllPairs (AreSeparate c.ir) c.ir.nodes
unfolding compiled_of
compile_graph-AreSeparate is_time registry config g c e =
    let (_, clean, same) = compile_graph-ok is_time registry config g c e in
    subst (λ k. AllPairs (AreSeparate k.ir) k.ir.nodes) same
      (check_pairs-AllPairs (canonical_ir g) (canonical_ir g).nodes clean.pairs_pass)
