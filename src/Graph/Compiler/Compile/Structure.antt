-- ===== src/Graph/Compiler/Compile/Structure.antt =====
-- The dependency structure of a compiled plan.
use codex_routecraft.Prelude.{
  Bool, true, ◌&&◌, String, Option, some, List, [], ◌∷◌, map, ◌≡◌, refl, sym, subst, ◌∙◌, inl, inr,
  arith, All, keep, any, contains, contains-append, contains-cons, find_last, find_last-test, ◌==◌,
  ==_iff, Bool-cases, Option-cases,
}
use codex_routecraft.Graph.Types.{Node, Edge, Graph, in_dependency_edge_types}
use codex_routecraft.Graph.Closure.{targets}
use codex_routecraft.Graph.Scheduler.{by_id, dependencies, incoming_edges}
use codex_routecraft.Graph.Scheduler.Downstream.{find_last-contains}
use codex_routecraft.Graph.Policy.Config.{KernelConfig, LaneRegistry}
use codex_routecraft.Graph.Compiler.{outgoing}
use codex_routecraft.Graph.Compiler.Cycle.{inner}
use codex_routecraft.Graph.Compiler.Checks.{
  has_pair, ids_in, is_known, check_dependency, check_node, check_endpoints, check_edge,
}
use codex_routecraft.Graph.Compiler.Issues
use codex_routecraft.Graph.Compiler.Issues.{append-eq-nil, each-eq-nil, flag-eq-nil}
use codex_routecraft.Graph.Compiler.Compile.Accepted.{IsClean}

-- The dependency edges from `x` to `y`, as pairs.
abbrev pub Joined : Graph → String → String → Type 0
Joined g x y = has_pair (outgoing g.edges) x y ≡ true

pub is_known-ids : (g : Graph) (id : String) → is_known g id ≡ true → contains (ids_in g) id ≡ true
unfolding is_known by_id ids_in
is_known-ids g id h = elim (Bool-cases (contains (map (λ n. n.node_id) g.nodes) id)) [
  | inl on ↦ on
  | inr off ↦
      absurd
        (let gone = find_last-contains g.nodes id off in let h' = rw (gone, is_known) at h in cc)
]

pub find_last-All :
    (P : Node → Type 0) (p : Node → Bool) (ns : List Node) (n : Node)
    → All P ns
    → find_last p ns ≡ some n
    → P n
unfolding find_last
find_last-All P p [] n all e = cc
find_last-All P p (m ∷ ns) n all e = elim (Option-cases (find_last p ns)) [
  | inl gone ↦ subst P (let e' = rw (gone, find_last) at e in ground arith) all.0
  | inr (k, is) ↦ find_last-All P p ns n all.1 (let e' = rw (is, find_last) at e in is ∙ e')
]

incoming-has_pair :
    (es : List Edge) (x y : String)
    → contains
        (map
          (λ e. e.source)
          (keep (λ e. (e.target == y) && in_dependency_edge_types e.edge_type) es))
        x
      ≡ true
    → has_pair (outgoing es) x y ≡ true
unfolding contains keep has_pair outgoing any
incoming-has_pair [] x y h = cc
incoming-has_pair (e ∷ es) x y h = ground (arith, incoming-has_pair es x y)

check_edge-known :
    (g : Graph) (e : Edge)
    → check_edge g e ≡ []
    → (is_known g e.source ≡ true) × (is_known g e.target ≡ true)
unfolding check_edge check_endpoints is_known
check_edge-known g e clean =
    let (clean, _) = append-eq-nil _ _ clean in
    let (clean, _) = append-eq-nil _ _ clean in
    let (ends, _) = append-eq-nil (check_endpoints g e) _ clean in
    elim (Option-cases (by_id g e.source)) [
      | inl gone ↦ absurd (let ends' = rw (gone, check_endpoints) at ends in cc)
      | inr (s, is_s) ↦ elim (Option-cases (by_id g e.target)) [
        | inl gone ↦ absurd (let ends' = rw (is_s, gone, check_endpoints) at ends in cc)
        | inr (t, is_t) ↦ (rw (is_s, is_known) refl, rw (is_t, is_known) refl)
      ]
    ]

pub has_pair-known :
    (g : Graph) (es : List Edge) (x y : String)
    → All (λ e. check_edge g e ≡ []) es
    → has_pair (outgoing es) x y ≡ true
    → (is_known g x ≡ true) × (is_known g y ≡ true)
unfolding has_pair outgoing keep any
has_pair-known g [] x y all h = cc
has_pair-known g (e ∷ es) x y all h = ground (
  arith,
  check_edge-known g e all.0,
  has_pair-known g es x y all.1,
  ==_iff e.source x,
  ==_iff e.target y,
)

pub has_pair-targets :
    (ids : List String) (es : List Edge) (x y : String)
    → has_pair (outgoing es) x y ≡ true
    → contains ids x ≡ true
    → contains ids y ≡ true
    → contains (targets (inner ids es) x) y ≡ true
unfolding has_pair outgoing inner keep any targets contains
has_pair-targets ids [] x y h hx hy = cc
has_pair-targets ids (e ∷ es) x y h hx hy =
    ground (arith, has_pair-targets ids es x y, ==_iff e.source x, ==_iff e.target y, hx, hy)

listed-has_pair :
    (g : Graph) (n : Node) (ds : List String) (x : String)
    → All (λ d. check_dependency g n d ≡ []) ds
    → contains ds x ≡ true
    → has_pair (outgoing g.edges) x n.node_id ≡ true
unfolding contains check_dependency
listed-has_pair g n [] x all h = cc
listed-has_pair g n (d ∷ ds) x all h = elim (contains-cons d x ds h) [
  | inl same ↦
      subst (λ z. has_pair (outgoing g.edges) z n.node_id ≡ true) same (ground (arith, all.0))
  | inr more ↦ listed-has_pair g n ds x all.1 more
]

node-dependencies :
    (g : Graph) (n : Node)
    → check_node g n ≡ []
    → (x : String) → contains n.dependencies x ≡ true
    → has_pair (outgoing g.edges) x n.node_id ≡ true
unfolding check_node
node-dependencies g n clean x h =
    let (clean, _) = append-eq-nil _ _ clean in
    let (clean, _) = append-eq-nil _ _ clean in
    let (all, _) = append-eq-nil (Issues.each (check_dependency g n) n.dependencies) _ clean in
    let all = each-eq-nil (check_dependency g n) n.dependencies all in
    listed-has_pair g n n.dependencies x all h

-- Every dependency that the scheduler reads is an edge of the graph.
pub dependencies-Joined :
    (config : Option KernelConfig) (registry : LaneRegistry) (g : Graph)
    → IsClean config registry g
    → (x y : String) → contains (dependencies g y) x ≡ true
    → Joined g x y
unfolding dependencies incoming_edges
dependencies-Joined config registry g clean x y h = elim (Option-cases (by_id g y)) [
  | inl gone ↦ incoming-has_pair g.edges x y (rw (gone, dependencies) at h)
  | inr (n, is) ↦
      let h' = rw (is, dependencies) at h in
      let named : (n.node_id == y) ≡ true =
        find_last-test (λ m. m.node_id == y) g.nodes n (unfold by_id in is) in
      let parts =
        sym (contains-append n.dependencies (map (λ e. e.source) (incoming_edges g y)) x) ∙ h' in
      elim (Bool-cases (contains n.dependencies x)) [
        | inl own ↦ subst (Joined g x) ((==_iff n.node_id y).0 named) (
            node-dependencies g n
              (find_last-All (λ m. check_node g m ≡ []) (λ m. m.node_id == y) g.nodes n
                clean.nodes_pass (unfold by_id in is))
              x own)
        | inr other ↦ incoming-has_pair g.edges x y (ground (arith, parts, other))
      ]
]
