-- ===== src/Graph/Compiler/Compile/Roots.antt =====
-- Nodes that wait for nothing, in a graph whose nodes are ranked.
use codex_routecraft.Prelude.{
  ℕ, ◌≤◌, Bool, true, false, String, some, List, [], ◌∷◌, map, ◌≡◌, ◌≢◌, refl, sym, ap₂, subst, ◌∙◌,
  inl, inr, arith, ok, ◌>>=◌, any_result, all_result, contains, contains-cons, contains-head,
  contains-tail, contains-nil, lt_or_le, if◌then◌else◌, Bool-cases, Option-cases, leb, ltb,
  ok-injective, >>=-eq-ok,
}
use codex_routecraft.Graph.Types.{NodeStatus, Node, Edge, Graph}
use codex_routecraft.Graph.Scheduler.{by_id, dependencies, incoming_edges}
use codex_routecraft.Graph.Ready.{
  prerequisites_met, edge_blocks, predecessor_ready, is_candidate, dictionary, candidates_of,
}
use codex_routecraft.Graph.Compiler.Checks.{ids_in, check_node}
use codex_routecraft.Graph.Compiler.Issues.{retry_budget_invalid, append-eq-nil, flag-eq-nil}
use codex_routecraft.Graph.Compiler.Compile.Schedulable.{IsSchedulable}
use codex_routecraft.Graph.Compiler.Compile.Returns.{source-dependency}

-- A node that was not started yet, with an attempt left.
abbrev pub IsFresh : Node → Type 0
IsFresh n = (n.status ≡ NodeStatus.pending) × (n.attempt ≡ 0)

-- The element with the greatest number.
highest :
    (rank : String → ℕ) (x : String) (xs : List String)
    → (m : String) × (contains (x ∷ xs) m ≡ true)
      × ((z : String) → contains (x ∷ xs) z ≡ true → rank z ≤ rank m)
highest rank x [] = (
  x,
  contains-head x [],
  λ z h. elim (contains-cons x z [] h) [
    | inl same ↦ subst (λ k. rank k ≤ rank x) same (omega arith)
    | inr tail ↦ absurd (contains-nil z tail)
  ],
)
highest rank x (y ∷ ys) =
    let (m, on, top) = highest rank y ys in
    elim (lt_or_le (rank m) (rank x)) [
      | inl above ↦ (
        x,
        contains-head x (y ∷ ys),
        λ z h. elim (contains-cons x z (y ∷ ys) h) [
          | inl same ↦ subst (λ k. rank k ≤ rank x) same (omega arith)
          | inr tail ↦ let low = top z tail in omega arith
        ],
      )
      | inr below ↦ (
        m,
        contains-tail x m (y ∷ ys) on,
        λ z h. elim (contains-cons x z (y ∷ ys) h) [
          | inl same ↦ subst (λ k. rank k ≤ rank m) same below
          | inr tail ↦ top z tail
        ],
      )
    ]

pub nothing-in : (xs : List String) → ((x : String) → ¬ (contains xs x ≡ true)) → xs ≡ []
nothing-in [] h = refl
nothing-in (x ∷ xs) h = absurd (h x (contains-head x xs))

-- A graph without a cycle has a node without dependencies.
pub root-of :
    (g : Graph)
    → IsSchedulable g
    → ¬ (ids_in g ≡ [])
    → (id : String) × (contains (ids_in g) id ≡ true) × (dependencies g id ≡ [])
root-of g s some_node = at_top (ids_in g) refl
  where
    at_top :
        (ids : List String)
        → ids_in g ≡ ids
        → (id : String) × (contains (ids_in g) id ≡ true) × (dependencies g id ≡ [])
    at_top [] e = absurd (some_node e)
    at_top (x ∷ xs) e =
        let (m, on, top) = highest s.rank x xs in
        (
          m,
          subst (λ l. contains l m ≡ true) (sym e) on,
          nothing-in (dependencies g m) (λ d h.
              let higher = s.falls d m h in
              let low = top d (subst (λ l. contains l d ≡ true) e (s.known d m h).0) in
              omega arith),
        )

map-nil : (es : List Edge) → map (λ e. e.source) es ≡ [] → es ≡ []
map-nil [] e = refl
map-nil (x ∷ es) e = cc

-- A node without dependencies waits for nothing.
root-prerequisites_met :
    (g : Graph) (n : Node) → dependencies g n.node_id ≡ [] → prerequisites_met g n ≡ ok true
unfolding prerequisites_met any_result all_result
root-prerequisites_met g n e =
    let none_in : incoming_edges g n.node_id ≡ [] = map-nil (incoming_edges g n.node_id) (
      nothing-in (map (λ b. b.source) (incoming_edges g n.node_id)) (λ x h.
        contains-nil x (subst (λ l. contains l x ≡ true) e (source-dependency g n.node_id x h)))) in
    ap₂
      (λ (es : List Edge) (ds : List String). any_result (edge_blocks g) es >>= λ blocked.
        if blocked then ok false else all_result (predecessor_ready g n) ds)
      none_in e

pub root-is_candidate :
    (g : Graph) (n : Node)
    → IsFresh n
    → check_node g n ≡ []
    → dependencies g n.node_id ≡ []
    → is_candidate g n ≡ ok true
unfolding is_candidate check_node
root-is_candidate g n (waiting, unused) clean e =
    let (_, budget) = append-eq-nil _ _ clean in
    let left =
      flag-eq-nil (ltb n.retry_policy.max_attempts 1) retry_budget_invalid n.node_id budget in
    let more : leb n.retry_policy.max_attempts n.attempt ≡ false = ground (arith, left, unused) in
    rw (waiting, more, is_candidate) (root-prerequisites_met g n e)

candidates_of-cons :
    (g : Graph) (n : Node) (ns found : List Node)
    → candidates_of g (n ∷ ns) ≡ ok found
    → (b : Bool) × (rest : List Node) × (is_candidate g n ≡ ok b)
      × (candidates_of g ns ≡ ok rest)
      × ((if b then n ∷ rest else rest) ≡ found)
unfolding candidates_of
candidates_of-cons g n ns found e =
    let (b, is, more) = >>=-eq-ok (is_candidate g n) _ e in
    let (rest, are, last) = >>=-eq-ok (candidates_of g ns) _ more in
    (b, rest, is, are, ok-injective last)

-- A candidate of the dictionary is among the candidates.
pub dictionary-candidate :
    (g : Graph) (ids : List String) (id : String) (n : Node)
    → contains ids id ≡ true
    → by_id g id ≡ some n
    → is_candidate g n ≡ ok true
    → (found : List Node) → candidates_of g (dictionary g ids) ≡ ok found
    → found ≢ []
unfolding candidates_of dictionary contains
dictionary-candidate g [] id n h is good found e none_found = cc
dictionary-candidate g (k ∷ ids) id n h is good found e none_found =
    elim (contains-cons k id ids h) [
      | inl same ↦
          let is_k : by_id g k ≡ some n = subst (λ z. by_id g z ≡ some n) (sym same) is in
          let (b, rest, chosen, _, last) =
            candidates_of-cons g n (dictionary g ids) found (rw (is_k, dictionary) at e) in
          let yes_it_is : b ≡ true = ok-injective (sym chosen ∙ good) in
          absurd (let last' = rw yes_it_is at last in cc)
      | inr later ↦ elim (Option-cases (by_id g k)) [
        | inl gone ↦
            dictionary-candidate g ids id n later is good found (rw (gone, dictionary) at e)
              none_found
        | inr (m, is_m) ↦
            let (b, rest, _, are, last) =
              candidates_of-cons g m (dictionary g ids) found (rw (is_m, dictionary) at e) in
            dictionary-candidate g ids id n later is good rest are (elim (Bool-cases b) [
              | inl is_true ↦ absurd (let last' = rw is_true at last in cc)
              | inr is_false ↦ (rw is_false at last) ∙ none_found
            ])
      ]
    ]
