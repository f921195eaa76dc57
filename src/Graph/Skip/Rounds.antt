-- ===== src/Graph/Skip/Rounds.antt =====
-- The rounds of `_skip_unselected_branches` of state.py, counted by the nodes to skip.
use codex_routecraft.Prelude.{
  ℕ, zero, suc, ◌+◌, ◌≤◌, ◌<◌, Bool, true, false, ◌||◌, none, some, String, List, [], ◌∷◌, ◌++◌,
  map, ◌≡◌, refl, sym, ap, subst, ◌∙◌, ◌⊎◌, inl, inr, arith, ok, >>=-eq-ok, ok-injective,
  fold_result, fold_result-keeps, find_last, count, contains, length, count-le-length, ◌==◌,
  Bool-cases, Option-cases, if◌then◌else◌,
}
use codex_routecraft.Graph.Types.{Node, Graph}
use codex_routecraft.Graph.Scheduler.{by_id, inactive_conditional_targets}
use codex_routecraft.Graph.Skip.{
  update_last, is_skippable, skip, clear_result, skip_target, must_skip, sweep, skip_round,
  skip_rounds, skip_unselected_branches,
}

-- The nodes that a round may still skip.
abbrev open_nodes : List Node → ℕ
open_nodes ns = count (λ n. is_skippable n.status) ns

-- One pass over a graph: it says "changed" where it has skipped a node, and leaves the graph alone
-- otherwise.
record IsPass (s t : Graph × Bool) : Type 0 where
  fewer : open_nodes t.0.nodes ≤ open_nodes s.0.nodes
  progress : t.1 ≡ true → (s.1 ≡ true) ⊎ (open_nodes t.0.nodes < open_nodes s.0.nodes)
  same : t.1 ≡ false → s ≡ t

IsPass-refl : (s : Graph × Bool) → IsPass s s
IsPass-refl s = record { fewer = omega arith; progress = λ e. inl e; same = λ _. refl }

IsPass-trans : (s t u : Graph × Bool) → IsPass s t → IsPass t u → IsPass s u
IsPass-trans s t u p q = record {
  fewer = omega (arith, p.fewer, q.fewer);
  progress = λ e. elim (q.progress e) [
    | inl before ↦ elim (p.progress before) [
      | inl first ↦ inl first
      | inr less ↦ inr (omega (arith, q.fewer, less))
    ]
    | inr less ↦ inr (omega (arith, p.fewer, less))
  ];
  same = λ e. let k = q.same e in p.same (ap (λ x. x.1) k ∙ e) ∙ k;
}

skip-not_open : (n : Node) → is_skippable (skip n).status ≡ false
unfolding skip clear_result
skip-not_open n = refl

absent_last :
    (id : String) (ns : List Node)
    → contains (map (λ n. n.node_id) ns) id ≡ false
    → find_last (λ n. n.node_id == id) ns ≡ none
unfolding contains find_last
absent_last id [] h = refl
absent_last id (n ∷ ns) h = ground (arith, absent_last id ns)

last_absent :
    (id : String) (ns : List Node)
    → find_last (λ n. n.node_id == id) ns ≡ none
    → contains (map (λ n. n.node_id) ns) id ≡ false
unfolding contains find_last
last_absent id [] h = refl
last_absent id (n ∷ ns) h = elim (Option-cases (find_last (λ m. m.node_id == id) ns)) [
  | inl gone ↦ ground (arith, last_absent id ns gone)
  | inr (k, found) ↦ absurd (ground arith)
]

last_present :
    (id : String) (ns : List Node) (n : Node)
    → find_last (λ m. m.node_id == id) ns ≡ some n
    → contains (map (λ m. m.node_id) ns) id ≡ true
last_present id ns n e = elim (Bool-cases (contains (map (λ m. m.node_id) ns) id)) [
  | inl inside ↦ inside
  | inr outside ↦ absurd (ground (arith, absent_last id ns outside))
]

count-update_last :
    (id : String) (ns : List Node) (n : Node)
    → find_last (λ m. m.node_id == id) ns ≡ some n
    → is_skippable n.status ≡ true
    → open_nodes (update_last id skip ns) < open_nodes ns
unfolding update_last find_last count
count-update_last id [] n e h = cc
count-update_last id (m ∷ ns) n e h = elim (Option-cases (find_last (λ k. k.node_id == id) ns)) [
  | inl gone ↦
      let closed = skip-not_open m in
      let outside = last_absent id ns gone in ground (arith, gone, e, h)
  | inr (k, found) ↦
      let inside = last_present id ns k found in
      let same : k ≡ n = ground (arith, found, e) in
      let less = count-update_last id ns n (found ∙ ap some same) h in ground (arith, inside, less)
]

skipped-IsPass :
    (g : Graph) (changed : Bool) (ns : List Node)
    → open_nodes ns < open_nodes g.nodes
    → IsPass (g, changed) (record g { nodes = ns }, true)
skipped-IsPass g changed ns less = record {
  fewer = omega arith;
  progress = λ _. inr less;
  same = λ e. absurd (ground arith);
}

skip_target-IsPass : (s t : Graph × Bool) (id : String) → skip_target s id ≡ ok t → IsPass s t
unfolding skip_target by_id
skip_target-IsPass (g, changed) t id e =
    elim (Option-cases (find_last (λ m. m.node_id == id) g.nodes)) [
      | inl gone ↦ absurd (ground (arith, gone, e))
      | inr (n, found) ↦ elim (Bool-cases (is_skippable n.status)) [
        | inl can ↦ subst (IsPass (g, changed)) (ok-injective (rw (found, can) at e)) (
            skipped-IsPass g changed (update_last id skip g.nodes)
              (count-update_last id g.nodes n found can))
        | inr shut ↦
            subst (IsPass (g, changed)) (ok-injective (rw (found, shut) at e))
              (IsPass-refl (g, changed))
      ]
    ]

count-append : (xs ys : List Node) → open_nodes (xs ++ ys) ≡ open_nodes xs + open_nodes ys
unfolding count
count-append [] ys = omega arith
count-append (x ∷ xs) ys = ground (arith, count-append xs ys)

append_nil : (xs : List Node) → xs ++ [] ≡ xs
append_nil [] = refl
append_nil (x ∷ xs) = ap (◌∷◌ x) (append_nil xs)

append_one : (xs : List Node) (n : Node) (ns : List Node) → (xs ++ n ∷ []) ++ ns ≡ xs ++ n ∷ ns
append_one [] n ns = refl
append_one (x ∷ xs) n ns = ap (◌∷◌ x) (append_one xs n ns)

must_skip-open : (g : Graph) (n : Node) → must_skip g n ≡ ok true → is_skippable n.status ≡ true
unfolding must_skip
must_skip-open g n e = ground arith

count-skip :
    (before ns : List Node) (n : Node)
    → is_skippable n.status ≡ true
    → open_nodes (before ++ skip n ∷ ns) < open_nodes (before ++ n ∷ ns)
unfolding count
count-skip before ns n can =
    let closed = skip-not_open n in
    ground (arith, count-append before (skip n ∷ ns), count-append before (n ∷ ns))

-- The graph while the loop over its nodes runs.
abbrev during : Graph → List Node → List Node → Graph
during g before ns = record g { nodes = before ++ ns }

sweep-IsPass :
    (g : Graph) (before ns : List Node) (changed : Bool) (t : Graph × Bool)
    → sweep g before ns changed ≡ ok t
    → IsPass (during g before ns, changed) t
unfolding sweep
sweep-IsPass g before [] changed t e =
    subst (λ ns. IsPass (record g { nodes = ns }, changed) t) (sym (append_nil before))
      (subst (IsPass (record g { nodes = before }, changed)) (ok-injective e) (IsPass-refl _))
sweep-IsPass g before (n ∷ ns) changed t e =
    let (blocked, is, rest) =
      >>=-eq-ok (must_skip (during g before (n ∷ ns)) n)
        (λ b. sweep g (before ++ (if b then skip n else n) ∷ []) ns (b || changed)) e in
    go blocked is (
      sweep-IsPass g (before ++ (if blocked then skip n else n) ∷ []) ns (blocked || changed) t
        rest)
  where
    go :
        (b : Bool)
        → must_skip (during g before (n ∷ ns)) n ≡ ok b
        → IsPass (during g (before ++ (if b then skip n else n) ∷ []) ns, b || changed) t
        → IsPass (during g before (n ∷ ns), changed) t
    go false is p =
        subst (λ k. IsPass (record g { nodes = k }, changed) t) (append_one before n ns) p
    go true is p =
        IsPass-trans (during g before (n ∷ ns), changed) (during g before (skip n ∷ ns), true) t
          (skipped-IsPass (during g before (n ∷ ns)) changed (before ++ skip n ∷ ns)
            (count-skip before ns n (must_skip-open (during g before (n ∷ ns)) n is)))
          (subst (λ k. IsPass (record g { nodes = k }, true) t) (append_one before (skip n) ns) p)

skip_round-IsPass : (g : Graph) (t : Graph × Bool) → skip_round g ≡ ok t → IsPass (g, false) t
unfolding skip_round
skip_round-IsPass g t e =
    let (found, _, e₁) = >>=-eq-ok (inactive_conditional_targets g) _ e in
    let (s, is, e₂) =
      >>=-eq-ok (fold_result skip_target (g, false) found) (λ s. sweep s.0 [] s.0.nodes s.1) e₁ in
    IsPass-trans (g, false) s t
      (fold_result-keeps IsPass skip_target IsPass-refl IsPass-trans skip_target-IsPass (g, false) s
        found is)
      (sweep-IsPass s.0 [] s.0.nodes s.1 t e₂)

skip_rounds-settle :
    (fuel : ℕ) (g g' : Graph)
    → open_nodes g.nodes < fuel
    → skip_rounds fuel g ≡ ok g'
    → skip_round g' ≡ ok (g', false)
unfolding skip_rounds
skip_rounds-settle zero g g' less e = absurd (omega arith)
skip_rounds-settle (suc fuel) g g' less e =
    let (s, is, rest) =
      >>=-eq-ok (skip_round g) (λ s. elim s.1 [ true ↦ skip_rounds fuel s.0 | false ↦ ok s.0 ]) e in
    let p = skip_round-IsPass g s is in
    elim (Bool-cases s.1) [
      | inl changed ↦ elim (p.progress changed) [
        | inl never ↦ absurd (ground arith)
        | inr fewer ↦
            skip_rounds-settle fuel s.0 g' (omega (arith, fewer, less)) (rw changed at rest)
      ]
      | inr still ↦
          let k = p.same still in
          let last : s.0 ≡ g' = ok-injective (rw still at rest) in
          let here : g ≡ g' = ap (λ x. x.0) k ∙ last in
          subst (λ x. skip_round x ≡ ok (x, false)) here (is ∙ sym (ap ok k))
    ]

-- The rounds are enough: in the graph that is returned, one more round finds nothing to skip.
pub skip_unselected_branches-settle :
    (g g' : Graph) → skip_unselected_branches g ≡ ok g' → skip_round g' ≡ ok (g', false)
unfolding skip_unselected_branches
skip_unselected_branches-settle g g' e =
    skip_rounds-settle (suc (length g.nodes)) g g'
      (omega (arith, count-le-length (λ (n : Node). is_skippable n.status) g.nodes)) e
