-- ===== src/Graph/State/Evolves.antt =====
-- Input hashes, skipped branches and READY marks as changes of the nodes.
use mathlib.Core.List.{append-nil, append_assoc}
use codex_routecraft.Prelude.{
  ℕ, zero, suc, Bool, true, false, ◌||◌, String, List, [], ◌∷◌, ◌++◌, ◌≡◌, refl, subst, ◌∙◌, inl,
  inr, ok, ◌>>=◌, or_raise, >>=-eq-ok, ok-injective, fold_result, fold_result-keeps, map_result,
  Pointwise-append, Pointwise-map_result, distinct, sorted, Bool-cases, if◌then◌else◌, length,
}
use codex_routecraft.Graph.Types.{Node, Graph, key_error}
use codex_routecraft.Graph.Scheduler.{by_id, dependencies, inactive_conditional_targets}
use codex_routecraft.Graph.Skip.{
  Hashes, upstream_of, update_last, hash_node, recompute_input_hashes, clear_result, is_skippable,
  skip, skip_target, must_skip, sweep, skip_round, skip_rounds, skip_unselected_branches,
}
use codex_routecraft.Graph.State.{is_ready, unready}
use codex_routecraft.Graph.State.Change.{
  Change, Change-refl, Changes, Changes-refl, Changes-trans, IsQuiet-Change, update_last-Changes,
}

pub record Evolves (g g' : Graph) : Type 0 where
  pub nodes_change : Changes g.nodes g'.nodes
  pub same_edges : g.edges ≡ g'.edges

pub Evolves-refl : (g : Graph) → Evolves g g
Evolves-refl g = record { nodes_change = Changes-refl g.nodes; same_edges = refl }

pub Evolves-trans : (a b c : Graph) → Evolves a b → Evolves b c → Evolves a c
Evolves-trans a b c p q = record {
  nodes_change = Changes-trans a.nodes b.nodes c.nodes p.nodes_change q.nodes_change;
  same_edges = p.same_edges ∙ q.same_edges;
}

hash_node-Change : (h : Hashes) (g : Graph) (n m : Node) → hash_node h g n ≡ ok m → Change n m
unfolding hash_node
hash_node-Change h g n m e =
    let (upstream, _, last) =
      >>=-eq-ok (map_result (upstream_of g) (sorted (distinct (dependencies g n.node_id)))) _ e in
    subst (Change n) (ok-injective last) (
      IsQuiet-Change n _ record {
        same_id = refl;
        same_type = refl;
        same_dependencies = refl;
        same_tools = refl;
        same_policy = refl;
        same_attempt = refl;
        claim = λ r. r;
      })

pub recompute_input_hashes-Evolves :
    (h : Hashes) (g g' : Graph) → recompute_input_hashes h g ≡ ok g' → Evolves g g'
unfolding recompute_input_hashes
recompute_input_hashes-Evolves h g g' e =
    let (ns, are, last) =
      >>=-eq-ok (map_result (hash_node h g) g.nodes) (λ ns. ok (record g { nodes = ns })) e in
    subst (Evolves g) (ok-injective last) record {
      nodes_change =
          Pointwise-map_result Change (hash_node h g) (hash_node-Change h g) g.nodes ns are;
      same_edges = refl;
    }

pub skip-Change : (n : Node) → Change n (skip n)
unfolding skip clear_result
skip-Change n = IsQuiet-Change n _ record {
  same_id = refl;
  same_type = refl;
  same_dependencies = refl;
  same_tools = refl;
  same_policy = refl;
  same_attempt = refl;
  claim = λ r. cc;
}

abbrev Marked : Graph × Bool → Graph × Bool → Type 0
Marked s t = Evolves s.0 t.0

skip_target-Evolves : (s t : Graph × Bool) (id : String) → skip_target s id ≡ ok t → Marked s t
unfolding skip_target
skip_target-Evolves (g, changed) t id e =
    let (n, is, last) =
      >>=-eq-ok (or_raise (by_id g id) (key_error id))
        (λ n. ok (
          if is_skippable n.status
          then (record g { nodes = update_last id skip g.nodes }, true)
          else (g, changed)))
        e in
    subst (Marked (g, changed)) (ok-injective last) (elim (Bool-cases (is_skippable n.status)) [
      | inl b ↦ rw b record {
        nodes_change = update_last-Changes id skip g.nodes skip-Change;
        same_edges = refl;
      }
      | inr b ↦ rw b (Evolves-refl g)
    ])

skip_if : (blocked : Bool) (n : Node) → Change n (if blocked then skip n else n)
skip_if true n = skip-Change n
skip_if false n = Change-refl n

sweep-Evolves :
    (g : Graph) (before ns : List Node) (changed : Bool) (t : Graph × Bool)
    → sweep g before ns changed ≡ ok t
    → Changes (before ++ ns) t.0.nodes × (g.edges ≡ t.0.edges)
unfolding sweep
sweep-Evolves g before [] changed t e =
    subst (λ s. Changes (before ++ []) s.0.nodes × (g.edges ≡ s.0.edges)) (ok-injective e)
      (rw append-nil (Changes-refl before), refl)
sweep-Evolves g before (n ∷ ns) changed t e =
    let here = record g { nodes = before ++ n ∷ ns } in
    let (blocked, _, more) =
      >>=-eq-ok (must_skip here n)
        (λ blocked.
          sweep g (before ++ (if blocked then skip n else n) ∷ []) ns (blocked || changed))
        e in
    let m = if blocked then skip n else n in
    let (changes, same) = sweep-Evolves g (before ++ m ∷ []) ns (blocked || changed) t more in
    (
      Changes-trans (before ++ n ∷ ns) (before ++ m ∷ ns) t.0.nodes
          (Pointwise-append Change before before (n ∷ ns) (m ∷ ns) (Changes-refl before)
            (skip_if blocked n, Changes-refl ns))
          (rw append_assoc at changes),
      same,
    )

skip_round-Evolves : (g : Graph) (t : Graph × Bool) → skip_round g ≡ ok t → Evolves g t.0
unfolding skip_round
skip_round-Evolves g t e =
    let (found, _, more) =
      >>=-eq-ok (inactive_conditional_targets g)
        (λ found. fold_result skip_target (g, false) found >>= λ s. sweep s.0 [] s.0.nodes s.1) e in
    let (s, marked, swept) =
      >>=-eq-ok (fold_result skip_target (g, false) found) (λ s. sweep s.0 [] s.0.nodes s.1) more in
    let before =
      fold_result-keeps Marked skip_target (λ u. Evolves-refl u.0)
        (λ u v w. Evolves-trans u.0 v.0 w.0) skip_target-Evolves (g, false) s found marked in
    let (changes, same) = sweep-Evolves s.0 [] s.0.nodes s.1 t swept in
    Evolves-trans g s.0 t.0 before record { nodes_change = changes; same_edges = same }

skip_rounds-Evolves : (fuel : ℕ) (g g' : Graph) → skip_rounds fuel g ≡ ok g' → Evolves g g'
unfolding skip_rounds
skip_rounds-Evolves zero g g' e = subst (Evolves g) (ok-injective e) (Evolves-refl g)
skip_rounds-Evolves (suc fuel) g g' e =
    let (s, is, more) =
      >>=-eq-ok (skip_round g) (λ s. elim s.1 [ true ↦ skip_rounds fuel s.0 | false ↦ ok s.0 ]) e in
    let first = skip_round-Evolves g s is in
    elim (Bool-cases s.1) [
      | inl again ↦
          Evolves-trans g s.0 g' first (skip_rounds-Evolves fuel s.0 g' (rw again at more))
      | inr done ↦ subst (Evolves g) (ok-injective (rw done at more)) first
    ]

pub skip_unselected_branches-Evolves :
    (g g' : Graph) → skip_unselected_branches g ≡ ok g' → Evolves g g'
unfolding skip_unselected_branches
skip_unselected_branches-Evolves g g' e = skip_rounds-Evolves (suc (length g.nodes)) g g' e

pub unready-Change : (n : Node) → Change n (unready n)
unfolding unready
unready-Change n = elim (Bool-cases (is_ready n.status)) [
  | inl r ↦ rw r (
      IsQuiet-Change n _ record {
        same_id = refl;
        same_type = refl;
        same_dependencies = refl;
        same_tools = refl;
        same_policy = refl;
        same_attempt = refl;
        claim = λ k. cc;
      })
  | inr r ↦ rw r (Change-refl n)
]
