-- ===== src/Graph/State/Apart.antt =====
-- Send-backs to several targets, of which one may depend on another.
use codex_routecraft.Prelude.{
  Bool, true, false, ◌||◌, String, some, List, [], ◌∷◌, map, ◌≡◌, sym, ap, subst, ◌∙◌, inl, inr,
  arith, ok, ◌>>◌, require, require-eq-ok, >>=-eq-ok, fold_result, find_first, contains, sort_by,
  text_le, All, ◌==◌, ==_comm, Bool-cases,
}
use codex_routecraft.Graph.Types.{Node, Edge, Graph, send_back_target_not_retryable}
use codex_routecraft.Graph.Scheduler.{downstream}
use codex_routecraft.Graph.Skip.{find_node, clear_result}
use codex_routecraft.Graph.State.{
  is_retryable, invalidate, fail_node, send_one, send_backs, apply_send_back,
}
use codex_routecraft.Graph.State.Evolves.{Evolves, Evolves-refl, Evolves-trans}
use codex_routecraft.Graph.State.Ids.{HasDistinctIds, Evolves-HasDistinctIds, find_node-some}
use codex_routecraft.Graph.State.Inversion.{apply_send_back-ok}
use codex_routecraft.Graph.State.Structure.{downstream-Evolves}
use codex_routecraft.Graph.State.Transitions.{fail_node-Evolves}
use codex_routecraft.Graph.State.Failure.{after_failure, fail_node-map}
use codex_routecraft.Graph.State.SendBack.{after_failure_keeps, find_node-node_id}

-- The nodes whose id passes the test cannot be retried.
abbrev AreSettled : (String → Bool) → List Node → Type 0
AreSettled q = All (λ n. q n.node_id ≡ true → is_retryable n.status ≡ false)

-- What the failure of a node undoes: itself and all that needs it.
abbrev pub undone : Graph → String → String → Bool
undone g id x = (id == x) || contains (downstream g id) x

after_failure-settled :
    (g : Graph) (id : String) (n : Node)
    → is_retryable n.status ≡ false
    → is_retryable (after_failure g id n).status ≡ false
unfolding after_failure invalidate clear_result
after_failure-settled g id n h = ground arith

after_failure-undone :
    (g : Graph) (id : String) (n : Node)
    → undone g id n.node_id ≡ true
    → is_retryable (after_failure g id n).status ≡ false
unfolding after_failure invalidate clear_result
after_failure-undone g id n h = ground (arith, ==_comm n.node_id id)

AreSettled-after_failure :
    (g : Graph) (id : String) (q : String → Bool) (ns : List Node)
    → AreSettled q ns
    → AreSettled (λ x. undone g id x || q x) (map (after_failure g id) ns)
AreSettled-after_failure g id q [] h = tt
AreSettled-after_failure g id q (n ∷ ns) h = (
  λ m.
      let test : (undone g id n.node_id || q n.node_id) ≡ true =
        subst (λ k. (undone g id k || q k) ≡ true) (after_failure_keeps g id n) m in
      elim (Bool-cases (undone g id n.node_id)) [
        | inl e ↦ after_failure-undone g id n e
        | inr e ↦ after_failure-settled g id n (h.0 (ground (arith, e, test)))
      ],
  AreSettled-after_failure g id q ns h.1,
)

find_first-All :
    (P : Node → Type 0) (p : Node → Bool) (ns : List Node) (n : Node)
    → All P ns
    → find_first p ns ≡ some n
    → P n
unfolding find_first
find_first-All P p [] n h e = cc
find_first-All P p (m ∷ ns) n h e = elim (Bool-cases (p m)) [
  | inl this ↦ subst P (ground (arith, this, e)) h.0
  | inr other ↦ find_first-All P p ns n h.1 (rw other at e)
]

-- No target is undone by a target before it, and none passes the test `q`.
abbrev pub Apart : Graph → (String → Bool) → List Edge → Type 0
Apart g q [] = Unit
Apart g q (b ∷ bs) = (q b.target ≡ false) × Apart g (λ x. undone g b.target x || q x) bs

send_one-unsettled :
    (now : String) (g g' : Graph) (b : Edge) (q : String → Bool)
    → AreSettled q g.nodes
    → send_one now g b ≡ ok g'
    → (q b.target ≡ false) × (fail_node now g b.target ≡ ok g')
unfolding send_one
send_one-unsettled now g g' b q h e =
    let (target, found, more) =
      >>=-eq-ok (find_node g b.target)
        (λ target.
          require (is_retryable target.status) send_back_target_not_retryable
          >> fail_node now g target.node_id)
        e in
    let (can, failed) =
      require-eq-ok (is_retryable target.status) send_back_target_not_retryable
        (fail_node now g target.node_id) more in
    let named = find_node-node_id g b.target target found in
    let settled =
      find_first-All (λ n. q n.node_id ≡ true → is_retryable n.status ≡ false)
        (λ n. n.node_id == b.target) g.nodes target h (find_node-some g b.target target found) in
    (
      elim (Bool-cases (q b.target)) [
        | inl hit ↦ absurd (ground (arith, settled (ap q named ∙ hit), can))
        | inr miss ↦ miss
      ],
      subst (λ id. fail_node now g id ≡ ok g') named failed,
    )

module _ (now : String) (root : Graph) where
  send_all-Apart :
      (g g' : Graph) (es : List Edge) (q : String → Bool)
      → HasDistinctIds g
      → Evolves root g
      → AreSettled q g.nodes
      → fold_result (send_one now) g es ≡ ok g'
      → Apart root q es
  unfolding fold_result
  send_all-Apart g g' [] q d v h e = tt
  send_all-Apart g g' (b ∷ es) q d v h e =
      let (s, is, rest) = >>=-eq-ok (send_one now g b) (λ s. fold_result (send_one now) s es) e in
      let (free, failed) = send_one-unsettled now g s b q h is in
      let evolves = fail_node-Evolves now g s b.target failed in
      let (nodes, _, _) = fail_node-map now g s b.target d failed in
      let settled : AreSettled (λ x. undone g b.target x || q x) s.nodes =
        subst (AreSettled (λ x. undone g b.target x || q x)) (sym nodes)
          (AreSettled-after_failure g b.target q g.nodes h) in
      let same = downstream-Evolves root g b.target v in
      (
        free,
        send_all-Apart s g' es (λ x. undone root b.target x || q x)
            (Evolves-HasDistinctIds g s evolves d) (Evolves-trans root g s v evolves)
            (subst (λ ds. AreSettled (λ x. ((b.target == x) || contains ds x) || q x) s.nodes)
              (sym same) settled)
            rest,
      )

nothing_settled : (ns : List Node) → AreSettled (λ _. false) ns
nothing_settled [] = tt
nothing_settled (n ∷ ns) = (λ e. cc, nothing_settled ns)

-- A send-back returns only if, in the order of their ids, no target is the same as an earlier one or
-- needs one: the failure of the earlier target invalidates the later one, which is then refused.
pub apply_send_back-Apart :
    (now : String) (g g' : Graph) (id : String)
    → HasDistinctIds g
    → apply_send_back now g id ≡ ok g'
    → Apart g (λ _. false) (sort_by (λ a b. text_le a.target b.target) (send_backs g id))
apply_send_back-Apart now g g' id d e =
    let (_, value, _, _, _, _, _, looped, _) = apply_send_back-ok now g g' id e in
    send_all-Apart now g g value (sort_by (λ a b. text_le a.target b.target) (send_backs g id))
      (λ _. false) d (Evolves-refl g) (nothing_settled g.nodes) looped
