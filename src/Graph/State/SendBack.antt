-- ===== src/Graph/State/SendBack.antt =====
-- Send-backs: the return of a failed gate to its targets.
use codex_routecraft.Prelude.{
  Bool, true, false, ◌||◌, String, List, [], ◌∷◌, map, ◌≡◌, sym, ap, subst, inl, inr, arith, ok,
  ◌>>◌, require, require-eq-ok, >>=-eq-ok, ok-injective, fold_result, any, any-sort_by,
  find_first-test, sort_by, text_le, All, All-map, ◌==◌, ==_iff, Bool-cases,
}
use codex_routecraft.Graph.Types.{GraphStatus, Node, Edge, Graph, send_back_target_not_retryable}
use codex_routecraft.Graph.Skip.{find_node, clear_result}
use codex_routecraft.Graph.State.{
  is_failed, is_failing, is_gate, is_completed, is_retryable, is_exhausted, invalidate, fail_node,
  send_one, send_backs, apply_send_back,
}
use codex_routecraft.Graph.State.Ids.{HasDistinctIds, Evolves-HasDistinctIds, find_node-some}
use codex_routecraft.Graph.State.Inversion.{apply_send_back-ok}
use codex_routecraft.Graph.State.Transitions.{fail_node-Evolves}
use codex_routecraft.Graph.State.Failure.{after_failure, fail_node-map}

-- The nodes whose id passes the test are FAILED.
abbrev pub AreFailed : (String → Bool) → List Node → Type 0
AreFailed q = All (λ n. q n.node_id ≡ true → is_failed n.status ≡ true)

after_failure-failed :
    (g : Graph) (id : String) (n : Node)
    → is_failed n.status ≡ true
    → is_failed (after_failure g id n).status ≡ true
unfolding after_failure invalidate clear_result
after_failure-failed g id n h = ground arith

after_failure_self :
    (g : Graph) (id : String) (n : Node)
    → n.node_id ≡ id
    → is_failed (after_failure g id n).status ≡ true
unfolding after_failure
after_failure_self g id n h = ground (arith, (==_iff n.node_id id).1 h)

pub after_failure_keeps :
    (g : Graph) (id : String) (n : Node) → (after_failure g id n).node_id ≡ n.node_id
unfolding after_failure invalidate clear_result
after_failure_keeps g id n = ground arith

AreFailed-after_failure :
    (g : Graph) (id : String) (q : String → Bool) (ns : List Node)
    → AreFailed q ns
    → AreFailed (λ x. (id == x) || q x) (map (after_failure g id) ns)
AreFailed-after_failure g id q [] h = tt
AreFailed-after_failure g id q (n ∷ ns) h = (
  λ m.
      let same = after_failure_keeps g id n in
      let test : ((id == n.node_id) || q n.node_id) ≡ true =
        subst (λ k. ((id == k) || q k) ≡ true) same m in
      elim (Bool-cases (id == n.node_id)) [
        | inl e ↦ after_failure_self g id n (sym ((==_iff id n.node_id).0 e))
        | inr e ↦ after_failure-failed g id n (h.0 (ground arith))
      ],
  AreFailed-after_failure g id q ns h.1,
)

pub find_node-node_id :
    (g : Graph) (id : String) (n : Node) → find_node g id ≡ ok n → n.node_id ≡ id
find_node-node_id g id n e =
    (==_iff n.node_id id).0
      (find_first-test (λ m. m.node_id == id) g.nodes n (find_node-some g id n e))

send_one-AreFailed :
    (now : String) (g g' : Graph) (b : Edge) (q : String → Bool)
    → HasDistinctIds g
    → send_one now g b ≡ ok g'
    → AreFailed q g.nodes
    → AreFailed (λ x. (b.target == x) || q x) g'.nodes × HasDistinctIds g'
unfolding send_one
send_one-AreFailed now g g' b q d e h =
    let (target, found, more) =
      >>=-eq-ok (find_node g b.target)
        (λ target.
          require (is_retryable target.status) send_back_target_not_retryable
          >> fail_node now g target.node_id)
        e in
    let (_, failed) =
      require-eq-ok (is_retryable target.status) send_back_target_not_retryable
        (fail_node now g target.node_id) more in
    let (nodes, _, _) = fail_node-map now g g' target.node_id d failed in
    let r = λ (id : String) (x : String). (id == x) || q x in
    (
      subst (λ id. AreFailed (r id) g'.nodes) (find_node-node_id g b.target target found)
          (subst (AreFailed (r target.node_id)) (sym nodes)
            (AreFailed-after_failure g target.node_id q g.nodes h)),
      Evolves-HasDistinctIds g g' (fail_node-Evolves now g g' target.node_id failed) d,
    )

weaken :
    (q r : String → Bool)
    → ((x : String) → r x ≡ true → q x ≡ true)
    → (ns : List Node) → AreFailed q ns
    → AreFailed r ns
weaken q r f ns h = All-map (λ n k m. k (f n.node_id m)) ns h

send_all-AreFailed :
    (now : String) (g g' : Graph) (es : List Edge) (q : String → Bool)
    → HasDistinctIds g
    → fold_result (send_one now) g es ≡ ok g'
    → AreFailed q g.nodes
    → AreFailed (λ x. any (λ b. b.target == x) es || q x) g'.nodes
unfolding fold_result any
send_all-AreFailed now g g' [] q d e h = subst (λ k. AreFailed q k.nodes) (ok-injective e) h
send_all-AreFailed now g g' (b ∷ es) q d e h =
    let (s, is, rest) = >>=-eq-ok (send_one now g b) (λ s. fold_result (send_one now) s es) e in
    let (failed, d') = send_one-AreFailed now g s b q d is h in
    weaken (λ x. any (λ c. c.target == x) es || ((b.target == x) || q x))
      (λ x. any (λ c. c.target == x) (b ∷ es) || q x) (λ x m. ground arith) g'.nodes
      (send_all-AreFailed now s g' es (λ x. (b.target == x) || q x) d' rest failed)

nobody : (ns : List Node) → AreFailed (λ _. false) ns
nobody [] = tt
nobody (n ∷ ns) = (λ e. cc, nobody ns)

-- What `apply_send_back` promises when it returns.
pub record IsSentBack (g g' : Graph) (source : Node) : Type 0 where
  pub gate : is_gate source.node_type ≡ true
  pub completed : is_completed source.status ≡ true
  pub failing : is_failing source.gate_result ≡ true
  pub bounded : any (is_exhausted source.attempt) (send_backs g source.node_id) ≡ false
  pub targets_failed :
      AreFailed (λ x. any (λ b. b.target == x) (send_backs g source.node_id)) g'.nodes
  pub resumed : g'.status ≡ GraphStatus.running

-- A returned send-back had a completed GATE with a FAIL or INCONCLUSIVE verdict as its source, no
-- edge whose bound the gate's attempts have passed, and leaves every target FAILED, in a graph that
-- is RUNNING.
pub apply_send_back-IsSentBack :
    (now : String) (g g' : Graph) (id : String)
    → HasDistinctIds g
    → apply_send_back now g id ≡ ok g'
    → (source : Node) × (find_node g id ≡ ok source) × IsSentBack g g' source
apply_send_back-IsSentBack now g g' id d e =
    let (source, value, found, gate, failing, _, left, looped, last) =
      apply_send_back-ok now g g' id e in
    let named = find_node-node_id g id source found in
    let le = λ (a b : Edge). text_le a.target b.target in
    let failed =
      send_all-AreFailed now g value (sort_by le (send_backs g id)) (λ _. false) d looped
        (nobody g.nodes) in
    let q = λ (k : String) (x : String). any (λ b. b.target == x) (send_backs g k) in
    let on_targets : AreFailed (q id) value.nodes =
      weaken (λ x. any (λ b. b.target == x) (sort_by le (send_backs g id)) || false) (q id)
        (λ x m. ground (arith, any-sort_by le (λ (b : Edge). b.target == x) (send_backs g id)))
        value.nodes failed in
    (
      source,
      found,
      record {
        gate = ground arith;
        completed = ground arith;
        failing = failing;
        bounded =
            subst (λ k. any (is_exhausted source.attempt) (send_backs g k) ≡ false) (sym named)
              (ground arith);
        targets_failed =
            subst (λ k. AreFailed (q k) g'.nodes) (sym named)
              (subst (λ k. AreFailed (q id) k.nodes) last on_targets);
        resumed = ap (λ k. k.status) (sym last);
      },
    )
