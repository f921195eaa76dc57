-- ===== src/Graph/State/Inversion.antt =====
-- What each transition tested and wrote, when it returned.
use codex_routecraft.Prelude.{
  Bool, true, false, not, ◌&&◌, ◌||◌, String, Option, some, List, map, ◌≡◌, arith, ok, ◌>>=◌, ◌>>◌,
  require, require-eq-ok, >>=-eq-ok, ok-injective, fold_result, any, sort_by, text_le, ltb,
  if◌then◌else◌,
}
use codex_routecraft.Graph.Types.{
  NodeStatus, GraphStatus, GateResult, Node, Graph, not_ready, accepted_before_running,
  gate_evidence_required, gate_result_on_other_node, cannot_fail, send_back_requires_gate,
  send_back_requires_failure, no_active_send_back, convergence_failed, only_failed_can_retry,
}
use codex_routecraft.Graph.Scheduler.{downstream}
use codex_routecraft.Graph.Skip.{Hashes, find_node}
use codex_routecraft.Graph.State.{
  is_ready, is_running, is_completed, is_failed, is_gate, is_nil, is_some, is_retryable, is_failing,
  set_ready, with_node, run, accept, is_finished, mark_ready, start_node, accept_node,
  after_verdict, resolve_gate_result, invalidate, change_each, freeze, fail_node, send_backs,
  is_exhausted, send_one, apply_send_back, retry_node,
}

pub start_node-ok :
    (now : String) (g g' : Graph) (id : String)
    → start_node now g id ≡ ok g'
    → (n : Node) × (find_node g id ≡ ok n)
      × (is_ready n.status ≡ true)
      × (record (with_node g id run) { status = GraphStatus.running; updated_at = now } ≡ g')
unfolding start_node
start_node-ok now g g' id e =
    let started = record (with_node g id run) { status = GraphStatus.running; updated_at = now } in
    let (n, found, more) =
      >>=-eq-ok (find_node g id) (λ n. require (is_ready n.status) not_ready >> ok started) e in
    let (ready, last) = require-eq-ok (is_ready n.status) not_ready (ok started) more in
    (n, found, ready, ok-injective last)

pub retry_node-ok :
    (now : String) (g g' : Graph) (id : String)
    → retry_node now g id ≡ ok g'
    → (n : Node) × (find_node g id ≡ ok n)
      × (is_failed n.status ≡ true)
      × (ltb n.attempt n.retry_policy.max_attempts ≡ true)
      × (record (with_node g id set_ready) { status = GraphStatus.running; updated_at = now } ≡ g')
unfolding retry_node
retry_node-ok now g g' id e =
    let retried = record (with_node g id set_ready) {
      status = GraphStatus.running;
      updated_at = now;
    } in
    let (n, found, more) =
      >>=-eq-ok (find_node g id)
        (λ n.
          require (is_failed n.status) only_failed_can_retry
          >> (require (ltb n.attempt n.retry_policy.max_attempts) convergence_failed >> ok retried))
        e in
    let (failed, more') = require-eq-ok (is_failed n.status) only_failed_can_retry _ more in
    let (left, last) =
      require-eq-ok (ltb n.attempt n.retry_policy.max_attempts) convergence_failed (ok retried)
        more' in
    (n, found, failed, left, ok-injective last)

-- `accept_node` before its last test.
abbrev pub accepted_graph :
    Hashes → String → Graph → String → String → List String → Option GateResult → Graph
accepted_graph h now g id output refs verdict =
    record (with_node g id (accept (h.of_output output) refs verdict)) { updated_at = now }

abbrev pub finish : Graph → Graph
finish value = if is_finished value then record value { status = GraphStatus.accepted } else value

pub accept_node-ok :
    (h : Hashes) (now : String) (g g' : Graph) (id output : String) (refs : List String)
    (verdict : Option GateResult)
    → accept_node h now g id output refs verdict ≡ ok g'
    → (n : Node) × (value : Graph) × (find_node g id ≡ ok n)
      × (is_running n.status ≡ true)
      × ((n.gate_policy.required && is_nil refs) ≡ false)
      × ((is_gate n.node_type || not (is_some verdict)) ≡ true)
      × (mark_ready h (accepted_graph h now g id output refs verdict) 3 ≡ ok value)
      × (finish value ≡ g')
unfolding accept_node
accept_node-ok h now g g' id output refs verdict e =
    let last_step = mark_ready h (accepted_graph h now g id output refs verdict) 3 >>= λ value.
    ok (finish value) in
    let (n, found, m1) =
      >>=-eq-ok (find_node g id)
        (λ n.
          require (is_running n.status) accepted_before_running
          >> (require (not (n.gate_policy.required && is_nil refs)) gate_evidence_required
              >> (require (is_gate n.node_type || not (is_some verdict)) gate_result_on_other_node
                  >> last_step)))
        e in
    let (running, m2) = require-eq-ok (is_running n.status) accepted_before_running _ m1 in
    let (evidence, m3) =
      require-eq-ok (not (n.gate_policy.required && is_nil refs)) gate_evidence_required _ m2 in
    let (typed, m4) =
      require-eq-ok (is_gate n.node_type || not (is_some verdict)) gate_result_on_other_node
        last_step m3 in
    let (value, marked, last) =
      >>=-eq-ok (mark_ready h (accepted_graph h now g id output refs verdict) 3)
        (λ value. ok (finish value)) m4 in
    (
      n,
      value,
      found,
      running,
      unless n.gate_policy.required refs evidence,
      typed,
      marked,
      ok-injective last,
    )
  where
    unless : (r : Bool) (rs : List String) → not (r && is_nil rs) ≡ true → (r && is_nil rs) ≡ false
    unless r rs k = ground arith

pub resolve_gate_result-ok :
    (h : Hashes) (now : String) (g g' : Graph) (id : String) (verdict : GateResult)
    (output : String) (refs : List String)
    → resolve_gate_result h now g id verdict output refs ≡ ok g'
    → (value : Graph) × (gate : Node) × (accept_node h now g id output refs (some verdict)
        ≡ ok value)
      × (find_node value id ≡ ok gate)
      × (record value { status = after_verdict verdict gate.gate_policy.is_global value.status }
          ≡ g')
unfolding resolve_gate_result
resolve_gate_result-ok h now g g' id verdict output refs e =
    let settle = λ (value : Graph) (gate : Node). record value {
      status = after_verdict verdict gate.gate_policy.is_global value.status;
    } in
    let (value, accepted, more) =
      >>=-eq-ok (accept_node h now g id output refs (some verdict))
        (λ value. find_node value id >>= λ gate. ok (settle value gate)) e in
    let (gate, found, last) =
      >>=-eq-ok (find_node value id) (λ gate. ok (settle value gate)) more in
    (value, gate, accepted, found, ok-injective last)

abbrev pub failed_graph : Graph → String → Graph
failed_graph g id = with_node g id (λ m. record m { status = NodeStatus.failed })

abbrev pub frozen_graph : String → String → List String → Graph → Graph
frozen_graph now id affected value = record value {
  nodes = map (freeze id affected) value.nodes;
  status = GraphStatus.failed;
  updated_at = now;
}

pub fail_node-ok :
    (now : String) (g g' : Graph) (id : String)
    → fail_node now g id ≡ ok g'
    → (n : Node) × (value : Graph) × (find_node g id ≡ ok n)
      × (is_retryable n.status ≡ true)
      × (change_each invalidate (failed_graph g id) (downstream (failed_graph g id) id) ≡ ok value)
      × (frozen_graph now id (downstream (failed_graph g id) id) value ≡ g')
unfolding fail_node
fail_node-ok now g g' id e =
    let affected = downstream (failed_graph g id) id in
    let rest = change_each invalidate (failed_graph g id) affected >>= λ value.
    ok (frozen_graph now id affected value) in
    let (n, found, more) =
      >>=-eq-ok (find_node g id) (λ n. require (is_retryable n.status) cannot_fail >> rest) e in
    let (retryable, more') = require-eq-ok (is_retryable n.status) cannot_fail rest more in
    let (value, changed, last) =
      >>=-eq-ok (change_each invalidate (failed_graph g id) affected)
        (λ value. ok (frozen_graph now id affected value)) more' in
    (n, value, found, retryable, changed, ok-injective last)

pub apply_send_back-ok :
    (now : String) (g g' : Graph) (id : String)
    → apply_send_back now g id ≡ ok g'
    → (source : Node) × (value : Graph) × (find_node g id ≡ ok source)
      × ((is_gate source.node_type && is_completed source.status) ≡ true)
      × (is_failing source.gate_result ≡ true)
      × (any (λ _. true) (send_backs g id) ≡ true)
      × (not (any (is_exhausted source.attempt) (send_backs g id)) ≡ true)
      × (fold_result (send_one now) g (sort_by (λ a b. text_le a.target b.target) (send_backs g id))
          ≡ ok value)
      × (record value { status = GraphStatus.running; updated_at = now } ≡ g')
unfolding apply_send_back
apply_send_back-ok now g g' id e =
    let loop =
      fold_result (send_one now) g (sort_by (λ a b. text_le a.target b.target) (send_backs g id)) in
    let close =
      λ (value : Graph). record value { status = GraphStatus.running; updated_at = now } in
    let (source, found, m1) =
      >>=-eq-ok (find_node g id)
        (λ source.
          require (is_gate source.node_type && is_completed source.status) send_back_requires_gate
          >> (require (is_failing source.gate_result) send_back_requires_failure
              >> (require (any (λ _. true) (send_backs g id)) no_active_send_back
                  >> (require (not (any (is_exhausted source.attempt) (send_backs g id)))
                        convergence_failed
                      >> (loop >>= λ value. ok (close value))))))
        e in
    let (gate, m2) =
      require-eq-ok (is_gate source.node_type && is_completed source.status) send_back_requires_gate
        _ m1 in
    let (failing, m3) =
      require-eq-ok (is_failing source.gate_result) send_back_requires_failure _ m2 in
    let (some_edge, m4) =
      require-eq-ok (any (λ _. true) (send_backs g id)) no_active_send_back _ m3 in
    let (left, m5) =
      require-eq-ok (not (any (is_exhausted source.attempt) (send_backs g id))) convergence_failed
        (loop >>= λ value. ok (close value)) m4 in
    let (value, looped, last) = >>=-eq-ok loop (λ value. ok (close value)) m5 in
    (source, value, found, gate, failing, some_edge, left, looped, ok-injective last)
