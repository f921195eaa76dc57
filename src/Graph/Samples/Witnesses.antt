-- ===== src/Graph/Samples/Witnesses.antt =====
-- The theorems on the kernel, each applied to a small graph.
use codex_routecraft.Prelude.{
  String, true, false, ==_iff, ==_comm, find_last, keep, subst, Bool-cases, inl, inr, some, [], ◌∷◌,
  ◌≡◌, ◌≤◌, ◌<◌, ◌-◌, Result, err, refl, ok, arith, ◌==◌, if◌then◌else◌, contains, length, ℕ, List,
  map, ◌↔◌, distinct,
}
use mathlib.Core.List.{reverse}
use codex_routecraft.Graph.Closure.{Reaches, targets}
use codex_routecraft.Graph.Compiler.{outgoing, reaches}
use codex_routecraft.Graph.Compiler.Paths.{reaches_iff}
use codex_routecraft.Graph.Types.{NodeStatus, GateResult, Node, Graph, GraphStatus, GraphError}
use codex_routecraft.Graph.Scheduler.{
  downstream, dependencies, dependency_keys, by_id, incoming_edges,
}
use codex_routecraft.Graph.Scheduler.Downstream.{Needs, downstream_iff}
use codex_routecraft.Graph.Ready.{running_ids, critical_path_lengths, length_at}
use codex_routecraft.Graph.Ready.Selection.{IsSelection, ready_nodes-IsSelection}
use codex_routecraft.Graph.Ready.Paths.{critical_path_lengths-lt, critical_path_lengths-total}
use codex_routecraft.Graph.Skip.Rounds.{skip_unselected_branches-settle}
use codex_routecraft.Graph.Skip.{skip_round, skip_unselected_branches, Hashes, find_node}
use codex_routecraft.Graph.State.Ids.{HasDistinctIds}
use codex_routecraft.Graph.State.{mark_ready, start_node, fail_node, apply_send_back}
use codex_routecraft.Graph.State.Failure.{after_failure, fail_node-map}
use codex_routecraft.Graph.State.SendBack.{IsSentBack, apply_send_back-IsSentBack}
use codex_routecraft.Graph.State.Budget.{
  Run, here, next, mark, start, fail, IsSound, Run-IsSound, Run-downstream,
}
use codex_routecraft.Prelude.{sort_by, text_le}
use codex_routecraft.Graph.State.{send_backs}
use codex_routecraft.Graph.Types.{EdgeType, Condition, send_back_target_not_retryable}
use codex_routecraft.Graph.State.Apart.{Apart, apply_send_back-Apart}
use codex_routecraft.Graph.Samples.{
  edge, sample, build, check, docs, ready_nodes-sample, critical-sample,
}

abbrev hashes : Hashes
hashes = record { of_input = λ i. "h"; of_output = λ s. s }

downstream_iff_example :
    (contains (downstream sample "build") "check" ≡ true) ↔ Needs sample "build" "check"
downstream_iff_example = downstream_iff sample "build" "check"

ready_nodes-IsSelection_example :
    (selected : List Node) × (map (λ n. n.node_id) selected ≡ "build" ∷ "docs" ∷ [])
    × IsSelection sample (running_ids sample) (3 - length (running_ids sample)) selected
ready_nodes-IsSelection_example =
    ready_nodes-IsSelection sample 3 ("build" ∷ "docs" ∷ []) ready_nodes-sample

is_key : contains (dependency_keys sample) "build" ≡ true
unfolding dependency_keys sample contains distinct
is_key = refl

is_needed : contains (dependencies sample "check") "build" ≡ true
unfolding dependencies sample contains
is_needed = refl

critical_path_lengths-lt_example :
    length_at (("build", 2) ∷ ("check", 1) ∷ ("docs", 2) ∷ []) "check"
    < length_at (("build", 2) ∷ ("check", 1) ∷ ("docs", 2) ∷ []) "build"
critical_path_lengths-lt_example =
    critical_path_lengths-lt sample (("build", 2) ∷ ("check", 1) ∷ ("docs", 2) ∷ []) "build" "check"
      critical-sample is_key is_needed

abbrev rank : String → ℕ
rank id = if id == "check" then 0 else 1

abbrev value_of : {A : Type 0} → Result GraphError A → A → A
value_of (ok a) b = a
value_of (err e) b = b

abbrev marked : Graph
unfolding mark_ready sample
marked = value_of (mark_ready hashes sample 3) sample

is_marked : mark_ready hashes sample 3 ≡ ok marked
unfolding mark_ready marked sample
is_marked = refl

abbrev started : Graph
unfolding start_node marked
started = value_of (start_node "t" marked "build") sample

is_started : start_node "t" marked "build" ≡ ok started
unfolding start_node started marked
is_started = refl

abbrev failed : Graph
unfolding fail_node started
failed = value_of (fail_node "t" started "build") sample

is_failed_graph : fail_node "t" started "build" ≡ ok failed
unfolding fail_node failed started
is_failed_graph = refl

three_left : (0 ≤ 3) × (false ≡ true → 0 < 3)
three_left = (omega arith, λ _. omega arith)

sample_ids : HasDistinctIds sample
unfolding sample contains
sample_ids = (refl, (refl, (refl, tt)))

sample-IsSound : IsSound sample
unfolding sample build check docs
sample-IsSound = record {
  distinct_ids = sample_ids;
  budgets = (three_left, (three_left, (three_left, tt)));
}

sample-Run : Run hashes sample failed
sample-Run =
    next (next (next here (mark 3 is_marked)) (start "t" "build" is_started))
      (fail "t" "build" is_failed_graph)

Run-IsSound_example : IsSound failed
Run-IsSound_example = Run-IsSound hashes sample-Run sample-IsSound

started_ids : HasDistinctIds started
unfolding started marked contains
started_ids = (refl, (refl, (refl, tt)))

fail_node-map_example :
    (failed.nodes ≡ map (after_failure started "build") started.nodes)
    × (failed.status ≡ GraphStatus.failed)
    × (failed.edges ≡ started.edges)
fail_node-map_example = fail_node-map "t" started failed "build" started_ids is_failed_graph

Run-downstream_example : downstream sample "build" ≡ downstream failed "build"
Run-downstream_example = Run-downstream hashes "build" sample-Run sample_ids

-- The gate has run once, with the verdict FAIL.
abbrev reviewed : Graph
unfolding sample build check docs
reviewed = record sample {
  nodes =
      record build { status = NodeStatus.accepted }
      ∷ record check {
        status = NodeStatus.accepted;
        attempt = 1;
        gate_result = some GateResult.fail;
      }
      ∷ record docs { status = NodeStatus.accepted }
      ∷ [];
}

abbrev sent_back : Graph
unfolding apply_send_back reviewed
sent_back = value_of (apply_send_back "t" reviewed "check") sample

is_sent_back : apply_send_back "t" reviewed "check" ≡ ok sent_back
unfolding apply_send_back sent_back reviewed
is_sent_back = refl

reviewed_ids : HasDistinctIds reviewed
unfolding reviewed contains
reviewed_ids = (refl, (refl, (refl, tt)))

apply_send_back-IsSentBack_example :
    (source : Node) × (find_node reviewed "check" ≡ ok source)
    × IsSentBack reviewed sent_back source
apply_send_back-IsSentBack_example =
    apply_send_back-IsSentBack "t" reviewed sent_back "check" reviewed_ids is_sent_back

is_absent : (x : String) → (x == "check") ≡ true → contains (dependencies sample "check") x ≡ false
unfolding dependencies contains sample
is_absent x h = rw ((==_iff x "check").0 h) refl

others_need_nothing :
    (x y : String) → ("check" == y) ≡ false → contains (dependencies sample y) x ≡ false
unfolding dependencies contains by_id incoming_edges sample build docs check find_last keep
others_need_nothing x y c = ground arith

ranks_rise : (x y : String) → contains (dependencies sample y) x ≡ true → rank y < rank x
ranks_rise x y h = elim (Bool-cases (y == "check")) [
  | inl c ↦ elim (Bool-cases (x == "check")) [
    | inl same ↦
        let on_check =
          subst (λ k. contains (dependencies sample k) x ≡ true) ((==_iff y "check").0 c) h in
        absurd (ground (arith, is_absent x same, on_check))
    | inr other ↦ ground (arith, c, other)
  ]
  | inr c ↦ absurd (ground (arith, others_need_nothing x y, ==_comm y "check"))
]

ranks_bounded :
    (x : String)
    → contains (dependency_keys sample) x ≡ true
    → rank x ≤ length (dependency_keys sample)
unfolding dependency_keys sample
ranks_bounded x h = ground arith

critical_path_lengths-total_example :
    (ls : List (String × ℕ)) × (critical_path_lengths sample ≡ ok ls)
critical_path_lengths-total_example =
    critical_path_lengths-total sample rank ranks_rise ranks_bounded

abbrev settled : Graph
unfolding skip_unselected_branches reviewed
settled = value_of (skip_unselected_branches reviewed) sample

is_settled : skip_unselected_branches reviewed ≡ ok settled
unfolding skip_unselected_branches settled reviewed
is_settled = refl

skip_unselected_branches-settle_example : skip_round settled ≡ ok (settled, false)
skip_unselected_branches-settle_example =
    skip_unselected_branches-settle reviewed settled is_settled

apply_send_back-Apart_example :
    Apart reviewed
      (λ _. false)
      (sort_by (λ a b. text_le a.target b.target) (send_backs reviewed "check"))
apply_send_back-Apart_example =
    apply_send_back-Apart "t" reviewed sent_back "check" reviewed_ids is_sent_back

-- Here `docs` needs `build`, and the gate sends back to both.
abbrev tangled : Graph
unfolding reviewed
tangled = record reviewed {
  edges =
      edge "build" "docs" EdgeType.depends_on Condition.null
      ∷ edge "check" "docs" EdgeType.send_back (Condition.control_transition GateResult.fail 1)
      ∷ reviewed.edges;
}

tangled-sample : apply_send_back "t" tangled "check" ≡ err send_back_target_not_retryable
unfolding apply_send_back tangled reviewed
tangled-sample = refl

reaches_iff_example :
    (reaches "build" "check" sample.edges ≡ true)
    ↔ Reaches (outgoing sample.edges) (reverse (targets (outgoing sample.edges) "build")) "check"
reaches_iff_example = reaches_iff "build" "check" sample.edges
