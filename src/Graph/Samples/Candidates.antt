-- ===== src/Graph/Samples/Candidates.antt =====
-- A policy candidate on its way to approval, and the theorems on it.
use codex_routecraft.Prelude.{String, Bool, true, some, none, List, [], ◌∷◌, ◌≡◌, refl, ok}
use codex_routecraft.Core.Words.{Value}
use codex_routecraft.Graph.Policy.{
  PolicyStatus, PolicyCandidate, EventClassification, Confidence, Approval,
  validate_policy_transition, can_promote,
}
use codex_routecraft.Graph.Policy.History.{
  History, begin, revise, approved-History, Revisions, same, later, IsKept, Revisions-IsKept,
  IsPromotable, can_promote-IsPromotable,
}

abbrev with_status : PolicyStatus → PolicyCandidate
with_status status = record {
  policy_id = "p-1";
  base_policy = "routecraft-production-v1";
  candidate_change = Value.text "raise the limit";
  evidence = record { evidence_ref = "e1"; event_classification = EventClassification.normal } ∷ [];
  sample_size = 5;
  confidence = Confidence.medium;
  known_risk = "slower runs";
  status = status;
}

abbrev approval : Approval
approval = record {
  actor_ref = "ana@host";
  evidence_ref = "e1";
  approved_at = "2026-01-01T00:00:00Z";
  decision = "APPROVE";
}

abbrev any_time : String → Bool
any_time s = true

drafted : validate_policy_transition none (with_status PolicyStatus.draft) ≡ ok tt
unfolding validate_policy_transition
drafted = refl

shadowed :
    validate_policy_transition
      (some (with_status PolicyStatus.draft))
      (with_status PolicyStatus.shadow)
    ≡ ok tt
unfolding validate_policy_transition
shadowed = refl

proposed :
    validate_policy_transition
      (some (with_status PolicyStatus.shadow))
      (with_status PolicyStatus.candidate)
    ≡ ok tt
unfolding validate_policy_transition
proposed = refl

settled :
    validate_policy_transition
      (some (with_status PolicyStatus.candidate))
      (with_status PolicyStatus.approved)
    ≡ ok tt
unfolding validate_policy_transition
settled = refl

abbrev statuses : List PolicyStatus
statuses =
    PolicyStatus.approved ∷ PolicyStatus.candidate ∷ PolicyStatus.shadow ∷ PolicyStatus.draft ∷ []

sample-History : History statuses (with_status PolicyStatus.approved)
sample-History =
    revise (with_status PolicyStatus.approved)
      (revise (with_status PolicyStatus.candidate)
        (revise (with_status PolicyStatus.shadow) (begin (with_status PolicyStatus.draft) drafted)
          shadowed)
        proposed)
      settled

approved-History_example : statuses ≡ statuses
approved-History_example =
    approved-History statuses (with_status PolicyStatus.approved) sample-History refl

two_steps : Revisions (with_status PolicyStatus.draft) (with_status PolicyStatus.candidate)
two_steps =
    later (with_status PolicyStatus.candidate)
      (later (with_status PolicyStatus.shadow) same shadowed) proposed

Revisions-IsKept_example :
    IsKept (with_status PolicyStatus.draft) (with_status PolicyStatus.candidate)
Revisions-IsKept_example = Revisions-IsKept two_steps

may_promote : can_promote any_time (with_status PolicyStatus.approved) (some approval) ≡ ok true
unfolding can_promote
may_promote = refl

can_promote-IsPromotable_example : IsPromotable (with_status PolicyStatus.approved) approval
can_promote-IsPromotable_example =
    can_promote-IsPromotable any_time (with_status PolicyStatus.approved) approval may_promote
