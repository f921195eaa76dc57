-- ===== src/Graph/Policy.antt =====
-- routecraft_graph/policy.py: policy candidates, their life cycle and the test for promotion.
-- A candidate is a record of the fields that the source asks for, so the checks of JSON shapes are
-- left out.
pub mod Values
pub mod History
pub mod Config
use codex_routecraft.Prelude.{
  ℕ, ◌+◌, Bool, true, false, not, ◌&&◌, ◌||◌, String, Option, none, some, List, [], ◌∷◌, map,
  Result, ok, err, ◌>>=◌, ◌>>◌, require, any, all, contains, distinct, length, ltb, leb, ◌==◌,
  if◌then◌else◌,
}
use codex_routecraft.Core.Words.{Value, Fields, codes, strip, opaque_char, same_number, same_codes}
use codex_routecraft.Graph.Policy.Values.{same_value}

pub data PolicyStatus : Type 0 where
  draft shadow candidate approved rejected retired : PolicyStatus

pub data Confidence : Type 0 where
  insufficient low medium high : Confidence

pub data EventClassification : Type 0 where
  normal benchmark_run migration_event incident_response token_burn_event reset_expectation
        manual_stress_test release_validation :
      EventClassification

pub record Evidence : Type 0 where
  pub evidence_ref : String
  pub event_classification : EventClassification

-- `expected_benefit` is left out: a number or null, that nothing reads.
pub record PolicyCandidate : Type 0 where
  pub policy_id : String
  pub base_policy : String
  pub candidate_change : Value
  pub evidence : List Evidence
  pub sample_size : ℕ
  pub confidence : Confidence
  pub known_risk : String
  pub status : PolicyStatus

pub data PolicyError : Type 0 where
  id_invalid base_invalid change_invalid evidence_invalid evidence_duplicate risk_invalid
        evidence_insufficient evidence_not_normal confidence_insufficient :
      PolicyError
  must_start_at_draft transition_invalid identity_changed sample_decreased evidence_removed :
      PolicyError

-- [A-Za-z0-9._:-]{1,96}
unfoldable pub is_policy_id : String → Bool
unfolding opaque_char all
is_policy_id s = leb 1 (length (codes s)) && leb (length (codes s)) 96 && all opaque_char (codes s)

-- [A-Za-z0-9._:@+-]{1,80}
unfoldable pub is_actor : String → Bool
unfolding opaque_char all
is_actor s =
    leb 1 (length (codes s))
    && leb (length (codes s)) 80
    && all (λ c. opaque_char c || same_number c b'@' || same_number c b'+') (codes s)

-- `value.strip()` is not empty.
unfoldable pub has_text : String → Bool
unfolding strip
has_text s = leb 1 (length (strip (codes s)))

unfoldable pub is_change : Value → Bool
unfolding has_text
is_change (Value.text s) = has_text s
is_change (Value.object (Fields.field _ _ _)) = true
is_change _ = false

abbrev pub is_normal : EventClassification → Bool
is_normal EventClassification.normal = true
is_normal _ = false

abbrev pub is_active : PolicyStatus → Bool
is_active PolicyStatus.shadow = true
is_active PolicyStatus.candidate = true
is_active PolicyStatus.approved = true
is_active _ = false

abbrev pub is_proposed : PolicyStatus → Bool
is_proposed PolicyStatus.candidate = true
is_proposed PolicyStatus.approved = true
is_proposed _ = false

abbrev pub is_approved : PolicyStatus → Bool
is_approved PolicyStatus.approved = true
is_approved _ = false

abbrev pub is_draft : PolicyStatus → Bool
is_draft PolicyStatus.draft = true
is_draft _ = false

abbrev pub is_confident : Confidence → Bool
is_confident Confidence.medium = true
is_confident Confidence.high = true
is_confident _ = false

unfoldable pub refs_of : PolicyCandidate → List String
refs_of c = map (λ e. e.evidence_ref) c.evidence

-- What the status asks of the evidence.
unfoldable pub validate_status : PolicyCandidate → Result PolicyError (Unit {0})
unfolding any
validate_status c = do
  require (not (is_active c.status && (ltb c.sample_size 1 || not (any (λ _. true) c.evidence))))
      evidence_insufficient
  require
      (not (is_proposed c.status && any (λ e. not (is_normal e.event_classification)) c.evidence))
      evidence_not_normal
  require (not (is_approved c.status && not (is_confident c.confidence))) confidence_insufficient

unfoldable pub validate_policy_candidate : PolicyCandidate → Result PolicyError (Unit {0})
unfolding is_policy_id is_change refs_of has_text distinct all validate_status ◌==◌
validate_policy_candidate c = do
  require (is_policy_id c.policy_id) id_invalid
  require (not (c.base_policy == "")) base_invalid
  require (is_change c.candidate_change) change_invalid
  require (all (λ e. not (e.evidence_ref == "")) c.evidence) evidence_invalid
  require (leb (length (refs_of c)) (length (distinct (refs_of c)))) evidence_duplicate
  require (has_text c.known_risk) risk_invalid
  validate_status c

-- The table `transitions`.
unfoldable pub may_become : PolicyStatus → PolicyStatus → Bool
may_become PolicyStatus.draft PolicyStatus.shadow = true
may_become PolicyStatus.draft PolicyStatus.rejected = true
may_become PolicyStatus.shadow PolicyStatus.candidate = true
may_become PolicyStatus.shadow PolicyStatus.rejected = true
may_become PolicyStatus.shadow PolicyStatus.retired = true
may_become PolicyStatus.candidate PolicyStatus.approved = true
may_become PolicyStatus.candidate PolicyStatus.rejected = true
may_become PolicyStatus.candidate PolicyStatus.retired = true
may_become PolicyStatus.approved PolicyStatus.retired = true
may_become _ _ = false

unfoldable pub same_identity : PolicyCandidate → PolicyCandidate → Bool
unfolding same_value ◌==◌
same_identity c p =
    (c.policy_id == p.policy_id)
    && (c.base_policy == p.base_policy)
    && same_value c.candidate_change p.candidate_change

unfoldable pub validate_policy_transition :
    Option PolicyCandidate → PolicyCandidate → Result PolicyError (Unit {0})
unfolding validate_policy_candidate may_become same_identity refs_of contains all
validate_policy_transition none c = do
  validate_policy_candidate c
  require (is_draft c.status) must_start_at_draft
validate_policy_transition (some p) c = do
  validate_policy_candidate c
  validate_policy_candidate p
  require (may_become p.status c.status) transition_invalid
  require (same_identity c p) identity_changed
  require (leb p.sample_size c.sample_size) sample_decreased
  require (all (contains (refs_of c)) (refs_of p)) evidence_removed

pub record Approval : Type 0 where
  pub actor_ref : String
  pub evidence_ref : String
  pub approved_at : String
  pub decision : String

-- `is_time` is the match of the time pattern by `re`; `none` is an approval of another shape.
unfoldable pub can_promote :
    (is_time : String → Bool) → PolicyCandidate → Option Approval → Result PolicyError Bool
unfolding validate_policy_candidate is_actor refs_of contains ◌==◌
can_promote is_time c approval = do
  validate_policy_candidate c
  ok (elim approval [
    | none ↦ false
    | some a ↦
        (a.decision == "APPROVE")
        && is_actor a.actor_ref
        && is_time a.approved_at
        && is_approved c.status
        && contains (refs_of c) a.evidence_ref
  ])
