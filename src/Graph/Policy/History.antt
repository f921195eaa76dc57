-- ===== src/Graph/Policy/History.antt =====
-- Histories of a policy candidate, and its promotion: routecraft_graph/policy.py.
use codex_routecraft.Prelude.{
  ◌≤◌, Bool, true, false, not, ◌&&◌, ◌||◌, String, none, some, List, [], ◌∷◌, ◌≡◌, refl, sym, ap,
  subst, ◌∙◌, arith, ok, require-eq-ok, require-ok, >>=-eq-ok, any, all, contains, leb, leb→le, ltb,
  ◌==◌, ==_iff, inl, inr, Bool-cases,
}
use codex_routecraft.Graph.Policy.{
  PolicyStatus, PolicyCandidate, Approval, refs_of, is_approved, is_active, is_proposed, is_draft,
  is_confident, is_normal, is_actor, may_become, same_identity, validate_status,
  validate_policy_candidate, validate_policy_transition, can_promote, transition_invalid,
  identity_changed, sample_decreased, evidence_removed, must_start_at_draft,
}

-- The candidates that were accepted one after the other, from the first on, by their statuses, the
-- last first.
pub data History : List PolicyStatus → PolicyCandidate → Type 0 where
  begin :
      (c : PolicyCandidate) → validate_policy_transition none c ≡ ok tt → History (c.status ∷ []) c
  revise :
      {ss : List PolicyStatus} {p : PolicyCandidate} (c : PolicyCandidate)
      → History ss p
      → validate_policy_transition (some p) c ≡ ok tt
      → History (c.status ∷ ss) c

-- What a status says of the statuses up to it.
abbrev Expected : PolicyStatus → List PolicyStatus → Type 0
Expected PolicyStatus.draft ss = ss ≡ PolicyStatus.draft ∷ []
Expected PolicyStatus.shadow ss = ss ≡ PolicyStatus.shadow ∷ PolicyStatus.draft ∷ []
Expected PolicyStatus.candidate ss =
    ss ≡ PolicyStatus.candidate ∷ PolicyStatus.shadow ∷ PolicyStatus.draft ∷ []
Expected PolicyStatus.approved ss =
    ss
    ≡ PolicyStatus.approved ∷ PolicyStatus.candidate ∷ PolicyStatus.shadow ∷ PolicyStatus.draft ∷ []
Expected PolicyStatus.rejected ss = Unit
Expected PolicyStatus.retired ss = Unit

Expected-may_become :
    (s t : PolicyStatus) (ss : List PolicyStatus)
    → may_become s t ≡ true
    → Expected s ss
    → Expected t (t ∷ ss)
unfolding may_become
Expected-may_become PolicyStatus.draft PolicyStatus.shadow ss m e = ap (◌∷◌ PolicyStatus.shadow) e
Expected-may_become PolicyStatus.shadow PolicyStatus.candidate ss m e =
    ap (◌∷◌ PolicyStatus.candidate) e
Expected-may_become PolicyStatus.candidate PolicyStatus.approved ss m e =
    ap (◌∷◌ PolicyStatus.approved) e
Expected-may_become s PolicyStatus.rejected ss m e = tt
Expected-may_become s PolicyStatus.retired ss m e = tt
Expected-may_become s t ss m e = cc

pub record IsRevision (p c : PolicyCandidate) : Type 0 where
  pub allowed : may_become p.status c.status ≡ true
  pub same : same_identity c p ≡ true
  pub grows : leb p.sample_size c.sample_size ≡ true
  pub keeps_refs : all (contains (refs_of c)) (refs_of p) ≡ true

transition-IsRevision :
    (p c : PolicyCandidate) → validate_policy_transition (some p) c ≡ ok tt → IsRevision p c
unfolding validate_policy_transition
transition-IsRevision p c e =
    let (_, _, e₁) = >>=-eq-ok (validate_policy_candidate c) _ e in
    let (_, _, e₂) = >>=-eq-ok (validate_policy_candidate p) _ e₁ in
    let (a, e₃) = require-eq-ok (may_become p.status c.status) transition_invalid _ e₂ in
    let (i, e₄) = require-eq-ok (same_identity c p) identity_changed _ e₃ in
    let (g, e₅) = require-eq-ok (leb p.sample_size c.sample_size) sample_decreased _ e₄ in
    record { allowed = a; same = i; grows = g; keeps_refs = require-ok _ evidence_removed e₅ }

History-Expected :
    {ss : List PolicyStatus} {c : PolicyCandidate} → History ss c → Expected c.status ss
unfolding validate_policy_transition
History-Expected (begin c e) =
    let (_, _, e₁) = >>=-eq-ok (validate_policy_candidate c) _ e in
    is_first c.status (require-ok (is_draft c.status) must_start_at_draft e₁)
  where
    is_first : (s : PolicyStatus) → is_draft s ≡ true → Expected s (s ∷ [])
    is_first PolicyStatus.draft d = refl
    is_first s d = cc
History-Expected (revise {ss} {p} c h e) =
    Expected-may_become p.status c.status ss (transition-IsRevision p c e).allowed
      (History-Expected h)

-- A candidate whose history ends with APPROVED was DRAFT, SHADOW and CANDIDATE before, in this
-- order, and nothing else.
pub approved-History :
    (ss : List PolicyStatus) (c : PolicyCandidate)
    → History ss c
    → c.status ≡ PolicyStatus.approved
    → ss
      ≡ PolicyStatus.approved ∷ PolicyStatus.candidate ∷ PolicyStatus.shadow ∷ PolicyStatus.draft
        ∷ []
approved-History ss c h a = subst (λ s. Expected s ss) a (History-Expected h)

-- Candidates that were accepted one after the other, from one to a later one.
pub data Revisions (p : PolicyCandidate) : PolicyCandidate → Type 0 where
  same : Revisions p p
  later :
      {b : PolicyCandidate} (c : PolicyCandidate)
      → Revisions p b
      → validate_policy_transition (some b) c ≡ ok tt
      → Revisions p c

pub record IsKept (p c : PolicyCandidate) : Type 0 where
  pub same_id : p.policy_id ≡ c.policy_id
  pub same_base : p.base_policy ≡ c.base_policy
  pub sample_grows : p.sample_size ≤ c.sample_size
  pub refs_stay : (ref : String) → contains (refs_of p) ref ≡ true → contains (refs_of c) ref ≡ true

all-contains :
    (xs ys : List String) (x : String)
    → all (contains ys) xs ≡ true
    → contains xs x ≡ true
    → contains ys x ≡ true
unfolding all contains
all-contains [] ys x a h = cc
all-contains (y ∷ xs) ys x a h = elim (Bool-cases (y == x)) [
  | inl e ↦ subst (λ k. contains ys k ≡ true) ((==_iff y x).0 e) (ground (arith, a))
  | inr e ↦ all-contains xs ys x (ground (arith, a)) (rw e at h)
]

IsRevision-IsKept : (p c : PolicyCandidate) → IsRevision p c → IsKept p c
unfolding same_identity
IsRevision-IsKept p c r = record {
  same_id = sym ((==_iff c.policy_id p.policy_id).0 (ground (arith, r.same)));
  same_base = sym ((==_iff c.base_policy p.base_policy).0 (ground (arith, r.same)));
  sample_grows = leb→le p.sample_size c.sample_size r.grows;
  refs_stay = λ ref h. all-contains (refs_of p) (refs_of c) ref r.keeps_refs h;
}

-- Along accepted candidates the id and the base policy stay, the sample never shrinks, and no
-- evidence reference is lost.
pub Revisions-IsKept : {p c : PolicyCandidate} → Revisions p c → IsKept p c
Revisions-IsKept {p} same = record {
  same_id = refl;
  same_base = refl;
  sample_grows = omega arith;
  refs_stay = λ ref h. h;
}
Revisions-IsKept {p} (later {b} c r e) =
    let before = Revisions-IsKept r in
    let last = IsRevision-IsKept b c (transition-IsRevision b c e) in
    record {
      same_id = before.same_id ∙ last.same_id;
      same_base = before.same_base ∙ last.same_base;
      sample_grows = omega (arith, before.sample_grows, last.sample_grows);
      refs_stay = λ ref h. last.refs_stay ref (before.refs_stay ref h);
    }

pub record IsPromotable (c : PolicyCandidate) (a : Approval) : Type 0 where
  pub approved : is_approved c.status ≡ true
  pub confident : is_confident c.confidence ≡ true
  pub sampled : 1 ≤ c.sample_size
  pub only_normal : any (λ e. not (is_normal e.event_classification)) c.evidence ≡ false
  pub decided : a.decision ≡ "APPROVE"
  pub actor : is_actor a.actor_ref ≡ true
  pub bound : contains (refs_of c) a.evidence_ref ≡ true

record IsValid (c : PolicyCandidate) : Type 0 where
  enough : (is_active c.status && (ltb c.sample_size 1 || not (any (λ _. true) c.evidence))) ≡ false
  normal_only :
      (is_proposed c.status && any (λ e. not (is_normal e.event_classification)) c.evidence) ≡ false
  sure : (is_approved c.status && not (is_confident c.confidence)) ≡ false

validate_status-IsValid : (c : PolicyCandidate) → validate_status c ≡ ok tt → IsValid c
unfolding validate_status
validate_status-IsValid c e = record {
  enough = ground arith;
  normal_only = ground arith;
  sure = ground arith;
}

validate_policy_candidate-status :
    (c : PolicyCandidate) → validate_policy_candidate c ≡ ok tt → validate_status c ≡ ok tt
unfolding validate_policy_candidate
validate_policy_candidate-status c e = ground arith

-- A promotion that is allowed has an approved candidate of medium or high confidence, with a sample
-- and with evidence from normal events only, and an approval by a well-formed actor whose evidence
-- is the candidate's own.
pub can_promote-IsPromotable :
    (is_time : String → Bool) (c : PolicyCandidate) (a : Approval)
    → can_promote is_time c (some a) ≡ ok true
    → IsPromotable c a
unfolding can_promote
can_promote-IsPromotable is_time c a e =
    let (_, valid, last) = >>=-eq-ok (validate_policy_candidate c) _ e in
    let v = validate_status-IsValid c (validate_policy_candidate-status c valid) in
    record {
      approved = ground arith;
      confident = ground (arith, v.sure);
      sampled = ground (arith, v.enough);
      only_normal = ground (arith, v.normal_only);
      decided = (==_iff a.decision "APPROVE").0 (ground arith);
      actor = ground arith;
      bound = ground arith;
    }
