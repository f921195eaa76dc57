-- ===== src/Core/Verification/Outcome.antt =====
-- routecraft_core/verification.py: `verification_outcome`, what is copied of a host's report.
use codex_routecraft.Prelude.{
  ℕ, Bool, true, false, ◌&&◌, ◌||◌, String, Option, none, some, List, [], ◌∷◌, ◌≡◌, refl, inl, inr,
  arith, map, all, contains, leb, length, Bool-cases, Option-cases, ◌==◌, ==_iff, if◌then◌else◌,
}
use codex_routecraft.Core.Settings.{VerificationBudget}
use codex_routecraft.Core.Words.{
  Value, Fields, codes, lower, word_in, between, same_number, same_codes,
}

abbrev pub outcome_statuses : List String
outcome_statuses = "planned" ∷ "pass" ∷ "fail" ∷ "skipped" ∷ "not_required" ∷ "unknown" ∷ []

abbrev pub outcome_counts : List String
outcome_counts =
    "tests_run" ∷ "targeted_tests" ∷ "full_suites" ∷ "builds" ∷ "lint_runs" ∷ "typechecks"
    ∷ "e2e_runs" ∷ "avoided_full_suites" ∷ "avoided_e2e" ∷ "avoided_builds" ∷ "avoided_lint"
    ∷ "avoided_typechecks" ∷ "verification_duration_ms" ∷ []

-- The reason is kept as its characters.
pub record VerificationOutcome : Type 0 where
  pub status : String
  pub reason : List ℕ
  pub counts : List (String × Option ℕ)

unfoldable pub reported : Fields → String → Option Value
unfolding ◌==◌
reported Fields.end key = none
reported (Fields.field k v fs) key = if k == key then some v else reported fs key

unfoldable pub outcome_status : Option Value → String
unfolding word_in lower
outcome_status (some (Value.text s)) = elim (word_in (map lower (codes s)) outcome_statuses) [
  | none ↦ "unknown"
  | some w ↦ w
]
outcome_status _ = "unknown"

-- A character of [a-z0-9_].
unfoldable pub reason_char : ℕ → Bool
reason_char c = between b'a' b'z' c || between b'0' b'9' c || same_number c b'_'

-- [a-z][a-z0-9_]{0,63}
unfoldable pub is_reason : List ℕ → Bool
unfolding reason_char all
is_reason [] = false
is_reason (c ∷ cs) = between b'a' b'z' c && all reason_char cs && leb (length cs) 63

-- `True` is printed as a word that passes; no other value but a text is.
unfoldable pub outcome_reason : Option Value → List ℕ
unfolding is_reason lower
outcome_reason (some (Value.text s)) =
    if is_reason (map lower (codes s)) then map lower (codes s) else codes "host_reported"
outcome_reason (some (Value.bool true)) = codes "true"
outcome_reason _ = codes "host_reported"

unfoldable pub outcome_count : Option Value → Option ℕ
outcome_count (some (Value.num n)) = some n
outcome_count _ = none

unfoldable pub read_outcome : Fields → VerificationOutcome
unfolding outcome_status outcome_reason outcome_count reported
read_outcome raw = record {
  status = outcome_status (reported raw "status");
  reason = outcome_reason (reported raw "reason");
  counts = map (λ name. (name, outcome_count (reported raw name))) outcome_counts;
}

abbrev pub not_required : VerificationOutcome
not_required = record {
  status = "not_required";
  reason = codes "verification_not_required";
  counts = map (λ name. (name, some 0)) outcome_counts;
}

abbrev pub not_reported : VerificationOutcome
not_reported = record {
  status = "unknown";
  reason = codes "host_did_not_report";
  counts = map (λ name. (name, none)) outcome_counts;
}

-- `none` is a response that is no mapping; the value is what it has under "verification".
unfoldable pub verification_outcome :
    Option (Option Value) → VerificationBudget → VerificationOutcome
unfolding read_outcome
verification_outcome response VerificationBudget.none = not_required
verification_outcome (some (some (Value.object raw))) _ = read_outcome raw
verification_outcome _ _ = not_reported

pub record IsCategorical (o : VerificationOutcome) : Type 0 where
  pub known_status : contains outcome_statuses o.status ≡ true
  pub safe_reason : is_reason o.reason ≡ true
  pub known_counts : map (λ c. c.0) o.counts ≡ outcome_counts

word_in-contains :
    (cs : List ℕ) (ws : List String) (w : String) → word_in cs ws ≡ some w → contains ws w ≡ true
unfolding word_in contains
word_in-contains cs [] w e = cc
word_in-contains cs (v ∷ ws) w e = elim (Bool-cases (same_codes cs (codes v))) [
  | inl hit ↦ let same : v ≡ w = ground (arith, hit, e) in ground (arith, (==_iff v w).1 same)
  | inr miss ↦ ground (arith, word_in-contains cs ws w (rw miss at e))
]

outcome_status-contains : (v : Option Value) → contains outcome_statuses (outcome_status v) ≡ true
unfolding outcome_status contains
outcome_status-contains (some (Value.text s)) =
    elim (Option-cases (word_in (map lower (codes s)) outcome_statuses)) [
      | inl missing ↦ rw (outcome_status, missing) refl
      | inr (w, found) ↦
          rw (outcome_status, found)
            (word_in-contains (map lower (codes s)) outcome_statuses w found)
    ]
outcome_status-contains none = refl
outcome_status-contains (some Value.null) = refl
outcome_status-contains (some (Value.bool _)) = refl
outcome_status-contains (some (Value.num _)) = refl
outcome_status-contains (some (Value.negative _)) = refl
outcome_status-contains (some (Value.fraction _ _ _)) = refl
outcome_status-contains (some (Value.array _)) = refl
outcome_status-contains (some (Value.object _)) = refl

outcome_reason-safe : (v : Option Value) → is_reason (outcome_reason v) ≡ true
unfolding outcome_reason is_reason all reason_char
outcome_reason-safe (some (Value.text s)) = elim (Bool-cases (is_reason (map lower (codes s)))) [
  | inl safe ↦ rw safe safe
  | inr other ↦ rw other refl
]
outcome_reason-safe (some (Value.bool true)) = refl
outcome_reason-safe (some (Value.bool false)) = refl
outcome_reason-safe none = refl
outcome_reason-safe (some Value.null) = refl
outcome_reason-safe (some (Value.num _)) = refl
outcome_reason-safe (some (Value.negative _)) = refl
outcome_reason-safe (some (Value.fraction _ _ _)) = refl
outcome_reason-safe (some (Value.array _)) = refl
outcome_reason-safe (some (Value.object _)) = refl

read_outcome-IsCategorical : (raw : Fields) → IsCategorical (read_outcome raw)
unfolding read_outcome
read_outcome-IsCategorical raw = record {
  known_status = outcome_status-contains (reported raw "status");
  safe_reason = outcome_reason-safe (reported raw "reason");
  known_counts = refl;
}

-- Whatever a host reports, the outcome has one of the known statuses, a reason of the safe form, and
-- exactly the known counts.
pub verification_outcome-IsCategorical :
    (response : Option (Option Value)) (budget : VerificationBudget)
    → IsCategorical (verification_outcome response budget)
unfolding verification_outcome is_reason reason_char all contains
verification_outcome-IsCategorical response VerificationBudget.none = record {
  known_status = refl;
  safe_reason = refl;
  known_counts = refl;
}
verification_outcome-IsCategorical (some (some (Value.object raw))) VerificationBudget.min =
    read_outcome-IsCategorical raw
verification_outcome-IsCategorical (some (some (Value.object raw))) VerificationBudget.strict =
    read_outcome-IsCategorical raw
verification_outcome-IsCategorical (some (some (Value.object raw))) VerificationBudget.release =
    read_outcome-IsCategorical raw
verification_outcome-IsCategorical _ _ = record {
  known_status = refl;
  safe_reason = refl;
  known_counts = refl;
}
