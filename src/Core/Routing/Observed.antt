-- ===== src/Core/Routing/Observed.antt =====
-- routecraft_core/routing.py: what RouteCraftCore records about a decision, and the cases that it
-- recalls from memory. `str.isalnum` on one character is the parameter `is_alnum`.
use codex_routecraft.Prelude.{
  ℕ, ◌≤◌, Bool, true, false, not, ◌&&◌, ◌||◌, String, Option, none, some, List, [], ◌∷◌, ◌++◌, ◌≡◌,
  refl, ap, subst, arith, ◌⊎◌, inl, inr, All, All-append, all, contains, contains-append, length,
  length-append, leb, ltb, ◌==◌, ==_iff, ==_comm, if◌then◌else◌, Bool-cases, NoRepeats, and-eq-true,
}
use mathlib.Core.Option.{some_inj}
use codex_routecraft.Core.Words.{codes, same_number}
use codex_routecraft.Core.Routing.{RoutingMode, RoutingRequest, RoutingDecision}

abbrev pub is_routecraft : RoutingMode → Bool
is_routecraft RoutingMode.routecraft = true
is_routecraft _ = false

abbrev pub is_native : RoutingMode → Bool
is_native RoutingMode.native = true
is_native _ = false

abbrev pub is_set {ℓ} : {A : Type ℓ} → Option A → Bool
is_set none = false
is_set (some _) = true

-- `_decision_source`
unfoldable pub decision_source : RoutingRequest → RoutingDecision → String
unfolding ◌==◌
decision_source request decision =
    if decision.status == "fallback"
    then "fallback"
    else if is_routecraft decision.mode && (decision.authority == "routecraft")
    then "routecraft"
    else if is_native request.mode || (decision.authority == "host")
    then "codex"
    else if is_set request.model || is_set request.requested_reasoning
    then "user"
    else "unknown"

-- What `_safe_host_telemetry` has kept of a host's answer: the facts that are looked at here, and
-- the rest, which is passed on.
pub record HostFacts : Type 0 where
  pub actual_model : Option String
  pub actual_reasoning : Option String
  pub retry_count : Option ℕ
  pub counts : List (String × ℕ)

-- The values that `_telemetry` sets to something else than null, less the version.
pub record TelemetryValues : Type 0 where
  pub requested_model : Option String
  pub requested_reasoning : Option String
  pub selected_reasoning : Option String
  pub actual_model : Option String
  pub actual_reasoning : Option String
  pub source : String
  pub decision_reason : String
  pub route_changed : Option Bool
  pub memory_recall_used : Option Bool
  pub memory_case_ids : Option (List String)
  pub retry_count : Option ℕ
  pub counts : List (String × ℕ)

abbrev pub differs : Option String → Option String → Option Bool
differs none actual = none
differs (some requested) none = none
differs (some requested) (some actual) = some (not (requested == actual))

-- The model decides where it is known to differ; else the reasoning effort does.
unfoldable pub route_changed : RoutingRequest → HostFacts → Option Bool
route_changed request facts = elim (differs request.model facts.actual_model) [
  | none ↦ none
  | some true ↦ some true
  | some false ↦ differs request.requested_reasoning facts.actual_reasoning
]

-- The host's own count of retries, or else the core's.
abbrev pub or_else {ℓ} : {A : Type ℓ} → Option A → Option A → Option A
or_else none later = later
or_else (some a) later = some a

abbrev pub Recalled : Type 0
Recalled = Option Bool × Option (List String)

unfoldable pub telemetry :
    RoutingRequest → RoutingDecision → Recalled → HostFacts → Option ℕ → TelemetryValues
unfolding route_changed decision_source
telemetry request decision recalled facts retry_count = record {
  requested_model = request.model;
  requested_reasoning = request.requested_reasoning;
  selected_reasoning = decision.reasoning_effort;
  actual_model = facts.actual_model;
  actual_reasoning = facts.actual_reasoning;
  source = decision_source request decision;
  decision_reason = decision.reason;
  route_changed = route_changed request facts;
  memory_recall_used = recalled.0;
  memory_case_ids = recalled.1;
  retry_count = or_else facts.retry_count retry_count;
  counts = facts.counts;
}

-- What `memory.recall` comes to: an exception, a value that is no list, or a list, of which each
-- item has a text under "id" or has none.
pub data Recall : Type 0 where
  raised : Recall
  no_list : Recall
  listed : List (Option String) → Recall

module _ (is_alnum : ℕ → Bool) where
  abbrev pub case_char : ℕ → Bool
  case_char c =
      same_number c b'_'
      || same_number c b'-'
      || same_number c b'.'
      || same_number c b':'
      || is_alnum c

  unfoldable pub is_case_id : String → Bool
  unfolding all
  is_case_id s = leb (length (codes s)) 128 && leb 1 (length (codes s)) && all case_char (codes s)

  -- The loop over the items, with `case_ids` so far.
  unfoldable pub collect : List String → List (Option String) → List String
  unfolding is_case_id contains
  collect case_ids [] = case_ids
  collect case_ids (none ∷ items) = collect case_ids items
  collect case_ids (some s ∷ items) =
      let kept = collect (case_ids ++ s ∷ []) items in
      let dropped = collect case_ids items in
      if is_case_id s && not (contains case_ids s) && ltb (length case_ids) 32
      then kept
      else dropped

  abbrev pub is_nonempty {ℓ} : {A : Type ℓ} → List A → Bool
  is_nonempty [] = false
  is_nonempty (_ ∷ _) = true

  unfoldable pub recall : Recall → Recalled
  unfolding collect
  recall raised = (none, none)
  recall no_list = (some false, some [])
  recall (listed items) = (some (is_nonempty items), some (collect [] items))

  -- The case ids that are recorded.
  pub record IsRecall (ids : List String) : Type 0 where
    pub few : length ids ≤ 32
    pub distinct_ids : NoRepeats ids
    pub safe : All (λ s. is_case_id s ≡ true) ids

  NoRepeats-append :
      (xs : List String) (s : String)
      → NoRepeats xs
      → contains xs s ≡ false
      → NoRepeats (xs ++ s ∷ [])
  unfolding contains
  NoRepeats-append [] s d h = (refl, tt)
  NoRepeats-append (x ∷ xs) s d h = (
    ground (arith, contains-append xs (s ∷ []) x, d.0, h, ==_comm x s),
    NoRepeats-append xs s d.1 (ground (arith, h)),
  )

  collect-IsRecall :
      (case_ids : List String) (items : List (Option String))
      → IsRecall case_ids
      → IsRecall (collect case_ids items)
  unfolding collect
  collect-IsRecall case_ids [] r = r
  collect-IsRecall case_ids (none ∷ items) r = collect-IsRecall case_ids items r
  collect-IsRecall case_ids (some s ∷ items) r =
      elim (Bool-cases (is_case_id s && not (contains case_ids s) && ltb (length case_ids) 32)) [
        | inr dropped ↦ rw (dropped, collect) (collect-IsRecall case_ids items r)
        | inl kept ↦
            let (first, room) =
              (and-eq-true (is_case_id s && not (contains case_ids s)) _).0 kept in
            let (safe, new) = (and-eq-true (is_case_id s) (not (contains case_ids s))).0 first in
            rw (kept, collect)
              (collect-IsRecall (case_ids ++ s ∷ []) items record {
                few = ground (arith, length-append case_ids (s ∷ []), room);
                distinct_ids = NoRepeats-append case_ids s r.distinct_ids (ground (arith, new));
                safe = All-append (λ k. is_case_id k ≡ true) case_ids (s ∷ []) r.safe (safe, tt);
              })
      ]

  -- Whatever the memory answers, the case ids that are recorded are at most 32, no two of them are
  -- the same, and each has the safe form.
  pub recall-IsRecall :
      (answer : Recall) (ids : List String) → (recall answer).1 ≡ some ids → IsRecall ids
  unfolding recall
  recall-IsRecall raised ids e = cc
  recall-IsRecall no_list ids e =
      subst IsRecall (some_inj.0 e) record { few = omega arith; distinct_ids = tt; safe = tt }
  recall-IsRecall (listed items) ids e =
      subst IsRecall (some_inj.0 e)
        (collect-IsRecall [] items record { few = omega arith; distinct_ids = tt; safe = tt })

abbrev pub AreDifferent : Option String → Option String → Type 0
AreDifferent a b = (x : String) × (y : String) × (a ≡ some x) × (b ≡ some y) × ((x == y) ≡ false)

differs-AreDifferent : (a b : Option String) → differs a b ≡ some true → AreDifferent a b
differs-AreDifferent none b e = cc
differs-AreDifferent (some x) none e = cc
differs-AreDifferent (some x) (some y) e = (x, y, refl, refl, not-true (x == y) (some_inj.0 e))
  where
    not-true : (b : Bool) → not b ≡ true → b ≡ false
    not-true true h = cc
    not-true false h = refl

differs-false : (a b : Option String) → differs a b ≡ some false → a ≡ b
differs-false none b e = cc
differs-false (some x) none e = cc
differs-false (some x) (some y) e = ap some ((==_iff x y).0 (not-false (x == y) (some_inj.0 e)))
  where
    not-false : (b : Bool) → not b ≡ false → b ≡ true
    not-false true h = refl
    not-false false h = cc

-- A change of route is recorded only where it was observed: the host reported another model than
-- the requested one, or the same model and another reasoning effort than the requested one.
pub route_changed-AreDifferent :
    (request : RoutingRequest) (facts : HostFacts)
    → route_changed request facts ≡ some true
    → AreDifferent request.model facts.actual_model
      ⊎ (request.model ≡ facts.actual_model)
        × AreDifferent request.requested_reasoning facts.actual_reasoning
unfolding route_changed
route_changed-AreDifferent request facts e =
    by_model (differs request.model facts.actual_model) refl e
  where
    by_model :
        (d : Option Bool)
        → differs request.model facts.actual_model ≡ d
        → ◌≡◌ {A = Option Bool}
            (elim d [
              | none ↦ none
              | some true ↦ some true
              | some false ↦ differs request.requested_reasoning facts.actual_reasoning
            ])
            (some true)
        → AreDifferent request.model facts.actual_model
          ⊎ (request.model ≡ facts.actual_model)
            × AreDifferent request.requested_reasoning facts.actual_reasoning
    by_model none is h = cc
    by_model (some true) is h = inl (differs-AreDifferent request.model facts.actual_model is)
    by_model (some false) is h = inr (
      differs-false request.model facts.actual_model is,
      differs-AreDifferent request.requested_reasoning facts.actual_reasoning h,
    )
