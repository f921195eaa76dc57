-- ===== src/Protocols/Telemetry/Consistent.antt =====
-- What an accepted envelope says of the route and of the tokens, and how the check of its route
-- meets what the core records as a change of route.
use codex_routecraft.Prelude.{
  ℕ, Bool, true, false, not, String, Option, none, some, List, [], ◌∷◌, ◌≡◌, refl, subst, ◌⊎◌, inl,
  inr, ok, >>=-eq-ok, >>=-elim, ok-injective, require, require-ok, map_result, ◌==◌, if◌then◌else◌,
  Bool-cases,
}
use codex_routecraft.Core.Words.{Value, Fields, is_opaque_id}
use codex_routecraft.Core.Routing.{RoutingRequest}
use codex_routecraft.Core.Routing.Observed.{HostFacts, differs, route_changed}
use codex_routecraft.Graph.Contracts.{field_at}
use codex_routecraft.Protocols.Telemetry.{
  label_names, count_names, has_exact_keys, at_key, nullable_bool, nullable_probability,
  decision_source_of, value_at, check_reasoning, check_route, is_below, check_tokens, Envelope,
  id_of, label_of, count_of, label_list, validate_benchmark, is_version_one, validate_telemetry,
  is_label, id_invalid, label_invalid, keys_invalid, version_unsupported,
}

-- What a recorded change of route means.
abbrev pub IsObserved :
    Bool → (model reasoning actual_model actual_reasoning : Option String) → Type 0
IsObserved changed model reasoning actual_model actual_reasoning =
    (m : String) × (a : String) × (model ≡ some m)
    × (actual_model ≡ some a)
    × (((m == a) ≡ false) × (changed ≡ true)
        ⊎ ((m == a) ≡ true)
          × ((r : String) × (s : String) × (reasoning ≡ some r)
              × (actual_reasoning ≡ some s)
              × (changed ≡ not (r == s))))

check_reasoning-ok :
    (changed : Bool) (reasoning actual : Option String)
    → check_reasoning changed reasoning actual ≡ ok tt
    → (r : String) × (s : String) × (reasoning ≡ some r)
      × (actual ≡ some s)
      × (changed ≡ not (r == s))
check_reasoning-ok changed none actual e = cc
check_reasoning-ok changed (some r) none e = cc
check_reasoning-ok changed (some r) (some s) e =
    (r, s, refl, refl, by_test changed (r == s) (require-ok _ _ e))
  where
    by_test : (c b : Bool) → (if b then not c else c) ≡ true → c ≡ not b
    by_test true true h = cc
    by_test true false h = refl
    by_test false true h = refl
    by_test false false h = cc

check_route-IsObserved :
    (changed : Bool) (model reasoning actual_model actual_reasoning : Option String)
    → check_route (some changed) model reasoning actual_model actual_reasoning ≡ ok tt
    → IsObserved changed model reasoning actual_model actual_reasoning
unfolding check_route
check_route-IsObserved changed none reasoning actual_model actual_reasoning e = cc
check_route-IsObserved changed (some m) reasoning none actual_reasoning e = cc
check_route-IsObserved changed (some m) reasoning (some a) actual_reasoning e =
    elim (Bool-cases (m == a)) [
      | inl same ↦ (
        m,
        a,
        refl,
        refl,
        inr (same, check_reasoning-ok changed reasoning actual_reasoning (rw same at e)),
      )
      | inr other ↦ (m, a, refl, refl, inl (other, require-ok _ _ (rw other at e)))
    ]

-- No token count of an accepted envelope is above one that contains it.
pub record HasTokens (counts : List (String × Option ℕ)) : Type 0 where
  pub cached_in_input :
      is_below (value_at counts "cached_input_tokens") (value_at counts "input_tokens") ≡ false
  pub input_in_total :
      is_below (value_at counts "input_tokens") (value_at counts "total_tokens") ≡ false
  pub cached_in_total :
      is_below (value_at counts "cached_input_tokens") (value_at counts "total_tokens") ≡ false
  pub output_in_total :
      is_below (value_at counts "output_tokens") (value_at counts "total_tokens") ≡ false
  pub reasoning_in_total :
      is_below (value_at counts "reasoning_tokens") (value_at counts "total_tokens") ≡ false

not-true : (b : Bool) → not b ≡ true → b ≡ false
not-true true h = cc
not-true false h = refl

check_tokens-HasTokens :
    (counts : List (String × Option ℕ)) → check_tokens counts ≡ ok tt → HasTokens counts
unfolding check_tokens
check_tokens-HasTokens counts e =
    let (_, a, e) = >>=-eq-ok (require _ _) _ e in
    let (_, b, e) = >>=-eq-ok (require _ _) _ e in
    let (_, c, e) = >>=-eq-ok (require _ _) _ e in
    let (_, d, e) = >>=-eq-ok (require _ _) _ e in
    record {
      cached_in_input = not-true _ (require-ok _ _ a);
      input_in_total = not-true _ (require-ok _ _ b);
      cached_in_total = not-true _ (require-ok _ _ c);
      output_in_total = not-true _ (require-ok _ _ d);
      reasoning_in_total = not-true _ (require-ok _ _ e);
    }

-- The cross-checks of an envelope.
pub record IsConsistent (e : Envelope) : Type 0 where
  pub route :
      (changed : Bool)
      → e.route_changed ≡ some changed
      → IsObserved changed
          (value_at e.labels "requested_model")
          (value_at e.labels "requested_reasoning")
          (value_at e.labels "actual_model")
          (value_at e.labels "actual_reasoning")
  pub tokens : HasTokens e.counts

checked_route :
    (o : Option Bool) (model reasoning actual_model actual_reasoning : Option String)
    → check_route o model reasoning actual_model actual_reasoning ≡ ok tt
    → (changed : Bool) → o ≡ some changed
    → IsObserved changed model reasoning actual_model actual_reasoning
checked_route o model reasoning actual_model actual_reasoning e changed is =
    check_route-IsObserved changed model reasoning actual_model actual_reasoning
      (subst (λ p. check_route p model reasoning actual_model actual_reasoning ≡ ok tt) is e)

-- An accepted envelope does not contradict itself. Where it records whether the route changed, both
-- models are known, and it did change if they differ; if they are the same, both reasoning efforts
-- are known, and it changed exactly if these differ. No token count is above its total.
pub validate_telemetry-IsConsistent :
    (is_private : String → Bool) (fields : Fields) (envelope : Envelope)
    → validate_telemetry is_private (Value.object fields) ≡ ok envelope
    → IsConsistent envelope
unfolding validate_telemetry
validate_telemetry-IsConsistent is_private fields envelope e =
    >>=-elim (require (has_exact_keys fields) keys_invalid) e λ _ _ e.
      >>=-elim (require (is_version_one (field_at fields "schema_version")) version_unsupported) e
        λ _ _ e.
          >>=-elim (map_result (id_of is_private fields) ("run_id" ∷ "session_id" ∷ [])) e
            λ ids _ e.
              >>=-elim (map_result (label_of is_private fields) label_names) e λ labels _ e.
                >>=-elim (at_key fields "decision_source") e λ s _ e.
                  >>=-elim (decision_source_of s) e λ source _ e.
                    >>=-elim (at_key fields "decision_confidence") e λ c _ e.
                      >>=-elim (nullable_probability c) e λ confidence _ e.
                        >>=-elim (at_key fields "route_changed") e λ r _ e.
                          >>=-elim (nullable_bool r) e λ changed _ e.
                            >>=-elim
                              (check_route changed (value_at labels "requested_model")
                                (value_at labels "requested_reasoning")
                                (value_at labels "actual_model")
                                (value_at labels "actual_reasoning"))
                              e
                              λ _ route e. >>=-elim (at_key fields "memory_recall_used") e λ u _ e.
                                >>=-elim (nullable_bool u) e λ used _ e.
                                  >>=-elim (at_key fields "memory_case_ids") e λ m _ e.
                                    >>=-elim (label_list is_private is_opaque_id id_invalid m) e
                                      λ cases _ e.
                                        >>=-elim (at_key fields "rules_applied") e λ a _ e.
                                          >>=-elim (label_list is_private is_label label_invalid a)
                                            e
                                            λ rules _ e.
                                              >>=-elim (map_result (count_of fields) count_names) e
                                                λ counts _ e.
                                                  >>=-elim (check_tokens counts) e λ _ tokens e.
                                                    >>=-elim (at_key fields "benchmark") e λ b _ e.
                                                      >>=-elim (validate_benchmark is_private b) e
                                                        λ benchmark _ e.
                                                          subst IsConsistent (ok-injective e)
                                                            record {
                                                            route =
                                                            checked_route changed _ _ _ _ route;
                                                            tokens =
                                                            check_tokens-HasTokens counts tokens;
                                                            }

moves :
    (reasoning actual : Option String) (m a : String)
    → (m == a) ≡ false
    → check_route (some true) (some m) reasoning (some a) actual ≡ ok tt
unfolding check_route
moves reasoning actual m a other = rw other refl

compares :
    (reasoning actual : Option String) (m a : String)
    → (m == a) ≡ true
    → check_route (differs reasoning actual) (some m) reasoning (some a) actual ≡ ok tt
unfolding check_route
compares none actual m a same = refl
compares (some r) none m a same = refl
compares (some r) (some s) m a same = elim (Bool-cases (r == s)) [
  | inl equal ↦ rw (same, equal) refl
  | inr other ↦ rw (same, other) refl
]

-- What RouteCraftCore records about a change of route is what the envelope's check asks for,
-- whatever the request and the host's facts are.
pub check_route-route_changed :
    (request : RoutingRequest) (facts : HostFacts)
    → check_route
        (route_changed request facts)
        request.model
        request.requested_reasoning
        facts.actual_model
        facts.actual_reasoning
      ≡ ok tt
unfolding route_changed check_route
check_route-route_changed request facts =
    passes request.model request.requested_reasoning facts.actual_model facts.actual_reasoning
  where
    passes :
        (model reasoning actual_model actual_reasoning : Option String)
        → check_route
            (elim (differs model actual_model) [
              | none ↦ none
              | some true ↦ some true
              | some false ↦ differs reasoning actual_reasoning
            ])
            model
            reasoning
            actual_model
            actual_reasoning
          ≡ ok tt
    passes none reasoning actual_model actual_reasoning = refl
    passes (some m) reasoning none actual_reasoning = refl
    passes (some m) reasoning (some a) actual_reasoning = elim (Bool-cases (m == a)) [
      | inr other ↦ rw other (moves reasoning actual_reasoning m a other)
      | inl same ↦ rw same (compares reasoning actual_reasoning m a same)
    ]
