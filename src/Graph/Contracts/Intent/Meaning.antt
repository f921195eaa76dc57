-- ===== src/Graph/Contracts/Intent/Meaning.antt =====
-- What an Intent Contract consists of, for `validate_intent` of routecraft_graph/contracts.py.
use codex_routecraft.Prelude.{
  ℕ, Bool, true, String, Option, none, some, List, [], ◌∷◌, ◌≡◌, refl, ap, ◌∙◌, ◌⊎◌, inl, inr,
  and-eq-true,
}
use codex_routecraft.Core.Words.{Value, Items, Fields, codes, strip}
use codex_routecraft.Graph.Compiler.Shape.{is_empty}
use codex_routecraft.Graph.Contracts.{field_at, is_text}
use codex_routecraft.Graph.Contracts.Evidence.{keys_of, lacking}
use codex_routecraft.Graph.Contracts.Patterns.Meaning.{IsTime}
use codex_routecraft.Graph.Contracts.Entries.{HasKeys, HasEntry, IsWord, lacking-Within}
use codex_routecraft.Graph.Contracts.Intent.{
  intent_keys, every_item, list_with, has_only, object_with, is_text_at, is_bool_at, is_limit,
  passes,
}

abbrev pub TextAt : Fields → String → Type 0
TextAt fields key = (s : String) × (field_at fields key ≡ some (Value.text s))

abbrev pub BoolAt : Fields → String → Type 0
BoolAt fields key = (b : Bool) × (field_at fields key ≡ some (Value.bool b))

-- Each value of a list has the property.
pub data Each (P : Value → Type 0) : Items → Type 0 where
  end : Each P Items.nil
  more : {v : Value} {items : Items} → P v → Each P items → Each P (Items.item v items)

abbrev pub ListAt : (Value → Type 0) → Fields → String → Type 0
ListAt P fields key =
    (items : Items) × (field_at fields key ≡ some (Value.array items)) × Each P items

abbrev pub IsText : Value → Type 0
IsText v = (s : String) × (v ≡ Value.text s)

-- An object with exactly these keys, whose entries have what is asked for.
abbrev pub IsObject : List String → (Fields → Type 0) → Value → Type 0
IsObject keys P v = (fields : Fields) × (v ≡ Value.object fields) × HasKeys keys fields × P fields

-- Null, or an integer that is not negative.
abbrev pub LimitAt : Fields → String → Type 0
LimitAt fields key =
    (field_at fields key ≡ some Value.null) ⊎ (n : ℕ) × (field_at fields key ≡ some (Value.num n))

abbrev pub IsCriterion : Value → Type 0
IsCriterion =
    IsObject ("criterion_id" ∷ "statement" ∷ [])
      (λ fields. TextAt fields "criterion_id" × TextAt fields "statement")

abbrev pub IsMutation : Value → Type 0
IsMutation =
    IsObject ("kind" ∷ "target_scope" ∷ "reversible" ∷ [])
      (λ fields. TextAt fields "kind" × TextAt fields "target_scope" × BoolAt fields "reversible")

abbrev pub IsApproval : Value → Type 0
IsApproval =
    IsObject ("operation" ∷ "required" ∷ [])
      (λ fields. TextAt fields "operation" × BoolAt fields "required")

abbrev pub IsBoundary : Value → Type 0
IsBoundary =
    IsObject ("local_only" ∷ "exportable" ∷ [])
      (λ fields. ListAt IsText fields "local_only" × ListAt IsText fields "exportable")

abbrev pub IsBudget : Value → Type 0
IsBudget = IsObject ("max_tokens" ∷ "max_duration_seconds" ∷ "max_child_runs" ∷ []) (λ fields.
    LimitAt fields "max_tokens"
    × LimitAt fields "max_duration_seconds"
    × LimitAt fields "max_child_runs")

-- No entry, null, or a time.
abbrev pub DeadlineAt : (ℕ → Bool) → Fields → String → Type 0
DeadlineAt is_digit fields key =
    (field_at fields key ≡ none)
    ⊎ (field_at fields key ≡ some Value.null)
    ⊎ HasEntry (IsTime is_digit) fields key

-- At least one criterion.
abbrev pub CriteriaAt : Fields → String → Type 0
CriteriaAt fields key =
    (v : Value) × (items : Items) × (field_at fields key ≡ some (Value.array (Items.item v items)))
    × IsCriterion v
    × Each IsCriterion items

-- What an accepted Intent Contract has.
pub record IsIntent (is_digit : ℕ → Bool) (fields : Fields) : Type 0 where
  pub keys : HasKeys intent_keys fields
  pub request_summary : HasEntry (λ s. strip (codes s) ≡ [] → ⊥) fields "request_summary"
  pub objectives : ListAt IsText fields "objectives"
  pub non_goals : ListAt IsText fields "non_goals"
  pub constraints : ListAt IsText fields "constraints"
  pub risk_level :
      HasEntry (IsWord ("low" ∷ "medium" ∷ "high" ∷ "critical" ∷ [])) fields "risk_level"
  pub acceptance_criteria : CriteriaAt fields "acceptance_criteria"
  pub external_mutations : ListAt IsMutation fields "external_mutations"
  pub approval_requirements : ListAt IsApproval fields "approval_requirements"
  pub privacy_boundary : (v : Value) × (field_at fields "privacy_boundary" ≡ some v) × IsBoundary v
  pub budget : (v : Value) × (field_at fields "budget" ≡ some v) × IsBudget v
  pub deadline : DeadlineAt is_digit fields "deadline_if_known"

pub is_text-IsText : (v : Value) → is_text v ≡ true → IsText v
is_text-IsText (Value.text s) h = (s, refl)
is_text-IsText Value.null h = cc
is_text-IsText (Value.bool b) h = cc
is_text-IsText (Value.num n) h = cc
is_text-IsText (Value.negative n) h = cc
is_text-IsText (Value.fraction m d k) h = cc
is_text-IsText (Value.array items) h = cc
is_text-IsText (Value.object fields) h = cc

pub is_text_at-TextAt :
    (fields : Fields) (key : String) → is_text_at (field_at fields key) ≡ true → TextAt fields key
is_text_at-TextAt fields key h = by_value (field_at fields key) refl h
  where
    by_value :
        (o : Option Value) → field_at fields key ≡ o → is_text_at o ≡ true → TextAt fields key
    by_value none e h = cc
    by_value (some v) e h = let (s, is) = is_text-IsText v h in (s, e ∙ ap some is)

pub is_bool_at-BoolAt :
    (fields : Fields) (key : String) → is_bool_at (field_at fields key) ≡ true → BoolAt fields key
is_bool_at-BoolAt fields key h = by_value (field_at fields key) refl h
  where
    by_value :
        (o : Option Value) → field_at fields key ≡ o → is_bool_at o ≡ true → BoolAt fields key
    by_value none e h = cc
    by_value (some (Value.bool b)) e h = (b, e)
    by_value (some (Value.text s)) e h = cc
    by_value (some Value.null) e h = cc
    by_value (some (Value.num n)) e h = cc
    by_value (some (Value.negative n)) e h = cc
    by_value (some (Value.fraction m d k)) e h = cc
    by_value (some (Value.array items)) e h = cc
    by_value (some (Value.object entries)) e h = cc

pub is_limit-LimitAt :
    (fields : Fields) (key : String) → is_limit (field_at fields key) ≡ true → LimitAt fields key
is_limit-LimitAt fields key h = by_value (field_at fields key) refl h
  where
    by_value : (o : Option Value) → field_at fields key ≡ o → is_limit o ≡ true → LimitAt fields key
    by_value none e h = cc
    by_value (some Value.null) e h = inl e
    by_value (some (Value.num n)) e h = inr (n, e)
    by_value (some (Value.bool b)) e h = cc
    by_value (some (Value.text s)) e h = cc
    by_value (some (Value.negative n)) e h = cc
    by_value (some (Value.fraction m d k)) e h = cc
    by_value (some (Value.array items)) e h = cc
    by_value (some (Value.object entries)) e h = cc

module _ (test : Value → Bool) (P : Value → Type 0)
    (means : (v : Value) → test v ≡ true → P v) where
  pub every_item-Each : (items : Items) → every_item test items ≡ true → Each P items
  unfolding every_item
  every_item-Each Items.nil h = Each.end
  every_item-Each (Items.item v items) h =
      let (first, rest) = (and-eq-true (test v) (every_item test items)).0 h in
      Each.more (means v first) (every_item-Each items rest)

  pub list_with-ListAt :
      (fields : Fields) (key : String)
      → list_with test (field_at fields key) ≡ true
      → ListAt P fields key
  list_with-ListAt fields key h = by_value (field_at fields key) refl h
    where
      by_value :
          (o : Option Value)
          → field_at fields key ≡ o
          → list_with test o ≡ true
          → ListAt P fields key
      by_value none e h = cc
      by_value (some (Value.array items)) e h = (items, e, every_item-Each items h)
      by_value (some (Value.text s)) e h = cc
      by_value (some Value.null) e h = cc
      by_value (some (Value.bool b)) e h = cc
      by_value (some (Value.num n)) e h = cc
      by_value (some (Value.negative n)) e h = cc
      by_value (some (Value.fraction m d k)) e h = cc
      by_value (some (Value.object entries)) e h = cc

  pub passes_entry :
      (fields : Fields) (key : String)
      → passes test (field_at fields key) ≡ true
      → (v : Value) × (field_at fields key ≡ some v) × P v
  passes_entry fields key h = by_value (field_at fields key) refl h
    where
      by_value :
          (o : Option Value)
          → field_at fields key ≡ o
          → passes test o ≡ true
          → (v : Value) × (field_at fields key ≡ some v) × P v
      by_value none e h = cc
      by_value (some v) e h = (v, e, means v h)

pub object_with-IsObject :
    (keys : List String) (test : Fields → Bool) (P : Fields → Type 0)
    → ((fields : Fields) → test fields ≡ true → P fields)
    → (v : Value) → object_with keys test v ≡ true
    → IsObject keys P v
unfolding has_only
object_with-IsObject keys test P means (Value.object fields) h =
    let (only, good) = (and-eq-true (has_only keys fields) (test fields)).0 h in
    let (missing, unknown) =
      (and-eq-true (is_empty (lacking keys (keys_of fields)))
          (is_empty (lacking (keys_of fields) keys))).0
        only in
    (
      fields,
      refl,
      (lacking-Within keys (keys_of fields) missing, lacking-Within (keys_of fields) keys unknown),
      means fields good,
    )
object_with-IsObject keys test P means Value.null h = cc
object_with-IsObject keys test P means (Value.bool b) h = cc
object_with-IsObject keys test P means (Value.num n) h = cc
object_with-IsObject keys test P means (Value.negative n) h = cc
object_with-IsObject keys test P means (Value.fraction m d k) h = cc
object_with-IsObject keys test P means (Value.text s) h = cc
object_with-IsObject keys test P means (Value.array items) h = cc
