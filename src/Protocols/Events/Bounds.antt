-- ===== src/Protocols/Events/Bounds.antt =====
-- The depth of metadata, for `_bounded_json` of routecraft_protocols/events.py.
use Prim.Native.Nat.{max}
use codex_routecraft.Prelude.{
  ℕ, suc, true, false, String, ◌≡◌, refl, ◌≤◌, ◌+◌, Result, arith, inl, inr, ok, ◌>>◌, >>=-elim,
  require, ltb, Bool-cases,
}
use codex_routecraft.Core.Words.{Value, Items, Fields}
use codex_routecraft.Protocols.Events.{
  Searches, EventError, max_depth, is_measurement, admit, is_key, bounded_json, bounded_items,
  bounded_fields,
}

unfoldable mutual
  -- How many lists and objects the innermost part of a value stands in.
  pub height : Value → ℕ
  height (Value.array items) = height_items items
  height (Value.object fields) = height_fields fields
  height _ = 0

  pub height_items : Items → ℕ
  height_items Items.nil = 0
  height_items (Items.item v items) = max (suc (height v)) (height_items items)

  pub height_fields : Fields → ℕ
  height_fields Fields.end = 0
  height_fields (Fields.field key v fields) = max (suc (height v)) (height_fields fields)

admit-depth :
    (s : Searches) (depth : ℕ) (key : String) (v : Value) (inside : Result EventError (Unit {0}))
    → admit s depth key v inside ≡ ok tt
    → depth ≤ 6
unfolding admit
admit-depth s depth key v inside e = elim (Bool-cases (ltb max_depth depth)) [
  | inl deep ↦ absurd (raised deep)
  | inr fine ↦ ground (arith, fine)
]
  where
    raised : ltb max_depth depth ≡ true → ⊥
    raised deep = ground (arith, deep, e)

-- A list or an object is no measurement, so its parts have been visited.
admit-inside :
    (s : Searches) (depth : ℕ) (key : String) (v : Value) (inside : Result EventError (Unit {0}))
    → is_measurement v ≡ false
    → admit s depth key v inside ≡ ok tt
    → inside ≡ ok tt
unfolding admit
admit-inside s depth key v inside other e = ground (arith, other, e)

mutual
  unfolding bounded_json bounded_items bounded_fields height height_items height_fields

  bounded_json-height :
      (s : Searches) (depth : ℕ) (key : String) (v : Value)
      → bounded_json s depth key v ≡ ok tt
      → depth + height v ≤ 6
  bounded_json-height s depth key Value.null e =
      let d = admit-depth s depth key Value.null _ e in omega arith
  bounded_json-height s depth key (Value.bool b) e =
      let d = admit-depth s depth key (Value.bool b) _ e in omega arith
  bounded_json-height s depth key (Value.num n) e =
      let d = admit-depth s depth key (Value.num n) _ e in omega arith
  bounded_json-height s depth key (Value.negative n) e =
      let d = admit-depth s depth key (Value.negative n) _ e in omega arith
  bounded_json-height s depth key (Value.fraction m d k) e =
      let shallow = admit-depth s depth key (Value.fraction m d k) _ e in omega arith
  bounded_json-height s depth key (Value.text t) e =
      let d = admit-depth s depth key (Value.text t) _ e in omega arith
  bounded_json-height s depth key (Value.array items) e =
      >>=-elim _ (admit-inside s depth key (Value.array items) _ refl e) λ _ few deep.
        bounded_items-height s depth items (admit-depth s depth key (Value.array items) _ e) deep
  bounded_json-height s depth key (Value.object fields) e =
      >>=-elim _ (admit-inside s depth key (Value.object fields) _ refl e) λ _ few deep.
        bounded_fields-height s depth fields (admit-depth s depth key (Value.object fields) _ e)
          deep

  bounded_items-height :
      (s : Searches) (depth : ℕ) (items : Items)
      → depth ≤ 6
      → bounded_items s (suc depth) items ≡ ok tt
      → depth + height_items items ≤ 6
  bounded_items-height s depth Items.nil d e = omega arith
  bounded_items-height s depth (Items.item v items) d e =
      >>=-elim (bounded_json s (suc depth) "" v) e λ _ here later.
        let h = bounded_json-height s (suc depth) "" v here in
        let l = bounded_items-height s depth items d later in omega arith

  bounded_fields-height :
      (s : Searches) (depth : ℕ) (fields : Fields)
      → depth ≤ 6
      → bounded_fields s (suc depth) fields ≡ ok tt
      → depth + height_fields fields ≤ 6
  bounded_fields-height s depth Fields.end d e = omega arith
  bounded_fields-height s depth (Fields.field key v fields) d e =
      >>=-elim (require (is_key key) EventError.key_invalid >> bounded_json s (suc depth) key v) e
        λ _ both later. >>=-elim (require (is_key key) EventError.key_invalid) both λ _ named here.
          let h = bounded_json-height s (suc depth) key v here in
          let l = bounded_fields-height s depth fields d later in omega arith

-- A value that the code accepts under a key of the metadata has no part inside more than six lists
-- and objects.
pub bounded_json-depth :
    (s : Searches) (key : String) (v : Value) → bounded_json s 0 key v ≡ ok tt → height v ≤ 6
bounded_json-depth s key v e = let h = bounded_json-height s 0 key v e in omega arith
