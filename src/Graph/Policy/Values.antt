-- ===== src/Graph/Policy/Values.antt =====
-- `==` of Python on JSON values: a Boolean equals its number, and the order of an object's keys
-- does not count.
use Prim.Native.Nat.{◌^◌, ◌*◌}
use codex_routecraft.Prelude.{
  ℕ, suc, Bool, true, false, not, ◌&&◌, ◌||◌, String, Option, none, some, ◌==◌, if◌then◌else◌,
}
use codex_routecraft.Core.Words.{Value, Items, Fields, same_number}

abbrev number_of : Bool → ℕ
number_of true = 1
number_of false = 0

-- The number `n`, as the value of a float.
unfoldable pub is_number : Bool → ℕ → ℕ → ℕ → Bool
is_number minus digits scale n =
    same_number digits (n * 10 ^ scale) && (not minus || same_number digits 0)

-- `==` with a float on one side
unfoldable pub same_fraction : Bool → ℕ → ℕ → Value → Bool
unfolding is_number
same_fraction minus digits scale (Value.bool b) = is_number minus digits scale (number_of b)
same_fraction minus digits scale (Value.num n) = is_number minus digits scale n
same_fraction minus digits scale (Value.negative n) =
    minus && same_number digits (suc n * 10 ^ scale)
same_fraction true digits scale (Value.fraction true ds k) =
    same_number (digits * 10 ^ k) (ds * 10 ^ scale)
same_fraction false digits scale (Value.fraction false ds k) =
    same_number (digits * 10 ^ k) (ds * 10 ^ scale)
same_fraction _ digits scale (Value.fraction _ ds k) = same_number digits 0 && same_number ds 0
same_fraction _ _ _ _ = false

unfoldable pub field_of : Fields → String → Option Value
unfolding ◌==◌
field_of Fields.end key = none
field_of (Fields.field k v fs) key = if k == key then some v else field_of fs key

unfoldable pub count_fields : Fields → ℕ
count_fields Fields.end = 0
count_fields (Fields.field _ _ fs) = suc (count_fields fs)

unfoldable mutual
  unfolding ◌==◌ count_fields field_of same_fraction

  pub same_value : Value → Value → Bool
  same_value Value.null Value.null = true
  same_value (Value.bool a) (Value.bool b) = same_number (number_of a) (number_of b)
  same_value (Value.bool a) (Value.num n) = same_number (number_of a) n
  same_value (Value.num n) (Value.bool b) = same_number n (number_of b)
  same_value (Value.num n) (Value.num m) = same_number n m
  same_value (Value.negative n) (Value.negative m) = same_number n m
  same_value (Value.text s) (Value.text t) = s == t
  same_value (Value.array xs) (Value.array ys) = same_items xs ys
  same_value (Value.object fs) (Value.object gs) =
      same_number (count_fields fs) (count_fields gs) && covers fs gs
  same_value (Value.fraction minus digits scale) w = same_fraction minus digits scale w
  same_value v (Value.fraction minus digits scale) = same_fraction minus digits scale v
  same_value _ _ = false

  pub same_items : Items → Items → Bool
  same_items Items.nil Items.nil = true
  same_items (Items.item x xs) (Items.item y ys) = same_value x y && same_items xs ys
  same_items _ _ = false

  -- Each key of the first object has an equal value in the second.
  pub covers : Fields → Fields → Bool
  covers Fields.end gs = true
  covers (Fields.field k v fs) gs = elim (field_of gs k) [
    | none ↦ false
    | some w ↦ same_value v w && covers fs gs
  ]
