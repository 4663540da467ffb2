-- ===== src/Json/RoundTrip/Normal.antt =====
-- What is left of a value when its text is read back: the properties stand in the order of their keys.
use licensing.Common.{
  ◌≡◌, refl, ap, ◌∙◌, false, List, [], ◌∷◌, map, All, arith, Bool-cases, inl, inr,
}
use licensing.Json.{
  Units, Value, Items, Fields, null, bool, num, str, arr, obj, no_items, item, no_fields, field,
  pairs_of, fields_of,
}
use licensing.Json.Canonical.{insert, sort_keys, units_lt, units_eq, write_value, entries_of}
use licensing.Json.Strict.{proto}

unfoldable mutual
  unfolding sort_keys

  -- Every object's properties in the order of their keys.
  pub normal : Value → Value
  normal null = null
  normal (bool b) = bool b
  normal (num n) = num n
  normal (str s) = str s
  normal (arr items) = arr (normal_items items)
  normal (obj fs) = obj (fields_of (sort_keys (normal_pairs fs)))

  pub normal_items : Items → Items
  normal_items no_items = no_items
  normal_items (item v items) = item (normal v) (normal_items items)

  pub normal_pairs : Fields → List (Units × Value)
  normal_pairs no_fields = []
  normal_pairs (field key v fs) = (key, normal v) ∷ normal_pairs fs

unfoldable mutual
  -- No property of the value has the key `__proto__`.
  pub HasNoProto : Value → Type 0
  HasNoProto (arr items) = HasNoProtoItems items
  HasNoProto (obj fs) = HasNoProtoFields fs
  HasNoProto _ = Unit

  pub HasNoProtoItems : Items → Type 0
  HasNoProtoItems no_items = Unit
  HasNoProtoItems (item v items) = HasNoProto v × HasNoProtoItems items

  pub HasNoProtoFields : Fields → Type 0
  HasNoProtoFields no_fields = Unit
  HasNoProtoFields (field key v fs) =
      (units_eq key proto ≡ false) × (HasNoProto v × HasNoProtoFields fs)

-- A property with another value.
abbrev pub with_value {ℓ} : {A : Type ℓ} → (Value → A) → Units × Value → Units × A
with_value f (key, v) = (key, f v)

pub entries_of-pairs_of : (fs : Fields) → entries_of fs ≡ map (with_value write_value) (pairs_of fs)
unfolding entries_of
entries_of-pairs_of no_fields = refl
entries_of-pairs_of (field key v fs) = ap (◌∷◌ (key, write_value v)) (entries_of-pairs_of fs)

pub normal_pairs-pairs_of : (fs : Fields) → normal_pairs fs ≡ map (with_value normal) (pairs_of fs)
unfolding normal_pairs
normal_pairs-pairs_of no_fields = refl
normal_pairs-pairs_of (field key v fs) = ap (◌∷◌ (key, normal v)) (normal_pairs-pairs_of fs)

module _ {A : Type 0} (f : Value → A) where
  insert-map :
      (key : Units) (v : Value) (pairs : List (Units × Value))
      → insert key (f v) (map (with_value f) pairs) ≡ map (with_value f) (insert key v pairs)
  unfolding insert
  insert-map key v [] = refl
  insert-map key v ((other, w) ∷ pairs) = ground (arith, insert-map key v pairs)

  pub sort_keys-map :
      (pairs : List (Units × Value))
      → sort_keys (map (with_value f) pairs) ≡ map (with_value f) (sort_keys pairs)
  unfolding sort_keys
  sort_keys-map [] = refl
  sort_keys-map ((key, v) ∷ pairs) =
      ap (insert key (f v)) (sort_keys-map pairs) ∙ insert-map key v (sort_keys pairs)

module _ (P : Units × Value → Type 0) where
  insert-All :
      (key : Units) (v : Value) (pairs : List (Units × Value))
      → P (key, v)
      → All P pairs
      → All P (insert key v pairs)
  unfolding insert
  insert-All key v [] h k = (h, tt)
  insert-All key v ((other, w) ∷ pairs) h k = elim (Bool-cases (units_lt other key)) [
    | inl less ↦ rw less (k.0, insert-All key v pairs h k.1)
    | inr before ↦ rw before (h, k)
  ]

  pub sort_keys-All : (pairs : List (Units × Value)) → All P pairs → All P (sort_keys pairs)
  unfolding sort_keys
  sort_keys-All [] h = tt
  sort_keys-All ((key, v) ∷ pairs) h =
      insert-All key v (sort_keys pairs) h.0 (sort_keys-All pairs h.1)
