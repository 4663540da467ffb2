-- ===== src/Resolve/Merge.antt =====
-- `deepMergeJson` of typescript/src/templates/resolve.ts, read at one field.
use licensing.Common.{
  ◌≡◌, refl, ◌∙◌, ◌==◌, String, Option, none, some, arith, eq_iff, inl, inr, Bool-cases,
  if◌then◌else◌,
}
use licensing.Types.{JsonValue, JsonObject, end, field, obj}
use licensing.Resolve.{get_field, set_field, deep_merge_json, merge_value}

pub get_field-set_field :
    (j k : String) (v : JsonValue) (o : JsonObject)
    → get_field k (set_field j v o) ≡ (if j == k then some v else get_field k o)
unfolding get_field set_field
get_field-set_field j k v end = refl
get_field-set_field j k v (field i w rest) =
    ground (arith, eq_iff i j, eq_iff i k, eq_iff j k, get_field-set_field j k v rest)

-- No field stands twice, as in every JavaScript object.
abbrev pub HasDistinctFields : JsonObject → Type 0
HasDistinctFields end = Unit
HasDistinctFields (field k v rest) = (get_field k rest ≡ none) × HasDistinctFields rest

-- What a field of the merged object is, by what the two objects have there.
abbrev pub merged : Option JsonValue → Option JsonValue → Option JsonValue
merged old none = old
merged (some (obj a)) (some (obj b)) = some (obj (deep_merge_json a b))
merged _ (some v) = some v

merge_value-merged :
    (old : Option JsonValue) (v : JsonValue) → some (merge_value old v) ≡ merged old (some v)
unfolding deep_merge_json
merge_value-merged none v = refl
merge_value-merged (some (obj a)) v = ground arith
merge_value-merged (some u) v = ground arith

-- If no field of the override stands twice, a field of the object that deepMergeJson makes is
-- the base's where the override has none, the two merged by deepMergeJson where both are plain
-- objects, and otherwise the override's, null included.
pub get_field-deep_merge_json :
    (base override : JsonObject) (k : String)
    → HasDistinctFields override
    → get_field k (deep_merge_json base override) ≡ merged (get_field k base) (get_field k override)
unfolding get_field deep_merge_json
get_field-deep_merge_json base end k h = refl
get_field-deep_merge_json base (field j v rest) k h =
    let now = set_field j (merge_value (get_field j base) v) base in
    get_field-deep_merge_json now rest k h.1 ∙ elim (Bool-cases (j == k)) [
      | inl here ↦ ground (
        arith,
        merge_value-merged (get_field j base) v,
        h.0,
        (eq_iff j k).0 here,
        get_field-set_field j k (merge_value (get_field j base) v) base,
      )
      | inr away ↦ ground (arith, get_field-set_field j k (merge_value (get_field j base) v) base)
    ]
