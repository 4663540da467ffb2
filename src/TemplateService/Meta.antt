-- ===== src/TemplateService/Meta.antt =====
-- The fields of `mergedMeta` of typescript/src/template-service.ts.
use licensing.Common.{
  ℕ, ◌≡◌, refl, ◌∙◌, ap, ◌==◌, String, Option, none, some, get_or, arith, eq_iff, inl, inr,
  Bool-cases, if◌then◌else◌,
}
use licensing.Types.{LicenseTemplate, JsonValue, JsonObject, end, field, obj, num}
use licensing.Resolve.{get_field, set_field}
use licensing.Resolve.Merge.{HasDistinctFields, get_field-set_field}
use licensing.TemplateService.{spread, entitlements_of, with_force_online, merged_meta}

-- The first value, or else the second.
abbrev pub or_else : Option JsonValue → Option JsonValue → Option JsonValue
or_else (some v) w = some v
or_else none w = w

-- What a template has for a key of its licenses' meta.
abbrev pub unless_empty : JsonObject → Option JsonValue
unless_empty end = none
unless_empty (field k v rest) = some (obj (field k v rest))

abbrev pub number_of : Option ℕ → Option JsonValue
number_of none = none
number_of (some n) = some (num n)

abbrev pub template_field : LicenseTemplate → String → Option JsonValue
template_field template key =
    or_else
      (if "force_online_after_sec" == key then number_of template.force_online_after_sec else none)
      (if "entitlements" == key then unless_empty template.entitlements else none)

get_field-spread :
    (base override : JsonObject) (k : String)
    → HasDistinctFields override
    → get_field k (spread base override) ≡ or_else (get_field k override) (get_field k base)
unfolding get_field spread
get_field-spread base end k h = refl
get_field-spread base (field j v rest) k h =
    get_field-spread (set_field j v base) rest k h.1 ∙ elim (Bool-cases (j == k)) [
      | inl here ↦ ground (arith, h.0, (eq_iff j k).0 here, get_field-set_field j k v base)
      | inr away ↦ ground (arith, get_field-set_field j k v base)
    ]

template_own :
    (e : JsonObject) (k : String)
    → get_field k (entitlements_of e) ≡ (if "entitlements" == k then unless_empty e else none)
unfolding get_field
template_own end k = ground arith
template_own (field j v rest) k = ground arith

with_force_online-own :
    (sec : Option ℕ) (o : JsonObject) (k : String)
    → get_field k (with_force_online sec o)
      ≡ or_else (if "force_online_after_sec" == k then number_of sec else none) (get_field k o)
with_force_online-own none o k = ground arith
with_force_online-own (some sec) o k =
    ground (arith, get_field-set_field "force_online_after_sec" k (num sec) o)

-- A license's meta has the caller's fields, and the template's where the caller has none.
pub get_field-merged_meta :
    (template : LicenseTemplate) (meta : Option JsonObject) (k : String)
    → HasDistinctFields (get_or meta end)
    → get_field k (merged_meta template meta)
      ≡ or_else (get_field k (get_or meta end)) (template_field template k)
unfolding get_field
get_field-merged_meta template meta k h =
    get_field-spread _ (get_or meta end) k h
    ∙ ap (or_else (get_field k (get_or meta end))) (
        with_force_online-own template.force_online_after_sec
          (entitlements_of template.entitlements) k
        ∙ ap (or_else _) (template_own template.entitlements k))
