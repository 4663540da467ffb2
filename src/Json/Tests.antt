-- ===== src/Json/Tests.antt =====
-- Texts and values of JSON.
use licensing.Common.{◌≡◌, ◌≢◌, refl, true, false, none, Option, [], ◌∷◌, ◌++◌}
use licensing.Errors.{ok, err, canonical_duplicate_key, out_of_fuel}
use licensing.Json.{
  Units, Number, Value, null, num, str, arr, obj, no_items, item, no_fields, field, whole,
}
use licensing.Json.Canonical.{canonicalize, write_string, sort_keys, write_entries}
use licensing.Json.Strict.{strict_parse, proto}
use licensing.Json.RoundTrip.Normal.{normal, HasNoProto}
use licensing.Json.Once.{IsOnce, strict_parse-IsOnce}
use licensing.Json.Total.{strict_parse-ends}
use licensing.Json.RoundTrip.Whole.{strict_parse-canonicalize}

abbrev no_rounding : Units → Option Number
no_rounding literal = none

-- `{"b":[1,-20,null],"a\n":"x"}`
abbrev sample : Value
sample = obj (
    field (0x62 ∷ [])
      (arr (item (num (whole false 1)) (item (num (whole true 20)) (item null no_items))))
      (field (0x61 ∷ 0x0a ∷ []) (str (0x78 ∷ [])) no_fields))

abbrev sorted_sample : Value
sorted_sample = obj (
    field (0x61 ∷ 0x0a ∷ []) (str (0x78 ∷ [])) (
      field (0x62 ∷ [])
        (arr (item (num (whole false 1)) (item (num (whole true 20)) (item null no_items))))
        no_fields))

-- `{"a\n":"x","b":[1,-20,null]}`
abbrev sample_text : Units
sample_text =
    0x7b ∷ 0x22 ∷ 0x61 ∷ 0x5c ∷ 0x6e ∷ 0x22 ∷ 0x3a ∷ 0x22 ∷ 0x78 ∷ 0x22 ∷ 0x2c ∷ 0x22 ∷ 0x62 ∷ 0x22
    ∷ 0x3a ∷ 0x5b ∷ 0x31 ∷ 0x2c ∷ 0x2d ∷ 0x32 ∷ 0x30 ∷ 0x2c ∷ 0x6e ∷ 0x75 ∷ 0x6c ∷ 0x6c ∷ 0x5d
    ∷ 0x7d ∷ []

canonicalize-sample : canonicalize sample ≡ ok sample_text
unfolding canonicalize write_string sort_keys write_entries
canonicalize-sample = refl

strict_parse-sample : strict_parse no_rounding sample_text ≡ ok sorted_sample
unfolding strict_parse
strict_parse-sample = refl

-- `{"k":1,"k":1}`
strict_parse-duplicate :
    strict_parse no_rounding (
      0x7b ∷ 0x22 ∷ 0x6b ∷ 0x22 ∷ 0x3a ∷ 0x31 ∷ 0x2c ∷ 0x22 ∷ 0x6b ∷ 0x22 ∷ 0x3a ∷ 0x31 ∷ 0x7d ∷ [])
    ≡ err (canonical_duplicate_key (0x6b ∷ []))
unfolding strict_parse
strict_parse-duplicate = refl

-- `{"__proto__":1,"__proto__":2}`
abbrev proto_text : Units
proto_text =
    0x7b
    ∷ 0x22
    ∷ (proto
        ++ (0x22 ∷ 0x3a ∷ 0x31 ∷ 0x2c ∷ 0x22 ∷ [])
        ++ proto
        ++ (0x22 ∷ 0x3a ∷ 0x32 ∷ 0x7d ∷ []))

-- The key `__proto__` makes no own property, and stands twice unseen.
strict_parse-proto : strict_parse no_rounding proto_text ≡ ok (obj no_fields)
unfolding strict_parse
strict_parse-proto = refl

strict_parse-canonicalize_example : strict_parse no_rounding sample_text ≡ ok (normal sample)
unfolding canonicalize HasNoProto
strict_parse-canonicalize_example =
    strict_parse-canonicalize no_rounding sample sample_text
      (refl, ((tt, (tt, (tt, tt))), (refl, (tt, tt)))) canonicalize-sample

-- `[[[`, in which no array ends.
strict_parse-ends_example : strict_parse no_rounding (0x5b ∷ 0x5b ∷ 0x5b ∷ []) ≢ err out_of_fuel
strict_parse-ends_example = strict_parse-ends no_rounding (0x5b ∷ 0x5b ∷ 0x5b ∷ [])

strict_parse-IsOnce_example :
    IsOnce (obj (field (0x61 ∷ []) (obj no_fields) (field (0x62 ∷ []) null no_fields)))
unfolding strict_parse
strict_parse-IsOnce_example =
    strict_parse-IsOnce no_rounding
      (0x7b ∷ 0x22 ∷ 0x61 ∷ 0x22 ∷ 0x3a ∷ 0x7b ∷ 0x7d ∷ 0x2c ∷ 0x22 ∷ 0x62 ∷ 0x22 ∷ 0x3a ∷ 0x6e
        ∷ 0x75 ∷ 0x6c ∷ 0x6c ∷ 0x7d ∷ [])
      (obj (field (0x61 ∷ []) (obj no_fields) (field (0x62 ∷ []) null no_fields))) refl
