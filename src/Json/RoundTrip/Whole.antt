-- ===== src/Json/RoundTrip/Whole.antt =====
-- `strictParse` after `canonicalize`.
use mathlib.Core.List.{append-nil}
use licensing.Common.{◌+◌, ◌*◌, ◌≡◌, sym, ap, ◌∙◌, Option, [], All, arith, length}
use licensing.Errors.{ok}
use licensing.Json.{
  Units, Number, Value, Items, Fields, null, bool, num, str, arr, obj, no_items, item, no_fields,
  field, pairs_of,
}
use licensing.Json.Canonical.{canonicalize, write_value}
use licensing.Json.Strict.{skip_ws, parse_value, strict_parse}
use licensing.Json.RoundTrip.Normal.{normal, HasNoProto, HasNoProtoItems, HasNoProtoFields}
use licensing.Json.RoundTrip.Values.{
  Reads, ReadsItems, null-Reads, bool-Reads, num-Reads, str-Reads, arr-Reads, item-ReadsItems,
}
use licensing.Json.RoundTrip.Objects.{Good, obj-Reads}

module _ (rounded : Units → Option Number) where
  abbrev ReadsOwn : Value → Type 0
  ReadsOwn v = HasNoProto v → Reads rounded v

  abbrev ReadsOwnItems : Items → Type 0
  ReadsOwnItems items = HasNoProtoItems items → ReadsItems rounded items

  abbrev ReadsOwnFields : Fields → Type 0
  ReadsOwnFields fs = HasNoProtoFields fs → All (Good rounded) (pairs_of fs)

  -- Every value that is written is read back.
  reads : (v : Value) → HasNoProto v → Reads rounded v
  unfolding HasNoProto
  reads v = elim v as ReadsOwn ReadsOwnItems ReadsOwnFields [
    | null ↦ λ h. null-Reads rounded
    | bool b ↦ λ h. bool-Reads rounded b
    | num n ↦ λ h. num-Reads rounded n
    | str s ↦ λ h. str-Reads rounded s
    | arr (items → ih) ↦ λ h. arr-Reads rounded items (ih h)
    | obj (fs → ih) ↦ λ h. obj-Reads rounded fs (ih h)
    | no_items ↦ λ h. tt
    | item (w → ih) (items → ihs) ↦ λ h. item-ReadsItems rounded w items (ih h.0) (ihs h.1)
    | no_fields ↦ λ h. tt
    | field key (w → ih) (fs → ihs) ↦ λ h. ((h.0, ih h.1.0), ihs h.1.1)
  ]

  strict_parse-whole :
      (v : Value) (text : Units)
      → parse_value rounded (2 * length text + 2) text ≡ ok (v, [])
      → strict_parse rounded text ≡ ok v
  unfolding strict_parse skip_ws
  strict_parse-whole v text h = ground (arith, h)

  canonicalize-write_value :
      (v : Value) (text : Units) → canonicalize v ≡ ok text → write_value v ≡ ok text
  unfolding canonicalize
  canonicalize-write_value (obj fs) text h = h
  canonicalize-write_value _ text h = cc

  -- Of a value in which no property has the key __proto__, whatever text canonicalize returns,
  -- strictParse reads it back, without running out of fuel, as the value with the properties of
  -- every object in the order of their keys.
  pub strict_parse-canonicalize :
      (v : Value) (text : Units)
      → HasNoProto v
      → canonicalize v ≡ ok text
      → strict_parse rounded text ≡ ok (normal v)
  strict_parse-canonicalize v text own h =
      let read =
        reads v own text [] (2 * length text + 2) (canonicalize-write_value v text h) tt
          (omega arith) in
      strict_parse-whole (normal v) text
        (ap (parse_value rounded (2 * length text + 2)) (sym (append-nil text)) ∙ read)
