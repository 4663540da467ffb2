-- ===== src/Json/Canonical.antt =====
-- The canonical serializer: typescript/src/canonical-json.ts. Its text is given before `TextEncoder`
-- makes UTF-8 of it.
use licensing.Common.{Bool, true, false, ◌&&◌, List, [], ◌∷◌, ◌++◌, if◌then◌else◌, eqb, ltb, any}
use licensing.Errors.{
  Result, ok, err, canonical_invalid_utf8, canonical_invalid_top_level, canonical_duplicate_key,
}
use licensing.Json.{
  Units, Value, Items, Fields, null, bool, num, str, arr, obj, no_items, item, no_fields, field,
}
use licensing.Json.Strings.{validate_utf16, write_units}
use licensing.Json.Numbers.{write_number}

-- `writeString`
unfoldable pub write_string : Units → Result Units
unfolding validate_utf16 write_units
write_string s =
    if validate_utf16 s
    then ok (0x22 ∷ (write_units s ++ 0x22 ∷ []))
    else err canonical_invalid_utf8

-- `a < b` on texts, by code units
abbrev pub units_lt : Units → Units → Bool
units_lt [] [] = false
units_lt [] (d ∷ t) = true
units_lt (c ∷ s) [] = false
units_lt (c ∷ s) (d ∷ t) = let later = units_lt s t in if eqb c d then later else ltb c d

abbrev pub units_eq : Units → Units → Bool
units_eq [] [] = true
units_eq [] (d ∷ t) = false
units_eq (c ∷ s) [] = false
units_eq (c ∷ s) (d ∷ t) = eqb c d && units_eq s t

module _ {ℓ} {A : Type ℓ} where
  unfoldable pub insert : Units → A → List (Units × A) → List (Units × A)
  insert key a [] = (key, a) ∷ []
  insert key a ((other, b) ∷ rest) =
      let later = insert key a rest in
      if units_lt other key then (other, b) ∷ later else (key, a) ∷ (other, b) ∷ rest

  -- `keys.sort(compareUtf16)`, each key with what belongs to it.
  unfoldable pub sort_keys : List (Units × A) → List (Units × A)
  unfolding insert
  sort_keys [] = []
  sort_keys ((key, a) ∷ rest) = insert key a (sort_keys rest)

infixr 5 ◌>+>◌
-- One text after the other, where the first error counts.
abbrev pub ◌>+>◌ : Result Units → Result Units → Result Units
err e >+> q = err e
ok a >+> err e = err e
ok a >+> ok b = ok (a ++ b)

abbrev pub comma_unless : Bool → Result Units → Result Units
comma_unless true q = q
comma_unless false q = ok (0x2c ∷ []) >+> q

-- The loop of `writeObject` over the sorted keys: the keys before, and whether it is the first turn.
unfoldable pub write_entries : List Units → Bool → List (Units × Result Units) → Result Units
unfolding write_string
write_entries seen first [] = ok (0x7d ∷ [])
write_entries seen first ((key, value) ∷ entries) =
    let next = write_entries (key ∷ seen) false entries in
    if any (units_eq key) seen
    then err (canonical_duplicate_key key)
    else comma_unless first (write_string key >+> (ok (0x3a ∷ []) >+> (value >+> next)))

-- `writeValue`, `writeArray` and `writeObject`.
unfoldable mutual
  unfolding write_entries write_string write_number sort_keys

  pub write_value : Value → Result Units
  write_value null = ok (0x6e ∷ 0x75 ∷ 0x6c ∷ 0x6c ∷ [])
  write_value (bool true) = ok (0x74 ∷ 0x72 ∷ 0x75 ∷ 0x65 ∷ [])
  write_value (bool false) = ok (0x66 ∷ 0x61 ∷ 0x6c ∷ 0x73 ∷ 0x65 ∷ [])
  write_value (num n) = write_number n
  write_value (str s) = write_string s
  write_value (arr items) = ok (0x5b ∷ []) >+> write_items true items
  write_value (obj fs) = ok (0x7b ∷ []) >+> write_entries [] true (sort_keys (entries_of fs))

  pub write_items : Bool → Items → Result Units
  write_items first no_items = ok (0x5d ∷ [])
  write_items first (item v items) = comma_unless first (write_value v >+> write_items false items)

  -- Each key with what its value writes, once its turn has come.
  pub entries_of : Fields → List (Units × Result Units)
  entries_of no_fields = []
  entries_of (field key v fs) = (key, write_value v) ∷ entries_of fs

-- `canonicalize`, and `canonicalizeToString`, which decodes its bytes again.
unfoldable pub canonicalize : Value → Result Units
unfolding write_value
canonicalize (obj fs) = write_value (obj fs)
canonicalize _ = err canonical_invalid_top_level
