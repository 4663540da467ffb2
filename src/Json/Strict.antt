-- ===== src/Json/Strict.antt =====
-- The strict parser: typescript/src/strict-json.ts. Its position in the text is the text that is left;
-- each call costs a unit of fuel, as what it leaves is no structural part of the text.
use licensing.Common.{
  ℕ, zero, suc, ◌+◌, ◌*◌, Bool, true, false, ◌||◌, Option, none, some, List, [], ◌∷◌, ◌++◌,
  if◌then◌else◌, eqb, any, length,
}
use licensing.Errors.{Result, ok, err, canonical_duplicate_key, token_malformed, out_of_fuel}
use licensing.Json.{
  Units, Number, Value, Items, null, bool, num, str, arr, obj, no_items, item, no_fields, fields_of,
}
use licensing.Json.Strings.{fast_string}
use licensing.Json.Numbers.{is_digit, parse_number}
use licensing.Json.Canonical.{units_eq}

-- `skipWs`
unfoldable pub skip_ws : Units → Units
skip_ws [] = []
skip_ws (c ∷ s) =
    let rest = skip_ws s in
    if eqb c 0x20 || (eqb c 0x09 || (eqb c 0x0a || eqb c 0x0d)) then rest else c ∷ s

-- The branches of `parseValue`, by the first unit.
pub data Start : Type 0 where
  brace bracket quote letter_t letter_f letter_n number other : Start

unfoldable pub start_of : ℕ → Start
start_of c =
    if eqb c 0x7b
    then brace
    else if eqb c 0x5b
    then bracket
    else if eqb c 0x22
    then quote
    else if eqb c 0x74
    then letter_t
    else if eqb c 0x66
    then letter_f
    else if eqb c 0x6e
    then letter_n
    else if eqb c 0x2d || is_digit c
    then number
    else other

-- `parseLiteral`
unfoldable pub parse_literal : Units → Value → Units → Result (Value × Units)
parse_literal [] v s = ok (v, s)
parse_literal (e ∷ expected) v [] = err token_malformed
parse_literal (e ∷ expected) v (c ∷ s) =
    let rest = parse_literal expected v s in if eqb e c then rest else err token_malformed

-- `expectChar`
abbrev pub expect : ℕ → Units → Result Units
expect c [] = err token_malformed
expect c (d ∷ s) = if eqb c d then ok s else err token_malformed

-- `__proto__`
abbrev pub proto : Units
proto = 0x5f ∷ 0x5f ∷ 0x70 ∷ 0x72 ∷ 0x6f ∷ 0x74 ∷ 0x6f ∷ 0x5f ∷ 0x5f ∷ []

-- `out[key] = value`, at the end for a key that is not there. An assignment to `__proto__` makes no own
-- property.
abbrev pub assign : Units → Value → List (Units × Value) → List (Units × Value)
assign key v fs = if units_eq key proto then fs else fs ++ (key, v) ∷ []

-- `Object.hasOwn(out, key)`
abbrev pub has_own : Units → List (Units × Value) → Bool
has_own key fs = any (λ (entry : Units × Value). units_eq key entry.0) fs

module _ {ℓ κ} {A : Type ℓ} {B : Type κ} where
  infixl 1 ◌>>=◌
  abbrev pub ◌>>=◌ : Result A → (A → Result B) → Result B
  err e >>= f = err e
  ok a >>= f = f a

-- What comes behind a member or an element: a comma, the closing unit, or neither.
pub data Next : Type 0 where
  more closed : Units → Next
  neither : Next

unfoldable pub next_of : ℕ → Units → Next
next_of closing [] = neither
next_of closing (c ∷ s) = if eqb c 0x2c then more s else if eqb c closing then closed s else neither

-- Whether the next unit closes the object or the array at once.
unfoldable pub closes : ℕ → Units → Option Units
closes closing [] = none
closes closing (c ∷ s) = if eqb c closing then some s else none

-- The duplicate check of `parseObject`.
abbrev unless_own : Units → List (Units × Value) → Result (Unit {0})
unless_own key fs = if has_own key fs then err (canonical_duplicate_key key) else ok tt

module _ (rounded : Units → Option Number) where
  -- `parseValue`, the loop of `parseObject` with the properties so far, and the loop of `parseArray`.
  unfoldable mutual
    unfolding skip_ws start_of parse_literal next_of closes fast_string parse_number

    pub parse_value : ℕ → Units → Result (Value × Units)
    parse_value zero s = err out_of_fuel
    parse_value (suc f) s = elim (skip_ws s) [
      | [] ↦ err token_malformed
      | c ∷ r ↦ elim (start_of c) [
        | brace ↦ elim (closes 0x7d (skip_ws r)) [
          | some rest ↦ ok (obj no_fields, rest)
          | none ↦ parse_fields f [] r
        ]
        | bracket ↦ elim (closes 0x5d (skip_ws r)) [
          | some rest ↦ ok (arr no_items, rest)
          | none ↦ parse_items f r >>= λ (items, rest). ok (arr items, rest)
        ]
        | quote ↦ fast_string r >>= λ (text, rest). ok (str text, rest)
        | letter_t ↦ parse_literal (0x74 ∷ 0x72 ∷ 0x75 ∷ 0x65 ∷ []) (bool true) (c ∷ r)
        | letter_f ↦ parse_literal (0x66 ∷ 0x61 ∷ 0x6c ∷ 0x73 ∷ 0x65 ∷ []) (bool false) (c ∷ r)
        | letter_n ↦ parse_literal (0x6e ∷ 0x75 ∷ 0x6c ∷ 0x6c ∷ []) null (c ∷ r)
        | number ↦ parse_number rounded (c ∷ r) >>= λ (n, rest). ok (num n, rest)
        | other ↦ err token_malformed
      ]
    ]

    pub parse_fields : ℕ → List (Units × Value) → Units → Result (Value × Units)
    parse_fields zero out s = err out_of_fuel
    parse_fields (suc f) out s = do
      opened ← expect 0x22 (skip_ws s)
      (key, after_key) ← fast_string opened
      _ ← unless_own key out
      after_colon ← expect 0x3a (skip_ws after_key)
      (v, after_value) ← parse_value f after_colon
      let next = assign key v out
      elim (next_of 0x7d (skip_ws after_value)) [
        | more rest ↦ parse_fields f next rest
        | closed rest ↦ ok (obj (fields_of next), rest)
        | neither ↦ err token_malformed
      ]

    pub parse_items : ℕ → Units → Result (Items × Units)
    parse_items zero s = err out_of_fuel
    parse_items (suc f) s = do
      (v, after_value) ← parse_value f s
      elim (next_of 0x5d (skip_ws after_value)) [
        | more rest ↦ parse_items f rest >>= λ (items, left). ok (item v items, left)
        | closed rest ↦ ok (item v no_items, rest)
        | neither ↦ err token_malformed
      ]

  -- `strictParse`
  unfoldable pub strict_parse : Units → Result Value
  unfolding parse_value
  strict_parse s = do
    (v, rest) ← parse_value (2 * length s + 2) s
    elim (skip_ws rest) [ [] ↦ ok v | _ ↦ err token_malformed ]
