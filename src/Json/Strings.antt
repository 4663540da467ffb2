-- ===== src/Json/Strings.antt =====
-- The strings of canonical-json.ts (`writeString`) and of strict-json.ts (`parseString`).
use licensing.Common.{
  ℕ, zero, suc, ◌+◌, ◌*◌, ◌-◌, ◌/◌, ◌%◌, Bool, true, not, ◌&&◌, Option, none, some, [], ◌∷◌, ◌++◌,
  if◌then◌else◌, eqb, leb, ltb,
}
use licensing.Errors.{Result, ok, err, token_malformed}
use licensing.Json.{Units}

abbrev pub is_high : ℕ → Bool
is_high c = leb 0xd800 c && leb c 0xdbff

abbrev pub is_low : ℕ → Bool
is_low c = leb 0xdc00 c && leb c 0xdfff

-- `validateUtf16`: whether every surrogate has its other half.
unfoldable pub validate_utf16 : Units → Bool
validate_utf16 [] = true
validate_utf16 (c ∷ []) = not (is_high c) && not (is_low c)
validate_utf16 (c ∷ d ∷ s) =
    let after_pair = validate_utf16 s in
    let after_unit = validate_utf16 (d ∷ s) in
    if is_high c then is_low d && after_pair else not (is_low c) && after_unit

-- `HEX[n]`
abbrev pub hex_unit : ℕ → ℕ
hex_unit n = if ltb n 10 then n + 48 else n + 87

-- The letter of a short escape.
unfoldable pub short_escape : ℕ → Option ℕ
short_escape c =
    if eqb c 0x22
    then some 0x22
    else if eqb c 0x5c
    then some 0x5c
    else if eqb c 0x08
    then some 0x62
    else if eqb c 0x09
    then some 0x74
    else if eqb c 0x0a
    then some 0x6e
    else if eqb c 0x0c
    then some 0x66
    else if eqb c 0x0d
    then some 0x72
    else none

-- What `writeString` writes for a code unit. A half of a pair is emitted as it is.
unfoldable pub escape_unit : ℕ → Units
unfolding short_escape
escape_unit c = elim (short_escape c) [
  | some letter ↦ 0x5c ∷ letter ∷ []
  | none ↦
      if ltb c 0x20
      then 0x5c ∷ 0x75 ∷ 0x30 ∷ 0x30 ∷ hex_unit (c / 16 % 16) ∷ hex_unit (c % 16) ∷ []
      else c ∷ []
]

-- The loop of `writeString`.
unfoldable pub write_units : Units → Units
unfolding escape_unit
write_units [] = []
write_units (c ∷ s) = escape_unit c ++ write_units s

-- A digit of `/^[0-9a-fA-F]{4}$/`.
unfoldable pub hex_digit : ℕ → Option ℕ
hex_digit c =
    if leb 48 c && leb c 57
    then some (c - 48)
    else if leb 97 c && leb c 102
    then some (c - 87)
    else if leb 65 c && leb c 70
    then some (c - 55)
    else none

-- The `switch` on the character of an escape, without `u`.
unfoldable pub escaped : ℕ → Option ℕ
escaped e =
    if eqb e 0x22
    then some 0x22
    else if eqb e 0x5c
    then some 0x5c
    else if eqb e 0x2f
    then some 0x2f
    else if eqb e 0x62
    then some 0x08
    else if eqb e 0x66
    then some 0x0c
    else if eqb e 0x6e
    then some 0x0a
    else if eqb e 0x72
    then some 0x0d
    else if eqb e 0x74
    then some 0x09
    else none

-- What the slow path has read of an escape: nothing, the backslash, or `\u` with some digits, of which
-- `left` more than one are to come.
pub data Mode : Type 0 where
  plain escape : Mode
  hex : ℕ → ℕ → Mode

abbrev pub prepend : ℕ → Result (Units × Units) → Result (Units × Units)
prepend c (err e) = err e
prepend c (ok (s, rest)) = ok (c ∷ s, rest)

-- The slow path of `parseString`: the string, and what is left of the text.
unfoldable pub slow_string : Mode → Units → Result (Units × Units)
unfolding escaped hex_digit
slow_string mode [] = err token_malformed
slow_string plain (c ∷ s) =
    let more = slow_string plain s in
    let after_backslash = slow_string escape s in
    if eqb c 0x22
    then ok ([], s)
    else if eqb c 0x5c
    then after_backslash
    else if ltb c 0x20
    then err token_malformed
    else prepend c more
slow_string escape (e ∷ s) =
    let more = slow_string plain s in
    let digits = slow_string (hex 3 0) s in
    if eqb e 0x75
    then digits
    else elim (escaped e) [ none ↦ err token_malformed | some u ↦ prepend u more ]
slow_string (hex zero v) (h ∷ s) =
    let more = slow_string plain s in
    elim (hex_digit h) [ none ↦ err token_malformed | some d ↦ prepend (v * 16 + d) more ]
slow_string (hex (suc left) v) (h ∷ s) = elim (hex_digit h) [
  | none ↦ err token_malformed
  | some d ↦ slow_string (hex left (v * 16 + d)) s
]

-- `parseString` behind the opening quote: the fast path, which leaves the text from the first escape
-- on to the slow one.
unfoldable pub fast_string : Units → Result (Units × Units)
unfolding slow_string
fast_string [] = err token_malformed
fast_string (c ∷ s) =
    let more = fast_string s in
    let slow = slow_string plain (c ∷ s) in
    if eqb c 0x22
    then ok ([], s)
    else if eqb c 0x5c
    then slow
    else if ltb c 0x20
    then err token_malformed
    else prepend c more
