-- ===== src/Json/Numbers.antt =====
-- The numbers of canonical-json.ts (`writeNumber`) and of strict-json.ts (`parseNumber`).
use licensing.Common.{
  ℕ, zero, suc, ◌+◌, ◌*◌, ◌-◌, ◌/◌, ◌%◌, Bool, true, false, ◌&&◌, ◌||◌, Option, none, some, [], ◌∷◌,
  ◌++◌, if◌then◌else◌, eqb, leb, ltb,
}
use licensing.Errors.{Result, ok, err, token_malformed, canonical_invalid_number}
use licensing.Json.{Units, Number, whole, fraction}

-- `MAX_SAFE`
abbrev pub max_safe : ℕ
max_safe = 9007199254740991

-- The decimal digits of `n` before `rest`; more fuel than `n` is enough.
unfoldable pub digits_before : ℕ → ℕ → Units → Units
digits_before zero n rest = rest
digits_before (suc fuel) n rest =
    let more = digits_before fuel (n / 10) ((n % 10 + 48) ∷ rest) in
    if ltb n 10 then (n + 48) ∷ rest else more

-- `writeNumber`
unfoldable pub write_number : Number → Result Units
unfolding digits_before
write_number (fraction text) = err canonical_invalid_number
write_number (whole negative n) =
    let digits = digits_before (suc n) n [] in
    if negative && eqb n 0
    then err canonical_invalid_number
    else if ltb max_safe n
    then err canonical_invalid_number
    else ok (if negative then 0x2d ∷ digits else digits)

-- `isDigit`
abbrev pub is_digit : ℕ → Bool
is_digit c = leb 0x30 c && leb c 0x39

-- `while (isDigit(…)) ctx.i++`: the digits, and what is left.
unfoldable pub take_digits : Units → Units × Units
take_digits [] = ([], [])
take_digits (c ∷ s) =
    let (digits, rest) = take_digits s in if is_digit c then (c ∷ digits, rest) else ([], c ∷ s)

-- At least one digit.
abbrev pub some_digits : Units → Units × Units → Result (Units × Units)
some_digits before ([], rest) = err token_malformed
some_digits before (d ∷ digits, rest) = ok (before ++ d ∷ digits, rest)

-- The integer part: a `0`, or digits that do not begin with one.
unfoldable pub integer_part : Units → Result (Units × Units)
unfolding take_digits
integer_part [] = err token_malformed
integer_part (c ∷ s) =
    if eqb c 0x30 then ok (0x30 ∷ [], s) else some_digits [] (take_digits (c ∷ s))

-- The fraction, if there is a point.
unfoldable pub fraction_part : Units → Result (Units × Units)
unfolding take_digits
fraction_part [] = ok ([], [])
fraction_part (c ∷ s) =
    if eqb c 0x2e then some_digits (0x2e ∷ []) (take_digits s) else ok ([], c ∷ s)

abbrev pub sign_part : Units → Units × Units
sign_part [] = ([], [])
sign_part (c ∷ s) = if eqb c 0x2b || eqb c 0x2d then (c ∷ [], s) else ([], c ∷ s)

-- The exponent, if there is an `e`.
unfoldable pub exponent_part : Units → Result (Units × Units)
unfolding take_digits
exponent_part [] = ok ([], [])
exponent_part (c ∷ s) =
    let (sign, digits) = sign_part s in
    if eqb c 0x65 || eqb c 0x45 then some_digits (c ∷ sign) (take_digits digits) else ok ([], c ∷ s)

-- The number of some decimal digits behind the ones of `n`.
abbrev pub digits_value : ℕ → Units → ℕ
digits_value n [] = n
digits_value n (c ∷ digits) = digits_value (n * 10 + (c - 48)) digits

-- `Number(literal)`, exact for an integer in the safe range. `rounded` is what it makes of any other
-- literal, none for an infinity.
unfoldable pub number_of : (Units → Option Number) → Bool → Units → Units → Units → Option Number
number_of rounded negative digits [] [] =
    let n = digits_value 0 digits in
    if leb n max_safe
    then some (whole negative n)
    else rounded (if negative then 0x2d ∷ digits else digits)
number_of rounded negative digits decimals exponent =
    let literal = digits ++ (decimals ++ exponent) in
    rounded (if negative then 0x2d ∷ literal else literal)

abbrev pub finite : Option Number → Units → Result (Number × Units)
finite none rest = err token_malformed
finite (some n) rest = ok (n, rest)

abbrev pub parse_exponent :
    (Units → Option Number)
    → Bool
    → Units
    → Units
    → Result (Units × Units)
    → Result (Number × Units)
parse_exponent rounded negative digits decimals (err e) = err e
parse_exponent rounded negative digits decimals (ok (exponent, rest)) =
    finite (number_of rounded negative digits decimals exponent) rest

abbrev pub parse_fraction :
    (Units → Option Number) → Bool → Units → Result (Units × Units) → Result (Number × Units)
parse_fraction rounded negative digits (err e) = err e
parse_fraction rounded negative digits (ok (decimals, rest)) =
    parse_exponent rounded negative digits decimals (exponent_part rest)

abbrev pub parse_unsigned :
    (Units → Option Number) → Bool → Result (Units × Units) → Result (Number × Units)
parse_unsigned rounded negative (err e) = err e
parse_unsigned rounded negative (ok (digits, rest)) =
    parse_fraction rounded negative digits (fraction_part rest)

-- `parseNumber`
unfoldable pub parse_number : (Units → Option Number) → Units → Result (Number × Units)
unfolding integer_part fraction_part exponent_part number_of
parse_number rounded [] = err token_malformed
parse_number rounded (c ∷ s) =
    if eqb c 0x2d
    then parse_unsigned rounded true (integer_part s)
    else parse_unsigned rounded false (integer_part (c ∷ s))
