-- ===== src/Json/RoundTrip/Numbers.antt =====
-- Numbers that are written and read back.
use mathlib.Core.Path.{subst}
use licensing.Common.{
  ℕ, zero, suc, ◌+◌, ◌/◌, ◌%◌, ◌<◌, ◌≡◌, refl, ap, ◌∙◌, Bool, true, false, ◌&&◌, ◌||◌, Option, some,
  [], ◌∷◌, ◌++◌, if◌then◌else◌, eqb, leb, ltb, Bool-cases, inl, inr, arith, All,
}
use licensing.Errors.{ok}
use licensing.Json.{Units, Number, whole, fraction}
use licensing.Json.Numbers.{
  max_safe, digits_before, write_number, is_digit, take_digits, integer_part, fraction_part,
  exponent_part, digits_value, number_of, parse_unsigned, parse_number,
}

-- What comes behind a value: nothing, a comma, or a closing bracket or brace.
abbrev pub Stops : Units → Type 0
Stops [] = Unit
Stops (c ∷ s) = (eqb c 0x2c || (eqb c 0x5d || eqb c 0x7d)) ≡ true

abbrev AllDigits : Units → Type 0
AllDigits digits = All (λ c. is_digit c ≡ true) digits

digits_before-AllDigits :
    (fuel n : ℕ) (rest : Units) → AllDigits rest → AllDigits (digits_before fuel n rest)
unfolding digits_before
digits_before-AllDigits zero n rest h = h
digits_before-AllDigits (suc fuel) n rest h = elim (Bool-cases (ltb n 10)) [
  | inl small ↦ rw small (ground arith, h)
  | inr large ↦
      rw large (digits_before-AllDigits fuel (n / 10) ((n % 10 + 48) ∷ rest) (ground arith, h))
]

digits_value-digits_before :
    (fuel n : ℕ) (rest : Units)
    → n < fuel
    → digits_value 0 (digits_before fuel n rest) ≡ digits_value n rest
unfolding digits_before
digits_value-digits_before zero n rest h = absurd (omega arith)
digits_value-digits_before (suc fuel) n rest h = elim (Bool-cases (ltb n 10)) [
  | inl small ↦ rw small (ap (λ (v : ℕ). digits_value v rest) (omega arith))
  | inr large ↦ rw large (
      digits_value-digits_before fuel (n / 10) ((n % 10 + 48) ∷ rest) (ground arith)
      ∙ ap (λ (v : ℕ). digits_value v rest) (omega arith))
]

take_digits-append :
    (digits rest : Units)
    → AllDigits digits
    → Stops rest
    → take_digits (digits ++ rest) ≡ (digits, rest)
unfolding take_digits
take_digits-append [] [] h k = refl
take_digits-append [] (c ∷ s) h k = ground arith
take_digits-append (c ∷ digits) rest h k = ground (arith, take_digits-append digits rest h.1 k, h.0)

-- The first digit: a zero of its own, or another.
digits_before-head :
    (fuel n : ℕ) (rest : Units)
    → n < fuel
    → 0 < n
    → (c : ℕ) × (more : Units) × (digits_before fuel n rest ≡ c ∷ more) × (48 < c)
unfolding digits_before
digits_before-head zero n rest h k = absurd (omega arith)
digits_before-head (suc fuel) n rest h k = elim (Bool-cases (ltb n 10)) [
  | inl small ↦ (n + 48, rest, rw small refl, omega arith)
  | inr large ↦
      let (c, more, e, above) =
        digits_before-head fuel (n / 10) ((n % 10 + 48) ∷ rest) (ground arith) (ground arith) in
      (c, more, rw large e, above)
]

integer_part-some :
    (c : ℕ) (more rest : Units)
    → 48 < c
    → (digits : Units) → digits ≡ c ∷ more
    → take_digits (digits ++ rest) ≡ (digits, rest)
    → integer_part (digits ++ rest) ≡ ok (digits, rest)
unfolding integer_part
integer_part-some c more rest above [] e taken = absurd (ground arith)
integer_part-some c more rest above (d ∷ digits) e taken =
    let no_zero : eqb d 0x30 ≡ false = ground arith in rw (no_zero, taken) refl

integer_part-digits_before :
    (n : ℕ) (rest : Units)
    → Stops rest
    → integer_part (digits_before (suc n) n [] ++ rest) ≡ ok (digits_before (suc n) n [], rest)
unfolding integer_part digits_before
integer_part-digits_before zero rest h = refl
integer_part-digits_before (suc m) rest h =
    let n = suc m in
    let digits = digits_before (suc n) n [] in
    let (c, more, e, above) = digits_before-head (suc n) n [] (omega arith) (omega arith) in
    let taken = take_digits-append digits rest (digits_before-AllDigits (suc n) n [] tt) h in
    integer_part-some c more rest (omega arith) digits e taken

pub digits_before-digit :
    (n : ℕ) → (c : ℕ) × (s : Units) × (digits_before (suc n) n [] ≡ c ∷ s) × (is_digit c ≡ true)
unfolding digits_before
digits_before-digit zero = (48, [], refl, refl)
digits_before-digit (suc m) =
    let n = suc m in
    let (c, more, e, above) = digits_before-head (suc n) n [] (omega arith) (omega arith) in
    let digits = digits_before-AllDigits (suc n) n [] tt in
    (c, more, e, (subst AllDigits e digits).0)

fraction_part-Stops : (rest : Units) → Stops rest → fraction_part rest ≡ ok ([], rest)
unfolding fraction_part
fraction_part-Stops [] h = refl
fraction_part-Stops (c ∷ s) h = ground arith

exponent_part-Stops : (rest : Units) → Stops rest → exponent_part rest ≡ ok ([], rest)
unfolding exponent_part
exponent_part-Stops [] h = refl
exponent_part-Stops (c ∷ s) h = ground arith

number_of-digits_before :
    (rounded : Units → Option Number) (negative : Bool) (n : ℕ)
    → ltb max_safe n ≡ false
    → number_of rounded negative (digits_before (suc n) n []) [] [] ≡ some (whole negative n)
unfolding number_of
number_of-digits_before rounded negative n h =
    let value = digits_value-digits_before (suc n) n [] (omega arith) in
    let safe : leb n max_safe ≡ true = ground arith in rw (value, safe) refl

-- What `parseNumber` makes of the digits of a safe integer.
parse_unsigned-digits_before :
    (rounded : Units → Option Number) (negative : Bool) (n : ℕ) (rest : Units)
    → ltb max_safe n ≡ false
    → Stops rest
    → parse_unsigned rounded negative (integer_part (digits_before (suc n) n [] ++ rest))
      ≡ ok (whole negative n, rest)
parse_unsigned-digits_before rounded negative n rest h k =
    rw
      (
        integer_part-digits_before n rest k,
        fraction_part-Stops rest k,
        exponent_part-Stops rest k,
        number_of-digits_before rounded negative n h,
      )
      refl

-- A digit is no sign.
parse_number-digits :
    (rounded : Units → Option Number) (digits rest : Units) (n : Number)
    → AllDigits digits
    → parse_unsigned rounded false (integer_part (digits ++ rest)) ≡ ok (n, rest)
    → Stops rest
    → parse_number rounded (digits ++ rest) ≡ ok (n, rest)
unfolding parse_number integer_part
parse_number-digits rounded [] [] n h e k = e
parse_number-digits rounded [] (c ∷ s) n h e k = absurd (ground arith)
parse_number-digits rounded (c ∷ digits) rest n h e k =
    let no_sign : eqb c 0x2d ≡ false = ground (arith, h.0) in rw no_sign e

-- What `writeNumber` accepts, and its text.
pub write_number-cases :
    (negative : Bool) (n : ℕ) (text : Units)
    → write_number (whole negative n) ≡ ok text
    → (ltb max_safe n ≡ false)
      × (text
          ≡ (if negative then 0x2d ∷ digits_before (suc n) n [] else digits_before (suc n) n []))
unfolding write_number
write_number-cases negative n text h = elim (Bool-cases (negative && eqb n 0)) [
  | inl zero_sign ↦ absurd (ground (arith, zero_sign, h))
  | inr signed ↦ elim (Bool-cases (ltb max_safe n)) [
    | inl large ↦ absurd (ground (arith, signed, large, h))
    | inr safe ↦ (safe, ground (arith, signed, safe, h))
  ]
]

-- Numbers that `writeNumber` accepts.
pub parse_number-write_number :
    (rounded : Units → Option Number) (n : Number) (text rest : Units)
    → write_number n ≡ ok text
    → Stops rest
    → parse_number rounded (text ++ rest) ≡ ok (n, rest)
unfolding write_number parse_number
parse_number-write_number rounded (fraction t) text rest h k = cc
parse_number-write_number rounded (whole true n) text rest h k =
    let (safe, written) = write_number-cases true n text h in
    rw written (parse_unsigned-digits_before rounded true n rest safe k)
parse_number-write_number rounded (whole false n) text rest h k =
    let (safe, written) = write_number-cases false n text h in
    rw written (
      parse_number-digits rounded (digits_before (suc n) n []) rest (whole false n)
        (digits_before-AllDigits (suc n) n [] tt)
        (parse_unsigned-digits_before rounded false n rest safe k) k)
