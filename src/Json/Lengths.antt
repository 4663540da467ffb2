-- ===== src/Json/Lengths.antt =====
-- How much of a text the parts of strict-json.ts take.
use licensing.Common.{
  ℕ, zero, suc, ◌+◌, ◌*◌, ◌<◌, ◌≤◌, ◌≡◌, refl, ap, Bool, true, false, Option, none, some, [], ◌∷◌,
  Bool-cases, Option-cases, inl, inr, ◌⊎◌, arith, length,
}
use licensing.Errors.{Result, ok, err, out_of_fuel}
use licensing.Json.{Units, Number, Value}
use licensing.Json.Strings.{
  Mode, plain, escape, hex, prepend, escaped, hex_digit, slow_string, fast_string,
}
use licensing.Json.Numbers.{
  is_digit, take_digits, some_digits, integer_part, fraction_part, exponent_part, sign_part, finite,
  parse_exponent, parse_fraction, parse_unsigned, parse_number, number_of,
}
use licensing.Json.Strict.{skip_ws, parse_literal, next_of, closes, more, closed}

-- One more than the length of what a run leaves, 0 where it throws.
abbrev pub left {ℓ} : {A : Type ℓ} → Result (A × Units) → ℕ
left (ok (a, rest)) = suc (length rest)
left (err e) = 0

-- Whether a run is out of fuel.
abbrev pub is_spent {ℓ} : {A : Type ℓ} → Result A → Bool
is_spent (err out_of_fuel) = true
is_spent _ = false

pub length-skip_ws-le : (s : Units) → length (skip_ws s) ≤ length s
unfolding skip_ws
length-skip_ws-le [] = omega arith
length-skip_ws-le (c ∷ s) = ground (arith, length-skip_ws-le s)

left-prepend : (c : ℕ) (r : Result (Units × Units)) → left (prepend c r) ≡ left r
left-prepend c (ok (text, rest)) = refl
left-prepend c (err e) = refl

is_spent-prepend : (c : ℕ) (r : Result (Units × Units)) → is_spent (prepend c r) ≡ is_spent r
is_spent-prepend c (ok (text, rest)) = refl
is_spent-prepend c (err e) = cc

pub left-slow_string-le : (mode : Mode) (s : Units) → left (slow_string mode s) ≤ length s
unfolding slow_string
left-slow_string-le mode [] = omega arith
left-slow_string-le plain (c ∷ s) = ground (
  arith,
  left-slow_string-le plain s,
  left-slow_string-le escape s,
  left-prepend c (slow_string plain s),
)
left-slow_string-le escape (e ∷ s) = elim (Option-cases (escaped e)) [
  | inl bad ↦ ground (arith, left-slow_string-le (hex 3 0) s)
  | inr (u, good) ↦ ground (
    arith,
    left-slow_string-le (hex 3 0) s,
    left-slow_string-le plain s,
    left-prepend u (slow_string plain s),
  )
]
left-slow_string-le (hex zero v) (h ∷ s) = elim (Option-cases (hex_digit h)) [
  | inl bad ↦ ground arith
  | inr (d, good) ↦
      ground (arith, left-slow_string-le plain s, left-prepend (v * 16 + d) (slow_string plain s))
]
left-slow_string-le (hex (suc k) v) (h ∷ s) = elim (Option-cases (hex_digit h)) [
  | inl bad ↦ ground arith
  | inr (d, good) ↦ ground (arith, left-slow_string-le (hex k (v * 16 + d)) s)
]

is_spent-slow_string : (mode : Mode) (s : Units) → is_spent (slow_string mode s) ≡ false
unfolding slow_string
is_spent-slow_string mode [] = refl
is_spent-slow_string plain (c ∷ s) = ground (
  arith,
  is_spent-slow_string plain s,
  is_spent-slow_string escape s,
  is_spent-prepend c (slow_string plain s),
)
is_spent-slow_string escape (e ∷ s) = elim (Option-cases (escaped e)) [
  | inl bad ↦ ground (arith, is_spent-slow_string (hex 3 0) s)
  | inr (u, good) ↦ ground (
    arith,
    is_spent-slow_string (hex 3 0) s,
    is_spent-slow_string plain s,
    is_spent-prepend u (slow_string plain s),
  )
]
is_spent-slow_string (hex zero v) (h ∷ s) = elim (Option-cases (hex_digit h)) [
  | inl bad ↦ ground arith
  | inr (d, good) ↦
      ground
        (arith, is_spent-slow_string plain s, is_spent-prepend (v * 16 + d) (slow_string plain s))
]
is_spent-slow_string (hex (suc k) v) (h ∷ s) = elim (Option-cases (hex_digit h)) [
  | inl bad ↦ ground arith
  | inr (d, good) ↦ ground (arith, is_spent-slow_string (hex k (v * 16 + d)) s)
]

pub left-fast_string-le : (s : Units) → left (fast_string s) ≤ length s
unfolding fast_string
left-fast_string-le [] = omega arith
left-fast_string-le (c ∷ s) = ground (
  arith,
  left-fast_string-le s,
  left-slow_string-le plain (c ∷ s),
  left-prepend c (fast_string s),
)

pub is_spent-fast_string : (s : Units) → is_spent (fast_string s) ≡ false
unfolding fast_string
is_spent-fast_string [] = refl
is_spent-fast_string (c ∷ s) = ground (
  arith,
  is_spent-fast_string s,
  is_spent-slow_string plain (c ∷ s),
  is_spent-prepend c (fast_string s),
)

length-take_digits-le : (s : Units) → length (take_digits s).1 ≤ length s
unfolding take_digits
length-take_digits-le [] = omega arith
length-take_digits-le (c ∷ s) = ground (arith, length-take_digits-le s)

some_digits-bounds :
    (before : Units) (t : Units × Units)
    → (left (some_digits before t) ≤ suc (length t.1)) × (is_spent (some_digits before t) ≡ false)
some_digits-bounds before ([], rest) = (omega arith, refl)
some_digits-bounds before (d ∷ digits, rest) = (omega arith, refl)

-- The parts of a number.
pub integer_part-bounds :
    (s : Units) → (left (integer_part s) ≤ length s) × (is_spent (integer_part s) ≡ false)
unfolding integer_part take_digits
integer_part-bounds [] = (omega arith, refl)
integer_part-bounds (c ∷ s) = elim (Bool-cases (is_digit c)) [
  | inl digit ↦ ground (arith, length-take_digits-le s)
  | inr other ↦ ground arith
]

pub fraction_part-bounds :
    (s : Units) → (left (fraction_part s) ≤ suc (length s)) × (is_spent (fraction_part s) ≡ false)
unfolding fraction_part
fraction_part-bounds [] = (omega arith, refl)
fraction_part-bounds (c ∷ s) =
    let some = some_digits-bounds (0x2e ∷ []) (take_digits s) in
    ground (arith, some, length-take_digits-le s)

length-sign_part-le : (s : Units) → length (sign_part s).1 ≤ length s
length-sign_part-le [] = omega arith
length-sign_part-le (c ∷ s) = ground arith

pub exponent_part-bounds :
    (s : Units) → (left (exponent_part s) ≤ suc (length s)) × (is_spent (exponent_part s) ≡ false)
unfolding exponent_part
exponent_part-bounds [] = (omega arith, refl)
exponent_part-bounds (c ∷ s) =
    let digits = (sign_part s).1 in
    let taken = some_digits-bounds (c ∷ (sign_part s).0) (take_digits digits) in
    ground (arith, taken, length-take_digits-le digits, length-sign_part-le s)

finite-bounds :
    (o : Option Number) (rest : Units)
    → (left (finite o rest) ≤ suc (length rest)) × (is_spent (finite o rest) ≡ false)
finite-bounds none rest = (omega arith, refl)
finite-bounds (some n) rest = (omega arith, refl)

module _ (rounded : Units → Option Number) (negative : Bool) where
  parse_exponent-bounds :
      (digits decimals : Units) (r : Result (Units × Units))
      → is_spent r ≡ false
      → (left (parse_exponent rounded negative digits decimals r) ≤ left r)
        × (is_spent (parse_exponent rounded negative digits decimals r) ≡ false)
  parse_exponent-bounds digits decimals (err e) h = (omega arith, ground (arith, h))
  parse_exponent-bounds digits decimals (ok (exponent, rest)) h =
      finite-bounds (number_of rounded negative digits decimals exponent) rest

  parse_fraction-bounds :
      (digits : Units) (r : Result (Units × Units))
      → is_spent r ≡ false
      → (left (parse_fraction rounded negative digits r) ≤ left r)
        × (is_spent (parse_fraction rounded negative digits r) ≡ false)
  parse_fraction-bounds digits (err e) h = (omega arith, ground (arith, h))
  parse_fraction-bounds digits (ok (decimals, rest)) h =
      let (short, calm) = exponent_part-bounds rest in
      let (le, done) = parse_exponent-bounds digits decimals (exponent_part rest) calm in
      (omega (arith, short, le), done)

  parse_unsigned-bounds :
      (r : Result (Units × Units))
      → is_spent r ≡ false
      → (left (parse_unsigned rounded negative r) ≤ left r)
        × (is_spent (parse_unsigned rounded negative r) ≡ false)
  parse_unsigned-bounds (err e) h = (omega arith, ground (arith, h))
  parse_unsigned-bounds (ok (digits, rest)) h =
      let (short, calm) = fraction_part-bounds rest in
      let (le, done) = parse_fraction-bounds digits (fraction_part rest) calm in
      (omega (arith, short, le), done)

pub parse_number-bounds :
    (rounded : Units → Option Number) (s : Units)
    → (left (parse_number rounded s) ≤ length s) × (is_spent (parse_number rounded s) ≡ false)
unfolding parse_number
parse_number-bounds rounded [] = (omega arith, refl)
parse_number-bounds rounded (c ∷ s) =
    let (minus, calm) = integer_part-bounds s in
    let (plus, calm') = integer_part-bounds (c ∷ s) in
    ground (
      arith,
      minus,
      plus,
      parse_unsigned-bounds rounded true (integer_part s) calm,
      parse_unsigned-bounds rounded false (integer_part (c ∷ s)) calm',
    )

-- What is left behind a literal, of which there is a unit at least.
pub parse_literal-bounds :
    (expected s : Units) (v : Value)
    → (left (parse_literal expected v s) + length expected ≤ suc (length s)
        ⊎ (left (parse_literal expected v s) ≡ 0))
      × (is_spent (parse_literal expected v s) ≡ false)
unfolding parse_literal
parse_literal-bounds [] s v = (inl (omega arith), refl)
parse_literal-bounds (e ∷ expected) [] v = (inr refl, refl)
parse_literal-bounds (e ∷ expected) (c ∷ s) v = ground (arith, parse_literal-bounds expected s v)

-- The units between members.
pub length-next_of-lt :
    (closing : ℕ) (s rest : Units)
    → ((next_of closing s ≡ more rest) ⊎ (next_of closing s ≡ closed rest))
    → length rest < length s
unfolding next_of
length-next_of-lt closing [] rest h = absurd (ground (arith, h))
length-next_of-lt closing (c ∷ s) rest h =
    let same : s ≡ rest = ground (arith, h) in omega (arith, ap length same)

pub length-closes-lt :
    (closing : ℕ) (s rest : Units) → closes closing s ≡ some rest → length rest < length s
unfolding closes
length-closes-lt closing [] rest h = absurd (ground arith)
length-closes-lt closing (c ∷ s) rest h =
    let same : s ≡ rest = ground (arith, h) in omega (arith, ap length same)
