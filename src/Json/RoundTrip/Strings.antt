-- ===== src/Json/RoundTrip/Strings.antt =====
-- Strings that are written and read back.
use mathlib.Core.List.{append_assoc}
use licensing.Common.{
  ℕ, ◌/◌, ◌%◌, ◌<◌, ◌≡◌, refl, ap, ◌∙◌, false, none, some, [], ◌∷◌, ◌++◌, eqb, ltb, ltb→lt, ◌⊎◌,
  Bool-cases, Option-cases, inl, inr, arith,
}
use licensing.Errors.{ok}
use licensing.Json.{Units}
use licensing.Json.Strings.{
  hex_unit, short_escape, escape_unit, write_units, hex_digit, escaped, plain, prepend, slow_string,
  fast_string,
}

hex_digit-hex_unit : (n : ℕ) → n < 16 → hex_digit (hex_unit n) ≡ some n
unfolding hex_digit
hex_digit-hex_unit n h = ground arith

-- The hexadecimal escape of a control character.
slow_string-control :
    (c : ℕ) (s : Units)
    → c < 32
    → slow_string plain (0x5c ∷ 0x75 ∷ 0x30 ∷ 0x30 ∷ hex_unit (c / 16 % 16) ∷ hex_unit (c % 16) ∷ s)
      ≡ prepend c (slow_string plain s)
unfolding slow_string
slow_string-control c s h =
    rw (hex_digit-hex_unit (c / 16 % 16) (omega arith), hex_digit-hex_unit (c % 16) (omega arith))
      (ap (λ (n : ℕ). prepend n (slow_string plain s)) (omega arith))

-- A short escape is read as the unit that it was written for.
escaped-short_escape :
    (c letter : ℕ)
    → short_escape c ≡ some letter
    → (escaped letter ≡ some c) × (eqb letter 0x75 ≡ false)
unfolding short_escape escaped
escaped-short_escape c letter h = ground arith

short_escape-none : (c : ℕ) → short_escape c ≡ none → (eqb c 0x22 ≡ false) × (eqb c 0x5c ≡ false)
unfolding short_escape
short_escape-none c h = ground arith

slow_string-letter :
    (c letter : ℕ) (s : Units)
    → short_escape c ≡ some letter
    → slow_string plain (0x5c ∷ letter ∷ s) ≡ prepend c (slow_string plain s)
unfolding slow_string
slow_string-letter c letter s h =
    let (read, no_u) = escaped-short_escape c letter h in ground (arith, read, no_u)

-- A unit is written as a short escape, a hexadecimal one, or itself.
escape_unit-cases :
    (c : ℕ)
    → ((letter : ℕ) × (short_escape c ≡ some letter) × (escape_unit c ≡ 0x5c ∷ letter ∷ []))
      ⊎ (((c < 32)
            × (escape_unit c
                ≡ 0x5c ∷ 0x75 ∷ 0x30 ∷ 0x30 ∷ hex_unit (c / 16 % 16) ∷ hex_unit (c % 16) ∷ []))
          ⊎ ((short_escape c ≡ none) × (ltb c 32 ≡ false) × (escape_unit c ≡ c ∷ [])))
unfolding escape_unit
escape_unit-cases c = elim (Option-cases (short_escape c)) [
  | inr (letter, e) ↦ inl (letter, e, ground (arith, e))
  | inl raw ↦ elim (Bool-cases (ltb c 32)) [
    | inl low ↦ inr (inl (omega (arith, ltb→lt c 32 low), ground (arith, raw, low)))
    | inr high ↦ inr (inr (raw, high, ground (arith, raw, high)))
  ]
]

slow_string-raw :
    (c : ℕ) (s : Units)
    → short_escape c ≡ none
    → ltb c 32 ≡ false
    → slow_string plain (c ∷ s) ≡ prepend c (slow_string plain s)
unfolding slow_string
slow_string-raw c s raw high =
    let (no_quote, no_backslash) = short_escape-none c raw in rw (no_quote, no_backslash, high) refl

-- An escape is read as the unit that was written.
slow_string-escape_unit :
    (c : ℕ) (s : Units) → slow_string plain (escape_unit c ++ s) ≡ prepend c (slow_string plain s)
slow_string-escape_unit c s = elim (escape_unit-cases c) [
  | inl (letter, e, written) ↦ rw written (slow_string-letter c letter s e)
  | inr (inl (low, written)) ↦ rw written (slow_string-control c s low)
  | inr (inr (raw, high, written)) ↦ rw written (slow_string-raw c s raw high)
]

slow_string-write_units :
    (s rest : Units) → slow_string plain (write_units s ++ 0x22 ∷ rest) ≡ ok (s, rest)
unfolding write_units slow_string
slow_string-write_units [] rest = refl
slow_string-write_units (c ∷ s) rest =
    ap (slow_string plain) (append_assoc (escape_unit c) (write_units s) (0x22 ∷ rest))
    ∙ slow_string-escape_unit c (write_units s ++ 0x22 ∷ rest)
    ∙ ap (prepend c) (slow_string-write_units s rest)

-- The fast path takes a plain unit itself and leaves an escape to the slow path.
fast_string-escape_unit :
    (c : ℕ) (s : Units) (t : Units × Units)
    → slow_string plain s ≡ ok t
    → fast_string s ≡ ok t
    → fast_string (escape_unit c ++ s) ≡ prepend c (ok t)
unfolding fast_string
fast_string-escape_unit c s t h k = elim (escape_unit-cases c) [
  | inl (letter, e, written) ↦ rw written (slow_string-letter c letter s e ∙ ap (prepend c) h)
  | inr (inl (low, written)) ↦ rw written (slow_string-control c s low ∙ ap (prepend c) h)
  | inr (inr (raw, high, written)) ↦
      let (no_quote, no_backslash) = short_escape-none c raw in
      rw written (rw (no_quote, no_backslash, high, k) refl)
]

pub fast_string-write_units :
    (s rest : Units) → fast_string (write_units s ++ 0x22 ∷ rest) ≡ ok (s, rest)
unfolding write_units fast_string
fast_string-write_units [] rest = refl
fast_string-write_units (c ∷ s) rest =
    ap fast_string (append_assoc (escape_unit c) (write_units s) (0x22 ∷ rest))
    ∙ fast_string-escape_unit c (write_units s ++ 0x22 ∷ rest) (s, rest)
        (slow_string-write_units s rest) (fast_string-write_units s rest)
