-- ===== src/Json/RoundTrip/Pieces.antt =====
-- The parts of a written text: what a value begins with, and what comes after it.
use licensing.Common.{
  ℕ, suc, ◌≡◌, refl, ap, ◌∙◌, Bool, true, false, ◌||◌, none, [], ◌∷◌, ◌++◌, eqb, arith,
}
use licensing.Errors.{Result, ok, err}
use licensing.Json.{Units, Number, Value, null, bool, num, str, arr, obj, whole, fraction}
use licensing.Json.Strings.{write_units}
use licensing.Json.Numbers.{write_number, is_digit, digits_before}
use licensing.Json.Canonical.{◌>+>◌, write_value, write_items, write_string}
use licensing.Json.Strict.{skip_ws, closes, start_of, number}
use licensing.Json.RoundTrip.Numbers.{Stops, write_number-cases, digits_before-digit}

-- Two texts one after the other.
pub cat-cases :
    (p q : Result Units) (text : Units)
    → (p >+> q) ≡ ok text
    → (a b : Units) × (p ≡ ok a) × (q ≡ ok b) × (text ≡ a ++ b)
cat-cases (err e) q text h = cc
cat-cases (ok a) (err e) text h = cc
cat-cases (ok a) (ok b) text h = (a, b, refl, refl, ground (arith, h))

-- The units that a value begins with: a brace, a bracket, a quote, a letter, a sign or a digit.
abbrev pub begins : ℕ → Bool
begins c =
    eqb c 0x7b
    || (eqb c 0x5b
        || (eqb c 0x22
            || (eqb c 0x74 || (eqb c 0x66 || (eqb c 0x6e || (eqb c 0x2d || is_digit c))))))

abbrev pub Begins : Units → Type 0
Begins text = (c : ℕ) × (s : Units) × (text ≡ c ∷ s) × (begins c ≡ true)

pub write_number-begins :
    (n : Number) (text : Units)
    → write_number n ≡ ok text
    → (c : ℕ) × (s : Units) × (text ≡ c ∷ s) × ((eqb c 0x2d || is_digit c) ≡ true)
unfolding write_number
write_number-begins (fraction t) text h = cc
write_number-begins (whole true n) text h =
    let (safe, written) = write_number-cases true n text h in
    (0x2d, digits_before (suc n) n [], written, refl)
write_number-begins (whole false n) text h =
    let (safe, written) = write_number-cases false n text h in
    let (c, s, e, digit) = digits_before-digit n in (c, s, written ∙ e, ground (arith, digit))

pub write_string-text :
    (s text : Units) → write_string s ≡ ok text → text ≡ 0x22 ∷ (write_units s ++ 0x22 ∷ [])
unfolding write_string
write_string-text s text h = ground (arith, h)

pub write_value-Begins : (v : Value) (text : Units) → write_value v ≡ ok text → Begins text
unfolding write_value
write_value-Begins null text h = (0x6e, 0x75 ∷ 0x6c ∷ 0x6c ∷ [], ground (arith, h), refl)
write_value-Begins (bool true) text h = (0x74, 0x72 ∷ 0x75 ∷ 0x65 ∷ [], ground (arith, h), refl)
write_value-Begins (bool false) text h =
    (0x66, 0x61 ∷ 0x6c ∷ 0x73 ∷ 0x65 ∷ [], ground (arith, h), refl)
write_value-Begins (num n) text h =
    let (c, s, e, b) = write_number-begins n text h in (c, s, e, ground (arith, b))
write_value-Begins (str s) text h =
    (0x22, write_units s ++ 0x22 ∷ [], write_string-text s text h, refl)
write_value-Begins (arr items) text h =
    let (a, b, p, q, e) = cat-cases (ok (0x5b ∷ [])) (write_items true items) text h in
    let opened : a ≡ 0x5b ∷ [] = ground (arith, p) in
    (0x5b, b, e ∙ ap (λ (t : Units). t ++ b) opened, refl)
write_value-Begins (obj fs) text h =
    let (a, b, p, q, e) = cat-cases (ok (0x7b ∷ [])) _ text h in
    let opened : a ≡ 0x7b ∷ [] = ground (arith, p) in
    (0x7b, b, e ∙ ap (λ (t : Units). t ++ b) opened, refl)

-- No white space before a value, and no end of an array or object.
pub skip_ws-begins : (c : ℕ) (s : Units) → begins c ≡ true → skip_ws (c ∷ s) ≡ c ∷ s
unfolding skip_ws
skip_ws-begins c s h = ground arith

pub closes-begins :
    (c : ℕ) (s : Units)
    → begins c ≡ true
    → (closes 0x5d (c ∷ s) ≡ none) × (closes 0x7d (c ∷ s) ≡ none)
unfolding closes
closes-begins c s h = ground arith

pub skip_ws-Stops : (s : Units) → Stops s → skip_ws s ≡ s
unfolding skip_ws
skip_ws-Stops [] h = refl
skip_ws-Stops (c ∷ s) h = ground arith

pub start_of-number : (c : ℕ) → (eqb c 0x2d || is_digit c) ≡ true → start_of c ≡ number
unfolding start_of
start_of-number c h = ground arith
