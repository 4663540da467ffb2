-- ===== src/Id/Digits.antt =====
-- The digits that typescript/src/id.ts and the license key formats write numbers with.
use Prim.Native.Char.{Char, code}
use Prim.Native.String.{◌∷◌ as ◌∷ᵀ◌}
use licensing.Common.{ℕ, zero, suc, ◌+◌, ◌/◌, ◌%◌, ◌<◌, String, List, [], ◌∷◌, ltb, if◌then◌else◌}

-- Every character is below `bound`.
abbrev pub CodesBelow : ℕ → List Char → Type 0
CodesBelow bound [] = Unit
CodesBelow bound (c ∷ cs) = (code c < bound) × CodesBelow bound cs

-- `digits[n]` of a text of digits; `0` past its end, which no caller reaches.
unfoldable pub index_char : List Char → ℕ → Char
index_char [] n = "0"
index_char (c ∷ cs) zero = c
index_char (c ∷ cs) (suc n) = index_char cs n

pub code-index_char-lt :
    (bound : ℕ) (cs : List Char) (n : ℕ)
    → 48 < bound
    → CodesBelow bound cs
    → code (index_char cs n) < bound
unfolding index_char
code-index_char-lt bound [] n h k = h
code-index_char-lt bound (c ∷ cs) zero h k = k.0
code-index_char-lt bound (c ∷ cs) (suc n) h k = code-index_char-lt bound cs n h k.1

abbrev pub hex_digits : List Char
hex_digits =
    "0" ∷ "1" ∷ "2" ∷ "3" ∷ "4" ∷ "5" ∷ "6" ∷ "7" ∷ "8" ∷ "9" ∷ "a" ∷ "b" ∷ "c" ∷ "d" ∷ "e" ∷ "f"
    ∷ []

-- The digits of `n` before `rest`, `fuel` at most; `n + 1` are always enough.
unfoldable digits_before : ℕ → ℕ → String → String
digits_before zero n rest = rest
digits_before (suc fuel) n rest =
    let text = index_char hex_digits (n % 10) ∷ᵀ rest in
    let more = digits_before fuel (n / 10) text in if ltb n 10 then text else more

-- `String(n)` of a natural number.
unfoldable pub decimal_text : ℕ → String
unfolding digits_before index_char
decimal_text n = digits_before (n + 1) n ""
