-- ===== src/Http/Uri.antt =====
-- `decodeURIComponent`, on which the path router rests: the octets behind `%` are UTF-8, and every
-- other character stands for itself. `none` is the `URIError` of a malformed escape.
mod Tests
use Prim.Native.Char.{Char, char, code, IsLt}
use Prim.Native.Nat.{Ordering, compare}
use Prim.Native.String.{[], ◌∷◌}
use licensing.Common.{
  ℕ, ◌+◌, ◌-◌, ◌*◌, ◌≡◌, String, Bool, ◌&&◌, Option, none, some, ◌⊎◌, inl, inr, List, [] as []ᴸ,
  ◌∷◌ as ◌∷ᴸ◌, if◌then◌else◌, leb, ltb, eqb, zero, suc,
}

-- A character that stands for itself, or an escaped octet.
pub data Piece : Type 0 where
  plain : Char → Piece
  octet : ℕ → Piece

abbrev within : ℕ → ℕ → ℕ → Bool
within low high n = leb low n && leb n high

unfoldable hex_value : Char → Option ℕ
hex_value c =
    if within 48 57 (code c)
    then some (code c - 48)
    else if within 65 70 (code c)
    then some (code c - 55)
    else if within 97 102 (code c)
    then some (code c - 87)
    else none

octet_of : Option ℕ → Option ℕ → Option (List Piece) → Option (List Piece)
octet_of (some high) (some low) (some rest) = some (octet (high * 16 + low) ∷ᴸ rest)
octet_of _ _ _ = none

piece_before : Char → Option (List Piece) → Option (List Piece)
piece_before c none = none
piece_before c (some rest) = some (plain c ∷ᴸ rest)

unfoldable pieces : String → Option (List Piece)
unfolding hex_value octet_of piece_before
pieces [] = some []ᴸ
pieces (c ∷ []) = if eqb (code c) 37 then none else some (plain c ∷ᴸ []ᴸ)
pieces (c ∷ d ∷ []) = if eqb (code c) 37 then none else piece_before c (pieces (d ∷ []))
pieces (c ∷ d ∷ e ∷ s) =
    let escaped = octet_of (hex_value d) (hex_value e) (pieces s) in
    let literal = piece_before c (pieces (d ∷ e ∷ s)) in
    if eqb (code c) 37 then escaped else literal

-- The clauses of `IsScalar`, on the three comparisons that it makes.
abbrev BothBelow : Ordering → Ordering → Type 0
BothBelow Ordering.lt p = IsLt p
BothBelow Ordering.eq p = ⊥
BothBelow Ordering.gt p = ⊥

abbrev InRange : Ordering → Ordering → Ordering → Type 0
InRange Ordering.lt p q = Unit
InRange Ordering.eq p q = BothBelow p q
InRange Ordering.gt p q = BothBelow p q

abbrev both_below : (p q : Ordering) → Option (BothBelow p q)
both_below Ordering.lt Ordering.lt = some tt
both_below Ordering.lt Ordering.eq = none
both_below Ordering.lt Ordering.gt = none
both_below Ordering.eq q = none
both_below Ordering.gt q = none

abbrev in_range : (o p q : Ordering) → Option (InRange o p q)
in_range Ordering.lt p q = some tt
in_range Ordering.eq p q = both_below p q
in_range Ordering.gt p q = both_below p q

-- The character of a code point that is no surrogate, and below 0x110000.
abbrev char_of : ℕ → Option Char
char_of n = elim (in_range (compare n 55296) (compare 57343 n) (compare n 1114112)) [
  | none ↦ none
  | some p ↦ some (char n p)
]

abbrev text_before : Option Char → Option String → Option String
text_before (some c) (some s) = some (c ∷ s)
text_before _ _ = none

-- The octets as UTF-8: `k` more octets belong to a character with the bits `bits` so far, which is
-- at least `low`.
unfoldable utf8_text : ℕ → ℕ → ℕ → List Piece → Option String
utf8_text zero bits low []ᴸ = some []
utf8_text (suc k) bits low []ᴸ = none
utf8_text zero bits low (plain c ∷ᴸ rest) = text_before (some c) (utf8_text 0 0 0 rest)
utf8_text (suc k) bits low (plain c ∷ᴸ rest) = none
utf8_text zero bits low (octet b ∷ᴸ rest) =
    let ascii = text_before (char_of b) (utf8_text 0 0 0 rest) in
    let two = utf8_text 1 (b - 0xc0) 0x80 rest in
    let three = utf8_text 2 (b - 0xe0) 0x800 rest in
    let four = utf8_text 3 (b - 0xf0) 0x10000 rest in
    if ltb b 0x80
    then ascii
    else if within 0xc0 0xdf b
    then two
    else if within 0xe0 0xef b
    then three
    else if within 0xf0 0xf7 b
    then four
    else none
utf8_text (suc k) bits low (octet b ∷ᴸ rest) =
    let next = bits * 64 + (b - 0x80) in
    let more = utf8_text k next low rest in
    let whole = if leb low next then text_before (char_of next) (utf8_text 0 0 0 rest) else none in
    if within 0x80 0xbf b then elim k [ zero ↦ whole | suc _ ↦ more ] else none

-- `decodeURIComponent(s)`
unfoldable pub decode_uri_component : String → Option String
unfolding pieces utf8_text
decode_uri_component s = elim (pieces s) [ none ↦ none | some ps ↦ utf8_text 0 0 0 ps ]
