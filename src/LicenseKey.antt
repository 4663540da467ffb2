-- ===== src/LicenseKey.antt =====
-- License keys: typescript/src/license-key.ts. Texts are taken apart into their characters.
pub mod Laws
mod Tests
use Prim.Native.Char.{Char, code}
use Prim.Native.String.{[], ◌∷◌}
use text.Mathlib.TextBridge.{of_list}
use mathlib.Core.List.{[] as []ᴸ, ◌∷◌ as ◌∷ᴸ◌}
use licensing.Common.{
  ℕ, zero, suc, ◌+◌, ◌-◌, ◌*◌, ◌/◌, ◌%◌, ◌^◌, String, Bool, false, ◌&&◌, ◌||◌, Option, none, some,
  List, ◌++◌, if◌then◌else◌, leb, eqb, take, drop,
}
use licensing.Errors.{ok, invalid_license_key}
use licensing.Id.Digits.{index_char}
use licensing.Storage.Monad.{Action, or_throw}

-- The characters of a text.
unfoldable pub characters : String → List Char
characters [] = []ᴸ
characters (c ∷ s) = c ∷ᴸ characters s

-- `ALPHABET`
abbrev pub alphabet : List Char
alphabet =
    "0" ∷ᴸ "1" ∷ᴸ "2" ∷ᴸ "3" ∷ᴸ "4" ∷ᴸ "5" ∷ᴸ "6" ∷ᴸ "7" ∷ᴸ "8" ∷ᴸ "9" ∷ᴸ "A" ∷ᴸ "B" ∷ᴸ "C" ∷ᴸ "D"
    ∷ᴸ "E" ∷ᴸ "F" ∷ᴸ "G" ∷ᴸ "H" ∷ᴸ "J" ∷ᴸ "K" ∷ᴸ "M" ∷ᴸ "N" ∷ᴸ "P" ∷ᴸ "Q" ∷ᴸ "R" ∷ᴸ "S" ∷ᴸ "T"
    ∷ᴸ "V" ∷ᴸ "W" ∷ᴸ "X" ∷ᴸ "Y" ∷ᴸ "Z" ∷ᴸ []ᴸ

abbrev within : ℕ → ℕ → Char → Bool
within low high c = leb low (code c) && leb (code c) high

-- The class `[0-9A-HJKMNP-TV-Z]`.
unfoldable pub is_key_char : Char → Bool
is_key_char c =
    within 48 57 c
    || (within 65 72 c
        || (eqb (code c) 74
            || (eqb (code c) 75
                || (eqb (code c) 77 || (eqb (code c) 78 || (within 80 84 c || within 86 90 c))))))

-- `(?:-[0-9A-HJKMNP-TV-Z]{4}){n,}$`
unfoldable pub key_groups : ℕ → List Char → Bool
unfolding is_key_char
key_groups n []ᴸ = eqb n 0
key_groups n (dash ∷ᴸ c ∷ᴸ d ∷ᴸ e ∷ᴸ f ∷ᴸ rest) =
    (eqb (code dash) 45 && (is_key_char c && (is_key_char d && (is_key_char e && is_key_char f))))
    && key_groups (n - 1) rest
key_groups n _ = false

-- `LICENSE_KEY_REGEX`: `LIC` and five groups or more, each behind a hyphen.
unfoldable pub is_license_key : List Char → Bool
unfolding key_groups
is_license_key (l ∷ᴸ i ∷ᴸ c ∷ᴸ rest) =
    (eqb (code l) 76 && (eqb (code i) 73 && eqb (code c) 67)) && key_groups 5 rest
is_license_key _ = false

-- The white space and the line ends that `String.prototype.trim` takes off.
unfoldable pub is_space : Char → Bool
is_space c =
    within 9 13 c
    || (eqb (code c) 32
        || (eqb (code c) 160
            || (eqb (code c) 0x1680
                || (within 0x2000 0x200a c
                    || (within 0x2028 0x2029 c
                        || (eqb (code c) 0x202f
                            || (eqb (code c) 0x205f
                                || (eqb (code c) 0x3000 || eqb (code c) 0xfeff))))))))

unfoldable pub trim_start : List Char → List Char
unfolding is_space
trim_start []ᴸ = []ᴸ
trim_start (c ∷ᴸ cs) = let rest = trim_start cs in if is_space c then rest else c ∷ᴸ cs

unfoldable pub trim_end : List Char → List Char
unfolding is_space
trim_end []ᴸ = []ᴸ
trim_end (c ∷ᴸ cs) = elim (trim_end cs) [
  | []ᴸ ↦ if is_space c then []ᴸ else c ∷ᴸ []ᴸ
  | d ∷ᴸ ds ↦ c ∷ᴸ d ∷ᴸ ds
]

-- `toUpperCase` of one character, before `rest`: a to z, and the characters outside ASCII whose
-- capitals can stand in a key (eszett, long s, dotless i, and the ligatures ff and st). Every other
-- character stays, since neither it nor its capitals can stand in a key.
unfoldable pub upper : Char → List Char → List Char
upper c rest =
    if within 97 122 c
    then index_char
        ("A" ∷ᴸ "B" ∷ᴸ "C" ∷ᴸ "D" ∷ᴸ "E" ∷ᴸ "F" ∷ᴸ "G" ∷ᴸ "H" ∷ᴸ "I" ∷ᴸ "J" ∷ᴸ "K" ∷ᴸ "L" ∷ᴸ "M"
          ∷ᴸ "N" ∷ᴸ "O" ∷ᴸ "P" ∷ᴸ "Q" ∷ᴸ "R" ∷ᴸ "S" ∷ᴸ "T" ∷ᴸ "U" ∷ᴸ "V" ∷ᴸ "W" ∷ᴸ "X" ∷ᴸ "Y" ∷ᴸ "Z"
          ∷ᴸ []ᴸ)
        (code c - 97)
      ∷ᴸ rest
    else if eqb (code c) 0xdf
    then "S" ∷ᴸ "S" ∷ᴸ rest
    else if eqb (code c) 0x17f
    then "S" ∷ᴸ rest
    else if eqb (code c) 0x131
    then "I" ∷ᴸ rest
    else if eqb (code c) 0xfb00
    then "F" ∷ᴸ "F" ∷ᴸ rest
    else if eqb (code c) 0xfb05 || eqb (code c) 0xfb06
    then "S" ∷ᴸ "T" ∷ᴸ rest
    else c ∷ᴸ rest

unfoldable pub to_upper_case : List Char → List Char
unfolding upper
to_upper_case []ᴸ = []ᴸ
to_upper_case (c ∷ᴸ cs) = upper c (to_upper_case cs)

-- `normalizeLicenseKey`
unfoldable pub normalize_license_key : String → Option String
unfolding characters trim_start trim_end to_upper_case is_license_key
normalize_license_key input =
    let trimmed = to_upper_case (trim_end (trim_start (characters input))) in
    if is_license_key trimmed then some (of_list trimmed) else none

-- `assertLicenseKey`
unfoldable pub assert_license_key : String → Action String
assert_license_key input = or_throw (normalize_license_key input) invalid_license_key

-- The `while (bits >= 5)` of `base32Encode`, on a buffer of 32 bits: what it writes, and the bits
-- that are left. It takes five bits off at a turn, so `bits` turns are enough.
unfoldable pub drain : ℕ → ℕ → ℕ → List Char × ℕ
drain zero buf bits = ([]ᴸ, bits)
drain (suc fuel) buf bits =
    let (out, left) = drain fuel buf (bits - 5) in
    if leb 5 bits
    then (index_char alphabet (buf / 2 ^ (bits - 5) % 32) ∷ᴸ out, left)
    else ([]ᴸ, bits)

-- `base32Encode` from a buffer and a number of bits in it.
unfoldable pub base32_encode : List ℕ → ℕ → ℕ → List Char
unfolding drain
base32_encode []ᴸ buf bits =
    if leb 1 bits then index_char alphabet (buf * 2 ^ (5 - bits) % 32) ∷ᴸ []ᴸ else []ᴸ
base32_encode (byte ∷ᴸ bytes) buf bits =
    let next = (buf * 256 + byte) % 2 ^ 32 in
    let (out, left) = drain (bits + 8) next (bits + 8) in out ++ base32_encode bytes next left

-- `formatGroups(s, 4)`, with a hyphen before each group, the first one too. Each turn takes four
-- characters, so `length s` turns are enough.
unfoldable pub format_groups : ℕ → List Char → List Char
format_groups zero s = []ᴸ
format_groups (suc fuel) []ᴸ = []ᴸ
format_groups (suc fuel) (c ∷ᴸ s) = ("-" ∷ᴸ take 4 (c ∷ᴸ s)) ++ format_groups fuel (drop 4 (c ∷ᴸ s))

-- Twenty random bytes.
abbrev pub random_bytes : ℕ → (ℕ → ℕ) → List ℕ
random_bytes zero random = []ᴸ
random_bytes (suc n) random = random 0 % 256 ∷ᴸ random_bytes n (λ i. random (suc i))

-- The text that `generateLicenseKey` makes of random bytes.
unfoldable pub license_key_of : (ℕ → ℕ) → String
unfolding base32_encode format_groups
license_key_of random =
    of_list ("L" ∷ᴸ "I" ∷ᴸ "C" ∷ᴸ format_groups 32 (base32_encode (random_bytes 20 random) 0 0))

-- `generateLicenseKey`
unfoldable pub generate_license_key : Action String
unfolding license_key_of
generate_license_key w = (ok (license_key_of (w.random w.draws)), record w { draws = w.draws + 1 })
