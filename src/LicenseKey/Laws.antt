-- ===== src/LicenseKey/Laws.antt =====
-- The keys that `generateLicenseKey` of typescript/src/license-key.ts makes are well formed.
use Prim.Native.Char.{Char, code}
use text.Mathlib.TextBridge.{of_list}
use licensing.Common.{
  ℕ, zero, suc, ◌+◌, ◌-◌, ◌*◌, ◌≤◌, ◌<◌, ◌≡◌, refl, ap, ◌∙◌, true, false, some, List, [], ◌∷◌, ◌++◌,
  leb, arith, inl, inr, Bool-cases, length, All,
}
use licensing.Id.Digits.{index_char}
use licensing.LicenseKey.{
  characters, alphabet, is_key_char, key_groups, is_license_key, is_space, trim_start, trim_end,
  upper, to_upper_case, normalize_license_key, drain, base32_encode, format_groups, random_bytes,
  license_key_of,
}

abbrev IsKeyChar : Char → Type 0
IsKeyChar c = is_key_char c ≡ true

-- A character that neither trimming nor uppercasing changes.
abbrev IsPlain : Char → Type 0
IsPlain c = (32 < code c) × (code c < 91)

characters-of_list : (cs : List Char) → characters (of_list cs) ≡ cs
unfolding characters
characters-of_list [] = refl
characters-of_list (c ∷ cs) = ap (◌∷◌ c) (characters-of_list cs)

plain_space : (c : Char) → IsPlain c → is_space c ≡ false
unfolding is_space
plain_space c h = ground arith

plain_upper : (c : Char) (rest : List Char) → IsPlain c → upper c rest ≡ c ∷ rest
unfolding upper
plain_upper c rest h = ground arith

to_upper_case-plain : (cs : List Char) → All IsPlain cs → to_upper_case cs ≡ cs
unfolding to_upper_case
to_upper_case-plain [] h = refl
to_upper_case-plain (c ∷ cs) h = plain_upper c _ h.0 ∙ ap (◌∷◌ c) (to_upper_case-plain cs h.1)

trim_start-plain : (cs : List Char) → All IsPlain cs → trim_start cs ≡ cs
unfolding trim_start
trim_start-plain [] h = refl
trim_start-plain (c ∷ cs) h = ground (arith, plain_space c h.0)

trim_end-plain : (cs : List Char) → All IsPlain cs → trim_end cs ≡ cs
unfolding trim_end
trim_end-plain [] h = refl
trim_end-plain (c ∷ []) h = ground (arith, plain_space c h.0)
trim_end-plain (c ∷ d ∷ cs) h = ground (arith, trim_end-plain (d ∷ cs) h.1)

-- A well-formed text of plain characters is its own normal form.
pub normalize_license_key-plain :
    (cs : List Char)
    → All IsPlain cs
    → is_license_key cs ≡ true
    → normalize_license_key (of_list cs) ≡ some (of_list cs)
unfolding normalize_license_key
normalize_license_key-plain cs h k =
    rw (characters-of_list cs, trim_start-plain cs h, trim_end-plain cs h, to_upper_case-plain cs h)
      (ground arith)

key_char-IsPlain : (c : Char) → IsKeyChar c → IsPlain c
unfolding is_key_char
key_char-IsPlain c h = ground arith

index_char-IsKeyChar : (cs : List Char) (n : ℕ) → All IsKeyChar cs → IsKeyChar (index_char cs n)
unfolding index_char is_key_char
index_char-IsKeyChar [] n h = refl
index_char-IsKeyChar (c ∷ cs) zero h = h.0
index_char-IsKeyChar (c ∷ cs) (suc n) h = index_char-IsKeyChar cs n h.1

alphabet-IsKeyChar : All IsKeyChar alphabet
unfolding is_key_char
alphabet-IsKeyChar = ground arith

All-append : (xs ys : List Char) → All IsKeyChar xs → All IsKeyChar ys → All IsKeyChar (xs ++ ys)
All-append [] ys h k = k
All-append (x ∷ xs) ys h k = (h.0, All-append xs ys h.1 k)

drain-IsKeyChar : (fuel buf bits : ℕ) → All IsKeyChar (drain fuel buf bits).0
unfolding drain
drain-IsKeyChar zero buf bits = tt
drain-IsKeyChar (suc fuel) buf bits = elim (Bool-cases (leb 5 bits)) [
  | inl more ↦
      rw more
        (index_char-IsKeyChar alphabet _ alphabet-IsKeyChar, drain-IsKeyChar fuel buf (bits - 5))
  | inr done ↦ rw done tt
]

base32_encode-IsKeyChar :
    (bytes : List ℕ) (buf bits : ℕ) → All IsKeyChar (base32_encode bytes buf bits)
unfolding base32_encode
base32_encode-IsKeyChar [] buf bits = elim (Bool-cases (leb 1 bits)) [
  | inl more ↦ rw more (index_char-IsKeyChar alphabet _ alphabet-IsKeyChar, tt)
  | inr done ↦ rw done tt
]
base32_encode-IsKeyChar (byte ∷ bytes) buf bits =
    All-append _ _ (drain-IsKeyChar (bits + 8) _ (bits + 8)) (base32_encode-IsKeyChar bytes _ _)

-- Twenty bytes are thirty-two characters.
length-base32_encode : (random : ℕ → ℕ) → length (base32_encode (random_bytes 20 random) 0 0) ≡ 32
unfolding base32_encode drain
length-base32_encode random = refl

-- Groups of key characters match the expression's groups, if there are as many as it asks for.
key_groups-format_groups :
    (k fuel n : ℕ) (s : List Char)
    → length s ≡ 4 * k
    → All IsKeyChar s
    → k ≤ fuel
    → n ≤ k
    → (key_groups n (format_groups fuel s) ≡ true) × All IsPlain (format_groups fuel s)
unfolding key_groups format_groups
key_groups-format_groups zero zero n [] e h f g = (ground arith, tt)
key_groups-format_groups zero (suc fuel) n [] e h f g = (ground arith, tt)
key_groups-format_groups zero fuel n (c ∷ s) e h f g = absurd (omega arith)
key_groups-format_groups (suc k) zero n s e h f g = absurd (omega arith)
key_groups-format_groups (suc k) (suc fuel) n (a ∷ b ∷ c ∷ d ∷ s) e h f g =
    let (rest, plain) =
      key_groups-format_groups k fuel (n - 1) s (omega arith) h.1.1.1.1 (omega arith)
        (omega arith) in
    (
      ground arith,
      (
        (omega arith, omega arith),
        (
          key_char-IsPlain a h.0,
          (
            key_char-IsPlain b h.1.0,
            (key_char-IsPlain c h.1.1.0, (key_char-IsPlain d h.1.1.1.0, plain)),
          ),
        ),
      ),
    )
key_groups-format_groups (suc k) (suc fuel) n [] e h f g = absurd (omega arith)
key_groups-format_groups (suc k) (suc fuel) n (a ∷ []) e h f g = absurd (omega arith)
key_groups-format_groups (suc k) (suc fuel) n (a ∷ b ∷ []) e h f g = absurd (omega arith)
key_groups-format_groups (suc k) (suc fuel) n (a ∷ b ∷ c ∷ []) e h f g = absurd (omega arith)

-- Whatever the random bytes are, the key that generateLicenseKey makes of them matches
-- LICENSE_KEY_REGEX and is its own normal form.
pub normalize_license_key-license_key_of :
    (random : ℕ → ℕ) → normalize_license_key (license_key_of random) ≡ some (license_key_of random)
unfolding license_key_of is_license_key
normalize_license_key-license_key_of random =
    let s = base32_encode (random_bytes 20 random) 0 0 in
    let (groups, plain) =
      key_groups-format_groups 8 32 5 s (length-base32_encode random)
        (base32_encode-IsKeyChar (random_bytes 20 random) 0 0) (omega arith) (omega arith) in
    normalize_license_key-plain ("L" ∷ "I" ∷ "C" ∷ format_groups 32 s)
      (
        (omega arith, omega arith),
        ((omega arith, omega arith), ((omega arith, omega arith), plain)),
      )
      groups
