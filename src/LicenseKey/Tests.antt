-- ===== src/LicenseKey/Tests.antt =====
-- Keys of given bytes, and the theorem at them.
use licensing.Common.{ℕ, ◌+◌, ◌≡◌, refl, some, none}
use licensing.Id.Digits.{index_char}
use licensing.LicenseKey.{
  characters, is_key_char, key_groups, is_license_key, is_space, trim_start, trim_end, upper,
  to_upper_case, normalize_license_key, drain, base32_encode, format_groups, license_key_of,
}
use licensing.LicenseKey.Laws.{normalize_license_key-license_key_of}

abbrev counting : ℕ → ℕ
counting i = i + 250

license_key_of-demo : license_key_of counting ≡ "LIC-ZBXZ-SZFY-ZW00-20G3-0G2G-C1R8-1450-P30D"
unfolding license_key_of base32_encode drain format_groups index_char
license_key_of-demo = refl

-- Small letters and white space around a key.
normalize_license_key-demo :
    normalize_license_key " lic-0123-4567-89ab-cdef-ghjk " ≡ some "LIC-0123-4567-89AB-CDEF-GHJK"
unfolding normalize_license_key characters trim_start trim_end to_upper_case upper index_char
    is_license_key key_groups is_key_char is_space
normalize_license_key-demo = refl

-- Four groups are too few.
normalize_license_key-demo_short : normalize_license_key "LIC-0123-4567-89AB-CDEF" ≡ none
unfolding normalize_license_key characters trim_start trim_end to_upper_case upper index_char
    is_license_key key_groups is_key_char is_space
normalize_license_key-demo_short = refl

normalize_license_key-license_key_of_example :
    normalize_license_key (license_key_of counting) ≡ some (license_key_of counting)
normalize_license_key-license_key_of_example = normalize_license_key-license_key_of counting
