-- ===== src/Id/Iso.antt =====
-- `isoFromMs` of typescript/src/id.ts: milliseconds since the epoch as an ISO-8601 text of six
-- fractional digits, with the proleptic Gregorian calendar of `Date.prototype.toISOString`.
use Prim.Native.Char.{Char}
use Prim.Native.String.{◌∷◌}
use licensing.Common.{ℕ, ◌+◌, ◌-◌, ◌*◌, ◌/◌, ◌%◌, String, ltb, leb, if◌then◌else◌}
use licensing.Id.Digits.{hex_digits, index_char}

-- The character of a digit below ten.
digit : ℕ → Char
unfolding index_char
digit n = index_char hex_digits n

-- `n` with two, three, four and six decimal digits, before `rest`.
pad_two : ℕ → String → String
unfolding digit
pad_two n rest = digit (n / 10 % 10) ∷ digit (n % 10) ∷ rest

pad_three : ℕ → String → String
unfolding pad_two
pad_three n rest = digit (n / 100 % 10) ∷ pad_two n rest

pad_four : ℕ → String → String
unfolding pad_two
pad_four n rest = pad_two (n / 100) (pad_two n rest)

pad_six : ℕ → String → String
unfolding pad_four
pad_six n rest = pad_two (n / 10000) (pad_four n rest)

-- A year as `toISOString` writes it: four digits up to 9999, then a sign and six.
year_text : ℕ → String → String
unfolding pad_four pad_six
year_text y rest = if ltb y 10000 then pad_four y rest else "+" ∷ pad_six y rest

-- Year, month and day of a count of days since 1970-01-01.
unfoldable pub civil_from_days : ℕ → ℕ × ℕ × ℕ
civil_from_days days =
    let z = days + 719468 in
    let era = z / 146097 in
    let doe = z % 146097 in
    let yoe = (doe + doe / 36524 - doe / 1460 - doe / 146096) / 365 in
    let doy = doe + yoe / 100 - 365 * yoe - yoe / 4 in
    let mp = (5 * doy + 2) / 153 in
    let day = doy + 1 - (153 * mp + 2) / 5 in
    let month = if ltb mp 10 then mp + 3 else mp - 9 in
    let year = yoe + era * 400 in (if leb month 2 then year + 1 else year, month, day)

unfoldable pub iso_from_ms : ℕ → String
unfolding civil_from_days year_text pad_three
iso_from_ms ms =
    let (year, month, day) = civil_from_days (ms / 86400000) in
    let time = ms % 86400000 in
    year_text year (
      "-"
      ∷ pad_two month (
          "-"
          ∷ pad_two day (
              "T"
              ∷ pad_two (time / 3600000) (
                  ":"
                  ∷ pad_two (time / 60000 % 60)
                      (":" ∷ pad_two (time / 1000 % 60) ("." ∷ pad_three (time % 1000) "000Z"))))))
