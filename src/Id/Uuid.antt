-- ===== src/Id/Uuid.antt =====
-- `newUuidV7`, `formatUuid` and `extractUuidV7Ms` of typescript/src/id.ts.
pub mod Laws
use Prim.Native.Char.{Char}
use Prim.Native.String.{◌∷◌}
use licensing.Common.{ℕ, ◌+◌, ◌/◌, ◌%◌, String}
use licensing.Id.Digits.{hex_digits, index_char}

-- `n.toString(16)` of a number below sixteen.
unfoldable pub hex_digit : ℕ → Char
unfolding index_char
hex_digit n = index_char hex_digits n

-- `b.toString(16).padStart(2, '0')` before `rest`, for a byte `b`.
unfoldable pub hex_byte : ℕ → String → String
hex_byte b rest = hex_digit (b / 16 % 16) ∷ hex_digit (b % 16) ∷ rest

-- `newUuidV7` from a reading `ms` of the clock and ten random bytes, `random 0` to `random 9`: byte
-- `i` of the 48-bit timestamp is `ms / 256 ^ (5 - i) % 256`, `& 0x0f | 0x70` sets the version and
-- `& 0x3f | 0x80` the variant. The text is `formatUuid` of the sixteen bytes.
unfoldable pub uuid_v7_text : ℕ → (ℕ → ℕ) → String
unfolding hex_byte hex_digit
uuid_v7_text ms random = hex_byte (ms / 0x10000000000 % 256) (
    hex_byte (ms / 0x100000000 % 256) (
      hex_byte (ms / 0x1000000 % 256) (
        hex_byte (ms / 0x10000 % 256) (
          "-"
          ∷ hex_byte (ms / 0x100 % 256) (
              hex_byte (ms % 256) (
                "-"
                ∷ hex_byte (random 0 % 16 + 0x70) (
                    hex_byte (random 1 % 256) (
                      "-"
                      ∷ hex_byte (random 2 % 64 + 0x80) (
                          hex_byte (random 3 % 256) (
                            "-"
                            ∷ hex_byte (random 4 % 256) (
                                hex_byte (random 5 % 256) (
                                  hex_byte (random 6 % 256) (
                                    hex_byte (random 7 % 256) (
                                      hex_byte (random 8 % 256)
                                        (hex_byte (random 9 % 256) "")))))))))))))))
