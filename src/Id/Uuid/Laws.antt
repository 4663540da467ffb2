-- ===== src/Id/Uuid/Laws.antt =====
-- The texts that `newUuidV7` of typescript/src/id.ts makes.
use Prim.Native.Char.{Char, code}
use Prim.Native.String.{◌∷◌}
use Prim.Native.String.compare
use licensing.Common.{ℕ, ◌<◌, ◌/◌, ◌%◌, String, ◌≡◌, false, arith, ◌==◌}
use licensing.Id.Digits.{hex_digits, code-index_char-lt}
use licensing.Id.Uuid.{hex_digit, uuid_v7_text}

code-hex_digit-lt : (n : ℕ) → code (hex_digit n) < 103
unfolding hex_digit
code-hex_digit-lt n = code-index_char-lt 103 hex_digits n (omega arith) (ground arith)

-- A text whose first character comes after `f` is no identifier of the program.
pub ne-uuid_v7_text :
    (c : Char) (s : String) (ms : ℕ) (random : ℕ → ℕ)
    → 102 < code c
    → ((c ∷ s) == uuid_v7_text ms random) ≡ false
unfolding uuid_v7_text
ne-uuid_v7_text c s ms random h =
    rw compare.cons-cons (ground (arith, code-hex_digit-lt (ms / 0x10000000000 % 256 / 16 % 16)))
