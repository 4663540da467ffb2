-- ===== src/Json/RoundTrip/Values.antt =====
-- Values that `canonicalize` writes and `strictParse` reads back.
use mathlib.Core.List.{append_assoc}
use licensing.Common.{
  ℕ, zero, suc, ◌*◌, ◌<◌, ◌≡◌, refl, sym, ap, ◌∙◌, Bool, true, false, Option, none, [], ◌∷◌, ◌++◌,
  eqb, arith, length, length-append,
}
use licensing.Errors.{ok}
use licensing.Json.{Units, Number, Value, Items, null, bool, num, str, arr, no_items, item}
use licensing.Json.Strings.{write_units}
use licensing.Json.Numbers.{parse_number}
use licensing.Json.Canonical.{write_value, write_items}
use licensing.Json.Strict.{
  skip_ws, closes, start_of, number, bracket, next_of, more, closed, parse_value, parse_items,
}
use licensing.Json.RoundTrip.Strings.{fast_string-write_units}
use licensing.Json.RoundTrip.Numbers.{Stops, parse_number-write_number}
use licensing.Json.RoundTrip.Normal.{normal, normal_items}
use licensing.Json.RoundTrip.Pieces.{
  cat-cases, Begins, write_number-begins, write_string-text, write_value-Begins, skip_ws-begins,
  closes-begins, start_of-number,
}

module _ (rounded : Units → Option Number) where
  -- With fuel above twice the length of its text, a value is read off the front of the input.
  abbrev pub Reads : Value → Type 0
  Reads v =
      (text rest : Units) (f : ℕ)
      → write_value v ≡ ok text
      → Stops rest
      → 2 * length text < f
      → parse_value rounded f (text ++ rest) ≡ ok (normal v, rest)

  parse_value-number :
      (f c : ℕ) (text s rest : Units) (n : Number)
      → skip_ws text ≡ c ∷ s
      → start_of c ≡ number
      → parse_number rounded (c ∷ s) ≡ ok (n, rest)
      → parse_value rounded (suc f) text ≡ ok (num n, rest)
  unfolding parse_value
  parse_value-number f c text s rest n seen kind read = cc

  pub num-Reads : (n : Number) → Reads (num n)
  unfolding write_value normal
  num-Reads n text rest zero h k l = absurd (omega arith)
  num-Reads n text rest (suc f) h k l =
      let (c, s, e, b) = write_number-begins n text h in
      let first = ap (λ (t : Units). t ++ rest) e in
      let read =
        ap (parse_number rounded) (sym first) ∙ parse_number-write_number rounded n text rest h k in
      let seen = ap skip_ws first ∙ skip_ws-begins c (s ++ rest) (ground (arith, b)) in
      parse_value-number f c (text ++ rest) (s ++ rest) rest n seen (start_of-number c b) read

  pub str-Reads : (s : Units) → Reads (str s)
  unfolding write_value parse_value normal
  str-Reads s text rest zero h k l = absurd (omega arith)
  str-Reads s text rest (suc f) h k l =
      let written =
        ap (λ (t : Units). t ++ rest) (write_string-text s text h)
        ∙ ap (◌∷◌ 0x22) (append_assoc (write_units s) (0x22 ∷ []) rest) in
      rw (written, fast_string-write_units s rest) refl

  -- A literal, by its text.
  pub literal-Reads :
      (v : Value) (written : Units)
      → write_value v ≡ ok written
      → ((f : ℕ) (rest : Units)
          → parse_value rounded (suc f) (written ++ rest) ≡ ok (normal v, rest))
      → Reads v
  literal-Reads v written w read text rest zero h k l = absurd (omega arith)
  literal-Reads v written w read text rest (suc f) h k l =
      let same : text ≡ written = ground (arith, h, w) in
      ap (λ (t : Units). parse_value rounded (suc f) (t ++ rest)) same ∙ read f rest

  pub null-Reads : Reads null
  unfolding write_value parse_value normal
  null-Reads = literal-Reads null (0x6e ∷ 0x75 ∷ 0x6c ∷ 0x6c ∷ []) refl (λ f rest. refl)

  pub bool-Reads : (b : Bool) → Reads (bool b)
  unfolding write_value parse_value normal
  bool-Reads true = literal-Reads (bool true) (0x74 ∷ 0x72 ∷ 0x75 ∷ 0x65 ∷ []) refl (λ f rest. refl)
  bool-Reads false =
      literal-Reads (bool false) (0x66 ∷ 0x61 ∷ 0x6c ∷ 0x73 ∷ 0x65 ∷ []) refl (λ f rest. refl)

  -- One turn of the parser.
  parse_value-array :
      (f c : ℕ) (text r rest : Units) (items : Items)
      → skip_ws text ≡ c ∷ r
      → start_of c ≡ bracket
      → closes 0x5d (skip_ws r) ≡ none
      → parse_items rounded f r ≡ ok (items, rest)
      → parse_value rounded (suc f) text ≡ ok (arr items, rest)
  unfolding parse_value
  parse_value-array f c text r rest items seen kind opened read = cc

  parse_items-last :
      (f : ℕ) (s t rest : Units) (v : Value)
      → parse_value rounded f s ≡ ok (v, t)
      → next_of 0x5d (skip_ws t) ≡ closed rest
      → parse_items rounded (suc f) s ≡ ok (item v no_items, rest)
  unfolding parse_value
  parse_items-last f s t rest v read end = cc

  parse_items-more :
      (f : ℕ) (s t r rest : Units) (v : Value) (items : Items)
      → parse_value rounded f s ≡ ok (v, t)
      → next_of 0x5d (skip_ws t) ≡ more r
      → parse_items rounded f r ≡ ok (items, rest)
      → parse_items rounded (suc f) s ≡ ok (item v items, rest)
  unfolding parse_value
  parse_items-more f s t r rest v items read next rest_read = cc

  abbrev pub ReadsItems : Items → Type 0
  ReadsItems no_items = Unit
  ReadsItems (item v items) =
      (text rest : Units) (f : ℕ)
      → write_items true (item v items) ≡ ok text
      → 2 * length text < f
      → parse_items rounded f (text ++ rest) ≡ ok (normal_items (item v items), rest)

  next_of-closed :
      (c : ℕ) (rest : Units) → eqb c 0x2c ≡ false → c < 128 → next_of c (c ∷ rest) ≡ closed rest
  unfolding next_of
  next_of-closed c rest h k = ground (arith, h)

  next_of-more : (c : ℕ) (rest : Units) → next_of c (0x2c ∷ rest) ≡ more rest
  unfolding next_of
  next_of-more c rest = refl

  pub item-ReadsItems :
      (v : Value) (items : Items) → Reads v → ReadsItems items → ReadsItems (item v items)
  unfolding write_value normal skip_ws
  item-ReadsItems v items read read_items text rest zero h l = absurd (omega arith)
  item-ReadsItems v no_items read read_items text rest (suc f) h l =
      let (a, b, written, end, e) = cat-cases (write_value v) (ok (0x5d ∷ [])) text h in
      let close : b ≡ 0x5d ∷ [] = ground (arith, end) in
      let joined =
        ap (λ (t : Units). t ++ rest) (e ∙ ap (λ (t : Units). a ++ t) close)
        ∙ append_assoc a (0x5d ∷ []) rest in
      let shorter = ap length e ∙ length-append a b in
      ap (parse_items rounded (suc f)) joined
      ∙ parse_items-last f (a ++ 0x5d ∷ rest) (0x5d ∷ rest) rest (normal v)
          (read a (0x5d ∷ rest) f written refl (omega (arith, shorter, ap length close)))
          (next_of-closed 0x5d rest refl (omega arith))
  item-ReadsItems v (item w items) read read_items text rest (suc f) h l =
      let (a, b, written, others, e) =
        cat-cases (write_value v) (write_items false (item w items)) text h in
      let (comma, t, c, left, e') =
        cat-cases (ok (0x2c ∷ [])) (write_items true (item w items)) b others in
      let comma_is : comma ≡ 0x2c ∷ [] = ground (arith, c) in
      let tail = e' ∙ ap (λ (u : Units). u ++ t) comma_is in
      let joined =
        ap (λ (u : Units). u ++ rest) (e ∙ ap (λ (u : Units). a ++ u) tail)
        ∙ append_assoc a (0x2c ∷ t) rest in
      let shorter = ap length e ∙ length-append a b in
      let last = ap length tail in
      ap (parse_items rounded (suc f)) joined
      ∙ parse_items-more f (a ++ 0x2c ∷ (t ++ rest)) (0x2c ∷ (t ++ rest)) (t ++ rest) rest
          (normal v) (normal_items (item w items))
          (read a (0x2c ∷ (t ++ rest)) f written refl (omega (arith, shorter, last)))
          (next_of-more 0x5d (t ++ rest)) (read_items t rest f left (omega (arith, shorter, last)))

  empty_array :
      (f : ℕ) (rest : Units)
      → parse_value rounded (suc f) (0x5b ∷ 0x5d ∷ rest) ≡ ok (arr no_items, rest)
  unfolding parse_value
  empty_array f rest = refl

  write_items-Begins :
      (v : Value) (items : Items) (text : Units)
      → write_items true (item v items) ≡ ok text
      → Begins text
  unfolding write_value
  write_items-Begins v items text h =
      let (a, b, written, others, e) = cat-cases (write_value v) (write_items false items) text h in
      let (c, s, first, begin) = write_value-Begins v a written in
      (c, s ++ b, e ∙ ap (λ (u : Units). u ++ b) first, begin)

  pub arr-Reads : (items : Items) → ReadsItems items → Reads (arr items)
  unfolding write_value normal skip_ws start_of
  arr-Reads items read text rest zero h k l = absurd (omega arith)
  arr-Reads no_items read text rest (suc f) h k l =
      literal-Reads (arr no_items) (0x5b ∷ 0x5d ∷ []) refl (λ f rest. empty_array f rest) text rest
        (suc f) h k l
  arr-Reads (item v items) read text rest (suc f) h k l =
      let (a, b, opening, written, e) =
        cat-cases (ok (0x5b ∷ [])) (write_items true (item v items)) text h in
      let opened : a ≡ 0x5b ∷ [] = ground (arith, opening) in
      let joined = ap (λ (u : Units). u ++ rest) (e ∙ ap (λ (u : Units). u ++ b) opened) in
      let (c, s, first, begin) = write_items-Begins v items b written in
      let behind = ap (λ (u : Units). u ++ rest) first in
      let no_end =
        ap (closes 0x5d) (ap skip_ws behind ∙ skip_ws-begins c (s ++ rest) begin)
        ∙ (closes-begins c (s ++ rest) begin).0 in
      let shorter = ap length (e ∙ ap (λ (u : Units). u ++ b) opened) in
      ap (parse_value rounded (suc f)) joined
      ∙ parse_value-array f 0x5b (0x5b ∷ (b ++ rest)) (b ++ rest) rest (normal_items (item v items))
          refl refl no_end (read b rest f written (omega (arith, shorter)))
