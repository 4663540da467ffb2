-- ===== src/Json/Total.antt =====
-- `strictParse` ends on every text: its fuel is enough.
use licensing.Common.{
  ℕ, zero, suc, ◌+◌, ◌*◌, ◌<◌, ◌≤◌, ◌≡◌, ◌≢◌, refl, ap, true, false, Option, [], ◌∷◌, Option-cases,
  ◌⊎◌, inl, inr, arith, length,
}
use licensing.Errors.{Result-cases, err, out_of_fuel}
use licensing.Json.{Units, Number, null, bool}
use licensing.Json.Strings.{fast_string}
use licensing.Json.Numbers.{parse_number}
use licensing.Json.Strict.{
  Start, brace, bracket, quote, letter_t, letter_f, letter_n, number, other, skip_ws, start_of,
  closes, parse_value, parse_items, strict_parse,
}
use licensing.Json.Lengths.{
  left, is_spent, length-skip_ws-le, left-fast_string-le, is_spent-fast_string, parse_number-bounds,
  parse_literal-bounds, length-closes-lt,
}
use licensing.Json.Turns.{ValueEnds, FieldsEnd, ItemsEnd, items_end, fields_end}

module _ (rounded : Units → Option Number) where
  -- The branches of `parseValue`.
  value_branch :
      (f c : ℕ) (s r : Units)
      → ValueEnds rounded f
      → FieldsEnd rounded f
      → ItemsEnd rounded f
      → skip_ws s ≡ c ∷ r
      → (k : Start) → start_of c ≡ k
      → (left (parse_value rounded (suc f) s) ≤ length s)
        × (2 * length s < suc f → is_spent (parse_value rounded (suc f) s) ≡ false)
  unfolding parse_value
  value_branch f c s r value fs items seen brace kind =
      let inside : length r < length s = omega (arith, ap length seen, length-skip_ws-le s) in
      elim (Option-cases (closes 0x7d (skip_ws r))) [
        | inr (rest, end) ↦
            let shorter = length-closes-lt 0x7d (skip_ws r) rest end in
            (
              ground (arith, seen, kind, end, shorter, length-skip_ws-le r, inside),
              λ h. ground (arith, seen, kind, end),
            )
        | inl opened ↦
            let (short, calm) = fs [] r in
            (
              ground (arith, seen, kind, opened, short, inside),
              λ h. ground (arith, seen, kind, opened, calm (omega (arith, inside))),
            )
      ]
  value_branch f c s r value fs items seen bracket kind =
      let inside : length r < length s = omega (arith, ap length seen, length-skip_ws-le s) in
      elim (Option-cases (closes 0x5d (skip_ws r))) [
        | inr (rest, end) ↦
            let shorter = length-closes-lt 0x5d (skip_ws r) rest end in
            (
              ground (arith, seen, kind, end, shorter, length-skip_ws-le r, inside),
              λ h. ground (arith, seen, kind, end),
            )
        | inl opened ↦
            let (short, calm) = items r in
            elim (Result-cases (parse_items rounded f r)) [
              | inl ((found, rest), e) ↦ (
                ground (arith, seen, kind, opened, e, short, inside),
                λ h. ground (arith, seen, kind, opened, e),
              )
              | inr (failure, e) ↦ (
                ground (arith, seen, kind, opened, e),
                λ h. ground (arith, seen, kind, opened, e, calm (omega (arith, inside))),
              )
            ]
      ]
  value_branch f c s r value fs items seen quote kind =
      let inside : length r < length s = omega (arith, ap length seen, length-skip_ws-le s) in
      elim (Result-cases (fast_string r)) [
        | inl ((text, rest), e) ↦ (
          ground (arith, seen, kind, e, left-fast_string-le r, inside),
          λ h. ground (arith, seen, kind, e),
        )
        | inr (failure, e) ↦ (
          ground (arith, seen, kind, e),
          λ h. ground (arith, seen, kind, e, is_spent-fast_string r),
        )
      ]
  value_branch f c s r value fs items seen number kind =
      let inside : length r < length s = omega (arith, ap length seen, length-skip_ws-le s) in
      let (short, calm) = parse_number-bounds rounded (c ∷ r) in
      elim (Result-cases (parse_number rounded (c ∷ r))) [
        | inl ((n, rest), e) ↦
            (ground (arith, seen, kind, e, short, inside), λ h. ground (arith, seen, kind, e))
        | inr (failure, e) ↦
            (ground (arith, seen, kind, e), λ h. ground (arith, seen, kind, e, calm))
      ]
  value_branch f c s r value fs items seen letter_t kind =
      let bounds = parse_literal-bounds (0x74 ∷ 0x72 ∷ 0x75 ∷ 0x65 ∷ []) (c ∷ r) (bool true) in
      (
        ground (arith, seen, kind, bounds, ap length seen, length-skip_ws-le s),
        λ h. ground (arith, seen, kind, bounds),
      )
  value_branch f c s r value fs items seen letter_f kind =
      let bounds =
        parse_literal-bounds (0x66 ∷ 0x61 ∷ 0x6c ∷ 0x73 ∷ 0x65 ∷ []) (c ∷ r) (bool false) in
      (
        ground (arith, seen, kind, bounds, ap length seen, length-skip_ws-le s),
        λ h. ground (arith, seen, kind, bounds),
      )
  value_branch f c s r value fs items seen letter_n kind =
      let bounds = parse_literal-bounds (0x6e ∷ 0x75 ∷ 0x6c ∷ 0x6c ∷ []) (c ∷ r) null in
      (
        ground (arith, seen, kind, bounds, ap length seen, length-skip_ws-le s),
        λ h. ground (arith, seen, kind, bounds),
      )
  value_branch f c s r value fs items seen other kind =
      (ground (arith, seen, kind), λ h. ground (arith, seen, kind))

  pub Units-cases : (s : Units) → (s ≡ []) ⊎ ((c : ℕ) × (r : Units) × (s ≡ c ∷ r))
  Units-cases [] = inl refl
  Units-cases (c ∷ r) = inr (c, r, refl)

  value_ends :
      (f : ℕ)
      → ValueEnds rounded f
      → FieldsEnd rounded f
      → ItemsEnd rounded f
      → ValueEnds rounded (suc f)
  unfolding parse_value
  value_ends f value fs items s = elim (Units-cases (skip_ws s)) [
    | inl empty ↦ (ground (arith, empty), λ h. ground (arith, empty))
    | inr (c, r, seen) ↦ value_branch f c s r value fs items seen (start_of c) refl
  ]

  all_end : (f : ℕ) → ValueEnds rounded f × (FieldsEnd rounded f × ItemsEnd rounded f)
  unfolding parse_value
  all_end zero = (
    λ s. (omega arith, λ h. absurd (omega arith)),
    (
      (λ out s. (omega arith, λ h. absurd (omega arith))),
      (λ s. (omega arith, λ h. absurd (omega arith))),
    ),
  )
  all_end (suc f) =
      let all = all_end f in
      (
        value_ends f all.0 all.1.0 all.1.1,
        (fields_end rounded f all.0 all.1.0, items_end rounded f all.0 all.1.1),
      )

  -- On every text the fuel of the parser is enough: strictParse returns a value or throws one
  -- of the program's errors.
  pub strict_parse-ends : (s : Units) → strict_parse rounded s ≢ err out_of_fuel
  unfolding strict_parse
  strict_parse-ends s h =
      let calm = ((all_end (2 * length s + 2)).0 s).1 (omega arith) in
      elim (Result-cases (parse_value rounded (2 * length s + 2) s)) [
        | inl ((v, rest), e) ↦ elim (Units-cases (skip_ws rest)) [
          | inl empty ↦ absurd (ground (arith, h, e, empty))
          | inr (c, r, trailing) ↦ absurd (ground (arith, h, e, trailing))
        ]
        | inr (failure, e) ↦ absurd (ground (arith, h, e, calm))
      ]
