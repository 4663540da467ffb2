-- ===== src/Json/Turns.antt =====
-- The turns of the loops of strict-json.ts: each leaves less of the text.
use licensing.Common.{
  ℕ, suc, ◌+◌, ◌*◌, ◌<◌, ◌≤◌, ◌≡◌, refl, ap, ◌∙◌, false, Option, List, [], ◌∷◌, eqb, Bool-cases,
  ◌⊎◌, inl, inr, arith, length,
}
use licensing.Errors.{Error, Result-cases, ok, err, token_malformed, canonical_duplicate_key}
use licensing.Json.{Units, Number, Value}
use licensing.Json.Strings.{fast_string}
use licensing.Json.Strict.{
  skip_ws, next_of, Next, more, closed, neither, expect, assign, has_own, parse_value, parse_fields,
  parse_items,
}
use licensing.Json.Lengths.{
  left, is_spent, length-skip_ws-le, left-fast_string-le, is_spent-fast_string, length-next_of-lt,
}

module _ (rounded : Units → Option Number) where
  -- The turns on fuel `f`: each leaves less than it was given, and is not out of fuel where there are
  -- two units for each unit of the text.
  abbrev pub ValueEnds : ℕ → Type 0
  ValueEnds f =
      (s : Units)
      → (left (parse_value rounded f s) ≤ length s)
        × (2 * length s < f → is_spent (parse_value rounded f s) ≡ false)

  abbrev pub FieldsEnd : ℕ → Type 0
  FieldsEnd f =
      (out : List (Units × Value)) (s : Units)
      → (left (parse_fields rounded f out s) ≤ length s)
        × (2 * length s + 1 < f → is_spent (parse_fields rounded f out s) ≡ false)

  abbrev pub ItemsEnd : ℕ → Type 0
  ItemsEnd f =
      (s : Units)
      → (left (parse_items rounded f s) ≤ length s)
        × (2 * length s + 1 < f → is_spent (parse_items rounded f s) ≡ false)

  pub Next-cases :
      (n : Next) → ((r : Units) × (n ≡ more r)) ⊎ (((r : Units) × (n ≡ closed r)) ⊎ (n ≡ neither))
  Next-cases (more r) = inl (r, refl)
  Next-cases (closed r) = inr (inl (r, refl))
  Next-cases neither = inr (inr refl)

  pub items_end : (f : ℕ) → ValueEnds f → ItemsEnd f → ItemsEnd (suc f)
  unfolding parse_value
  items_end f value items s = elim (Result-cases (parse_value rounded f s)) [
    | inr (e, failed) ↦
        let (short, calm) = value s in
        (ground (arith, failed), λ h. ground (arith, failed, calm (omega arith)))
    | inl ((v, t), read) ↦
        let (short, calm) = value s in
        let below : length t < length s = ground (arith, read, short) in
        let spaced = length-skip_ws-le t in
        elim (Next-cases (next_of 0x5d (skip_ws t))) [
          | inl (r, next) ↦
              let shorter = length-next_of-lt 0x5d (skip_ws t) r (inl next) in
              let (rest, rest_calm) = items r in
              elim (Result-cases (parse_items rounded f r)) [
                | inl ((others, u), e) ↦ (
                  ground (arith, read, next, e, rest, shorter, spaced, below),
                  λ h. ground (arith, read, next, e),
                )
                | inr (failure, e) ↦ (
                  ground (arith, read, next, e),
                  λ h.
                      ground
                        (arith, read, next, e, rest_calm (omega (arith, shorter, spaced, below))),
                )
              ]
          | inr (inl (r, next)) ↦
              let shorter = length-next_of-lt 0x5d (skip_ws t) r (inr next) in
              (ground (arith, read, next, shorter, spaced, below), λ h. ground (arith, read, next))
          | inr (inr next) ↦ (ground (arith, read, next), λ h. ground (arith, read, next))
        ]
  ]

  expect-cases :
      (c : ℕ) (s : Units)
      → ((a : Units) × (expect c s ≡ ok a) × (length a < length s))
        ⊎ (expect c s ≡ err token_malformed)
  expect-cases c [] = inr refl
  expect-cases c (d ∷ s) = elim (Bool-cases (eqb c d)) [
    | inl same ↦ inl (s, ground (arith, same), omega arith)
    | inr different ↦ inr (ground (arith, different))
  ]

  -- What comes before the value of a property: the text of the value, or an error.
  pub member_start :
      (f : ℕ) (out : List (Units × Value)) (s : Units)
      → ((key a b c : Units) × (expect 0x22 (skip_ws s) ≡ ok a)
          × (fast_string a ≡ ok (key, b))
          × (has_own key out ≡ false)
          × (expect 0x3a (skip_ws b) ≡ ok c)
          × (length c < length s))
        ⊎ ((e : Error) × (parse_fields rounded (suc f) out s ≡ err e)
            × (is_spent {A = Value × Units} (err e) ≡ false))
  unfolding parse_value
  member_start f out s = elim (expect-cases 0x22 (skip_ws s)) [
    | inr missing ↦ inr (token_malformed, ground (arith, missing), refl)
    | inl (a, quoted, shorter) ↦ elim (Result-cases (fast_string a)) [
      | inr (e, bad) ↦
          inr (e, ground (arith, quoted, bad), ground (arith, bad, is_spent-fast_string a))
      | inl ((key, b), name) ↦ elim (Bool-cases (has_own key out)) [
        | inl taken ↦ inr (canonical_duplicate_key key, ground (arith, quoted, name, taken), refl)
        | inr free ↦ elim (expect-cases 0x3a (skip_ws b)) [
          | inr missing ↦ inr (token_malformed, ground (arith, quoted, name, free, missing), refl)
          | inl (c, colon, behind) ↦ inl (
            key,
            a,
            b,
            c,
            quoted,
            name,
            free,
            colon,
            ground (
              arith,
              name,
              left-fast_string-le a,
              length-skip_ws-le s,
              length-skip_ws-le b,
              shorter,
              behind,
            ),
          )
        ]
      ]
    ]
  ]

  pub field_turn :
      (f : ℕ) (out : List (Units × Value)) (s a b c t r key : Units) (v : Value)
      → expect 0x22 (skip_ws s) ≡ ok a
      → fast_string a ≡ ok (key, b)
      → has_own key out ≡ false
      → expect 0x3a (skip_ws b) ≡ ok c
      → parse_value rounded f c ≡ ok (v, t)
      → next_of 0x7d (skip_ws t) ≡ more r
      → parse_fields rounded (suc f) out s ≡ parse_fields rounded f (assign key v out) r
  unfolding parse_value
  field_turn f out s a b c t r key v quoted name free colon read next =
      ground (arith, quoted, name, free, colon, read, next)

  pub fields_end : (f : ℕ) → ValueEnds f → FieldsEnd f → FieldsEnd (suc f)
  unfolding parse_value
  fields_end f value fs out s = elim (member_start f out s) [
    | inr (e, failed, calm) ↦ (ground (arith, failed), λ h. ground (arith, failed, calm))
    | inl (key, a, b, c, quoted, name, free, colon, inside) ↦
        let (short, calm) = value c in
        elim (Result-cases (parse_value rounded f c)) [
          | inr (e, failed) ↦ (
            ground (arith, quoted, name, free, colon, failed),
            λ h. ground (arith, quoted, name, free, colon, failed, calm (omega (arith, inside))),
          )
          | inl ((v, t), read) ↦
              let below : length t < length c = ground (arith, read, short) in
              let spaced = length-skip_ws-le t in
              let next_out = assign key v out in
              elim (Next-cases (next_of 0x7d (skip_ws t))) [
                | inl (r, next) ↦
                    let shorter = length-next_of-lt 0x7d (skip_ws t) r (inl next) in
                    let (rest, rest_calm) = fs next_out r in
                    let turn =
                      field_turn f out s a b c t r key v quoted name free colon read next in
                    (
                      omega (arith, ap left turn, rest, shorter, spaced, below, inside),
                      λ h.
                          ap is_spent turn
                          ∙ rest_calm (omega (arith, shorter, spaced, below, inside)),
                    )
                | inr (inl (r, next)) ↦
                    let shorter = length-next_of-lt 0x7d (skip_ws t) r (inr next) in
                    (
                      ground (
                        arith, quoted, name, free, colon, read, next, shorter, spaced, below,
                        inside,
                      ),
                      λ h. ground (arith, quoted, name, free, colon, read, next),
                    )
                | inr (inr next) ↦ (
                  ground (arith, quoted, name, free, colon, read, next),
                  λ h. ground (arith, quoted, name, free, colon, read, next),
                )
              ]
        ]
  ]
