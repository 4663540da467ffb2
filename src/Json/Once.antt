-- ===== src/Json/Once.antt =====
-- No object that strict-json.ts returns has a key twice.
use mathlib.Core.Path.{subst}
use licensing.Common.{
  ℕ, zero, suc, ◌≡◌, refl, sym, ap, ◌∙◌, true, false, Option, List, [], ◌∷◌, ◌++◌, eqb, Bool-cases,
  Option-cases, inl, inr, arith, length, ◌+◌, ◌*◌,
}
use licensing.Errors.{Result-cases, ok}
use licensing.Json.{
  Units, Number, Value, Items, Fields, null, bool, num, str, arr, obj, no_items, item, no_fields,
  field, pairs_of, fields_of,
}
use licensing.Json.Strings.{fast_string}
use licensing.Json.Numbers.{parse_number}
use licensing.Json.Canonical.{units_eq}
use licensing.Json.Strict.{
  Start, brace, bracket, quote, letter_t, letter_f, letter_n, number, other, skip_ws, start_of,
  closes, next_of, parse_literal, assign, has_own, proto, parse_value, parse_fields, parse_items,
  strict_parse,
}
use licensing.Json.Turns.{Next-cases, member_start, field_turn}
use licensing.Json.Total.{Units-cases}

unfoldable mutual
  -- No object inside the value has a key twice.
  pub IsOnce : Value → Type 0
  IsOnce (arr items) = IsOnceItems items
  IsOnce (obj fs) = IsOnceFields fs
  IsOnce _ = Unit

  pub IsOnceItems : Items → Type 0
  IsOnceItems no_items = Unit
  IsOnceItems (item v items) = IsOnce v × IsOnceItems items

  pub IsOnceFields : Fields → Type 0
  IsOnceFields no_fields = Unit
  IsOnceFields (field key v fs) = (has_own key (pairs_of fs) ≡ false) × (IsOnce v × IsOnceFields fs)

units_eq_symm : (s t : Units) → units_eq s t ≡ units_eq t s
units_eq_symm [] [] = refl
units_eq_symm [] (d ∷ t) = refl
units_eq_symm (c ∷ s) [] = refl
units_eq_symm (c ∷ s) (d ∷ t) = ground (arith, units_eq_symm s t)

pairs_of-fields_of : (pairs : List (Units × Value)) → pairs_of (fields_of pairs) ≡ pairs
pairs_of-fields_of [] = refl
pairs_of-fields_of ((key, v) ∷ pairs) = ap (◌∷◌ (key, v)) (pairs_of-fields_of pairs)

has_own-append_false :
    (k key : Units) (v : Value) (out : List (Units × Value))
    → has_own k out ≡ false
    → units_eq k key ≡ false
    → has_own k (out ++ (key, v) ∷ []) ≡ false
has_own-append_false k key v [] h e = ground arith
has_own-append_false k key v ((earlier, w) ∷ out) h e =
    ground (arith, has_own-append_false k key v out)

append-IsOnceFields :
    (key : Units) (v : Value) (out : List (Units × Value))
    → IsOnceFields (fields_of out)
    → has_own key out ≡ false
    → IsOnce v
    → IsOnceFields (fields_of (out ++ (key, v) ∷ []))
unfolding IsOnce
append-IsOnceFields key v [] h free once = (refl, (once, tt))
append-IsOnceFields key v ((earlier, w) ∷ out) h free once =
    let apart : units_eq earlier key ≡ false = ground (arith, free, units_eq_symm earlier key) in
    let own : has_own earlier out ≡ false =
      sym (ap (has_own earlier) (pairs_of-fields_of out)) ∙ h.0 in
    (
      ap (has_own earlier) (pairs_of-fields_of (out ++ (key, v) ∷ []))
          ∙ has_own-append_false earlier key v out own apart,
      (h.1.0, append-IsOnceFields key v out h.1.1 (ground (arith, free)) once),
    )

assign-IsOnceFields :
    (key : Units) (v : Value) (out : List (Units × Value))
    → IsOnceFields (fields_of out)
    → has_own key out ≡ false
    → IsOnce v
    → IsOnceFields (fields_of (assign key v out))
assign-IsOnceFields key v out h free once = elim (Bool-cases (units_eq key proto)) [
  | inl own ↦ rw own h
  | inr not_proto ↦ rw not_proto (append-IsOnceFields key v out h free once)
]

parse_literal-value :
    (expected : Units) (v w : Value) (s rest : Units)
    → parse_literal expected v s ≡ ok (w, rest)
    → v ≡ w
unfolding parse_literal
parse_literal-value [] v w s rest h = ground (arith, h)
parse_literal-value (e ∷ expected) v w [] rest h = absurd (ground (arith, h))
parse_literal-value (e ∷ expected) v w (c ∷ s) rest h = elim (Bool-cases (eqb e c)) [
  | inl same ↦ parse_literal-value expected v w s rest (ground (arith, same, h))
  | inr different ↦ absurd (ground (arith, different, h))
]

module _ (rounded : Units → Option Number) where
  abbrev ValueOnce : ℕ → Type 0
  ValueOnce f =
      (s : Units) (v : Value) (rest : Units) → parse_value rounded f s ≡ ok (v, rest) → IsOnce v

  abbrev FieldsOnce : ℕ → Type 0
  FieldsOnce f =
      (out : List (Units × Value)) (s : Units) (v : Value) (rest : Units)
      → IsOnceFields (fields_of out)
      → parse_fields rounded f out s ≡ ok (v, rest)
      → IsOnce v

  abbrev ItemsOnce : ℕ → Type 0
  ItemsOnce f =
      (s : Units) (items : Items) (rest : Units)
      → parse_items rounded f s ≡ ok (items, rest)
      → IsOnceItems items

  items_once : (f : ℕ) → ValueOnce f → ItemsOnce f → ItemsOnce (suc f)
  unfolding parse_value IsOnce
  items_once f value more_items s items rest h = elim (Result-cases (parse_value rounded f s)) [
    | inr (e, failed) ↦ absurd (ground (arith, failed, h))
    | inl ((v, t), read) ↦ elim (Next-cases rounded (next_of 0x5d (skip_ws t))) [
      | inl (r, next) ↦ elim (Result-cases (parse_items rounded f r)) [
        | inr (e, failed) ↦ absurd (ground (arith, read, next, failed, h))
        | inl ((others, u), e) ↦
            let whole : item v others ≡ items = ground (arith, read, next, e, h) in
            subst IsOnceItems whole (value s v t read, more_items r others u e)
      ]
      | inr (inl (r, next)) ↦
          let whole : item v no_items ≡ items = ground (arith, read, next, h) in
          subst IsOnceItems whole (value s v t read, tt)
      | inr (inr next) ↦ absurd (ground (arith, read, next, h))
    ]
  ]

  fields_once : (f : ℕ) → ValueOnce f → FieldsOnce f → FieldsOnce (suc f)
  unfolding parse_value IsOnce
  fields_once f value fs out s w rest once h = elim (member_start rounded f out s) [
    | inr (e, failed, calm) ↦ absurd (ground (arith, failed, h))
    | inl (key, a, b, c, quoted, name, free, colon, inside) ↦
        elim (Result-cases (parse_value rounded f c)) [
          | inr (e, failed) ↦ absurd (ground (arith, quoted, name, free, colon, failed, h))
          | inl ((v, t), read) ↦
              let kept = assign-IsOnceFields key v out once free (value c v t read) in
              elim (Next-cases rounded (next_of 0x7d (skip_ws t))) [
                | inl (r, next) ↦
                    let turn =
                      field_turn rounded f out s a b c t r key v quoted name free colon read next in
                    fs (assign key v out) r w rest kept (sym turn ∙ h)
                | inr (inl (r, next)) ↦
                    let whole : obj (fields_of (assign key v out)) ≡ w =
                      ground (arith, quoted, name, free, colon, read, next, h) in
                    subst IsOnce whole kept
                | inr (inr next) ↦ absurd (ground (arith, quoted, name, free, colon, read, next, h))
              ]
        ]
  ]

  value_branch-IsOnce :
      (f c : ℕ) (s r : Units) (v : Value) (rest : Units)
      → FieldsOnce f
      → ItemsOnce f
      → skip_ws s ≡ c ∷ r
      → (k : Start) → start_of c ≡ k
      → parse_value rounded (suc f) s ≡ ok (v, rest)
      → IsOnce v
  unfolding parse_value IsOnce
  value_branch-IsOnce f c s r v rest fs items seen brace kind h =
      elim (Option-cases (closes 0x7d (skip_ws r))) [
        | inr (t, end) ↦
            let whole : obj no_fields ≡ v = ground (arith, seen, kind, end, h) in
            subst IsOnce whole tt
        | inl opened ↦ fs [] r v rest tt (ground (arith, seen, kind, opened, h))
      ]
  value_branch-IsOnce f c s r v rest fs items seen bracket kind h =
      elim (Option-cases (closes 0x5d (skip_ws r))) [
        | inr (t, end) ↦
            let whole : arr no_items ≡ v = ground (arith, seen, kind, end, h) in
            subst IsOnce whole tt
        | inl opened ↦ elim (Result-cases (parse_items rounded f r)) [
          | inl ((found, t), e) ↦
              let whole : arr found ≡ v = ground (arith, seen, kind, opened, e, h) in
              subst IsOnce whole (items r found t e)
          | inr (failure, e) ↦ absurd (ground (arith, seen, kind, opened, e, h))
        ]
      ]
  value_branch-IsOnce f c s r v rest fs items seen quote kind h =
      elim (Result-cases (fast_string r)) [
        | inl ((text, t), e) ↦
            let whole : str text ≡ v = ground (arith, seen, kind, e, h) in subst IsOnce whole tt
        | inr (failure, e) ↦ absurd (ground (arith, seen, kind, e, h))
      ]
  value_branch-IsOnce f c s r v rest fs items seen number kind h =
      elim (Result-cases (parse_number rounded (c ∷ r))) [
        | inl ((n, t), e) ↦
            let whole : num n ≡ v = ground (arith, seen, kind, e, h) in subst IsOnce whole tt
        | inr (failure, e) ↦ absurd (ground (arith, seen, kind, e, h))
      ]
  value_branch-IsOnce f c s r v rest fs items seen letter_t kind h =
      subst IsOnce
        (parse_literal-value (0x74 ∷ 0x72 ∷ 0x75 ∷ 0x65 ∷ []) (bool true) v (c ∷ r) rest
          (ground (arith, seen, kind, h)))
        tt
  value_branch-IsOnce f c s r v rest fs items seen letter_f kind h =
      subst IsOnce
        (parse_literal-value (0x66 ∷ 0x61 ∷ 0x6c ∷ 0x73 ∷ 0x65 ∷ []) (bool false) v (c ∷ r) rest
          (ground (arith, seen, kind, h)))
        tt
  value_branch-IsOnce f c s r v rest fs items seen letter_n kind h =
      subst IsOnce
        (parse_literal-value (0x6e ∷ 0x75 ∷ 0x6c ∷ 0x6c ∷ []) null v (c ∷ r) rest
          (ground (arith, seen, kind, h)))
        tt
  value_branch-IsOnce f c s r v rest fs items seen other kind h =
      absurd (ground (arith, seen, kind, h))

  value_once : (f : ℕ) → FieldsOnce f → ItemsOnce f → ValueOnce (suc f)
  unfolding parse_value
  value_once f fs items s v rest h = elim (Units-cases rounded (skip_ws s)) [
    | inl empty ↦ absurd (ground (arith, empty, h))
    | inr (c, r, seen) ↦ value_branch-IsOnce f c s r v rest fs items seen (start_of c) refl h
  ]

  all_once : (f : ℕ) → ValueOnce f × (FieldsOnce f × ItemsOnce f)
  unfolding parse_value
  all_once zero = ((λ s v rest h. cc), ((λ out s v rest once h. cc), (λ s items rest h. cc)))
  all_once (suc f) =
      let all = all_once f in
      (value_once f all.1.0 all.1.1, (fields_once f all.0 all.1.0, items_once f all.0 all.1.1))

  -- In what strictParse returns no object, at any depth, has a key twice.
  pub strict_parse-IsOnce : (s : Units) (v : Value) → strict_parse rounded s ≡ ok v → IsOnce v
  unfolding strict_parse
  strict_parse-IsOnce s v h = elim (Result-cases (parse_value rounded (2 * length s + 2) s)) [
    | inr (failure, e) ↦ absurd (ground (arith, e, h))
    | inl ((w, rest), e) ↦ elim (Units-cases rounded (skip_ws rest)) [
      | inl empty ↦
          let whole : w ≡ v = ground (arith, e, empty, h) in
          subst IsOnce whole ((all_once (2 * length s + 2)).0 s w rest e)
      | inr (c, r, trailing) ↦ absurd (ground (arith, e, trailing, h))
    ]
  ]
