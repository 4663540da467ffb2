-- ===== src/Json/RoundTrip/Objects.antt =====
-- Objects that `writeObject` writes and `parseObject` reads back.
use mathlib.Core.Path.{subst}
use mathlib.Core.List.{append_assoc}
use licensing.Common.{
  ℕ, zero, suc, ◌+◌, ◌*◌, ◌<◌, ◌≤◌, ◌⊎◌, ◌≡◌, refl, sym, ap, ◌∙◌, true, false, Option, none, List,
  [], ◌∷◌, ◌++◌, map, inl, inr, arith, All, length, length-append,
}
use licensing.Errors.{ok}
use licensing.Json.{Units, Number, Value, Fields, obj, no_fields, pairs_of, fields_of}
use licensing.Json.Strings.{write_units, fast_string}
use licensing.Json.Canonical.{units_eq, write_value, write_entries, sort_keys, entries_of}
use licensing.Json.Strict.{
  proto, has_own, expect, skip_ws, closes, start_of, brace, next_of, more, closed, parse_value,
  parse_fields,
}
use licensing.Json.RoundTrip.Strings.{fast_string-write_units}
use licensing.Json.RoundTrip.Numbers.{Stops}
use licensing.Json.RoundTrip.Normal.{
  normal, with_value, entries_of-pairs_of, normal_pairs-pairs_of, sort_keys-map, sort_keys-All,
}
use licensing.Json.RoundTrip.Pieces.{cat-cases}
use licensing.Json.RoundTrip.Values.{Reads}
use licensing.Json.RoundTrip.Entries.{
  write_entries-cases, write_entries-comma, Agrees, Agrees-append,
}

module _ (rounded : Units → Option Number) where
  -- One turn of the loop of `parseObject`.
  parse_fields-last :
      (f : ℕ) (out : List (Units × Value)) (s a b c t key rest : Units) (v : Value)
      → expect 0x22 (skip_ws s) ≡ ok a
      → fast_string a ≡ ok (key, b)
      → has_own key out ≡ false
      → expect 0x3a (skip_ws b) ≡ ok c
      → parse_value rounded f c ≡ ok (v, t)
      → units_eq key proto ≡ false
      → next_of 0x7d (skip_ws t) ≡ closed rest
      → parse_fields rounded (suc f) out s ≡ ok (obj (fields_of (out ++ (key, v) ∷ [])), rest)
  unfolding parse_value
  parse_fields-last f out s a b c t key rest v quoted name free colon read own end =
      ground (arith, quoted, name, free, colon, read, own, end)

  parse_fields-more :
      (f : ℕ) (out : List (Units × Value)) (s a b c t r key rest : Units) (v w : Value)
      → expect 0x22 (skip_ws s) ≡ ok a
      → fast_string a ≡ ok (key, b)
      → has_own key out ≡ false
      → expect 0x3a (skip_ws b) ≡ ok c
      → parse_value rounded f c ≡ ok (v, t)
      → units_eq key proto ≡ false
      → next_of 0x7d (skip_ws t) ≡ more r
      → parse_fields rounded f (out ++ (key, v) ∷ []) r ≡ ok (w, rest)
      → parse_fields rounded (suc f) out s ≡ ok (w, rest)
  unfolding parse_value
  parse_fields-more f out s a b c t r key rest v w quoted name free colon read own next others =
      ground (arith, quoted, name, free, colon, read, own, next, others)

  parse_value-object :
      (f c : ℕ) (text r rest : Units) (v : Value)
      → skip_ws text ≡ c ∷ r
      → start_of c ≡ brace
      → closes 0x7d (skip_ws r) ≡ none
      → parse_fields rounded f [] r ≡ ok (v, rest)
      → parse_value rounded (suc f) text ≡ ok (v, rest)
  unfolding parse_value
  parse_value-object f c text r rest v seen kind opened read = cc

  -- A property that can be read back.
  abbrev pub Good : Units × Value → Type 0
  Good (key, v) = (units_eq key proto ≡ false) × Reads rounded v

  -- The text of a property and what is behind it, before a rest.
  joined_text :
      (key a b text rest : Units)
      → text ≡ 0x22 ∷ (write_units key ++ 0x22 ∷ 0x3a ∷ (a ++ b))
      → text ++ rest ≡ 0x22 ∷ (write_units key ++ 0x22 ∷ 0x3a ∷ (a ++ (b ++ rest)))
  joined_text key a b text rest e =
      ap (λ (u : Units). u ++ rest) e
      ∙ ap (◌∷◌ 0x22) (
          append_assoc (write_units key) (0x22 ∷ 0x3a ∷ (a ++ b)) rest
          ∙ ap (λ (u : Units). write_units key ++ 0x22 ∷ 0x3a ∷ u) (append_assoc a b rest))

  shorter_text :
      (key a b text : Units)
      → text ≡ 0x22 ∷ (write_units key ++ 0x22 ∷ 0x3a ∷ (a ++ b))
      → length a + length b + 3 ≤ length text
  shorter_text key a b text e = omega (
    arith,
    ap length e,
    length-append (write_units key) (0x22 ∷ 0x3a ∷ (a ++ b)),
    length-append a b,
  )

  next_of-brace : (rest : Units) → next_of 0x7d (skip_ws (0x7d ∷ rest)) ≡ closed rest
  unfolding next_of skip_ws
  next_of-brace rest = refl

  next_of-comma : (rest : Units) → next_of 0x7d (skip_ws (0x2c ∷ rest)) ≡ more rest
  unfolding next_of skip_ws
  next_of-comma rest = refl

  write_entries-end :
      (seen : List Units) (b : Units) → write_entries seen false [] ≡ ok b → b ≡ 0x7d ∷ []
  unfolding write_entries
  write_entries-end seen b h = ground (arith, h)

  -- A closing brace, or a comma.
  abbrev EndsMember : Units → Type 0
  EndsMember tail = ((r : Units) × (tail ≡ 0x7d ∷ r)) ⊎ ((r : Units) × (tail ≡ 0x2c ∷ r))

  EndsMember-Stops : (tail : Units) → EndsMember tail → Stops tail
  EndsMember-Stops tail (inl (r, e)) = subst Stops (sym e) refl
  EndsMember-Stops tail (inr (r, e)) = subst Stops (sym e) refl

  -- A value before a brace or a comma.
  parse_member :
      (v : Value) (a tail : Units) (f : ℕ)
      → Reads rounded v
      → write_value v ≡ ok a
      → EndsMember tail
      → 2 * length a < f
      → parse_value rounded f (a ++ tail) ≡ ok (normal v, tail)
  parse_member v a tail f read written behind l =
      read a tail f written (EndsMember-Stops tail behind) l

  reads_entries :
      (key : Units) (v : Value) (pairs : List (Units × Value)) (seen : List Units)
      (out : List (Units × Value)) (text rest : Units) (f : ℕ)
      → Good (key, v)
      → All Good pairs
      → Agrees seen out
      → write_entries seen true (map (with_value write_value) ((key, v) ∷ pairs)) ≡ ok text
      → 2 * length text < f
      → parse_fields rounded f out (text ++ rest)
        ≡ ok (obj (fields_of (out ++ map (with_value normal) ((key, v) ∷ pairs))), rest)
  unfolding skip_ws
  reads_entries key v pairs seen out text rest zero good goods agrees h l = absurd (omega arith)
  reads_entries key v [] seen out text rest (suc f) good goods agrees h l =
      let (a, b, free, written, end, e) = write_entries-cases seen key (write_value v) [] text h in
      let close = write_entries-end (key ∷ seen) b end in
      let behind : b ++ rest ≡ 0x7d ∷ rest = ap (λ (u : Units). u ++ rest) close in
      let shorter = shorter_text key a b text e in
      let value =
        parse_member v a (b ++ rest) f good.1 written (inl (rest, behind))
          (omega (arith, shorter)) in
      ap (parse_fields rounded (suc f) out) (joined_text key a b text rest e)
      ∙ parse_fields-last f out (0x22 ∷ (write_units key ++ 0x22 ∷ 0x3a ∷ (a ++ (b ++ rest))))
          (write_units key ++ 0x22 ∷ 0x3a ∷ (a ++ (b ++ rest))) (0x3a ∷ (a ++ (b ++ rest)))
          (a ++ (b ++ rest)) (b ++ rest) key rest (normal v) refl
          (fast_string-write_units key (0x3a ∷ (a ++ (b ++ rest)))) (sym (agrees key) ∙ free) refl
          value good.0 (ap (λ (u : Units). next_of 0x7d (skip_ws u)) behind ∙ next_of-brace rest)
  reads_entries key v ((other, w) ∷ pairs) seen out text rest (suc f) good goods agrees h l =
      let entries = map (with_value write_value) ((other, w) ∷ pairs) in
      let (a, b, free, written, others, e) =
        write_entries-cases seen key (write_value v) entries text h in
      let (t, left, comma) =
        write_entries-comma (key ∷ seen) other (write_value w) (map (with_value write_value) pairs)
          b others in
      let behind : b ++ rest ≡ 0x2c ∷ (t ++ rest) = ap (λ (u : Units). u ++ rest) comma in
      let shorter = shorter_text key a b text e in
      let last = ap length comma in
      let value =
        parse_member v a (b ++ rest) f good.1 written (inr (t ++ rest, behind))
          (omega (arith, shorter)) in
      let following =
        reads_entries other w pairs (key ∷ seen) (out ++ (key, normal v) ∷ []) t rest f goods.0
          goods.1 (Agrees-append seen key (normal v) out agrees) left
          (omega (arith, shorter, last)) in
      let gathered =
        append_assoc out ((key, normal v) ∷ []) (map (with_value normal) ((other, w) ∷ pairs)) in
      ap (parse_fields rounded (suc f) out) (joined_text key a b text rest e)
      ∙ parse_fields-more f out (0x22 ∷ (write_units key ++ 0x22 ∷ 0x3a ∷ (a ++ (b ++ rest))))
          (write_units key ++ 0x22 ∷ 0x3a ∷ (a ++ (b ++ rest))) (0x3a ∷ (a ++ (b ++ rest)))
          (a ++ (b ++ rest)) (b ++ rest) (t ++ rest) key rest (normal v)
          (obj (
            fields_of
              ((out ++ (key, normal v) ∷ []) ++ map (with_value normal) ((other, w) ∷ pairs))))
          refl (fast_string-write_units key (0x3a ∷ (a ++ (b ++ rest)))) (sym (agrees key) ∙ free)
          refl value good.0
          (ap (λ (u : Units). next_of 0x7d (skip_ws u)) behind ∙ next_of-comma (t ++ rest))
          following
      ∙ ap (λ (ps : List (Units × Value)). ok (obj (fields_of ps), rest)) gathered

  empty_object :
      (f : ℕ) (rest : Units)
      → parse_value rounded (suc f) (0x7b ∷ 0x7d ∷ rest) ≡ ok (obj no_fields, rest)
  unfolding parse_value
  empty_object f rest = refl

  reads_pairs :
      (pairs : List (Units × Value)) (b rest : Units) (f : ℕ)
      → All Good pairs
      → write_entries [] true (map (with_value write_value) pairs) ≡ ok b
      → 2 * length b + 2 < suc f
      → parse_value rounded (suc f) (0x7b ∷ (b ++ rest))
        ≡ ok (obj (fields_of (map (with_value normal) pairs)), rest)
  unfolding skip_ws closes start_of write_entries
  reads_pairs [] b rest f h written l =
      let close : b ≡ 0x7d ∷ [] = ground (arith, written) in
      ap (λ (u : Units). parse_value rounded (suc f) (0x7b ∷ (u ++ rest))) close
      ∙ empty_object f rest
  reads_pairs ((key, v) ∷ pairs) b rest f h written l =
      let (x, y, free, value, others, e) =
        write_entries-cases [] key (write_value v) (map (with_value write_value) pairs) b written in
      let no_end = ap (λ (u : Units). closes 0x7d (skip_ws u)) (joined_text key x y b rest e) in
      parse_value-object f 0x7b (0x7b ∷ (b ++ rest)) (b ++ rest) rest
        (obj (fields_of (map (with_value normal) ((key, v) ∷ pairs)))) refl refl no_end
        (reads_entries key v pairs [] [] b rest f h.0 h.1 (λ k. refl) written (omega arith))

  pub obj-Reads : (fs : Fields) → All Good (pairs_of fs) → Reads rounded (obj fs)
  unfolding write_value normal
  obj-Reads fs h text rest zero w k l = absurd (omega arith)
  obj-Reads fs h text rest (suc f) w k l =
      let pairs = sort_keys (pairs_of fs) in
      let (a, b, opening, entries, e) =
        cat-cases (ok (0x7b ∷ [])) (write_entries [] true (sort_keys (entries_of fs))) text w in
      let sorted =
        ap sort_keys (entries_of-pairs_of fs) ∙ sort_keys-map write_value (pairs_of fs) in
      let written = sym (ap (write_entries [] true) sorted) ∙ entries in
      let opened : a ≡ 0x7b ∷ [] = ground (arith, opening) in
      let joined = e ∙ ap (λ (u : Units). u ++ b) opened in
      let kept = ap sort_keys (normal_pairs-pairs_of fs) ∙ sort_keys-map normal (pairs_of fs) in
      ap (λ (u : Units). parse_value rounded (suc f) (u ++ rest)) joined
      ∙ reads_pairs pairs b rest f (sort_keys-All Good (pairs_of fs) h) written
          (omega (arith, ap length joined))
      ∙ ap (λ (ps : List (Units × Value)). ok (obj (fields_of ps), rest)) (sym kept)
