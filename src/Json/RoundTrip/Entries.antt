-- ===== src/Json/RoundTrip/Entries.antt =====
-- What `writeObject` of canonical-json.ts writes for the entries of an object.
use mathlib.Core.List.{append_assoc}
use licensing.Common.{
  ◌≡◌, ap, ◌∙◌, true, false, ◌||◌, List, [], ◌∷◌, ◌++◌, any, Bool-cases, inl, inr, arith,
}
use licensing.Errors.{Result, ok}
use licensing.Json.{Units, Value}
use licensing.Json.Strings.{write_units}
use licensing.Json.Canonical.{◌>+>◌, units_eq, write_string, write_entries}
use licensing.Json.Strict.{has_own}
use licensing.Json.RoundTrip.Pieces.{cat-cases, write_string-text}

-- What the entries of an object write, one after the other.
pub write_entries-cases :
    (seen : List Units) (key : Units) (value : Result Units) (entries : List (Units × Result Units))
    (text : Units)
    → write_entries seen true ((key, value) ∷ entries) ≡ ok text
    → (a b : Units) × (any (units_eq key) seen ≡ false)
      × (value ≡ ok a)
      × (write_entries (key ∷ seen) false entries ≡ ok b)
      × (text ≡ 0x22 ∷ (write_units key ++ 0x22 ∷ 0x3a ∷ (a ++ b)))
unfolding write_entries
write_entries-cases seen key value entries text h = elim (Bool-cases (any (units_eq key) seen)) [
  | inl taken ↦ absurd (ground (arith, taken, h))
  | inr free ↦
      let next = write_entries (key ∷ seen) false entries in
      let written : (write_string key >+> (ok (0x3a ∷ []) >+> (value >+> next))) ≡ ok text =
        ground (arith, free, h) in
      let (k, r, name, behind, e) =
        cat-cases (write_string key) (ok (0x3a ∷ []) >+> (value >+> next)) text written in
      let (colon, t, c, rest, e') = cat-cases (ok (0x3a ∷ [])) (value >+> next) r behind in
      let (a, b, v, n, e'') = cat-cases value next t rest in
      let colon_is : colon ≡ 0x3a ∷ [] = ground (arith, c) in
      (
        a,
        b,
        free,
        v,
        n,
        (e
            ∙ ap (λ (u : Units). u ++ r) (write_string-text key k name)
            ∙ ap (λ (u : Units). (0x22 ∷ (write_units key ++ 0x22 ∷ [])) ++ u)
                (e' ∙ ap (λ (u : Units). u ++ t) colon_is ∙ ap (λ (u : Units). 0x3a ∷ u) e'')
            ∙ ap (◌∷◌ 0x22) (append_assoc (write_units key) (0x22 ∷ []) (0x3a ∷ (a ++ b)))),
      )
]

pub write_entries-comma :
    (seen : List Units) (key : Units) (value : Result Units) (entries : List (Units × Result Units))
    (text : Units)
    → write_entries seen false ((key, value) ∷ entries) ≡ ok text
    → (t : Units) × (write_entries seen true ((key, value) ∷ entries) ≡ ok t) × (text ≡ 0x2c ∷ t)
unfolding write_entries
write_entries-comma seen key value entries text h = elim (Bool-cases (any (units_eq key) seen)) [
  | inl taken ↦ absurd (ground (arith, taken, h))
  | inr free ↦
      let next = write_entries (key ∷ seen) false entries in
      let member = write_string key >+> (ok (0x3a ∷ []) >+> (value >+> next)) in
      let written : (ok (0x2c ∷ []) >+> member) ≡ ok text = ground (arith, free, h) in
      let (comma, t, c, rest, e) = cat-cases (ok (0x2c ∷ [])) member text written in
      let comma_is : comma ≡ 0x2c ∷ [] = ground (arith, c) in
      (t, ground (arith, free, rest), e ∙ ap (λ (u : Units). u ++ t) comma_is)
]

has_own-append :
    (k key : Units) (v : Value) (out : List (Units × Value))
    → has_own k (out ++ (key, v) ∷ []) ≡ (units_eq k key || has_own k out)
has_own-append k key v [] = ground arith
has_own-append k key v ((other, w) ∷ out) = ground (arith, has_own-append k key v out)

-- The keys that the writer has seen are the ones that the parser has.
abbrev pub Agrees : List Units → List (Units × Value) → Type 0
Agrees seen out = (k : Units) → any (units_eq k) seen ≡ has_own k out

pub Agrees-append :
    (seen : List Units) (key : Units) (v : Value) (out : List (Units × Value))
    → Agrees seen out
    → Agrees (key ∷ seen) (out ++ (key, v) ∷ [])
Agrees-append seen key v out h k = ground (arith, has_own-append k key v out, h k)
