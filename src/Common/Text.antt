-- ===== src/Common/Text.antt =====
-- The order of texts, by which the program compares instants and identifiers. JavaScript's `<` goes
-- by UTF-16 code units and `compare` by code points: on the ASCII texts at hand they agree.
use Prim.Native.Nat.{ℕ, Ordering, compare as compare_ℕ}
use Prim.Native.Char.{code}
use Prim.Native.String.compare
use Prim.Native.String.{String, [], ◌∷◌, ◌++◌, compare, then}
use mathlib.Core.Path.{◌≡◌, refl, sym, ap}
use mathlib.Core.Bool.{Bool, true, false, false≢true}
use native.Mathlib.Omega.{arith}
use text.Mathlib.Text.{is_lt}
use text.Mathlib.TextEquality.{path_by_compare}
use text.Mathlib.TextPositions.{compare_refl}

-- The text `s:t`.
abbrev pub colon : String → String → String
colon s t = s ++ (":" ++ t)

-- `s < t`
abbrev pub text_lt : String → String → Bool
text_lt s t = is_lt (compare s t)

abbrev swap : Ordering → Ordering
swap Ordering.lt = Ordering.gt
swap Ordering.eq = Ordering.eq
swap Ordering.gt = Ordering.lt

swap-then : (o r : Ordering) → swap (then o r) ≡ then (swap o) (swap r)
swap-then Ordering.lt r = refl
swap-then _ r = refl

swap-compare : (m n : ℕ) → swap (compare_ℕ m n) ≡ compare_ℕ n m
swap-compare m n = ground arith

compare-swap : (s t : String) → compare t s ≡ swap (compare s t)
compare-swap [] [] = rw compare.nil-nil refl
compare-swap [] (d ∷ t) = rw (compare.nil-cons, compare.cons-nil) refl
compare-swap (c ∷ s) [] = rw (compare.nil-cons, compare.cons-nil) refl
compare-swap (c ∷ s) (d ∷ t) = simp (compare.cons-cons, swap-then, swap-compare, compare-swap s t)

is_lt-eq : (o : Ordering) → is_lt o ≡ true → o ≡ Ordering.lt
is_lt-eq Ordering.lt h = refl
is_lt-eq _ h = cc

then_trans :
    (a b c : ℕ) (o p q : Ordering)
    → (is_lt o ≡ true → is_lt p ≡ true → is_lt q ≡ true)
    → (o ≡ Ordering.eq → p ≡ q)
    → (p ≡ Ordering.eq → o ≡ q)
    → is_lt (then (compare_ℕ a b) o) ≡ true
    → is_lt (then (compare_ℕ b c) p) ≡ true
    → is_lt (then (compare_ℕ a c) q) ≡ true
then_trans a b c o p q less left right h k = ground arith

-- `<` on texts is a strict total order.
pub text_lt_trans : (s t u : String) → text_lt s t ≡ true → text_lt t u ≡ true → text_lt s u ≡ true
text_lt_trans [] [] u h k = k
text_lt_trans s [] [] h k = h
text_lt_trans [] (d ∷ t) [] h k = rw compare.cons-nil at k
text_lt_trans [] t (e ∷ u) h k = rw compare.nil-cons refl
text_lt_trans (c ∷ s) [] (e ∷ u) h k = absurd (false≢true (rw compare.cons-nil at h))
text_lt_trans (c ∷ s) (d ∷ t) [] h k = absurd (false≢true (rw compare.cons-nil at k))
text_lt_trans (c ∷ s) (d ∷ t) (e ∷ u) h k = rw compare.cons-cons (
    then_trans (code c) (code d) (code e) (compare s t) (compare t u) (compare s u)
      (text_lt_trans s t u) (λ p. ap (λ v. compare v u) (sym (path_by_compare s t p)))
      (λ p. ap (compare s) (path_by_compare t u p)) (rw compare.cons-cons at h)
      (rw compare.cons-cons at k))

pub text_lt_irrefl : (s : String) → text_lt s s ≡ false
text_lt_irrefl s = ap is_lt (compare_refl s)

pub text_lt_asymm : (s t : String) → text_lt s t ≡ true → text_lt t s ≡ false
text_lt_asymm s t h = rw (compare-swap s t) (ground arith)

-- Two texts of which neither is less are equal.
pub text_lt_connected : (s t : String) → text_lt s t ≡ false → text_lt t s ≡ false → s ≡ t
text_lt_connected s t h k = path_by_compare s t (ground (arith, compare-swap s t))
