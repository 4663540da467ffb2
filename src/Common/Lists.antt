-- ===== src/Common/Lists.antt =====
-- Lists measured by native numbers, and the list functions of the program's JavaScript.
use Prim.Native.Nat.{ℕ, zero, suc, ◌+◌, ◌≤◌}
use mathlib.Core.Path.{◌≡◌, refl, ap}
use mathlib.Core.Bool.{Bool, false, ◌||◌}
use mathlib.Core.List.{List, [], ◌∷◌, ◌++◌}
use mathlib.Core.Option.{Option, none, some}
use native.Mathlib.Omega.{arith}
use mathlib.Core.Logic.{inl, inr}
use licensing.Common.Tests.{Option-cases, if◌then◌else◌}

module _ {ℓ} {A : Type ℓ} where
  abbrev pub length : List A → ℕ
  length [] = 0
  length (x ∷ xs) = suc (length xs)

  abbrev pub take : ℕ → List A → List A
  take zero xs = []
  take (suc n) [] = []
  take (suc n) (x ∷ xs) = x ∷ take n xs

  abbrev pub drop : ℕ → List A → List A
  drop zero xs = xs
  drop (suc n) [] = []
  drop (suc n) (x ∷ xs) = drop n xs

  -- `xs.filter(p)`; the recursive call stands once.
  abbrev pub filter : (A → Bool) → List A → List A
  filter p [] = []
  filter p (x ∷ xs) = let rest = filter p xs in if p x then x ∷ rest else rest

  -- `xs.some(p)`
  abbrev pub any : (A → Bool) → List A → Bool
  any p [] = false
  any p (x ∷ xs) = p x || any p xs

  -- The first element at which `f` gives a value.
  abbrev pub first {κ} : {B : Type κ} → (A → Option B) → List A → Option B
  first f [] = none
  first f (x ∷ xs) = let rest = first f xs in elim (f x) [ none ↦ rest | some b ↦ some b ]

  -- `P` holds of every element.
  abbrev pub All {κ} : (A → Type κ) → List A → Type κ
  All P [] = Unit
  All P (x ∷ xs) = P x × All P xs

  pub length-append : (xs ys : List A) → length (xs ++ ys) ≡ length xs + length ys
  length-append [] ys = omega arith
  length-append (x ∷ xs) ys = omega (arith, length-append xs ys)

  pub length-filter-le : (p : A → Bool) (xs : List A) → length (filter p xs) ≤ length xs
  length-filter-le p [] = omega arith
  length-filter-le p (x ∷ xs) = ground (arith, length-filter-le p xs)

  pub take-append-drop : (n : ℕ) (xs : List A) → take n xs ++ drop n xs ≡ xs
  take-append-drop zero xs = refl
  take-append-drop (suc n) [] = refl
  take-append-drop (suc n) (x ∷ xs) = ap (◌∷◌ x) (take-append-drop n xs)

pub All-map {ℓ κ μ} :
    {A : Type ℓ} (P : A → Type κ) (Q : A → Type μ) (f : (x : A) → P x → Q x) (xs : List A)
    → All P xs
    → All Q xs
All-map P Q f [] h = tt
All-map P Q f (x ∷ xs) h = (f x h.0, All-map P Q f xs h.1)

pub first-append {ℓ κ} :
    {A : Type ℓ} {B : Type κ} (f : A → Option B) (xs ys : List A)
    → first f (xs ++ ys) ≡ (elim (first f xs) [ none ↦ first f ys | some b ↦ some b ])
first-append f [] ys = refl
first-append f (x ∷ xs) ys = ground (arith, first-append f xs ys)

-- What `first` finds comes from an element, and an element of which `P` holds gives a `Q`.
pub first-All {ℓ κ μ ν} :
    {A : Type ℓ} {B : Type κ} (P : A → Type μ) (Q : B → Type ν) (f : A → Option B)
    → ((x : A) (b : B) → P x → f x ≡ some b → Q b)
    → (xs : List A) (b : B) → All P xs
    → first f xs ≡ some b
    → Q b
first-All P Q f g [] b h e = absurd (ground arith)
first-All P Q f g (x ∷ xs) b h e = elim (Option-cases (f x)) [
  | inl no_value ↦ first-All P Q f g xs b h.1 (ground arith)
  | inr (c, value) ↦ g x b h.0 (ground arith)
]

-- Where `first` finds nothing no element has a value.
pub first-none-All {ℓ κ} :
    {A : Type ℓ} {B : Type κ} (f : A → Option B) (xs : List A)
    → first f xs ≡ none
    → All (λ x. f x ≡ none) xs
first-none-All f [] h = tt
first-none-All f (x ∷ xs) h = elim (Option-cases (f x)) [
  | inl no_value ↦ (no_value, first-none-All f xs (ground arith))
  | inr (c, value) ↦ absurd (ground arith)
]
