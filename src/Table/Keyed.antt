-- ===== src/Table/Keyed.antt =====
-- Tables in which every row stands under its own identifier, once.
use mathlib.Core.Path.{subst}
use licensing.Common.{
  false, ℕ, ◌≤◌, ◌+◌, String, ◌≡◌, ◌≢◌, refl, Bool, true, none, some, List, [], ◌∷◌, arith, eq_iff,
  All, filter, inl, inr, Bool-cases, length, All-map,
}
use licensing.Table.{Table, get, set, values, get-set}

module _ {ℓ} {V : Type ℓ} (id_of : V → String) where
  abbrev pub IsKeyed : Table V → Type ℓ
  IsKeyed [] = Unit
  IsKeyed ((k, v) ∷ m) = (k ≡ id_of v) × (get k m ≡ none) × IsKeyed m

  pub set-IsKeyed :
      (k : String) (v : V) (m : Table V) → k ≡ id_of v → IsKeyed m → IsKeyed (set k v m)
  unfolding set get
  set-IsKeyed k v [] e h = (e, refl, tt)
  set-IsKeyed k v ((j, w) ∷ m) e h =
      ground (arith, eq_iff j k, eq_iff k j, get-set k j v m, set-IsKeyed k v m e h.2)

  pub get-IsKeyed : (k : String) (v : V) (m : Table V) → IsKeyed m → get k m ≡ some v → id_of v ≡ k
  unfolding get
  get-IsKeyed k v [] h e = cc
  get-IsKeyed k v ((j, w) ∷ m) h e = ground (arith, eq_iff j k, get-IsKeyed k v m h.2)

  -- The rows of a keyed table have pairwise different identifiers.
  abbrev pub HasDistinctIds : List V → Type ℓ
  HasDistinctIds [] = Unit
  HasDistinctIds (x ∷ xs) = All (λ y. id_of x ≢ id_of y) xs × HasDistinctIds xs

  not_among_values :
      (k : String) (m : Table V) → IsKeyed m → get k m ≡ none → All (λ y. k ≢ id_of y) (values m)
  unfolding get values
  not_among_values k [] h e = tt
  not_among_values k ((j, w) ∷ m) h e =
      (ground (arith, eq_iff j k), not_among_values k m h.2 (ground arith))

  pub values-HasDistinctIds : (m : Table V) → IsKeyed m → HasDistinctIds (values m)
  unfolding values
  values-HasDistinctIds [] h = tt
  values-HasDistinctIds ((j, w) ∷ m) h = (
    subst (λ k. All (λ y. k ≢ id_of y) (values m)) h.0 (not_among_values j m h.2 h.1),
    values-HasDistinctIds m h.2,
  )

module _ {ℓ} {V : Type ℓ} (id_of : V → String) where
  still_found :
      (j : String) (w : V) (m : Table V)
      → get j m ≡ none
      → (y : V) → get (id_of y) m ≡ some y
      → get (id_of y) ((j, w) ∷ m) ≡ some y
  unfolding get
  still_found j w m absent y e = ground (arith, eq_iff j (id_of y))

  -- Every row of a keyed table is found under its identifier.
  pub values-All-get :
      (m : Table V) → IsKeyed id_of m → All (λ y. get (id_of y) m ≡ some y) (values m)
  unfolding values get
  values-All-get [] h = tt
  values-All-get ((j, w) ∷ m) h = (
    ground (arith, eq_iff j (id_of w)),
    All-map _ _ (still_found j w m h.1) (values m) (values-All-get m h.2),
  )

pub All-filter {ℓ κ} :
    {A : Type ℓ} (P : A → Type κ) (p : A → Bool) (xs : List A) → All P xs → All P (filter p xs)
All-filter P p [] h = tt
All-filter P p (x ∷ xs) h = elim (Bool-cases (p x)) [
  | inl e ↦ rw e (h.0, All-filter P p xs h.1)
  | inr e ↦ rw e (All-filter P p xs h.1)
]

pub filter-HasDistinctIds {ℓ} :
    {V : Type ℓ} (id_of : V → String) (p : V → Bool) (xs : List V)
    → HasDistinctIds id_of xs
    → HasDistinctIds id_of (filter p xs)
filter-HasDistinctIds id_of p [] h = tt
filter-HasDistinctIds id_of p (x ∷ xs) h = elim (Bool-cases (p x)) [
  | inl e ↦ rw e (All-filter _ p xs h.0, filter-HasDistinctIds id_of p xs h.1)
  | inr e ↦ rw e (filter-HasDistinctIds id_of p xs h.1)
]

-- How a write changes the number of rows that pass a test: one at most is gained, and exactly one
-- where the key is new and the row passes.
module _ {ℓ} {V : Type ℓ} (p : V → Bool) where
  abbrev pub count_rows : Table V → ℕ
  count_rows m = length (filter p (values m))

  pub count-set-le : (k : String) (v : V) (m : Table V) → count_rows (set k v m) ≤ count_rows m + 1
  unfolding set values
  count-set-le k v [] = ground arith
  count-set-le k v ((j, w) ∷ m) = ground (arith, count-set-le k v m)

  pub count-set_new :
      (k : String) (v : V) (m : Table V)
      → get k m ≡ none
      → p v ≡ true
      → count_rows (set k v m) ≡ count_rows m + 1
  unfolding set values get
  count-set_new k v [] e h = ground arith
  count-set_new k v ((j, w) ∷ m) e h = ground (arith, count-set_new k v m)

  -- A write over a row that passed by one that does not loses one.
  pub count-set_lost :
      (k : String) (v old : V) (m : Table V)
      → get k m ≡ some old
      → p old ≡ true
      → p v ≡ false
      → count_rows (set k v m) + 1 ≡ count_rows m
  unfolding set values get
  count-set_lost k v old [] e h l = cc
  count-set_lost k v old ((j, w) ∷ m) e h l = ground (arith, count-set_lost k v old m)

  -- A write of a row that does not pass gains none.
  pub count-set_dropped :
      (k : String) (v : V) (m : Table V) → p v ≡ false → count_rows (set k v m) ≤ count_rows m
  unfolding set values
  count-set_dropped k v [] h = ground arith
  count-set_dropped k v ((j, w) ∷ m) h = ground (arith, count-set_dropped k v m)

pub filter-All {ℓ κ} :
    {A : Type ℓ} (P : A → Type κ) (p : A → Bool) (xs : List A)
    → All P xs
    → All (λ x. P x × (p x ≡ true)) (filter p xs)
filter-All P p [] h = tt
filter-All P p (x ∷ xs) h = elim (Bool-cases (p x)) [
  | inl e ↦ rw e ((h.0, e), filter-All P p xs h.1)
  | inr e ↦ rw e (filter-All P p xs h.1)
]

-- What the filter leaves out fails its test.
pub unfilter-All {ℓ κ} :
    {A : Type ℓ} (P : A → Type κ) (p : A → Bool) (xs : List A)
    → All P (filter p xs)
    → All (λ x. p x ≡ true → P x) xs
unfilter-All P p [] h = tt
unfilter-All P p (x ∷ xs) h = elim (Bool-cases (p x)) [
  | inl e ↦ let k = rw e at h in ((λ _. k.0), unfilter-All P p xs k.1)
  | inr e ↦ ((λ t. absurd (cc)), unfilter-All P p xs (rw e at h))
]
