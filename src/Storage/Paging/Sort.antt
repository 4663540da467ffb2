-- ===== src/Storage/Paging/Sort.antt =====
-- `sort` puts rows with distinct keys into strictly descending order, and keeps them all.
use mathlib.Core.List.{Perm}
use mathlib.Core.List.Perm
use licensing.Common.{
  suc, ◌≡◌, ◌≢◌, refl, true, false, List, [], ◌∷◌, arith, inl, inr, Bool-cases, length, All,
  All-map,
}
use licensing.Storage.Paging.{CursorTuple, is_after, stays_before, insert, sort}
use licensing.Storage.Paging.Order.{is_after_trans, stays_before-eq-not, is_after_connected}

module _ {A : Type 0} (key : A → CursorTuple) where
  -- No two rows have the same key.
  abbrev pub HasDistinctKeys : List A → Type 0
  HasDistinctKeys [] = Unit
  HasDistinctKeys (x ∷ xs) = All (λ y. key x ≢ key y) xs × HasDistinctKeys xs

  -- Every row comes strictly after each row before it.
  abbrev pub IsDescending : List A → Type 0
  IsDescending [] = Unit
  IsDescending (x ∷ xs) = All (λ y. is_after (key y) (key x) ≡ true) xs × IsDescending xs

module _ {A : Type 0} (key : A → CursorTuple) where
  insert-All {κ} : (P : A → Type κ) (x : A) (ys : List A) → P x → All P ys → All P (insert key x ys)
  unfolding insert
  insert-All P x [] p h = (p, tt)
  insert-All P x (y ∷ ys) p h = elim (Bool-cases (stays_before (key x) (key y))) [
    | inl e ↦ rw e (p, h)
    | inr e ↦ rw e (h.0, insert-All P x ys p h.1)
  ]

  pub sort-All {κ} : (P : A → Type κ) (xs : List A) → All P xs → All P (sort key xs)
  unfolding sort
  sort-All P [] h = tt
  sort-All P (x ∷ xs) h = insert-All P x (sort key xs) h.0 (sort-All P xs h.1)

  uninsert-All {κ} :
      (P : A → Type κ) (x : A) (ys : List A) → All P (insert key x ys) → P x × All P ys
  unfolding insert
  uninsert-All P x [] h = h
  uninsert-All P x (y ∷ ys) h = elim (Bool-cases (stays_before (key x) (key y))) [
    | inl e ↦ let k = rw e at h in k
    | inr e ↦ let k = rw e at h in let (p, q) = uninsert-All P x ys k.1 in (p, (k.0, q))
  ]

  pub unsort-All {κ} : (P : A → Type κ) (xs : List A) → All P (sort key xs) → All P xs
  unfolding sort
  unsort-All P [] h = tt
  unsort-All P (x ∷ xs) h = let (p, q) = uninsert-All P x (sort key xs) h in (p, unsort-All P xs q)

  after_head :
      (x y : A)
      → stays_before (key x) (key y) ≡ true
      → key x ≢ key y
      → is_after (key y) (key x) ≡ true
  after_head x y e ne =
      ground (arith, stays_before-eq-not (key x) (key y), is_after_connected (key x) (key y))

  after_displaced :
      (x y : A) → stays_before (key x) (key y) ≡ false → is_after (key x) (key y) ≡ true
  after_displaced x y e = ground (arith, stays_before-eq-not (key x) (key y))

  insert-IsDescending :
      (x : A) (ys : List A)
      → All (λ y. key x ≢ key y) ys
      → IsDescending key ys
      → IsDescending key (insert key x ys)
  unfolding insert
  insert-IsDescending x [] ne h = (tt, tt)
  insert-IsDescending x (y ∷ ys) ne h = elim (Bool-cases (stays_before (key x) (key y))) [
    | inl e ↦
        let p = after_head x y e ne.0 in
        rw e ((p, All-map _ _ (λ z q. is_after_trans (key z) (key y) (key x) q p) ys h.0), h)
    | inr e ↦
        rw e (insert-All _ x ys (after_displaced x y e) h.0, insert-IsDescending x ys ne.1 h.1)
  ]

  pub sort-IsDescending : (xs : List A) → HasDistinctKeys key xs → IsDescending key (sort key xs)
  unfolding sort
  sort-IsDescending [] h = tt
  sort-IsDescending (x ∷ xs) h =
      insert-IsDescending x (sort key xs) (sort-All _ xs h.0) (sort-IsDescending xs h.1)

  insert-perm : (x : A) (ys : List A) → Perm (insert key x ys) (x ∷ ys)
  unfolding insert
  insert-perm x [] = Perm.refl (x ∷ [])
  insert-perm x (y ∷ ys) = elim (Bool-cases (stays_before (key x) (key y))) [
    | inl e ↦ rw e (Perm.refl (x ∷ y ∷ ys))
    | inr e ↦ rw e (Perm.trans (Perm.cons y (insert-perm x ys)) (Perm.swap x y ys))
  ]

  pub sort-perm : (xs : List A) → Perm (sort key xs) xs
  unfolding sort
  sort-perm [] = Perm.refl []
  sort-perm (x ∷ xs) = Perm.trans (insert-perm x (sort key xs)) (Perm.cons x (sort-perm xs))

  length-insert : (x : A) (ys : List A) → length (insert key x ys) ≡ suc (length ys)
  unfolding insert
  length-insert x [] = refl
  length-insert x (y ∷ ys) = ground (arith, length-insert x ys)

  pub length-sort : (xs : List A) → length (sort key xs) ≡ length xs
  unfolding sort
  length-sort [] = refl
  length-sort (x ∷ xs) = omega (arith, length-insert x (sort key xs), length-sort xs)
