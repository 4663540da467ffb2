-- ===== src/LicenseService/Remaining.antt =====
-- Which rows a test still picks once one of them is overwritten.
use licensing.Common.{
  String, Bool, true, false, ◌≡◌, ◌⊎◌, inl, inr, sym, ap, ◌∙◌, none, some, List, [], ◌∷◌, ◌++◌,
  ◌==◌, eq_iff, filter, All, Bool-cases, arith,
}
use licensing.Table
use licensing.Table.{Table}
use licensing.Table.Keyed.{IsKeyed}
use licensing.Storage.Paging.{CursorTuple, last, is_after}
use licensing.Storage.Paging.Sort.{IsDescending}

module _ {V : Type 0} (id_of : V → String) (p : V → Bool) (P : V → Type 0) (k : String) where
  -- `P` holds of a row that is not the one with the identifier `k`.
  abbrev Else : V → Type 0
  Else r = (id_of r ≡ k) ⊎ P r

  Else-other : (j : String) (r : V) → j ≡ id_of r → (j == k) ≡ false → Else r → P r
  Else-other j r named apart (inl e) = absurd (ground (arith, eq_iff j k, named, e, apart))
  Else-other j r named apart (inr h) = h

  others-All :
      (m : Table V)
      → Table.get k m ≡ none
      → IsKeyed id_of m
      → All Else (filter p (Table.values m))
      → All P (filter p (Table.values m))
  unfolding Table.values Table.get
  others-All [] absent keyed h = tt
  others-All ((j, w) ∷ m) absent keyed h =
      let apart : (j == k) ≡ false = ground (arith, absent) in
      let later : Table.get k m ≡ none = ground (arith, absent) in
      elim (Bool-cases (p w)) [
        | inl picked ↦
            let hs = rw picked at h in
            rw picked (Else-other j w keyed.0 apart hs.0, others-All m later keyed.2 hs.1)
        | inr dropped ↦ rw dropped (others-All m later keyed.2 (rw dropped at h))
      ]

  pub set-All :
      (v : V) (m : Table V)
      → p v ≡ false
      → IsKeyed id_of m
      → All Else (filter p (Table.values m))
      → All P (filter p (Table.values (Table.set k v m)))
  unfolding Table.values Table.set
  set-All v [] lost keyed h = rw lost tt
  set-All v ((j, w) ∷ m) lost keyed h = elim (Bool-cases (j == k)) [
    | inl same ↦
        let later : Table.get k m ≡ none =
          sym (ap (λ (i : String). Table.get i m) ((eq_iff j k).0 same)) ∙ keyed.1 in
        elim (Bool-cases (p w)) [
          | inl picked ↦ rw (same, lost) (others-All m later keyed.2 (rw picked at h).1)
          | inr dropped ↦ rw (same, lost) (others-All m later keyed.2 (rw dropped at h))
        ]
    | inr apart ↦ elim (Bool-cases (p w)) [
      | inl picked ↦
          let hs = rw picked at h in
          rw (apart, picked) (Else-other j w keyed.0 apart hs.0, set-All v m lost keyed.2 hs.1)
      | inr dropped ↦ rw (apart, dropped) (set-All v m lost keyed.2 (rw dropped at h))
    ]
  ]

module _ {A : Type 0} (key : A → CursorTuple) where
  -- What stands behind the last of some rows in descending order comes after it.
  pub behind-last :
      (xs ys : List A) (r : A)
      → IsDescending key (xs ++ ys)
      → last xs ≡ some r
      → All (λ y. is_after (key y) (key r) ≡ true) ys
  unfolding last
  behind-last [] ys r d h = absurd (ground (arith, h))
  behind-last (x ∷ []) ys r d h = let same : x ≡ r = ground (arith, h) in rw (← same) d.0
  behind-last (x ∷ y ∷ xs) ys r d h = behind-last (y ∷ xs) ys r d.1 h
