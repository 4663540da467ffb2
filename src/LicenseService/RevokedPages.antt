-- ===== src/LicenseService/RevokedPages.antt =====
-- The pages of `rotateLicenseKey` of typescript/src/license-service.ts, read while the rows change.
use licensing.Common.{
  ℕ, zero, suc, ◌+◌, ◌≤◌, true, false, ◌≡◌, ◌≢◌, ◌⊎◌, inl, inr, refl, sym, ap, Option, none, some,
  List, [], ◌∷◌, ◌++◌, eq_refl, take, drop, All, All-map, Bool-cases, Option-cases, arith,
  take-append-drop, length, ltb,
}
use mathlib.Core.Path.{subst}
use licensing.Types.{LicenseUsage, UuidV7, Instant}
use licensing.Errors.{ok}
use licensing.Storage.Monad.{World, Action, pure, ◌>>=◌}
use licensing.Storage.Paging.{CursorTuple, last, is_after, sort, find_index, page_from, paginate}
use licensing.Storage.Paging.Sort.{IsDescending, sort-All}
use licensing.Storage.Usages.{usage_cursor}
use licensing.LicenseService.{revoke_pages}
use licensing.LicenseService.Remaining.{behind-last}
use licensing.LicenseService.RevokedRows.{Listed}

-- All the rows come after a cursor, if there is one.
abbrev pub Ahead : Option CursorTuple → List LicenseUsage → Type 0
Ahead none rows = Unit
Ahead (some c) rows = All (λ (r : LicenseUsage). is_after (usage_cursor r) c ≡ true) rows

find_index-Ahead :
    (c : CursorTuple) (x : LicenseUsage) (xs : List LicenseUsage)
    → is_after (usage_cursor x) c ≡ true
    → find_index (λ (r : LicenseUsage). is_after (usage_cursor r) c) (x ∷ xs) ≡ some 0
unfolding find_index
find_index-Ahead c x xs h = ground (arith, h)

page_at :
    (c : CursorTuple) (sorted : List LicenseUsage) (limit : ℕ)
    → Ahead (some c) sorted
    → (elim (find_index (λ (r : LicenseUsage). is_after (usage_cursor r) c) sorted) [
      | none ↦ record { items = []; cursor = none }
      | some start ↦ page_from usage_cursor sorted start limit
    ])
      ≡ page_from usage_cursor sorted 0 limit
unfolding find_index page_from last
page_at c [] zero h = refl
page_at c [] (suc limit) h = refl
page_at c (x ∷ xs) limit h = ground (arith, find_index-Ahead c x xs h.0)

-- The page at such a cursor is the first one of the rows that there are.
pub paginate-Ahead :
    (cursor : Option CursorTuple) (rows : List LicenseUsage)
    → Ahead cursor rows
    → paginate usage_cursor rows (record { limit = 500; cursor = cursor })
      ≡ page_from usage_cursor (sort usage_cursor rows) 0 500
unfolding paginate
paginate-Ahead none rows h = refl
paginate-Ahead (some c) rows h =
    page_at c (sort usage_cursor rows) 500 (sort-All usage_cursor _ rows h)

take-all : (n : ℕ) (xs : List LicenseUsage) → length xs ≤ length (take n xs) → take n xs ≡ xs
take-all zero [] h = refl
take-all zero (x ∷ xs) h = absurd (omega arith)
take-all (suc n) [] h = refl
take-all (suc n) (x ∷ xs) h = ap (◌∷◌ x) (take-all n xs (omega arith))

take-last :
    (n : ℕ) (x : LicenseUsage) (xs : List LicenseUsage) → last (take (suc n) (x ∷ xs)) ≢ none
unfolding last
take-last zero x [] h = absurd (ground (arith, h))
take-last (suc n) x [] h = absurd (ground (arith, h))
take-last zero x (y ∷ xs) h = absurd (ground (arith, h))
take-last (suc n) x (y ∷ xs) h = take-last n y xs h

-- The cursor of the first page.
cursor-none :
    (sorted : List LicenseUsage) (limit : ℕ)
    → ltb (0 + length (take limit sorted)) (length sorted) ≡ false
    → (page_from usage_cursor sorted 0 limit).cursor ≡ none
unfolding page_from
cursor-none sorted limit h = ground (arith, h)

cursor-some :
    (sorted : List LicenseUsage) (limit : ℕ) (r : LicenseUsage)
    → ltb (0 + length (take limit sorted)) (length sorted) ≡ true
    → last (take limit sorted) ≡ some r
    → (page_from usage_cursor sorted 0 limit).cursor ≡ some (usage_cursor r)
unfolding page_from
cursor-some sorted limit r h e = ground (arith, h, e)

-- The last page has all the rows; another one ends in the row that its cursor names.
pub page_from-cases :
    (sorted : List LicenseUsage) (n : ℕ)
    → let limit = suc n in
      let page = page_from usage_cursor sorted 0 limit in
      ((page.cursor ≡ none) × (take limit sorted ≡ sorted))
      ⊎ ((r : LicenseUsage) × (page.cursor ≡ some (usage_cursor r))
          × (last (take limit sorted) ≡ some r))
page_from-cases [] n = inl (cursor-none [] (suc n) refl, refl)
page_from-cases (x ∷ xs) n =
    let sorted = x ∷ xs in
    elim (Bool-cases (ltb (0 + length (take (suc n) sorted)) (length sorted))) [
      | inr all ↦
          inl (cursor-none sorted (suc n) all, take-all (suc n) sorted (ground (arith, all)))
      | inl some_left ↦ elim (Option-cases (last (take (suc n) sorted))) [
        | inl empty ↦ absurd (take-last n x xs empty)
        | inr (r, found) ↦ inr (r, cursor-some sorted (suc n) r some_left found, found)
      ]
    ]

All-append :
    (P : LicenseUsage → Type 0) (xs ys : List LicenseUsage) → All P xs → All P ys → All P (xs ++ ys)
All-append P [] ys h k = k
All-append P (x ∷ xs) ys h k = (h.0, All-append P xs ys h.1 k)

pub Listed-self : (items : List LicenseUsage) → All (Listed items) items
Listed-self [] = tt
Listed-self (x ∷ items) =
    (ground (arith, eq_refl x.id), All-map _ _ (λ r h. ground (arith, h)) items (Listed-self items))

-- A row is on the page, or comes after the last row of it.
pub split_page :
    (sorted : List LicenseUsage) (n : ℕ) (r : LicenseUsage) (items : List LicenseUsage)
    → items ≡ take n sorted
    → last (take n sorted) ≡ some r
    → IsDescending usage_cursor sorted
    → All (λ y. Listed items y ⊎ (is_after (usage_cursor y) (usage_cursor r) ≡ true)) sorted
split_page sorted n r items e ends descending =
    let whole = take-append-drop n sorted in
    let listed =
      subst (λ (xs : List LicenseUsage). All (Listed xs) (take n sorted)) (sym e)
        (Listed-self (take n sorted)) in
    let behind =
      behind-last usage_cursor (take n sorted) (drop n sorted) r
        (subst (IsDescending usage_cursor) (sym whole) descending) ends in
    subst (All (λ y. Listed items y ⊎ (is_after (usage_cursor y) (usage_cursor r) ≡ true))) whole (
      All-append _ (take n sorted) (drop n sorted) (All-map _ _ (λ y h. inl h) _ listed)
        (All-map _ _ (λ y h. inr h) _ behind))

-- What follows a page, by its cursor.
abbrev pub next_page :
    ℕ → Instant → UuidV7 → List UuidV7 → Option CursorTuple → Action (List UuidV7)
next_page fuel t l found cursor = elim cursor [
  | none ↦ pure found
  | some c ↦ (do rest ← revoke_pages fuel t l (some c); pure (found ++ rest))
]

pub next_page-none :
    (fuel : ℕ) (t : Instant) (l : UuidV7) (found : List UuidV7) (v : World)
    (cursor : Option CursorTuple)
    → cursor ≡ none
    → next_page fuel t l found cursor v ≡ (ok found, v)
next_page-none fuel t l found v cursor e =
    ap (λ (c : Option CursorTuple). next_page fuel t l found c v) e

pub next_page-some :
    (fuel : ℕ) (t : Instant) (l : UuidV7) (found : List UuidV7) (v : World)
    (cursor : Option CursorTuple) (c : CursorTuple)
    → cursor ≡ some c
    → next_page fuel t l found cursor v
      ≡ (revoke_pages fuel t l (some c) >>= λ rest. pure (found ++ rest)) v
next_page-some fuel t l found v cursor c e =
    ap (λ (c : Option CursorTuple). next_page fuel t l found c v) e
