-- ===== src/UsageService/Pages.antt =====
-- The page loops of `findActiveUsage` and `countActiveUsages` see every active seat.
use licensing.Common.{
  ℕ, zero, suc, ◌+◌, ◌≡◌, ap, ◌∙◌, Option, none, some, List, [], ◌∷◌, arith, inl, inr, Option-cases,
  filter, first, length, All-map, first-append, length-append, length-filter-le,
}
use licensing.Table
use licensing.Table.Keyed.{IsKeyed, HasDistinctIds, values-HasDistinctIds, filter-HasDistinctIds}
use licensing.Types.{LicenseUsage, UuidV7, Fingerprint}
use licensing.Errors.{ok}
use licensing.Storage.Monad.{State, World}
use licensing.Storage.Paging.{CursorTuple, paginate, sort}
use licensing.Storage.Paging.Sort.{HasDistinctKeys, length-sort}
use licensing.Storage.Paging.Walk.{walk, walk_all}
use licensing.Storage.Usages.{usage_matches, usage_cursor, list_usages}
use licensing.UsageService.{
  active_of, has_fingerprint, find_pages, find_active_usage, count_pages, count_active_usages,
}

-- The active rows of a license, and of a fingerprint if one is given.
abbrev pub active_rows : State → UuidV7 → Option Fingerprint → List LicenseUsage
active_rows s license_id fp =
    filter (usage_matches (active_of (some license_id) fp)) (Table.values s.usages)

-- The number of active seats of a license.
abbrev pub active_count : State → UuidV7 → ℕ
active_count s license_id = length (active_rows s license_id none)

count_pages-walk :
    (fuel : ℕ) (l : UuidV7) (cursor : Option CursorTuple) (count : ℕ) (w : World)
    (rows : List LicenseUsage)
    → walk usage_cursor (active_rows w.state l none) 500 fuel cursor ≡ some rows
    → count_pages fuel l cursor count w ≡ (ok (count + length rows), w)
unfolding count_pages list_usages walk
count_pages-walk zero l cursor count w rows h = cc
count_pages-walk (suc fuel) l cursor count w rows h =
    let page =
      paginate usage_cursor (active_rows w.state l none)
        (record { limit = 500; cursor = cursor }) in
    elim (Option-cases page.cursor) [
      | inl done ↦ ground arith
      | inr (c, more) ↦
          elim (Option-cases (walk usage_cursor (active_rows w.state l none) 500 fuel (some c))) [
            | inl stuck ↦ ground arith
            | inr (rest, e) ↦ ground (
              arith,
              count_pages-walk fuel l (some c) (count + length page.items) w rest e,
              length-append page.items rest,
            )
          ]
    ]

find_pages-walk :
    (fuel : ℕ) (l : UuidV7) (fp : Fingerprint) (cursor : Option CursorTuple) (w : World)
    (rows : List LicenseUsage)
    → walk usage_cursor (active_rows w.state l (some fp)) 100 fuel cursor ≡ some rows
    → find_pages fuel l fp cursor w ≡ (ok (first (has_fingerprint fp) rows), w)
unfolding find_pages list_usages walk
find_pages-walk zero l fp cursor w rows h = cc
find_pages-walk (suc fuel) l fp cursor w rows h =
    let page =
      paginate usage_cursor (active_rows w.state l (some fp))
        (record { limit = 100; cursor = cursor }) in
    elim (Option-cases page.cursor) [
      | inl done ↦ ground arith
      | inr (c, more) ↦
          elim (Option-cases
            (walk usage_cursor (active_rows w.state l (some fp)) 100 fuel (some c))) [
              | inl stuck ↦ ground arith
              | inr (rest, e) ↦ ground (
                arith,
                find_pages-walk fuel l fp (some c) w rest e,
                first-append (has_fingerprint fp) page.items rest,
              )
            ]
    ]

-- Every usage stands under its own identifier.
abbrev pub UsagesKeyed : State → Type 0
UsagesKeyed s = IsKeyed (λ (r : LicenseUsage). r.id) s.usages

pub distinct_cursors :
    (rows : List LicenseUsage)
    → HasDistinctIds (λ (r : LicenseUsage). r.id) rows
    → HasDistinctKeys usage_cursor rows
distinct_cursors [] h = tt
distinct_cursors (x ∷ xs) h =
    (All-map _ _ (λ y ne e. ne (ap (λ (c : CursorTuple). c.id) e)) xs h.0, distinct_cursors xs h.1)

pub active_rows-distinct :
    (s : State) (l : UuidV7) (fp : Option Fingerprint)
    → UsagesKeyed s
    → HasDistinctKeys usage_cursor (active_rows s l fp)
active_rows-distinct s l fp h =
    distinct_cursors _ (filter-HasDistinctIds _ _ _ (values-HasDistinctIds _ s.usages h))

-- If every usage stands under its own identifier, the loop of countActiveUsages comes to its
-- last page within one turn more than there are usages, returns the number of active usages of
-- the license, and changes nothing.
pub count_active_usages_lem :
    (l : UuidV7) (w : World)
    → UsagesKeyed w.state
    → count_active_usages l w ≡ (ok (active_count w.state l), w)
unfolding count_active_usages
count_active_usages_lem l w h =
    let rows = active_rows w.state l none in
    let all = Table.values w.state.usages in
    count_pages-walk (suc (length all)) l none 0 w (sort usage_cursor rows) (
      walk_all usage_cursor rows 500 (suc (length all)) (active_rows-distinct w.state l none h)
        (omega (arith, length-filter-le (usage_matches (active_of (some l) none)) all)))
    ∙ ap (λ n. (ok n, w)) (omega (arith, length-sort usage_cursor rows))

-- `findActiveUsage` looks at every active seat of the license and the fingerprint.
pub find_active_usage_lem :
    (l : UuidV7) (fp : Fingerprint) (w : World)
    → UsagesKeyed w.state
    → find_active_usage l fp w
      ≡ (ok (first (has_fingerprint fp) (sort usage_cursor (active_rows w.state l (some fp)))), w)
unfolding find_active_usage
find_active_usage_lem l fp w h =
    let rows = active_rows w.state l (some fp) in
    let all = Table.values w.state.usages in
    find_pages-walk (suc (length all)) l fp none w (sort usage_cursor rows) (
      walk_all usage_cursor rows 100 (suc (length all)) (active_rows-distinct w.state l (some fp) h)
        (omega (arith, length-filter-le (usage_matches (active_of (some l) (some fp))) all)))
