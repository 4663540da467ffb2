-- ===== src/LicenseService/RevokedReturns.antt =====
-- The pages of `rotateLicenseKey` of typescript/src/license-service.ts come to an end.
use licensing.Common.{
  ℕ, zero, suc, ◌<◌, true, ◌≡◌, ◌≢◌, inl, inr, refl, sym, ap, ◌∙◌, Option, none, some, List, [],
  ◌∷◌, ◌++◌, first, take, All, All-map, Option-cases, arith, length,
}
use mathlib.Core.Path.{subst}
use licensing.Table
use licensing.Table.{Table}
use licensing.Table.Keyed.{All-filter, values-All-get}
use licensing.Types.{LicenseUsage, UuidV7, Instant}
use licensing.Errors.{ok, Result-cases}
use licensing.Storage.Monad.{State, World, Action, pure, ◌>>=◌, adapter_now_iso}
use licensing.Storage.Paging.{CursorTuple, is_after, sort, page_from, paginate, Page}
use licensing.Storage.Paging.Sort.{sort-All, unsort-All, sort-IsDescending}
use licensing.Storage.Usages.Cases.{update_usage-cases}
use licensing.Storage.Usages.{
  usage_patched, usage_cursor, usage_taken, usage_matches, update_usage, list_usages,
}
use licensing.UsageService.{active_of, revoked_patch}
use licensing.UsageService.Pages.{active_rows, UsagesKeyed, active_rows-distinct}
use licensing.LicenseService.{revoke_each, revoke_pages}
use licensing.LicenseService.RevokedRows.{revoke_each-remaining}
use licensing.LicenseService.RevokedPages.{
  Ahead, paginate-Ahead, page_from-cases, split_page, next_page, next_page-none, next_page-some,
}
use licensing.LicenseService.RevokedCounts.{All-take, revoke_each-fewer}

-- The row's identifier is in the table.
abbrev IsStored : State → LicenseUsage → Type 0
IsStored s r = Table.get r.id s.usages ≢ none

none_conflicts :
    (id : UuidV7) (cur : LicenseUsage) (t : Instant) (rows : List LicenseUsage)
    → first (usage_taken id cur (revoked_patch t)) rows ≡ none
unfolding usage_taken
none_conflicts id cur t [] = refl
none_conflicts id cur t (row ∷ rows) = ground (arith, none_conflicts id cur t rows)

-- A stored row is revoked, and no row leaves the table.
update_usage-returns :
    (id : UuidV7) (t : Instant) (w : World)
    → Table.get id w.state.usages ≢ none
    → (u : LicenseUsage) × ((update_usage id (revoked_patch t) w).0 ≡ ok u)
unfolding update_usage adapter_now_iso
update_usage-returns id t w h = elim (Option-cases (Table.get id w.state.usages)) [
  | inl missing ↦ absurd (h missing)
  | inr (cur, found) ↦ elim (Result-cases (update_usage id (revoked_patch t) w).0) [
    | inl r ↦ r
    | inr (e, thrown) ↦
        absurd (ground (arith, found, none_conflicts id cur t (Table.values w.state.usages)))
  ]
]

set_kept :
    (j id : UuidV7) (row : LicenseUsage) (m : Table LicenseUsage)
    → Table.get j m ≢ none
    → Table.get j (Table.set id row m) ≢ none
set_kept j id row m h e = absurd (h (ground (arith, Table.get-set id j row m, e)))

update_usage-kept :
    (j id : UuidV7) (t : Instant) (w : World)
    → Table.get j w.state.usages ≢ none
    → Table.get j (update_usage id (revoked_patch t) w).1.state.usages ≢ none
update_usage-kept j id t w h = elim (update_usage-cases id (revoked_patch t) w) [
  | inl failed ↦ rw failed.state h
  | inr (cur, now, there, clear, done) ↦
      rw done.state (set_kept j id (usage_patched cur (revoked_patch t) now) w.state.usages h)
]

revoke_each-returns :
    (t : Instant) (items : List LicenseUsage) (w : World)
    → All (IsStored w.state) items
    → (ids : List UuidV7) × ((revoke_each t items w).0 ≡ ok ids)
unfolding revoke_each
revoke_each-returns t [] w h = ([], refl)
revoke_each-returns t (x ∷ items) w h =
    let (u, one) = update_usage-returns x.id t w h.0 in
    let v = (update_usage x.id (revoked_patch t) w).1 in
    let (ids, rest) =
      revoke_each-returns t items v
        (All-map _ _ (λ (y : LicenseUsage). update_usage-kept y.id x.id t w) items h.1) in
    (x.id ∷ ids, ground (arith, one, rest))

-- Every active row is stored.
rows-IsStored :
    (l : UuidV7) (w : World)
    → UsagesKeyed w.state
    → All (IsStored w.state) (active_rows w.state l none)
rows-IsStored l w keyed =
    All-filter _ (usage_matches (active_of (some l) none)) (Table.values w.state.usages) (
      All-map _ _ (λ y found missing. absurd (ground (arith, found, missing))) _
        (values-All-get (λ (r : LicenseUsage). r.id) w.state.usages keyed))

pub bound :
    {A B : Type 0} (m : Action A) (f : A → Action B) (w : World) (a : A)
    → (m w).0 ≡ ok a
    → (m >>= f) w ≡ f a (m w).1
bound m f w a h = ground (arith, h)

-- With as many turns as there are active rows, and one more, the loop comes to its last page.
pub revoke_pages-returns :
    (fuel : ℕ) (t : Instant) (l : UuidV7) (cursor : Option CursorTuple) (w : World)
    → UsagesKeyed w.state
    → Ahead cursor (active_rows w.state l none)
    → length (active_rows w.state l none) < fuel
    → (ids : List UuidV7) × ((revoke_pages fuel t l cursor w).0 ≡ ok ids)
unfolding revoke_pages list_usages page_from sort
revoke_pages-returns zero t l cursor w keyed ahead enough = absurd (omega arith)
revoke_pages-returns (suc fuel) t l cursor w keyed ahead enough =
    let rows = active_rows w.state l none in
    let sorted = sort usage_cursor rows in
    let page = paginate usage_cursor rows (record { limit = 500; cursor = cursor }) in
    let first_page = paginate-Ahead cursor rows ahead in
    let items : page.items ≡ take 500 sorted = ap (λ (p : Page LicenseUsage). p.items) first_page in
    let next : List UuidV7 → Action (List UuidV7) = λ found. next_page fuel t l found page.cursor in
    let stored =
      subst (All (IsStored w.state)) (sym items)
        (All-take _ 500 sorted (sort-All usage_cursor _ rows (rows-IsStored l w keyed))) in
    let (found, revoked) = revoke_each-returns t page.items w stored in
    let v = (revoke_each t page.items w).1 in
    let turn = bound (revoke_each t page.items) next w found revoked in
    elim (page_from-cases sorted 499) [
      | inl (no_cursor, everything) ↦ (
        found,
        ap (λ r. r.0)
            (turn
              ∙ next_page-none fuel t l found v page.cursor
                  (ap (λ (p : Page LicenseUsage). p.cursor) first_page ∙ no_cursor)),
      )
      | inr (r, at, ends) ↦
          let c = usage_cursor r in
          let parts =
            split_page sorted 500 r page.items items ends
              (sort-IsDescending usage_cursor rows (active_rows-distinct w.state l none keyed)) in
          let (kept, left) =
            revoke_each-remaining l t (λ y. is_after (usage_cursor y) c ≡ true) page.items found w
              keyed (unsort-All usage_cursor _ rows parts) revoked in
          let fewer = revoke_each-fewer l t 500 r page.items found w ends revoked left in
          let (ids, later) =
            revoke_pages-returns fuel t l (some c) v kept left (omega (arith, fewer, enough)) in
          let goes_on =
            next_page-some fuel t l found v page.cursor c
              (ap (λ (p : Page LicenseUsage). p.cursor) first_page ∙ at) in
          (
            found ++ ids,
            ap (λ r. r.0)
                (turn
                  ∙ goes_on
                  ∙ bound (revoke_pages fuel t l (some c)) (λ rest. pure (found ++ rest)) v ids
                      later),
          )
    ]
