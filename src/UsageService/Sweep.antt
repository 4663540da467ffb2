-- ===== src/UsageService/Sweep.antt =====
-- `sweepInactiveUsages` of typescript/src/usage-service.ts. `Date.parse` is the parameter `parse`, none
-- for NaN.
use mathlib.Core.List.{append_assoc}
use licensing.Common.{
  ℕ, zero, suc, ◌+◌, ◌*◌, ◌≡◌, refl, ap, ◌∙◌, Bool, false, Option, none, some, List, [], ◌∷◌, ◌++◌,
  map, filter, length, ltb, if◌then◌else◌, String, arith, inl, inr, Option-cases, length-append,
  length-filter-le,
}
use licensing.Table
use licensing.Table.Keyed.{filter-HasDistinctIds, values-HasDistinctIds}
use licensing.Types.{LicenseUsage, UuidV7, Instant}
use licensing.Errors.{ok, bad_inactivity, unparseable_instant, out_of_fuel}
use licensing.Id.{Clock}
use licensing.Storage.Monad.{State, World, Action, pure, throw, throw_if, ◌>>=◌, ◌>>◌, now_iso}
use licensing.Storage.Paging.{CursorTuple, paginate, sort}
use licensing.Storage.Paging.Sort.{HasDistinctKeys, length-sort}
use licensing.Storage.Paging.Walk.{walk, walk_all}
use licensing.Storage.Usages.{usage_matches, usage_cursor, list_usages}
use licensing.Storage.Tx.{with_transaction}
use licensing.Lifecycle.{TransitionOptions}
use licensing.UsageService.{active_of, enough_pages, revoke_usage}
use licensing.UsageService.Pages.{UsagesKeyed, distinct_cursors}

-- `SweepInactiveUsagesOptions`, for a whole number of seconds.
pub record SweepInactiveUsagesOptions : Type 0 where
  pub inactive_for_sec : ℕ
  pub license_id : Option UuidV7
  pub dry_run : Bool
  pub actor : Option String

pub record SweepInactiveUsagesResult : Type 0 where
  pub scanned : ℕ
  pub stale : List UuidV7
  pub revoked : List UuidV7

-- `seenMs < cutoffMs`, where the cutoff may lie before the epoch; false for NaN.
abbrev pub is_stale : (Instant → Option ℕ) → ℕ → ℕ → LicenseUsage → Bool
is_stale parse now_ms inactive_for_sec row = elim (parse row.last_seen_at) [
  | none ↦ false
  | some seen_ms ↦ ltb (seen_ms + inactive_for_sec * 1000) now_ms
]

-- The identifiers of the rows that a test picks.
abbrev pub picked : (LicenseUsage → Bool) → List LicenseUsage → List UuidV7
picked p rows = map (λ (row : LicenseUsage). row.id) (filter p rows)

-- The `while (true)` with `scanned` and `stale` so far.
unfoldable pub sweep_pages :
    (LicenseUsage → Bool)
    → ℕ
    → Option UuidV7
    → Option CursorTuple
    → ℕ
    → List UuidV7
    → Action (ℕ × List UuidV7)
sweep_pages p zero license_id cursor scanned stale = throw out_of_fuel
sweep_pages p (suc fuel) license_id cursor scanned stale = do
  page ← list_usages (active_of license_id none) (record { limit = 500; cursor = cursor })
  elim page.cursor [
    | none ↦ pure (scanned + length page.items, stale ++ picked p page.items)
    | some c ↦
        sweep_pages p fuel license_id (some c) (scanned + length page.items)
          (stale ++ picked p page.items)
  ]

-- The body of the transaction.
unfoldable pub sweep_body : (LicenseUsage → Bool) → Option UuidV7 → Action (ℕ × List UuidV7)
unfolding sweep_pages
sweep_body p license_id = do fuel ← enough_pages; sweep_pages p fuel license_id none 0 []

-- The loop of revocations.
unfoldable pub revoke_all : Clock → TransitionOptions → List UuidV7 → Action (List UuidV7)
revoke_all clock opts [] = pure []
revoke_all clock opts (id ∷ ids) = do
  revoke_usage clock id opts
  rest ← revoke_all clock opts ids
  pure (id ∷ rest)

-- What follows the transaction.
unfoldable pub finish_sweep :
    Clock → SweepInactiveUsagesOptions → ℕ × List UuidV7 → Action SweepInactiveUsagesResult
unfolding revoke_all
finish_sweep clock opts (scanned, stale) =
    let live = (do
      revoked ←
          revoke_all clock (record { actor = opts.actor; actor_kind = none; actor_id = none }) stale
      pure (record { scanned = scanned; stale = stale; revoked = revoked })) in
    if opts.dry_run then pure (record { scanned = scanned; stale = stale; revoked = [] }) else live

-- `sweepInactiveUsages`
unfoldable pub sweep_inactive_usages :
    (Instant → Option ℕ) → Clock → SweepInactiveUsagesOptions → Action SweepInactiveUsagesResult
unfolding sweep_body finish_sweep
sweep_inactive_usages parse clock opts = do
  throw_if (ltb opts.inactive_for_sec 1) (bad_inactivity opts.inactive_for_sec)
  now ← now_iso clock
  elim (parse now) [
    | none ↦ (do again ← now_iso clock; throw (unparseable_instant again))
    | some now_ms ↦ (do
      found ←
          with_transaction
            (sweep_body (is_stale parse now_ms opts.inactive_for_sec) opts.license_id)
      finish_sweep clock opts found)
  ]

-- The rows that a sweep reads.
abbrev pub swept_rows : State → Option UuidV7 → List LicenseUsage
swept_rows s license_id = filter (usage_matches (active_of license_id none)) (Table.values s.usages)

picked-append :
    (p : LicenseUsage → Bool) (xs ys : List LicenseUsage)
    → picked p (xs ++ ys) ≡ picked p xs ++ picked p ys
picked-append p [] ys = refl
picked-append p (x ∷ xs) ys = ground (arith, picked-append p xs ys)

sweep_pages-walk :
    (p : LicenseUsage → Bool) (fuel : ℕ) (l : Option UuidV7) (cursor : Option CursorTuple)
    (scanned : ℕ) (stale : List UuidV7) (w : World) (rows : List LicenseUsage)
    → walk usage_cursor (swept_rows w.state l) 500 fuel cursor ≡ some rows
    → sweep_pages p fuel l cursor scanned stale w
      ≡ (ok (scanned + length rows, stale ++ picked p rows), w)
unfolding sweep_pages list_usages walk
sweep_pages-walk p zero l cursor scanned stale w rows h = cc
sweep_pages-walk p (suc fuel) l cursor scanned stale w rows h =
    let page =
      paginate usage_cursor (swept_rows w.state l) (record { limit = 500; cursor = cursor }) in
    elim (Option-cases page.cursor) [
      | inl done ↦ ground arith
      | inr (c, more) ↦
          elim (Option-cases (walk usage_cursor (swept_rows w.state l) 500 fuel (some c))) [
            | inl stuck ↦ ground arith
            | inr (rest, e) ↦ ground (
              arith,
              sweep_pages-walk p fuel l (some c) (scanned + length page.items)
                  (stale ++ picked p page.items) w rest e,
              length-append page.items rest,
              picked-append p page.items rest,
              append_assoc stale (picked p page.items) (picked p rest),
            )
          ]
    ]

swept_rows-distinct :
    (s : State) (l : Option UuidV7) → UsagesKeyed s → HasDistinctKeys usage_cursor (swept_rows s l)
swept_rows-distinct s l h =
    distinct_cursors _ (filter-HasDistinctIds _ _ _ (values-HasDistinctIds _ s.usages h))

-- The pages of a sweep come to their end and change nothing.
pub sweep_body_lem :
    (p : LicenseUsage → Bool) (l : Option UuidV7) (w : World)
    → UsagesKeyed w.state
    → let rows = swept_rows w.state l in
      sweep_body p l w ≡ (ok (length rows, picked p (sort usage_cursor rows)), w)
unfolding sweep_body
sweep_body_lem p l w h =
    let rows = swept_rows w.state l in
    let all = Table.values w.state.usages in
    sweep_pages-walk p (suc (length all)) l none 0 [] w (sort usage_cursor rows) (
      walk_all usage_cursor rows 500 (suc (length all)) (swept_rows-distinct w.state l h)
        (omega (arith, length-filter-le (usage_matches (active_of l none)) all)))
    ∙ ap (λ (n : ℕ). (ok (n, picked p (sort usage_cursor rows)), w))
        (omega (arith, length-sort usage_cursor rows))
