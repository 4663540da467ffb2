-- ===== src/Storage/Unique/Usages.antt =====
-- No device has two active seats of one license, and creating and changing usages keeps it so.
use licensing.Common.{
  ◌≡◌, ◌≢◌, sym, ◌∙◌, true, false, some, none, arith, inl, inr, eq_iff, first, Option-cases,
  Bool-cases,
}
use licensing.Table
use licensing.Table.Unique.{IsUnique, set-IsUnique}
use licensing.Table.Keyed.{IsKeyed, get-IsKeyed}
use licensing.Types.{LicenseUsage, UuidV7, Instant}
use licensing.Storage.Monad.{State, World}
use licensing.Storage.Shapes.{LicenseUsageInput, LicenseUsagePatch}
use licensing.Storage.Usages.{
  usage_active, usage_conflict, usage_row, create_usage, usage_taken, usage_patched, update_usage,
}
use licensing.Storage.Usages.Cases.{create_usage-cases, update_usage-cases}

-- Two active seats of one device on one license.
abbrev SameSeat : LicenseUsage → LicenseUsage → Type 0
SameSeat a b =
    (a.license_id ≡ b.license_id)
    × (a.fingerprint ≡ b.fingerprint)
    × (usage_active a ≡ true)
    × (usage_active b ≡ true)

SameSeat-sym : (a b : LicenseUsage) → SameSeat a b → SameSeat b a
SameSeat-sym a b h = (sym h.0, sym h.1, h.3, h.2)

-- A license and a fingerprint have one active seat at most.
abbrev pub HasUniqueSeats : State → Type 0
HasUniqueSeats s = IsUnique SameSeat s.usages

clear_of_conflict :
    (i : LicenseUsageInput) (id : UuidV7) (now : Instant) (row : LicenseUsage)
    → usage_conflict i row ≡ none
    → ¬ SameSeat (usage_row i id now) row
unfolding usage_conflict
clear_of_conflict i id now row h (l, f, a, b) =
    ground (arith, eq_iff row.license_id i.license_id, eq_iff row.fingerprint i.fingerprint)

-- If a license and a fingerprint have one active usage at most, the same holds after
-- createUsage, whether it returns or throws.
pub create_usage-HasUniqueSeats :
    (i : LicenseUsageInput) (w : World)
    → HasUniqueSeats w.state
    → HasUniqueSeats (create_usage i w).1.state
create_usage-HasUniqueSeats i w unique = elim (create_usage-cases i w) [
  | inl failed ↦ rw (failed.state) unique
  | inr (id, now, minted, clear, done) ↦ rw (done.state) (
      set-IsUnique SameSeat id (usage_row i id now) w.state.usages SameSeat-sym
        (λ j b away found.
          clear_of_conflict i id now b
            (Table.get-first (usage_conflict i) w.state.usages j b clear found))
        unique)
]

clear_of_taken :
    (id : UuidV7) (cur : LicenseUsage) (p : LicenseUsagePatch) (now : Instant) (row : LicenseUsage)
    → usage_taken id cur p row ≡ none
    → id ≢ row.id
    → usage_active cur ≡ false
    → ¬ SameSeat (usage_patched cur p now) row
unfolding usage_taken
clear_of_taken id cur p now row h away idle (l, f, a, b) = elim (Option-cases p.status) [
  | inl same ↦ ground arith
  | inr (s, new) ↦ ground (
    arith,
    eq_iff row.license_id cur.license_id,
    eq_iff row.fingerprint cur.fingerprint,
    eq_iff row.id id,
    λ (q : row.id ≡ id). away (sym q),
  )
]

-- The row that `updateUsage` writes has the seat of no other usage.
patched_apart :
    (id : UuidV7) (p : LicenseUsagePatch) (cur : LicenseUsage) (now : Instant) (w : World)
    → IsKeyed (λ (r : LicenseUsage). r.id) w.state.usages
    → HasUniqueSeats w.state
    → Table.get id w.state.usages ≡ some cur
    → first (usage_taken id cur p) (Table.values w.state.usages) ≡ none
    → (j : UuidV7) (b : LicenseUsage) → id ≢ j
    → Table.get j w.state.usages ≡ some b
    → ¬ SameSeat (usage_patched cur p now) b
patched_apart id p cur now w keyed unique found clear j b away there clash =
    let own = get-IsKeyed (λ (r : LicenseUsage). r.id) j b w.state.usages keyed there in
    elim (Bool-cases (usage_active cur)) [
      | inl taken ↦ away (unique id j cur b found there (clash.0, clash.1, taken, clash.3))
      | inr idle ↦
          clear_of_taken id cur p now b
            (Table.get-first (usage_taken id cur p) w.state.usages j b clear there)
            (λ q. away (q ∙ own)) idle clash
    ]

-- If every usage stands under its own identifier and a license and a fingerprint have one
-- active usage at most, the same holds after updateUsage, a reactivation included, whether it
-- returns or throws.
pub update_usage-HasUniqueSeats :
    (id : UuidV7) (p : LicenseUsagePatch) (w : World)
    → IsKeyed (λ (r : LicenseUsage). r.id) w.state.usages
    → HasUniqueSeats w.state
    → HasUniqueSeats (update_usage id p w).1.state
update_usage-HasUniqueSeats id p w keyed unique = elim (update_usage-cases id p w) [
  | inl failed ↦ rw (failed.state) unique
  | inr (cur, now, found, clear, done) ↦ rw (done.state) (
      set-IsUnique SameSeat id (usage_patched cur p now) w.state.usages SameSeat-sym
        (patched_apart id p cur now w keyed unique found clear) unique)
]
