-- ===== src/UsageService/Revoke.antt =====
-- `revokeUsage` of typescript/src/usage-service.ts frees the seat.
use licensing.Common.{
  Bool, none, eq_refl, ◌+◌, ◌≡◌, ◌∙◌, ap, sym, true, false, some, arith, inl, inr, filter, length,
}
use licensing.Table
use licensing.Table.Keyed.{count-set_lost}
use licensing.Types.{LicenseUsage, UsageStatus, UuidV7, Instant}
use licensing.Errors.{ok}
use licensing.Id.{Clock}
use licensing.Storage.Monad.{State, World}
use licensing.Storage.Usages.{usage_matches, usage_patched, update_usage}
use licensing.Storage.Usages.Cases.{update_usage-cases}
use licensing.Storage.Tx.Laws.{enter, with_transaction-commit}
use licensing.Lifecycle.{TransitionOptions}
use licensing.UsageService.{active_of, revoked_patch, revoke_active, revoke_body, revoke_usage}
use licensing.UsageService.Pages.{active_count}
use licensing.UsageService.Register.{usages-append_audit}

-- The row that a revocation writes.
revoke_active-writes :
    (c : Clock) (id : UuidV7) (opts : TransitionOptions) (usage u : LicenseUsage) (w : World)
    → Table.get id w.state.usages ≡ some usage
    → (revoke_active c id opts usage w).0 ≡ ok u
    → (now : Instant) × (u ≡ usage_patched usage (revoked_patch (c.now_iso w.moment)) now)
      × ((revoke_active c id opts usage w).1.state.usages ≡ Table.set id u w.state.usages)
unfolding revoke_active
revoke_active-writes c id opts usage u w found h =
    let patch = revoked_patch (c.now_iso w.moment) in
    let w' : World = record w { moment = w.moment + 1 } in
    elim (update_usage-cases id patch w') [
      | inl failed ↦ absurd (ground (arith, failed.thrown))
      | inr (cur, now, there, clear, done) ↦
          let same : cur ≡ usage = ground arith in
          let v = (update_usage id patch w').1 in
          let row = usage_patched cur patch now in
          let q : u ≡ row = grind (arith, done.returned) in
          (
            now,
            q ∙ ap (λ (r : LicenseUsage). usage_patched r patch now) same,
            grind (arith, done.returned, usages-append_audit)
                ∙ ap (λ (s : State). s.usages) done.state
                ∙ ap (λ (r : LicenseUsage). Table.set id r w.state.usages) (sym q),
          )
    ]

-- The test for an active seat of a license.
abbrev is_seat : UuidV7 → LicenseUsage → Bool
is_seat license_id = usage_matches (active_of (some license_id) none)

seat_lost :
    (usage : LicenseUsage) (t now : Instant)
    → is_seat usage.license_id (usage_patched usage (revoked_patch t) now) ≡ false
unfolding usage_matches
seat_lost usage t now = simp eq_refl

seat_held :
    (usage : LicenseUsage)
    → usage.status ≡ UsageStatus.active
    → is_seat usage.license_id usage ≡ true
unfolding usage_matches
seat_held usage h = rw h (simp eq_refl)

revoke_body-active :
    (c : Clock) (id : UuidV7) (opts : TransitionOptions) (usage : LicenseUsage) (w : World)
    → Table.get id w.state.usages ≡ some usage
    → usage.status ≡ UsageStatus.active
    → revoke_body c id opts w ≡ revoke_active c id opts usage w
unfolding revoke_body
revoke_body-active c id opts usage w found h = ground arith

-- A revokeUsage of a stored, active usage that returns stores the usage as revoked and frees
-- exactly one active seat of its license.
pub revoke_usage_frees_one :
    (c : Clock) (id : UuidV7) (opts : TransitionOptions) (usage u : LicenseUsage) (w : World)
    → Table.get id w.state.usages ≡ some usage
    → usage.status ≡ UsageStatus.active
    → (revoke_usage c id opts w).0 ≡ ok u
    → let after = (revoke_usage c id opts w).1.state in
      (u.status ≡ UsageStatus.revoked)
      × (Table.get id after.usages ≡ some u)
      × (active_count after usage.license_id + 1 ≡ active_count w.state usage.license_id)
unfolding revoke_usage
revoke_usage_frees_one c id opts usage u w found active h =
    let (depth, body, state) = with_transaction-commit (revoke_body c id opts) w u h in
    let e = revoke_body-active c id opts usage (enter w) found active in
    let (now, row, written) =
      revoke_active-writes c id opts usage u (enter w) found (rw e at body) in
    let t = c.now_iso w.moment in
    let usages = ap (λ (s : State). s.usages) state ∙ ap (λ r. r.1.state.usages) e ∙ written in
    let lost : is_seat usage.license_id u ≡ false = rw row (seat_lost usage t now) in
    (
      ap (λ (r : LicenseUsage). r.status) row,
      ap (Table.get id) usages ∙ Table.get-set_self id u w.state.usages,
      ap (λ m. length (filter (is_seat usage.license_id) (Table.values m)) + 1) usages
          ∙ count-set_lost (is_seat usage.license_id) id u usage w.state.usages found
              (seat_held usage active) lost,
    )
