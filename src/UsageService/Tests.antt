-- ===== src/UsageService/Tests.antt =====
-- Registrations on a small world, and the theorems at it.
use licensing.Common.{
  ℕ, Option, [], ◌∷◌, ◌==◌, if◌then◌else◌, ◌≡◌, refl, ◌≤◌, ◌<◌, ◌+◌, none, some, true, false, arith,
}
use licensing.Table
use licensing.Types.{Instant, License, LicenseStatus, LicenseUsage, UsageStatus}
use licensing.Fixtures.{clock, license_of, usage_of, world_of, one_taken}
use licensing.Errors.{ok, err, license_not_found, license_revoked, seat_limit_exceeded}
use licensing.Id.{uuid_v7_text, iso_from_ms}
use licensing.Id.Uuid.Laws.{ne-uuid_v7_text}
use licensing.Storage.Monad.{World, adapter_now_iso, new_uuid_v7}
use licensing.Storage.Paging.{paginate, sort, page_from, stays_before, is_after, find_index}
use licensing.Storage.Licenses.{update_license, license_key_taken}
use licensing.Storage.Usages.{
  create_usage, list_usages, usage_matches, usage_conflict, update_usage, usage_taken,
}
use licensing.Storage.Audit.{append_audit}
use licensing.Storage.Tx.{with_transaction}
use licensing.UsageService.Revoke.{revoke_usage_frees_one}
use licensing.Lifecycle.{TransitionOptions, activate, apply_transition, write_transition}
use licensing.UsageService.{
  RegisterUsageInput, RegisterUsageResult, usable_error, find_pages, find_active_usage, count_pages,
  count_active_usages, promote, finish_seat, write_seat, take_seat, register_usage, revoke_usage,
  revoke_body, revoke_active,
}
use licensing.UsageService.Pages.{active_count, count_active_usages_lem, UsagesKeyed}
use licensing.UsageService.Sweep.{
  SweepInactiveUsagesOptions, sweep_pages, sweep_body, revoke_all, finish_sweep,
  sweep_inactive_usages,
}
use licensing.UsageService.Branches.{
  register_usage_missing, register_usage_unusable, when_revoked, is_pending, register_usage_again,
  register_usage_full,
}
use licensing.UsageService.Seats.{IsFresh, register_usage_within_limit, register_usage_adds_one}

abbrev demo : World
demo = world_of (license_of LicenseStatus.pending 2) one_taken

abbrev fp_b : RegisterUsageInput
fp_b = record { license_id = "l1"; fingerprint = "fp-b"; client_meta = none }

abbrev seated : RegisterUsageResult
seated = record {
  usage = record (usage_of "019d8648-a102-7000-8000-000000000000" "fp-b") {
    registered_at = "2026-04-13T10:00:00.000000Z";
    last_seen_at = "2026-04-13T10:00:00.000000Z";
    created_at = "2026-04-13T10:00:00.001000Z";
    updated_at = "2026-04-13T10:00:00.001000Z";
  };
  license = record (license_of LicenseStatus.active 2) {
    activated_at = some "2026-04-13T10:00:00.000000Z";
    updated_at = "2026-04-13T10:00:00.005000Z";
  };
  created = true;
}

register-demo : (register_usage clock fp_b none demo).0 ≡ ok seated
unfolding register_usage with_transaction find_active_usage find_pages count_active_usages
    count_pages list_usages paginate sort page_from stays_before is_after find_index usage_matches
    usable_error take_seat write_seat finish_seat promote activate apply_transition write_transition
    create_usage usage_conflict update_license license_key_taken append_audit adapter_now_iso
    new_uuid_v7 Table.get Table.set Table.values uuid_v7_text iso_from_ms
register-demo = refl

demo-UsagesKeyed : UsagesKeyed demo.state
unfolding Table.get
demo-UsagesKeyed = (refl, refl, tt)

demo-IsFresh : IsFresh demo
unfolding Table.get
demo-IsFresh ms draw h = rw (ne-uuid_v7_text "s" "eat-a" ms (demo.random draw) (omega arith))

register_usage_within_limit_example :
    (license : License) × (Table.get "l1" demo.state.licenses ≡ some license)
    × (active_count demo.state "l1" < license.max_usages)
    × (active_count (register_usage clock fp_b none demo).1.state "l1" ≤ license.max_usages)
register_usage_within_limit_example =
    register_usage_within_limit clock fp_b none demo demo-UsagesKeyed seated register-demo refl

register_usage_adds_one_example :
    (active_count (register_usage clock fp_b none demo).1.state "l1"
      ≡ active_count demo.state "l1" + 1)
    × (Table.get "019d8648-a102-7000-8000-000000000000"
          (register_usage clock fp_b none demo).1.state.usages
        ≡ some seated.usage)
    × (seated.usage.license_id ≡ "l1")
    × (seated.usage.fingerprint ≡ "fp-b")
register_usage_adds_one_example =
    register_usage_adds_one clock fp_b none demo demo-UsagesKeyed demo-IsFresh seated register-demo
      refl

-- A license that is not stored.
abbrev lost : RegisterUsageInput
lost = record fp_b { license_id = "l2" }

register_usage_missing-demo :
    ((register_usage clock lost none demo).0 ≡ err (license_not_found "l2"))
    × ((register_usage clock lost none demo).1.state ≡ demo.state)
unfolding Table.get
register_usage_missing-demo = register_usage_missing clock lost none demo refl refl

abbrev revoked_world : World
revoked_world = world_of (license_of LicenseStatus.revoked 2) one_taken

register_usage_unusable_example :
    ((register_usage clock fp_b none revoked_world).0 ≡ err license_revoked)
    × ((register_usage clock fp_b none revoked_world).1.state ≡ revoked_world.state)
unfolding Table.get
register_usage_unusable_example =
    register_usage_unusable clock fp_b none revoked_world refl (license_of LicenseStatus.revoked 2)
      refl license_revoked when_revoked

-- The device that has the seat.
abbrev fp_a : RegisterUsageInput
fp_a = record fp_b { fingerprint = "fp-a" }

register_usage_again_example :
    ((register_usage clock fp_a none demo).0
      ≡ ok (record {
        usage = usage_of "seat-a" "fp-a";
        license = license_of LicenseStatus.pending 2;
        created = false;
      }))
    × ((register_usage clock fp_a none demo).1.state ≡ demo.state)
unfolding Table.get Table.values usable_error usage_matches sort
register_usage_again_example =
    register_usage_again clock fp_a none demo refl (license_of LicenseStatus.pending 2) refl
      demo-UsagesKeyed is_pending (usage_of "seat-a" "fp-a") refl

-- A license with one seat, which is taken.
abbrev full_world : World
full_world = world_of (license_of LicenseStatus.active 1) one_taken

register_usage_full_example :
    ((register_usage clock fp_b none full_world).0 ≡ err (seat_limit_exceeded 1 1))
    × ((register_usage clock fp_b none full_world).1.state ≡ full_world.state)
unfolding Table.get Table.values usable_error usage_matches sort
register_usage_full_example =
    register_usage_full clock fp_b none full_world refl (license_of LicenseStatus.active 1) refl
      (refl, refl, tt) refl refl (omega arith)

abbrev by_admin : TransitionOptions
by_admin = record { actor = some "admin"; actor_kind = none; actor_id = none }

abbrev freed : LicenseUsage
freed = record (usage_of "seat-a" "fp-a") {
  status = UsageStatus.revoked;
  revoked_at = some "2026-04-13T10:00:00.000000Z";
  updated_at = "2026-04-13T10:00:00.001000Z";
}

revoke-demo : (revoke_usage clock "seat-a" by_admin demo).0 ≡ ok freed
unfolding revoke_usage revoke_body revoke_active with_transaction update_usage usage_taken
    append_audit adapter_now_iso new_uuid_v7 Table.get Table.set Table.values iso_from_ms
revoke-demo = refl

revoke_usage_frees_one_example :
    let after = (revoke_usage clock "seat-a" by_admin demo).1.state in
    (freed.status ≡ UsageStatus.revoked)
    × (Table.get "seat-a" after.usages ≡ some freed)
    × (active_count after "l1" + 1 ≡ active_count demo.state "l1")
unfolding Table.get
revoke_usage_frees_one_example =
    revoke_usage_frees_one clock "seat-a" by_admin (usage_of "seat-a" "fp-a") freed demo refl refl
      revoke-demo

count_active_usages_lem_example :
    count_active_usages "l1" demo ≡ (ok (active_count demo.state "l1"), demo)
count_active_usages_lem_example = count_active_usages_lem "l1" demo demo-UsagesKeyed

-- `Date.parse` at the two instants of the small world.
abbrev parse_demo : Instant → Option ℕ
parse_demo s =
    if s == "2026-02-01T00:00:00.000000Z"
    then some 1769904000000
    else if s == "2026-04-13T10:00:00.000000Z"
    then some 1776074400000
    else none

-- A seat is stale after 30 days.
abbrev monthly : SweepInactiveUsagesOptions
monthly = record { inactive_for_sec = 2592000; license_id = none; dry_run = true; actor = none }

-- The same sweep for good frees the seat.
sweep-demo :
    (sweep_inactive_usages parse_demo clock (record monthly { dry_run = false }) demo).0
    ≡ ok (record { scanned = 1; stale = "seat-a" ∷ []; revoked = "seat-a" ∷ [] })
unfolding sweep_inactive_usages sweep_body sweep_pages finish_sweep revoke_all revoke_usage
    revoke_body revoke_active with_transaction list_usages paginate sort page_from stays_before
    is_after find_index usage_matches update_usage usage_taken append_audit adapter_now_iso
    new_uuid_v7 Table.get Table.set Table.values uuid_v7_text iso_from_ms
sweep-demo = refl
