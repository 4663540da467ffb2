-- ===== src/LicenseService/Tests.antt =====
-- A rotation on a small world.
use licensing.Common.{arith, eq_iff, ◌≢◌, ◌≡◌, refl, none, [], ◌∷◌}
use licensing.Table
use licensing.Fixtures.{clock, license_of, world_of, one_taken}
use licensing.Types.{LicenseStatus}
use licensing.Errors.{ok}
use licensing.Id.{uuid_v7_text, iso_from_ms}
use licensing.Id.Digits.{index_char}
use licensing.LicenseKey.{generate_license_key, license_key_of, base32_encode, drain, format_groups}
use licensing.Lifecycle.{TransitionOptions}
use licensing.Storage.Monad.{World, adapter_now_iso, new_uuid_v7}
use licensing.Storage.Paging.{paginate, sort, page_from, stays_before, is_after, find_index}
use licensing.Storage.Licenses.{update_license, license_key_taken}
use licensing.Storage.Usages.{list_usages, usage_matches, update_usage, usage_taken}
use licensing.Storage.Audit.{append_audit}
use licensing.Storage.Tx.{with_transaction}
use licensing.UsageService.Pages.{active_count}
use licensing.LicenseService.{
  RotateLicenseKeyResult, rotate_license_key, rotate_body, rotate_found, revoke_pages, revoke_each,
}
use licensing.LicenseService.Frees.{rotate_license_key_frees_seats}

abbrev demo : World
demo = world_of (license_of LicenseStatus.active 2) one_taken

abbrev by_system : TransitionOptions
by_system = record { actor = none; actor_kind = none; actor_id = none }

abbrev rotated : RotateLicenseKeyResult
rotated = record {
  license = record (license_of LicenseStatus.active 2) {
    license_key = "LIC-0000-0000-0000-0000-0000-0000-0000-0000";
    updated_at = "2026-04-13T10:00:00.000000Z";
  };
  revoked_usage_ids = "seat-a" ∷ [];
}

rotate-demo : (rotate_license_key clock "l1" by_system demo).0 ≡ ok rotated
unfolding rotate_license_key rotate_body rotate_found revoke_pages revoke_each generate_license_key
    license_key_of base32_encode drain format_groups index_char with_transaction list_usages
    paginate sort page_from stays_before is_after find_index usage_matches update_usage usage_taken
    update_license license_key_taken append_audit adapter_now_iso new_uuid_v7 Table.get Table.set
    Table.values uuid_v7_text iso_from_ms
rotate-demo = refl

-- The adapter's clock stands still.
abbrev still : World
still = record demo { clock = record clock { now_ms = λ t. 1776074400000 } }

old_key_differs : "LIC-0000-0000-0000-0000-0000" ≢ license_key_of (still.random still.draws)
unfolding license_key_of base32_encode drain format_groups index_char
old_key_differs e = absurd (ground (arith, (eq_iff "LIC-0000-0000-0000-0000-0000" _).1 e))

is_live : LicenseStatus.active ≢ LicenseStatus.revoked
is_live e = absurd (ground (arith, e))

rotate_license_key_frees_seats_example :
    (res : RotateLicenseKeyResult) × ((rotate_license_key clock "l1" by_system still).0 ≡ ok res)
    × (active_count (rotate_license_key clock "l1" by_system still).1.state "l1" ≡ 0)
unfolding Table.get Table.values
rotate_license_key_frees_seats_example =
    rotate_license_key_frees_seats clock "l1" by_system (license_of LicenseStatus.active 2) still
      refl (λ n. omega arith) (refl, refl, tt) refl refl is_live (old_key_differs, tt)
