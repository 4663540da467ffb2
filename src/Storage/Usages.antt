-- ===== src/Storage/Usages.antt =====
-- The usage (seat) methods of `MemoryStorage`.
pub mod Cases
use licensing.Common.{
  ◌==◌, Bool, true, false, ◌&&◌, not, Option, none, some, if◌then◌else◌, first, filter, any, get_or,
  colon,
}
use licensing.Table
use licensing.Types.{LicenseUsage, UsageStatus, usage_status_eq, UuidV7, Instant}
use licensing.Errors.{Error, ok, unique_constraint_violation}
use licensing.Storage.Monad.{
  Action, gets, or_throw, throw_found, ◌>>=◌, ◌>>◌, adapter_now_iso, new_uuid_v7,
}
use licensing.Storage.Shapes.{LicenseUsageInput, LicenseUsagePatch, LicenseUsageFilter}
use licensing.Storage.Paging.{CursorTuple, Page, PageRequest, paginate}

abbrev pub usage_cursor : LicenseUsage → CursorTuple
usage_cursor r = record { created_at = r.created_at; id = r.id }

abbrev pub usage_active : LicenseUsage → Bool
usage_active r = usage_status_eq r.status UsageStatus.active

-- The check that `createUsage` makes of one stored row when the new row is active.
unfoldable pub usage_conflict : LicenseUsageInput → LicenseUsage → Option Error
usage_conflict input row =
    if usage_status_eq input.status UsageStatus.active
      && (row.license_id == input.license_id
          && (row.fingerprint == input.fingerprint && usage_active row))
    then some (
        unique_constraint_violation "license_fingerprint_active"
          (colon input.license_id input.fingerprint))
    else none

abbrev pub usage_row : LicenseUsageInput → UuidV7 → Instant → LicenseUsage
usage_row input id now = record {
  id = id;
  license_id = input.license_id;
  fingerprint = input.fingerprint;
  status = input.status;
  registered_at = input.registered_at;
  revoked_at = input.revoked_at;
  last_seen_at = input.registered_at;
  client_meta = input.client_meta;
  created_at = now;
  updated_at = now;
}

abbrev pub save_usage : UuidV7 → LicenseUsage → Action LicenseUsage
save_usage id row w =
    (ok row, record w { state = record w.state { usages = Table.set id row w.state.usages } })

-- `createUsage`
unfoldable pub create_usage : LicenseUsageInput → Action LicenseUsage
create_usage input = do
  rows ← gets (λ s. Table.values s.usages)
  throw_found (first (usage_conflict input) rows)
  now ← adapter_now_iso
  id ← new_uuid_v7
  save_usage id (usage_row input id now)

-- `getUsage`
abbrev pub get_usage : UuidV7 → Action (Option LicenseUsage)
get_usage id = gets (λ s. Table.get id s.usages)

-- The predicate of `listUsages`.
unfoldable pub usage_matches : LicenseUsageFilter → LicenseUsage → Bool
usage_matches f r =
    elim f.license_id [ none ↦ true | some x ↦ r.license_id == x ]
    && (elim f.fingerprint [ none ↦ true | some x ↦ r.fingerprint == x ]
        && elim f.status [ none ↦ true | some xs ↦ any (usage_status_eq r.status) xs ])

-- `listUsages`
unfoldable pub list_usages : LicenseUsageFilter → PageRequest → Action (Page LicenseUsage)
list_usages f page =
    gets (λ s. paginate usage_cursor (filter (usage_matches f) (Table.values s.usages)) page)

abbrev pub usage_patched : LicenseUsage → LicenseUsagePatch → Instant → LicenseUsage
usage_patched cur patch now = record cur {
  status = get_or patch.status cur.status;
  revoked_at = get_or patch.revoked_at cur.revoked_at;
  last_seen_at = get_or patch.last_seen_at cur.last_seen_at;
  client_meta = get_or patch.client_meta cur.client_meta;
  updated_at = now;
}

-- `patch.status === 'active'`
abbrev activates : LicenseUsagePatch → Bool
activates patch = elim patch.status [ none ↦ false | some s ↦ usage_status_eq s UsageStatus.active ]

-- The check that `updateUsage` makes of one stored row when the patch activates the usage.
unfoldable pub usage_taken : UuidV7 → LicenseUsage → LicenseUsagePatch → LicenseUsage → Option Error
usage_taken id cur patch row =
    if (activates patch && not (usage_active cur))
      && (not (row.id == id)
          && (row.license_id == cur.license_id
              && (row.fingerprint == cur.fingerprint && usage_active row)))
    then some (
        unique_constraint_violation "license_fingerprint_active"
          (colon cur.license_id cur.fingerprint))
    else none

-- `updateUsage`
unfoldable pub update_usage : UuidV7 → LicenseUsagePatch → Action LicenseUsage
update_usage id patch = do
  found ← get_usage id
  cur ← or_throw found (unique_constraint_violation "pk" id)
  rows ← gets (λ s. Table.values s.usages)
  throw_found (first (usage_taken id cur patch) rows)
  now ← adapter_now_iso
  save_usage id (usage_patched cur patch now)
