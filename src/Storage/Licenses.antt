-- ===== src/Storage/Licenses.antt =====
-- The license methods of `MemoryStorage`.
pub mod Cases
use licensing.Common.{
  String, ◌==◌, Bool, true, false, ◌&&◌, not, Option, none, some, List, if◌then◌else◌, first,
  filter, any, opt_text_eq, get_or, colon,
}
use licensing.Table
use licensing.Types.{License, status_eq, UuidV7, Instant}
use licensing.Errors.{
  Error, ok, license_key_conflict, unique_constraint_violation, license_not_found,
}
use licensing.Storage.Monad.{
  Action, gets, or_throw, throw_found, ◌>>=◌, ◌>>◌, adapter_now_iso, new_uuid_v7,
}
use licensing.Storage.Shapes.{LicenseInput, LicensePatch, LicenseFilter, FindByLicensableQuery}
use licensing.Storage.Paging.{CursorTuple, Page, PageRequest, sort, paginate}

abbrev pub license_cursor : License → CursorTuple
license_cursor r = record { created_at = r.created_at; id = r.id }

-- The checks that `createLicense` makes of one stored row.
unfoldable pub license_conflict : LicenseInput → License → Option Error
license_conflict input row =
    if row.license_key == input.license_key
    then some (license_key_conflict input.license_key)
    else if row.licensable_type == input.licensable_type
        && (row.licensable_id == input.licensable_id && opt_text_eq row.scope_id input.scope_id)
    then some (
        unique_constraint_violation "licensable_scope"
          (colon input.licensable_type (colon input.licensable_id (get_or input.scope_id "null"))))
    else none

abbrev pub license_row : LicenseInput → UuidV7 → Instant → License
license_row input id now = record {
  id = id;
  scope_id = input.scope_id;
  template_id = input.template_id;
  licensable_type = input.licensable_type;
  licensable_id = input.licensable_id;
  license_key = input.license_key;
  status = input.status;
  max_usages = input.max_usages;
  is_trial = get_or input.is_trial false;
  activated_at = input.activated_at;
  expires_at = input.expires_at;
  grace_until = input.grace_until;
  meta = input.meta;
  created_at = now;
  updated_at = now;
}

-- `s.licenses.set(id, row); return row`
abbrev pub save_license : UuidV7 → License → Action License
save_license id row w =
    (ok row, record w { state = record w.state { licenses = Table.set id row w.state.licenses } })

-- `createLicense`
unfoldable pub create_license : LicenseInput → Action License
create_license input = do
  rows ← gets (λ s. Table.values s.licenses)
  throw_found (first (license_conflict input) rows)
  now ← adapter_now_iso
  id ← new_uuid_v7
  save_license id (license_row input id now)

-- `getLicense`
abbrev pub get_license : UuidV7 → Action (Option License)
get_license id = gets (λ s. Table.get id s.licenses)

abbrev has_key : String → License → Option License
has_key k row = if row.license_key == k then some row else none

-- `getLicenseByKey`
unfoldable pub get_license_by_key : String → Action (Option License)
get_license_by_key k = gets (λ s. first (has_key k) (Table.values s.licenses))

-- The predicate of `listLicenses`.
unfoldable pub license_matches : LicenseFilter → License → Bool
license_matches f r =
    elim f.scope_id [ none ↦ true | some x ↦ opt_text_eq r.scope_id x ]
    && (elim f.status [ none ↦ true | some xs ↦ any (status_eq r.status) xs ]
        && (elim f.licensable_type [ none ↦ true | some x ↦ r.licensable_type == x ]
            && (elim f.licensable_id [ none ↦ true | some x ↦ r.licensable_id == x ]
                && elim f.template_id [
                  | none ↦ true
                  | some x ↦ opt_text_eq r.template_id (some x)
                ])))

-- `listLicenses`
unfoldable pub list_licenses : LicenseFilter → PageRequest → Action (Page License)
list_licenses f page =
    gets (λ s. paginate license_cursor (filter (license_matches f) (Table.values s.licenses)) page)

-- `findLicensesByLicensable`
unfoldable pub find_licenses_by_licensable : FindByLicensableQuery → Action (List License)
find_licenses_by_licensable q = gets (λ s. sort license_cursor (
    filter
      (λ (r : License).
        r.licensable_type == q.type
        && (r.licensable_id == q.id
            && elim q.scope_id [ none ↦ true | some x ↦ opt_text_eq r.scope_id x ]))
      (Table.values s.licenses)))

-- `{ ...cur, ...patch, updated_at: now }`
abbrev pub license_patched : License → LicensePatch → Instant → License
license_patched cur patch now = record cur {
  status = get_or patch.status cur.status;
  max_usages = get_or patch.max_usages cur.max_usages;
  activated_at = get_or patch.activated_at cur.activated_at;
  expires_at = get_or patch.expires_at cur.expires_at;
  grace_until = get_or patch.grace_until cur.grace_until;
  meta = get_or patch.meta cur.meta;
  scope_id = get_or patch.scope_id cur.scope_id;
  template_id = get_or patch.template_id cur.template_id;
  license_key = get_or patch.license_key cur.license_key;
  updated_at = now;
}

-- The check that `updateLicense` makes of one stored row when the patch has a license key.
unfoldable pub license_key_taken : UuidV7 → Option String → License → Option Error
license_key_taken id none row = none
license_key_taken id (some k) row =
    if not (row.id == id) && row.license_key == k
    then some (unique_constraint_violation "license_key" k)
    else none

-- `updateLicense`
unfoldable pub update_license : UuidV7 → LicensePatch → Action License
update_license id patch = do
  found ← get_license id
  cur ← or_throw found (license_not_found id)
  rows ← gets (λ s. Table.values s.licenses)
  throw_found (first (license_key_taken id patch.license_key) rows)
  now ← adapter_now_iso
  save_license id (license_patched cur patch now)

-- A patch that changes nothing.
abbrev pub no_license_patch : LicensePatch
no_license_patch = record {
  status = none;
  max_usages = none;
  activated_at = none;
  expires_at = none;
  grace_until = none;
  meta = none;
  scope_id = none;
  template_id = none;
  license_key = none;
}
