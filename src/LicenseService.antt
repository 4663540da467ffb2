-- ===== src/LicenseService.antt =====
-- Licenses created, found and re-keyed: typescript/src/license-service.ts.
pub mod Created
pub mod Remaining
pub mod RevokedRows
pub mod RevokedPages
pub mod RevokedCounts
pub mod RevokedReturns
pub mod Rotation
pub mod Frees
mod Tests
use licensing.Common.{ℕ, zero, suc, String, Option, none, some, List, [], ◌∷◌, ◌++◌, get_or, length}
use licensing.Types.{
  License, LicenseUsage, LicenseStatus, status_eq, status_text, JsonObject, end, field, str, num,
  opt_str, UuidV7, Instant,
}
use licensing.Errors.{license_not_found, license_revoked, out_of_fuel}
use licensing.Id.{Clock}
use licensing.LicenseKey.{assert_license_key, generate_license_key, normalize_license_key}
use licensing.Lifecycle.{TransitionOptions}
use licensing.Storage.Monad.{Action, pure, throw, or_throw, throw_if, ◌>>=◌, ◌>>◌, now_iso}
use licensing.Storage.Shapes.{LicenseInput, AuditLogInput}
use licensing.Storage.Paging.{CursorTuple}
use licensing.Storage.Licenses.{
  create_license, get_license, get_license_by_key, update_license, no_license_patch,
}
use licensing.Storage.Usages.{list_usages, update_usage}
use licensing.Storage.Audit.{append_audit}
use licensing.Storage.Tx.{with_transaction}
use licensing.UsageService.{active_of, enough_pages, revoked_patch}

pub record CreateLicenseInput : Type 0 where
  pub scope_id : Option UuidV7
  pub template_id : Option UuidV7
  pub licensable_type : String
  pub licensable_id : String
  pub license_key : Option String
  pub status : Option LicenseStatus
  pub max_usages : ℕ
  pub activated_at : Option (Option Instant)
  pub expires_at : Option (Option Instant)
  pub grace_until : Option (Option Instant)
  pub meta : Option JsonObject

-- The input that `createLicense` hands to the storage.
abbrev pub license_input : CreateLicenseInput → String → LicenseInput
license_input input license_key = record {
  scope_id = input.scope_id;
  template_id = input.template_id;
  licensable_type = input.licensable_type;
  licensable_id = input.licensable_id;
  license_key = license_key;
  status = get_or input.status LicenseStatus.pending;
  max_usages = input.max_usages;
  is_trial = none;
  activated_at = get_or input.activated_at none;
  expires_at = get_or input.expires_at none;
  grace_until = get_or input.grace_until none;
  meta = get_or input.meta end;
}

-- The row that `writeCreatedAudit` appends.
abbrev pub created_audit : License → Instant → TransitionOptions → AuditLogInput
created_audit license occurred_at opts = record {
  license_id = some license.id;
  scope_id = license.scope_id;
  actor = get_or opts.actor "system";
  actor_kind = opts.actor_kind;
  actor_id = opts.actor_id;
  event = "license.created";
  prior_state = none;
  new_state = some (
      field "status" (str (status_text license.status)) (
        field "license_key" (str license.license_key) (
          field "max_usages" (num license.max_usages) (
            field "expires_at" (opt_str license.expires_at) (
              field "grace_until" (opt_str license.grace_until)
                (field "template_id" (opt_str license.template_id) end))))));
  occurred_at = occurred_at;
}

-- The body of the transaction of `createLicense`.
unfoldable pub create_body : Clock → LicenseInput → TransitionOptions → Action License
create_body clock input opts = do
  created ← create_license input
  now ← now_iso clock
  append_audit (created_audit created now opts)
  pure created

-- The key of a new license: the caller's, normalized, or a fresh one.
unfoldable pub key_for : Option String → Action String
key_for none = generate_license_key
key_for (some k) = assert_license_key k

-- `createLicense`; `CreateLicenseOptions` has the fields of `TransitionOptions`.
unfoldable pub create_licensed : Clock → CreateLicenseInput → TransitionOptions → Action License
create_licensed clock input opts = do
  license_key ← key_for input.license_key
  with_transaction (create_body clock (license_input input license_key) opts)

-- `findLicenseByKey`
unfoldable pub find_license_by_key : String → Action (Option License)
find_license_by_key license_key = elim (normalize_license_key license_key) [
  | none ↦ pure none
  | some k ↦ get_license_by_key k
]

pub record RotateLicenseKeyResult : Type 0 where
  pub license : License
  pub revoked_usage_ids : List UuidV7

-- The `for` loop over one page of `rotateLicenseKey`.
unfoldable pub revoke_each : Instant → List LicenseUsage → Action (List UuidV7)
revoke_each now [] = pure []
revoke_each now (usage ∷ rows) = do
  update_usage usage.id (revoked_patch now)
  rest ← revoke_each now rows
  pure (usage.id ∷ rest)

-- The `while (true)` of `rotateLicenseKey`, from a cursor; the pages are read as the rows change.
unfoldable pub revoke_pages : ℕ → Instant → UuidV7 → Option CursorTuple → Action (List UuidV7)
unfolding revoke_each
revoke_pages zero now license_id cursor = throw out_of_fuel
revoke_pages (suc fuel) now license_id cursor = do
  page ← list_usages (active_of (some license_id) none) (record { limit = 500; cursor = cursor })
  ids ← revoke_each now page.items
  elim page.cursor [
    | none ↦ pure ids
    | some c ↦ (do rest ← revoke_pages fuel now license_id (some c); pure (ids ++ rest))
  ]

abbrev pub rotated_audit : License → ℕ → Instant → TransitionOptions → AuditLogInput
rotated_audit license revoked now opts = record {
  license_id = some license.id;
  scope_id = license.scope_id;
  actor = get_or opts.actor "system";
  actor_kind = opts.actor_kind;
  actor_id = opts.actor_id;
  event = "license.key_rotated";
  prior_state = some (field "active_usages" (num revoked) end);
  new_state = some (field "active_usages" (num 0) (field "usages_revoked" (num revoked) end));
  occurred_at = now;
}

-- The body of the transaction of `rotateLicenseKey`, once the license is found and not revoked.
unfoldable pub rotate_found : Clock → License → TransitionOptions → Action RotateLicenseKeyResult
rotate_found clock license opts = do
  k ← generate_license_key
  updated ← update_license license.id (record no_license_patch { license_key = some k })
  now ← now_iso clock
  fuel ← enough_pages
  ids ← revoke_pages fuel now license.id none
  append_audit (rotated_audit license (length ids) now opts)
  pure (record { license = updated; revoked_usage_ids = ids })

unfoldable pub rotate_body : Clock → UuidV7 → TransitionOptions → Action RotateLicenseKeyResult
rotate_body clock license_id opts = do
  found ← get_license license_id
  license ← or_throw found (license_not_found license_id)
  throw_if (status_eq license.status LicenseStatus.revoked) license_revoked
  rotate_found clock license opts

-- `rotateLicenseKey`
unfoldable pub rotate_license_key :
    Clock → UuidV7 → TransitionOptions → Action RotateLicenseKeyResult
unfolding rotate_body
rotate_license_key clock license_id opts = with_transaction (rotate_body clock license_id opts)
