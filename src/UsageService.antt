-- ===== src/UsageService.antt =====
-- Seats: typescript/src/usage-service.ts.
pub mod Pages
pub mod Register
pub mod Body
pub mod Seats
pub mod Branches
pub mod Revoke
pub mod Sweep
mod Tests
use licensing.Common.{
  ℕ, zero, suc, ◌+◌, String, ◌==◌, Bool, true, false, Option, none, some, [], ◌∷◌, if◌then◌else◌,
  get_or, leb, first, length,
}
use licensing.Table
use licensing.Types.{
  License, LicenseUsage, LicenseStatus, UsageStatus, UuidV7, Fingerprint, JsonObject, end, field,
  str, num, Instant,
}
use licensing.Errors.{
  Error, license_not_found, license_suspended, license_revoked, license_expired,
  seat_limit_exceeded, usage_not_found, out_of_fuel,
}
use licensing.Id.{Clock}
use licensing.Storage.Monad.{
  Action, pure, throw, gets, or_throw, throw_if, throw_found, ◌>>=◌, ◌>>◌, now_iso,
}
use licensing.Storage.Shapes.{
  LicenseUsageInput, LicenseUsagePatch, LicenseUsageFilter, AuditLogInput,
}
use licensing.Storage.Paging.{CursorTuple}
use licensing.Storage.Licenses.{get_license}
use licensing.Storage.Usages.{create_usage, get_usage, list_usages, update_usage}
use licensing.Storage.Audit.{append_audit}
use licensing.Storage.Tx.{with_transaction}
use licensing.Lifecycle.{TransitionOptions, activate}

pub record RegisterUsageInput : Type 0 where
  pub license_id : UuidV7
  pub fingerprint : Fingerprint
  pub client_meta : Option JsonObject

pub record RegisterUsageResult : Type 0 where
  pub usage : LicenseUsage
  pub license : License
  pub created : Bool

-- `assertUsable`: the error it throws, if any.
unfoldable pub usable_error : LicenseStatus → Option Error
usable_error LicenseStatus.active = none
usable_error LicenseStatus.pending = none
usable_error LicenseStatus.grace = none
usable_error LicenseStatus.suspended = some license_suspended
usable_error LicenseStatus.revoked = some license_revoked
usable_error LicenseStatus.expired = some license_expired

-- The filter `{ license_id, fingerprint, status: ['active'] }`.
abbrev pub active_of : Option UuidV7 → Option Fingerprint → LicenseUsageFilter
active_of license_id fingerprint = record {
  license_id = license_id;
  fingerprint = fingerprint;
  status = some (UsageStatus.active ∷ []);
}

abbrev has_fingerprint : Fingerprint → LicenseUsage → Option LicenseUsage
has_fingerprint fp row = if row.fingerprint == fp then some row else none

-- The `while (true)` of `findActiveUsage`, from a cursor. `out_of_fuel` stands for going on for ever.
unfoldable pub find_pages :
    ℕ → UuidV7 → Fingerprint → Option CursorTuple → Action (Option LicenseUsage)
find_pages zero license_id fp cursor = throw out_of_fuel
find_pages (suc fuel) license_id fp cursor = do
  page ←
      list_usages (active_of (some license_id) (some fp)) (record { limit = 100; cursor = cursor })
  elim (first (has_fingerprint fp) page.items) [
    | some row ↦ pure (some row)
    | none ↦ elim page.cursor [ none ↦ pure none | some c ↦ find_pages fuel license_id fp (some c) ]
  ]

-- One page for each row, and one more, are always enough pages.
abbrev pub enough_pages : Action ℕ
enough_pages = gets (λ s. suc (length (Table.values s.usages)))

-- `findActiveUsage`
unfoldable pub find_active_usage : UuidV7 → Fingerprint → Action (Option LicenseUsage)
find_active_usage license_id fp = do fuel ← enough_pages; find_pages fuel license_id fp none

-- The `while (true)` of `countActiveUsages`.
unfoldable pub count_pages : ℕ → UuidV7 → Option CursorTuple → ℕ → Action ℕ
count_pages zero license_id cursor count = throw out_of_fuel
count_pages (suc fuel) license_id cursor count = do
  page ← list_usages (active_of (some license_id) none) (record { limit = 500; cursor = cursor })
  elim page.cursor [
    | none ↦ pure (count + length page.items)
    | some c ↦ count_pages fuel license_id (some c) (count + length page.items)
  ]

-- `countActiveUsages`
unfoldable pub count_active_usages : UuidV7 → Action ℕ
count_active_usages license_id = do fuel ← enough_pages; count_pages fuel license_id none 0

-- The row and the audit entry that `registerUsage` writes.
abbrev pub seat_input : RegisterUsageInput → Instant → LicenseUsageInput
seat_input input now = record {
  license_id = input.license_id;
  fingerprint = input.fingerprint;
  status = UsageStatus.active;
  registered_at = now;
  revoked_at = none;
  client_meta = get_or input.client_meta end;
}

abbrev pub seat_audit : License → LicenseUsage → ℕ → Option String → Instant → AuditLogInput
seat_audit license usage active_count actor now = record {
  license_id = some license.id;
  scope_id = license.scope_id;
  actor = get_or actor "system";
  actor_kind = none;
  actor_id = none;
  event = "usage.registered";
  prior_state = none;
  new_state = some (
      field "usage_id" (str usage.id) (
        field "fingerprint" (str usage.fingerprint)
          (field "active_count" (num (active_count + 1)) end)));
  occurred_at = now;
}

-- Step 4 of `registerUsage`: a pending license becomes active.
unfoldable pub promote : License → Clock → Option String → Action License
promote license clock actor = elim license.status [
  | LicenseStatus.pending ↦
      activate license clock (record { actor = actor; actor_kind = none; actor_id = none })
  | _ ↦ pure license
]

-- What follows `createUsage` in `registerUsage`: the audit row, and step 4.
unfoldable pub finish_seat :
    Clock → Option String → License → ℕ → Instant → LicenseUsage → Action RegisterUsageResult
finish_seat clock actor license active_count now usage = do
  append_audit (seat_audit license usage active_count actor now)
  final ← promote license clock actor
  pure (record { usage = usage; license = final; created = true })

-- Steps 3 and 4: the usage row, its audit row, the promotion.
unfoldable pub write_seat :
    Clock → RegisterUsageInput → Option String → License → ℕ → Action RegisterUsageResult
write_seat clock input actor license active_count = do
  now ← now_iso clock
  usage ← create_usage (seat_input input now)
  finish_seat clock actor license active_count now usage

-- Steps 2 to 4 of `registerUsage`, when no active seat has the fingerprint.
unfoldable pub take_seat :
    Clock → RegisterUsageInput → Option String → License → Action RegisterUsageResult
take_seat clock input actor license = do
  active_count ← count_active_usages input.license_id
  throw_if (leb license.max_usages active_count)
      (seat_limit_exceeded license.max_usages active_count)
  write_seat clock input actor license active_count

-- The body of the transaction of `registerUsage`.
unfoldable pub register_body :
    Clock → RegisterUsageInput → Option String → Action RegisterUsageResult
register_body clock input actor = do
  found ← get_license input.license_id
  license ← or_throw found (license_not_found input.license_id)
  throw_found (usable_error license.status)
  existing ← find_active_usage input.license_id input.fingerprint
  elim existing [
    | some usage ↦ pure (record { usage = usage; license = license; created = false })
    | none ↦ take_seat clock input actor license
  ]

-- `registerUsage`
unfoldable pub register_usage :
    Clock → RegisterUsageInput → Option String → Action RegisterUsageResult
unfolding register_body
register_usage clock input actor = with_transaction (register_body clock input actor)

abbrev pub revoked_patch : Instant → LicenseUsagePatch
revoked_patch now = record {
  status = some UsageStatus.revoked;
  revoked_at = some (some now);
  last_seen_at = none;
  client_meta = none;
}

abbrev seat_state : String → Fingerprint → JsonObject
seat_state status fp = field "status" (str status) (field "fingerprint" (str fp) end)

abbrev pub revoke_audit :
    LicenseUsage → Option License → TransitionOptions → Instant → AuditLogInput
revoke_audit usage license opts now = record {
  license_id = some usage.license_id;
  scope_id = elim license [ none ↦ none | some l ↦ l.scope_id ];
  actor = get_or opts.actor "system";
  actor_kind = opts.actor_kind;
  actor_id = opts.actor_id;
  event = "usage.revoked";
  prior_state = some (seat_state "active" usage.fingerprint);
  new_state = some (seat_state "revoked" usage.fingerprint);
  occurred_at = now;
}

-- The steps of `revokeUsage` on a usage that is still active.
unfoldable pub revoke_active :
    Clock → UuidV7 → TransitionOptions → LicenseUsage → Action LicenseUsage
revoke_active clock usage_id opts usage = do
  now ← now_iso clock
  updated ← update_usage usage_id (revoked_patch now)
  license ← get_license usage.license_id
  append_audit (revoke_audit usage license opts now)
  pure updated

unfoldable pub revoke_body : Clock → UuidV7 → TransitionOptions → Action LicenseUsage
revoke_body clock usage_id opts = do
  found ← get_usage usage_id
  usage ← or_throw found (usage_not_found usage_id)
  elim usage.status [
    | UsageStatus.revoked ↦ pure usage
    | UsageStatus.active ↦ revoke_active clock usage_id opts usage
  ]

-- `revokeUsage`
unfoldable pub revoke_usage : Clock → UuidV7 → TransitionOptions → Action LicenseUsage
unfolding revoke_body
revoke_usage clock usage_id opts = with_transaction (revoke_body clock usage_id opts)
