-- ===== src/Lifecycle/Writes.antt =====
-- The row and the audit row that a command of typescript/src/lifecycle.ts writes.
use licensing.Common.{Option, none, some, get_or}
use licensing.Table
use licensing.Types.{
  License, LicenseStatus, Instant, JsonObject, JsonValue, null, str, field, end, status_text,
}
use licensing.Lifecycle.Legal.{
  Command, activation, suspension, resumption, revocation, expiry, renewal,
}

-- The license that a command leaves, when the service's clock reads `now` and the adapter's `t`.
abbrev pub moved : Command → License → Instant → Instant → License
moved activation license now t = record license {
  status = LicenseStatus.active;
  activated_at = some now;
  updated_at = t;
}
moved suspension license now t = record license { status = LicenseStatus.suspended; updated_at = t }
moved resumption license now t = record license { status = LicenseStatus.active; updated_at = t }
moved revocation license now t = record license { status = LicenseStatus.revoked; updated_at = t }
moved expiry license now t = record license { status = LicenseStatus.expired; updated_at = t }
moved (renewal expires_at grace_until) license now t = record license {
  status = LicenseStatus.active;
  expires_at = expires_at;
  grace_until = get_or grace_until license.grace_until;
  updated_at = t;
}

abbrev pub text_or_null : Option Instant → JsonValue
text_or_null none = null
text_or_null (some t) = str t

-- The four fields of a license that an audit row shows.
abbrev pub shown : License → JsonObject
shown l = field "status" (str (status_text l.status)) (
    field "activated_at" (text_or_null l.activated_at) (
      field "expires_at" (text_or_null l.expires_at)
        (field "grace_until" (text_or_null l.grace_until) end)))
