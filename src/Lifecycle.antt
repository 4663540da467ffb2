-- ===== src/Lifecycle.antt =====
-- The license state machine: typescript/src/lifecycle.ts. Each transition takes the transaction's
-- actions, the license as the caller read it, the caller's clock and the attribution.
pub mod Status
pub mod Steps
pub mod Legal
pub mod Tick
pub mod Returns
pub mod Revoked
pub mod Writes
mod Tests
use licensing.Common.{String, Bool, false, not, Option, none, some, if◌then◌else◌, get_or, text_lt}
use licensing.Types.{
  License, LicenseStatus, status_eq, status_text, Instant, JsonObject, end, field, str, opt_str,
  ActorKind,
}
use licensing.Errors.{license_revoked, illegal_lifecycle_transition}
use licensing.Id.{Clock}
use licensing.Storage.Monad.{Action, pure, throw, ◌>>=◌, ◌>>◌, now_iso}
use licensing.Storage.Shapes.{LicensePatch, AuditLogInput}
use licensing.Storage.Licenses.{update_license, no_license_patch}
use licensing.Storage.Audit.{append_audit}

-- `TransitionOptions`
pub record TransitionOptions : Type 0 where
  pub actor : Option String
  pub actor_kind : Option ActorKind
  pub actor_id : Option (Option String)

-- The test `nowIso >= bound` of a bound that may be absent.
unfoldable pub is_past : Option Instant → Instant → Bool
is_past none now = false
is_past (some bound) now = not (text_lt now bound)

-- The test `bound !== null && nowIso < bound`.
unfoldable pub is_ahead : Option Instant → Instant → Bool
is_ahead none now = false
is_ahead (some bound) now = text_lt now bound

-- The part of `effectiveStatus` for an active or a grace license.
unfoldable pub timed_status : License → Instant → LicenseStatus
unfolding is_past is_ahead
timed_status license now =
    if is_past license.expires_at now
    then (if is_ahead license.grace_until now then LicenseStatus.grace else LicenseStatus.expired)
    else license.status

-- `effectiveStatus`
unfoldable pub effective_status : License → Instant → LicenseStatus
unfolding timed_status
effective_status license now = elim license.status [
  | LicenseStatus.revoked ↦ LicenseStatus.revoked
  | LicenseStatus.suspended ↦ LicenseStatus.suspended
  | LicenseStatus.pending ↦ LicenseStatus.pending
  | LicenseStatus.expired ↦ LicenseStatus.expired
  | _ ↦ timed_status license now
]

-- `stateSnapshot`
unfoldable pub state_snapshot : License → JsonObject
state_snapshot l = field "status" (str (status_text l.status)) (
    field "activated_at" (opt_str l.activated_at)
      (field "expires_at" (opt_str l.expires_at) (field "grace_until" (opt_str l.grace_until) end)))

-- The row that `writeAudit` appends.
abbrev pub transition_audit :
    License → License → String → Instant → TransitionOptions → AuditLogInput
transition_audit prior next event occurred_at opts = record {
  license_id = some prior.id;
  scope_id = prior.scope_id;
  actor = get_or opts.actor "system";
  actor_kind = opts.actor_kind;
  actor_id = opts.actor_id;
  event = event;
  prior_state = some (state_snapshot prior);
  new_state = some (state_snapshot next);
  occurred_at = occurred_at;
}

-- `tx.updateLicense` and `writeAudit`.
unfoldable pub write_transition :
    License → LicensePatch → Instant → TransitionOptions → String → Action License
write_transition license patch now opts event = do
  updated ← update_license license.id patch
  append_audit (transition_audit license updated event now opts)
  pure updated

-- The steps that the transitions end in: `clock.nowIso()`, `tx.updateLicense`, `writeAudit`.
unfoldable pub apply_transition :
    License → Clock → TransitionOptions → (Instant → LicensePatch) → String → Action License
apply_transition license clock opts patch event = do
  now ← now_iso clock
  write_transition license (patch now) now opts event

abbrev pub status_patch : LicenseStatus → LicensePatch
status_patch s = record no_license_patch { status = some s }

-- `activate`
unfoldable pub activate : License → Clock → TransitionOptions → Action License
activate license clock opts = elim license.status [
  | LicenseStatus.revoked ↦ throw license_revoked
  | LicenseStatus.active ↦ pure license
  | LicenseStatus.pending ↦
      apply_transition license clock opts
        (λ now. record no_license_patch {
          status = some LicenseStatus.active;
          activated_at = some (some now);
        })
        "license.activated"
  | other ↦ throw (illegal_lifecycle_transition other LicenseStatus.active)
]

-- `suspend`
unfoldable pub suspend : License → Clock → TransitionOptions → Action License
suspend license clock opts = elim license.status [
  | LicenseStatus.revoked ↦ throw license_revoked
  | LicenseStatus.suspended ↦ pure license
  | _ ↦
      apply_transition license clock opts (λ _. status_patch LicenseStatus.suspended)
        "license.suspended"
]

-- `resume`
unfoldable pub resume : License → Clock → TransitionOptions → Action License
resume license clock opts = elim license.status [
  | LicenseStatus.revoked ↦ throw license_revoked
  | LicenseStatus.suspended ↦
      apply_transition license clock opts (λ _. status_patch LicenseStatus.active) "license.resumed"
  | other ↦ throw (illegal_lifecycle_transition other LicenseStatus.active)
]

-- `revoke`
unfoldable pub revoke : License → Clock → TransitionOptions → Action License
revoke license clock opts = elim license.status [
  | LicenseStatus.revoked ↦ pure license
  | _ ↦
      apply_transition license clock opts (λ _. status_patch LicenseStatus.revoked)
        "license.revoked"
]

-- `expire`
unfoldable pub expire : License → Clock → TransitionOptions → Action License
expire license clock opts = elim license.status [
  | LicenseStatus.revoked ↦ throw license_revoked
  | LicenseStatus.expired ↦ pure license
  | LicenseStatus.suspended ↦
      throw (illegal_lifecycle_transition LicenseStatus.suspended LicenseStatus.expired)
  | LicenseStatus.pending ↦
      throw (illegal_lifecycle_transition LicenseStatus.pending LicenseStatus.expired)
  | _ ↦
      apply_transition license clock opts (λ _. status_patch LicenseStatus.expired)
        "license.expired"
]

-- The patch of `renew`: `grace_until` only when the caller passed it.
abbrev renew_patch : Option Instant → Option (Option Instant) → LicensePatch
renew_patch expires_at grace_until = record no_license_patch {
  status = some LicenseStatus.active;
  expires_at = some expires_at;
  grace_until = grace_until;
}

-- `renew`, with the `expires_at` and `grace_until` of its options.
unfoldable pub renew :
    License → Clock → Option Instant → Option (Option Instant) → TransitionOptions → Action License
renew license clock expires_at grace_until opts = elim license.status [
  | LicenseStatus.revoked ↦ throw license_revoked
  | LicenseStatus.suspended ↦
      throw (illegal_lifecycle_transition LicenseStatus.suspended LicenseStatus.active)
  | _ ↦
      apply_transition license clock opts (λ _. renew_patch expires_at grace_until)
        "license.renewed"
]

-- What `tick` does once it has read the clock.
unfoldable pub tick_at : License → Instant → TransitionOptions → Action License
tick_at license now opts =
    let target = effective_status license now in
    if status_eq target license.status then pure license else elim target [
      | LicenseStatus.grace ↦
          write_transition license (status_patch LicenseStatus.grace) now opts
            "license.grace_entered"
      | LicenseStatus.expired ↦
          write_transition license (status_patch LicenseStatus.expired) now opts "license.expired"
      | _ ↦ pure license
    ]

-- `tick`
unfoldable pub tick : License → Clock → TransitionOptions → Action License
tick license clock opts = do now ← now_iso clock; tick_at license now opts
