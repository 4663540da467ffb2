-- ===== src/Lifecycle/Legal.antt =====
-- The legal transitions of a license, as a table and a relation, and that the functions of
-- typescript/src/lifecycle.ts make these and no others.
use licensing.Common.{◌≡◌, refl, ◌∙◌, ap, String, Bool, true, false, Option, some, arith}
use licensing.Table
use licensing.Types.{License, LicenseStatus, Instant}
use licensing.Errors.{ok}
use licensing.Id.{Clock}
use licensing.Storage.Monad.{World, Action}
use licensing.Storage.Shapes.{LicensePatch}
use licensing.Storage.Licenses.{license_patched, no_license_patch}
use licensing.Lifecycle.{
  TransitionOptions, status_patch, renew_patch, apply_transition, activate, suspend, resume, revoke,
  expire, renew,
}
use licensing.Lifecycle.Steps.{Transitioned, apply_transition-Transitioned}

-- The transitions that a caller asks for.
pub data Command : Type 0 where
  activation suspension resumption revocation expiry : Command
  renewal : Option Instant → Option (Option Instant) → Command

abbrev pub run : Command → License → Clock → TransitionOptions → Action License
run activation license clock opts = activate license clock opts
run suspension license clock opts = suspend license clock opts
run resumption license clock opts = resume license clock opts
run revocation license clock opts = revoke license clock opts
run expiry license clock opts = expire license clock opts
run (renewal expires_at grace_until) license clock opts =
    renew license clock expires_at grace_until opts

-- The status that a command leads to.
abbrev pub target : Command → LicenseStatus
target activation = LicenseStatus.active
target suspension = LicenseStatus.suspended
target resumption = LicenseStatus.active
target revocation = LicenseStatus.revoked
target expiry = LicenseStatus.expired
target (renewal expires_at grace_until) = LicenseStatus.active

-- The statuses in which a command moves a license.
abbrev pub moves : Command → LicenseStatus → Bool
moves activation LicenseStatus.pending = true
moves activation _ = false
moves suspension LicenseStatus.revoked = false
moves suspension LicenseStatus.suspended = false
moves suspension _ = true
moves resumption LicenseStatus.suspended = true
moves resumption _ = false
moves revocation LicenseStatus.revoked = false
moves revocation _ = true
moves expiry LicenseStatus.active = true
moves expiry LicenseStatus.grace = true
moves expiry _ = false
moves (renewal expires_at grace_until) LicenseStatus.revoked = false
moves (renewal expires_at grace_until) LicenseStatus.suspended = false
moves (renewal expires_at grace_until) _ = true

abbrev pub event_of : Command → String
event_of activation = "license.activated"
event_of suspension = "license.suspended"
event_of resumption = "license.resumed"
event_of revocation = "license.revoked"
event_of expiry = "license.expired"
event_of (renewal expires_at grace_until) = "license.renewed"

abbrev pub patch_of : Command → Instant → LicensePatch
patch_of activation = λ now. record no_license_patch {
  status = some LicenseStatus.active;
  activated_at = some (some now);
}
patch_of suspension = λ _. status_patch LicenseStatus.suspended
patch_of resumption = λ _. status_patch LicenseStatus.active
patch_of revocation = λ _. status_patch LicenseStatus.revoked
patch_of expiry = λ _. status_patch LicenseStatus.expired
patch_of (renewal expires_at grace_until) = λ _. renew_patch expires_at grace_until

target_patch :
    (op : Command) (license : License) (t now : Instant)
    → (license_patched license (patch_of op now) t).status ≡ target op
target_patch activation license t now = refl
target_patch suspension license t now = refl
target_patch resumption license t now = refl
target_patch revocation license t now = refl
target_patch expiry license t now = refl
target_patch (renewal expires_at grace_until) license t now = refl

module _ (license : License) (clock : Clock) (opts : TransitionOptions) (w : World) where
  pub run-moves :
      (op : Command)
      → moves op license.status ≡ true
      → run op license clock opts w
        ≡ apply_transition license clock opts (patch_of op) (event_of op) w
  unfolding activate suspend resume revoke expire renew
  run-moves activation m = ground arith
  run-moves suspension m = ground arith
  run-moves resumption m = ground arith
  run-moves revocation m = ground arith
  run-moves expiry m = ground arith
  run-moves (renewal expires_at grace_until) m = ground arith

  -- A command of the lifecycle in a status where the table of legal transitions does not allow
  -- it leaves the whole world as it was, and it returns only where the license has the
  -- command's status already; what it returns is then the license.
  pub run-stays :
      (op : Command)
      → moves op license.status ≡ false
      → ((run op license clock opts w).1 ≡ w)
        × ((updated : License)
            → (run op license clock opts w).0 ≡ ok updated
            → (updated ≡ license) × (license.status ≡ target op))
  unfolding activate suspend resume revoke expire renew
  run-stays activation m = (ground arith, λ updated h. ground arith)
  run-stays suspension m = (ground arith, λ updated h. ground arith)
  run-stays resumption m = (ground arith, λ updated h. ground arith)
  run-stays revocation m = (ground arith, λ updated h. ground arith)
  run-stays expiry m = (ground arith, λ updated h. ground arith)
  run-stays (renewal expires_at grace_until) m = (ground arith, λ updated h. ground arith)

  -- What a command writes, by the code's own patch and audit row.
  pub run-Transitioned :
      (op : Command) (updated : License)
      → Table.get license.id w.state.licenses ≡ some license
      → moves op license.status ≡ true
      → (run op license clock opts w).0 ≡ ok updated
      → (updated.status ≡ target op)
        × Transitioned w.state license opts
            (patch_of op (clock.now_iso w.moment))
            (event_of op)
            (clock.now_iso w.moment)
            updated
            (run op license clock opts w).1.state
  run-Transitioned op updated found m h =
      let now = clock.now_iso w.moment in
      let e = run-moves op m in
      let t =
        apply_transition-Transitioned license clock opts (patch_of op) (event_of op) w updated found
          (rw e at h) in
      (ap (λ (l : License). l.status) t.row ∙ target_patch op license t.now now, rw e t)
