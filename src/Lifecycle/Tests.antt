-- ===== src/Lifecycle/Tests.antt =====
-- Transitions of one license, and the theorems at them.
use licensing.Common.{arith, ◌⊎◌, ◌≡◌, refl, ◌≤◌, none, some}
use licensing.Table
use licensing.Types.{License, LicenseStatus}
use licensing.Fixtures.{clock, license_of, world_of, one_taken}
use licensing.Errors.{ok}
use licensing.Id.{Clock, iso_from_ms}
use licensing.Storage.Monad.{World, adapter_now_iso, new_uuid_v7}
use licensing.Storage.Licenses.{update_license, license_key_taken}
use licensing.Storage.Audit.{append_audit}
use licensing.Storage.Tx.{with_transaction}
use licensing.Lifecycle.{
  TransitionOptions, is_past, is_ahead, timed_status, effective_status, status_patch,
  write_transition, suspend, resume, tick_at, tick,
}
use licensing.Lifecycle.Status.{lapse, effective_status-monotone}
use licensing.Lifecycle.Steps.{Transitioned}
use licensing.Lifecycle.Legal.{suspension, resumption, run, run-stays}
use licensing.Lifecycle.Returns.{run-returns}
use licensing.Lifecycle.Tick.{tick_event, tick-effective_status}
use licensing.Lifecycle.Revoked.{IsRevoked, start, then_step, commanded, Reaches-IsRevoked}

abbrev opts : TransitionOptions
opts = record { actor = some "admin"; actor_kind = none; actor_id = none }

abbrev running : License
running = license_of LicenseStatus.active 2

abbrev demo : World
demo = world_of running one_taken

abbrev dead : License
dead = license_of LicenseStatus.revoked 2

abbrev dead_world : World
dead_world = world_of dead one_taken

demo-found : Table.get running.id demo.state.licenses ≡ some running
unfolding Table.get
demo-found = refl

dead-found : Table.get dead.id dead_world.state.licenses ≡ some dead
unfolding Table.get
dead-found = refl

abbrev suspended : License
suspended = record (license_of LicenseStatus.suspended 2) {
  updated_at = "2026-04-13T10:00:00.001000Z";
}

-- Three weeks on the license is in grace, and after that it is expired.
effective_status-demo :
    (effective_status running "2026-05-02T00:00:00.000000Z" ≡ LicenseStatus.grace)
    × (effective_status running "2026-05-08T00:00:00.000000Z" ≡ LicenseStatus.expired)
unfolding effective_status timed_status is_past is_ahead
effective_status-demo = (refl, refl)

run-stays_example :
    ((resume running clock opts demo).1 ≡ demo)
    × ((updated : License)
        → (resume running clock opts demo).0 ≡ ok updated
        → (updated ≡ running) × (running.status ≡ LicenseStatus.active))
run-stays_example = run-stays running clock opts demo resumption refl

effective_status-monotone_example :
    lapse (effective_status running "2026-05-02T00:00:00.000000Z")
    ≤ lapse (effective_status running "2026-05-08T00:00:00.000000Z")
effective_status-monotone_example =
    effective_status-monotone running "2026-05-02T00:00:00.000000Z" "2026-05-08T00:00:00.000000Z"
      refl

-- A clock that reads an instant of the grace period.
abbrev late : Clock
late = record clock { now_iso = λ t. "2026-05-02T00:00:00.000000Z" }

abbrev in_grace : License
in_grace = record (license_of LicenseStatus.grace 2) { updated_at = "2026-04-13T10:00:00.001000Z" }

tick-demo : (tick running late opts demo).0 ≡ ok in_grace
unfolding tick tick_at effective_status timed_status is_past is_ahead write_transition
    update_license license_key_taken append_audit adapter_now_iso new_uuid_v7 Table.get Table.set
    Table.values iso_from_ms
tick-demo = refl

tick-effective_status_example :
    let next = effective_status running (late.now_iso 0) in
    let after = (tick running late opts demo).1.state in
    (in_grace.status ≡ next)
    × (((in_grace ≡ running) × (after ≡ demo.state))
        ⊎ Transitioned demo.state running opts
            (status_patch next)
            (tick_event next)
            (late.now_iso 0)
            in_grace
            after)
tick-effective_status_example =
    tick-effective_status running late opts demo in_grace demo-found tick-demo

-- One command, to resume the revoked license.
abbrev after_resume : World
after_resume = (with_transaction (run resumption dead clock opts) dead_world).1

Reaches-IsRevoked_example : IsRevoked "l1" after_resume
Reaches-IsRevoked_example =
    Reaches-IsRevoked "l1" dead_world after_resume
      (then_step dead_world after_resume start (commanded resumption dead clock opts dead-found))
      (dead, dead-found, refl)

-- A clock that stands still.
abbrev still : World
still = record demo { clock = record clock { now_ms = λ t. 1776074400000 } }

run-returns_example : (u : License) × ((suspend running clock opts still).0 ≡ ok u)
unfolding Table.get
run-returns_example = run-returns running clock opts still suspension (λ n. omega arith) refl refl
