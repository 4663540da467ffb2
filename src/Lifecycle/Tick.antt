-- ===== src/Lifecycle/Tick.antt =====
-- `tick` of typescript/src/lifecycle.ts persists the effective status.
use licensing.Common.{
  ◌+◌, ◌≡◌, ◌⊎◌, ◌∙◌, ap, true, false, some, sym, arith, inl, inr, Bool-cases, String,
}
use licensing.Table
use licensing.Types.{License, LicenseStatus, Instant, status_eq, status_eq-true}
use licensing.Errors.{ok}
use licensing.Id.{Clock}
use licensing.Storage.Monad.{World}
use licensing.Lifecycle.{
  TransitionOptions, effective_status, timed_status, status_patch, write_transition, tick_at, tick,
}
use licensing.Lifecycle.Steps.{Transitioned, write_transition-Transitioned}

-- The event of the audit row of a tick.
abbrev pub tick_event : LicenseStatus → String
tick_event LicenseStatus.grace = "license.grace_entered"
tick_event _ = "license.expired"

tick_at-same :
    (license : License) (now : Instant) (opts : TransitionOptions) (w : World)
    → status_eq (effective_status license now) license.status ≡ true
    → tick_at license now opts w ≡ (ok license, w)
unfolding tick_at
tick_at-same license now opts w e = ground arith

tick_at-moves :
    (license : License) (now : Instant) (opts : TransitionOptions) (w : World)
    → status_eq (effective_status license now) license.status ≡ false
    → let next = effective_status license now in
      tick_at license now opts w
      ≡ write_transition license (status_patch next) now opts (tick_event next) w
unfolding tick_at effective_status timed_status
tick_at-moves license now opts w e = ground arith

module _ (license : License) (clock : Clock) (opts : TransitionOptions) (w : World) where
  -- A tick on a stored license that returns gives it its effective status at the instant that
  -- the clock reads: either that is its status already and nothing is written, or the row is
  -- stored with it and one audit row written.
  pub tick-effective_status :
      (updated : License)
      → Table.get license.id w.state.licenses ≡ some license
      → (tick license clock opts w).0 ≡ ok updated
      → let now = clock.now_iso w.moment in
        let next = effective_status license now in
        let after = (tick license clock opts w).1.state in
        (updated.status ≡ next)
        × (((updated ≡ license) × (after ≡ w.state))
            ⊎ Transitioned w.state license opts
                (status_patch next)
                (tick_event next)
                now
                updated
                after)
  unfolding tick
  tick-effective_status updated found h =
      let now = clock.now_iso w.moment in
      let next = effective_status license now in
      let v : World = record w { moment = w.moment + 1 } in
      elim (Bool-cases (status_eq next license.status)) [
        | inl same ↦
            let e = tick_at-same license now opts v same in
            let u : updated ≡ license = ground arith in
            (
              ap (λ (l : License). l.status) u ∙ sym (status_eq-true next license.status same),
              inl (u, ground arith),
            )
        | inr moved ↦
            let e = tick_at-moves license now opts v moved in
            let t =
              write_transition-Transitioned license (status_patch next) now opts (tick_event next) v
                updated found (rw e at h) in
            (ap (λ (l : License). l.status) t.row, inr (rw e t))
      ]
