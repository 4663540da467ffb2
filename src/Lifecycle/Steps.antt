-- ===== src/Lifecycle/Steps.antt =====
-- What one transition of typescript/src/lifecycle.ts writes: the license's row and one audit row.
use licensing.Common.{◌+◌, ◌≡◌, ◌∙◌, ap, String, some, arith, inl, inr}
use licensing.Table
use licensing.Types.{License, Instant, UuidV7}
use licensing.Errors.{ok}
use licensing.Id.{Clock}
use licensing.Storage.Monad.{State, World, Action}
use licensing.Storage.Shapes.{LicensePatch}
use licensing.Storage.Licenses.{license_patched, update_license}
use licensing.Storage.Licenses.Cases.{with_license, update_license-cases}
use licensing.Storage.Audit.{audit_row, append_audit}
use licensing.Storage.Audit.Cases.{with_audit, append_audit-cases}
use licensing.Lifecycle.{TransitionOptions, transition_audit, write_transition, apply_transition}

-- The action changed `prior` by the patch, stored the row, and wrote one audit row that holds the
-- state before and after.
pub record Transitioned (before : State) (prior : License) (opts : TransitionOptions)
    (patch : LicensePatch) (event : String) (occurred_at : Instant) (updated : License)
    (after : State) : Type 0 where
  pub now : Instant
  pub row : updated ≡ license_patched prior patch now
  pub audit_id : UuidV7
  pub written :
      after
      ≡ with_audit
          (with_license before prior.id updated)
          audit_id
          (audit_row (transition_audit prior updated event occurred_at opts) audit_id)

-- `tx.updateLicense` and `writeAudit`, in this order.
module _ (license : License) (patch : LicensePatch) (now : Instant) (opts : TransitionOptions)
    (event : String) where
  abbrev done : Action License
  done = write_transition license patch now opts event

  pub write_transition-Transitioned :
      (w : World) (updated : License)
      → Table.get license.id w.state.licenses ≡ some license
      → (done w).0 ≡ ok updated
      → Transitioned w.state license opts patch event now updated (done w).1.state
  unfolding write_transition
  write_transition-Transitioned w updated found h = elim (update_license-cases license.id patch w) [
    | inl failed ↦ absurd (ground (arith, failed.thrown))
    | inr (cur, t, there, clear, saved) ↦
        let same : cur ≡ license = ground arith in
        let v = (update_license license.id patch w).1 in
        let row = license_patched cur patch t in
        elim (append_audit-cases (transition_audit license row event now opts) v) [
          | inl failed ↦ absurd (ground (arith, failed.thrown, saved.returned))
          | inr (id, minted, added) ↦
              let audited = transition_audit license row event now opts in
              let e : done w ≡ (ok row, (append_audit audited v).1) =
                ground (arith, saved.returned, added.returned) in
              let same_row : updated ≡ row = ground arith in
              record {
                now = t;
                row = same_row ∙ ap (λ (l : License). license_patched l patch t) same;
                audit_id = id;
                written =
                    rw (e, same_row)
                      (added.state
                        ∙ ap (λ (s : State). with_audit s id (audit_row audited id)) saved.state);
              }
        ]
  ]

-- The same of `applyTransition`, which reads the clock first.
pub apply_transition-Transitioned :
    (license : License) (clock : Clock) (opts : TransitionOptions) (patch : Instant → LicensePatch)
    (event : String) (w : World) (updated : License)
    → Table.get license.id w.state.licenses ≡ some license
    → (apply_transition license clock opts patch event w).0 ≡ ok updated
    → Transitioned w.state license opts
        (patch (clock.now_iso w.moment))
        event
        (clock.now_iso w.moment)
        updated
        (apply_transition license clock opts patch event w).1.state
unfolding apply_transition
apply_transition-Transitioned license clock opts patch event w updated found h =
    let now = clock.now_iso w.moment in
    write_transition-Transitioned license (patch now) now opts event
      (record w { moment = w.moment + 1 }) updated found h
