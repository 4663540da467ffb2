-- ===== src/UsageService/Register.antt =====
-- What `registerUsage` does when it takes a seat.
use licensing.Common.{ℕ, ◌+◌, ◌<◌, ◌≤◌, String, ◌≡◌, ap, sym, ◌∙◌, true, Option, arith, inl, inr}
use licensing.Table
use licensing.Types.{LicenseUsage, License, UuidV7, Instant}
use licensing.Errors.{ok, err, seat_limit_exceeded}
use licensing.Id.{Clock}
use licensing.Storage.Monad.{State, World, ◌>>=◌, new_uuid_v7, adapter_now_iso}
use licensing.Storage.Frame.{Minted}
use licensing.Storage.Usages.{usage_row, create_usage}
use licensing.Storage.Usages.Cases.{create_usage-cases}
use licensing.Storage.Licenses.{update_license}
use licensing.Storage.Audit.{append_audit}
use licensing.Storage.Shapes.{AuditLogInput, LicensePatch}
use licensing.Lifecycle.{activate, apply_transition, write_transition}
use licensing.UsageService.{
  RegisterUsageInput, RegisterUsageResult, promote, take_seat, finish_seat, write_seat, seat_input,
}
use licensing.UsageService.Pages.{active_count, UsagesKeyed, count_active_usages_lem}

pub usages-append_audit :
    (i : AuditLogInput) (w : World) → (append_audit i w).1.state.usages ≡ w.state.usages
unfolding append_audit new_uuid_v7
usages-append_audit i w = ground arith

pub usages-update_license :
    (id : UuidV7) (p : LicensePatch) (w : World)
    → (update_license id p w).1.state.usages ≡ w.state.usages
unfolding update_license adapter_now_iso
usages-update_license id p w = ground arith

usages-promote :
    (l : License) (c : Clock) (actor : Option String) (w : World)
    → (promote l c actor w).1.state.usages ≡ w.state.usages
unfolding promote activate apply_transition write_transition
usages-promote l c actor w = grind (arith, usages-append_audit, usages-update_license)

-- The seat that was taken: its row, written at a fresh identifier.
pub record TookSeat (input : RegisterUsageInput) (w : World) (usage : LicenseUsage) (after : State)
    : Type 0 where
  pub now : Instant
  pub registered_at : Instant
  pub fresh : Minted w usage.id
  pub row : usage ≡ usage_row (seat_input input registered_at) usage.id now
  pub written : after.usages ≡ Table.set usage.id usage w.state.usages

finish_seat-ok :
    (c : Clock) (actor : Option String) (license : License) (n : ℕ) (now : Instant)
    (usage : LicenseUsage) (w : World) (res : RegisterUsageResult)
    → (finish_seat c actor license n now usage w).0 ≡ ok res
    → (res.created ≡ true)
      × (res.usage ≡ usage)
      × ((finish_seat c actor license n now usage w).1.state.usages ≡ w.state.usages)
unfolding finish_seat
finish_seat-ok c actor license n now usage w res h =
    grind (arith, usages-append_audit, usages-promote)

-- When `createUsage` returns a row, the rest goes on from there.
write_seat-eq :
    (c : Clock) (input : RegisterUsageInput) (actor : Option String) (license : License) (n : ℕ)
    (w : World) (row : LicenseUsage)
    → let made =
        create_usage (seat_input input (c.now_iso w.moment)) (record w { moment = w.moment + 1 }) in
      made.0 ≡ ok row
      → write_seat c input actor license n w
        ≡ finish_seat c actor license n (c.now_iso w.moment) row made.1
unfolding write_seat
write_seat-eq c input actor license n w row e = rw (e, ◌>>=◌)

pub write_seat-TookSeat :
    (c : Clock) (input : RegisterUsageInput) (actor : Option String) (license : License) (n : ℕ)
    (w : World) (res : RegisterUsageResult)
    → (write_seat c input actor license n w).0 ≡ ok res
    → (res.created ≡ true)
      × TookSeat input w res.usage (write_seat c input actor license n w).1.state
write_seat-TookSeat c input actor license n w res h =
    let t = c.now_iso w.moment in
    let w' : World = record w { moment = w.moment + 1 } in
    elim (create_usage-cases (seat_input input t) w') [
      | inl failed ↦ absurd (unfold write_seat in (ground (arith, failed.thrown)))
      | inr (id, now, fresh, clear, done) ↦
          let v = (create_usage (seat_input input t) w').1 in
          let row = usage_row (seat_input input t) id now in
          let q = write_seat-eq c input actor license n w row done.returned in
          let (a, b, u) = finish_seat-ok c actor license n t row v res (rw q at h) in
          let same : res.usage.id ≡ id = ap (λ (r : LicenseUsage). r.id) b in
          (
            a,
            record {
              now = now;
              registered_at = t;
              fresh = record {
                ms = fresh.ms;
                draw = fresh.draw;
                unused = fresh.unused;
                text = same ∙ fresh.text;
              };
              row = b ∙ ap (λ k. usage_row (seat_input input t) k now) (sym same);
              written = rw (q, same, b) (u ∙ ap (λ (s : State). s.usages) done.state);
            },
          )
    ]

module _ (c : Clock) (input : RegisterUsageInput) (actor : Option String) (license : License)
    (w : World) (keyed : UsagesKeyed w.state) where
  -- No free seat: the error that says how many there are, and nothing is written.
  pub take_seat-full :
      license.max_usages ≤ active_count w.state input.license_id
      → take_seat c input actor license w
        ≡ (err (seat_limit_exceeded license.max_usages (active_count w.state input.license_id)), w)
  unfolding take_seat
  take_seat-full h = ground (arith, count_active_usages_lem input.license_id w keyed)

  -- A free seat: the steps that take it.
  pub take_seat-free :
      active_count w.state input.license_id < license.max_usages
      → take_seat c input actor license w
        ≡ write_seat c input actor license (active_count w.state input.license_id) w
  unfolding take_seat
  take_seat-free h = ground (arith, count_active_usages_lem input.license_id w keyed)
