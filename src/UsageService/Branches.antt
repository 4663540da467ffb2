-- ===== src/UsageService/Branches.antt =====
-- `registerUsage` of typescript/src/usage-service.ts where it makes no seat.
use licensing.Common.{◌≤◌, ◌≡◌, refl, ◌∙◌, ap, String, false, Option, none, some}
use licensing.Table
use licensing.Types.{License, LicenseStatus, LicenseUsage}
use licensing.Errors.{
  Error, ok, err, Result, license_not_found, seat_limit_exceeded, license_suspended,
  license_revoked, license_expired,
}
use licensing.Id.{Clock}
use licensing.Storage.Monad.{World}
use licensing.Storage.Tx.Laws.{
  enter, with_transaction-result, with_transaction-rollback, with_transaction-commit,
}
use licensing.UsageService.{
  RegisterUsageInput, RegisterUsageResult, usable_error, register_body, register_usage,
}
use licensing.UsageService.Pages.{active_count, UsagesKeyed}
use licensing.UsageService.Register.{take_seat-full}
use licensing.UsageService.Body.{
  existing_seat, register_body-missing, register_body-unusable, register_body-again,
  register_body-new,
}

-- The statuses without a seat to give, each with the error that it is to be refused with.
pub data RefusedFor : LicenseStatus → Error → Type 0 where
  when_suspended : RefusedFor LicenseStatus.suspended license_suspended
  when_revoked : RefusedFor LicenseStatus.revoked license_revoked
  when_expired : RefusedFor LicenseStatus.expired license_expired

RefusedFor-usable_error : {s : LicenseStatus} {e : Error} → RefusedFor s e → usable_error s ≡ some e
unfolding usable_error
RefusedFor-usable_error when_suspended = refl
RefusedFor-usable_error when_revoked = refl
RefusedFor-usable_error when_expired = refl

-- The statuses in which a seat is given.
pub data IsUsable : LicenseStatus → Type 0 where
  is_pending : IsUsable LicenseStatus.pending
  is_active : IsUsable LicenseStatus.active
  in_grace : IsUsable LicenseStatus.grace

IsUsable-usable_error : {s : LicenseStatus} → IsUsable s → usable_error s ≡ none
unfolding usable_error
IsUsable-usable_error is_pending = refl
IsUsable-usable_error is_active = refl
IsUsable-usable_error in_grace = refl

module _ (c : Clock) (input : RegisterUsageInput) (actor : Option String) (w : World)
    (outside : w.tx_depth ≡ 0) where
  -- A body that throws at once.
  refused :
      (e : Error)
      → register_body c input actor (enter w) ≡ (err e, enter w)
      → ((register_usage c input actor w).0 ≡ err e)
        × ((register_usage c input actor w).1.state ≡ w.state)
  unfolding register_usage
  refused e q =
      let thrown =
        with_transaction-result (register_body c input actor) w outside ∙ ap (λ r. r.0) q in
      (thrown, with_transaction-rollback (register_body c input actor) w e thrown)

  -- Outside a transaction, a registration on a license that is not stored throws `LicenseNotFound`
  -- and writes nothing.
  pub register_usage_missing :
      Table.get input.license_id w.state.licenses ≡ none
      → ((register_usage c input actor w).0 ≡ err (license_not_found input.license_id))
        × ((register_usage c input actor w).1.state ≡ w.state)
  register_usage_missing e = refused _ (register_body-missing c input actor (enter w) e)

  module _ (license : License)
      (found : Table.get input.license_id w.state.licenses ≡ some license) where
    -- Outside a transaction, registerUsage on a stored license that is suspended, revoked or
    -- expired throws the error for its status and writes nothing.
    pub register_usage_unusable :
        (e : Error)
        → RefusedFor license.status e
        → ((register_usage c input actor w).0 ≡ err e)
          × ((register_usage c input actor w).1.state ≡ w.state)
    register_usage_unusable e u =
        refused e (
          register_body-unusable c input actor (enter w) license found e
            (RefusedFor-usable_error u))

    -- Outside a transaction, if every usage stands under its own identifier, registerUsage of a
    -- device that has an active seat of a license that is pending, active or in grace returns
    -- that seat with created false, and writes nothing.
    pub register_usage_again :
        UsagesKeyed w.state
        → IsUsable license.status
        → (usage : LicenseUsage) → existing_seat w.state input ≡ some usage
        → ((register_usage c input actor w).0
            ≡ ok (record { usage = usage; license = license; created = false }))
          × ((register_usage c input actor w).1.state ≡ w.state)
    unfolding register_usage
    register_usage_again keyed status usage e =
        let usable = IsUsable-usable_error status in
        let q = register_body-again c input actor (enter w) license found keyed usable usage e in
        let result : Result RegisterUsageResult =
          ok (record { usage = usage; license = license; created = false }) in
        let returned : (register_usage c input actor w).0 ≡ result =
          with_transaction-result (register_body c input actor) w outside ∙ ap (λ r. r.0) q in
        (
          returned,
          (with_transaction-commit (register_body c input actor) w _ returned).2
              ∙ ap (λ r. r.1.state) q,
        )

    -- Outside a transaction, if every usage stands under its own identifier, registerUsage of a
    -- device without an active seat on a usable license whose active seats are at least
    -- max_usages throws SeatLimitExceeded with max_usages and the number of active seats, and
    -- writes nothing.
    pub register_usage_full :
        UsagesKeyed w.state
        → usable_error license.status ≡ none
        → existing_seat w.state input ≡ none
        → license.max_usages ≤ active_count w.state input.license_id
        → ((register_usage c input actor w).0
            ≡ err (seat_limit_exceeded license.max_usages (active_count w.state input.license_id)))
          × ((register_usage c input actor w).1.state ≡ w.state)
    register_usage_full keyed usable e full = refused _ (
        register_body-new c input actor (enter w) license found keyed usable e
        ∙ take_seat-full c input actor license (enter w) keyed full)
