-- ===== src/UsageService/Body.antt =====
-- The three ways through the body of `registerUsage`, as equations.
use licensing.Common.{◌≡◌, String, false, Option, none, some, arith, inl, inr, Option-cases, first}
use licensing.Table
use licensing.Types.{License, LicenseUsage}
use licensing.Errors.{Error, ok, err, license_not_found}
use licensing.Id.{Clock}
use licensing.Storage.Monad.{State, World}
use licensing.Storage.Paging.{sort}
use licensing.Storage.Usages.{usage_cursor}
use licensing.UsageService.{
  RegisterUsageInput, RegisterUsageResult, usable_error, has_fingerprint, take_seat, register_body,
}
use licensing.UsageService.Pages.{active_rows, UsagesKeyed, find_active_usage_lem}

-- The seat that `findActiveUsage` finds, if any.
abbrev pub existing_seat : State → RegisterUsageInput → Option LicenseUsage
existing_seat s input =
    first (has_fingerprint input.fingerprint)
      (sort usage_cursor (active_rows s input.license_id (some input.fingerprint)))

module _ (c : Clock) (input : RegisterUsageInput) (actor : Option String) (w : World) where
  pub register_body-missing :
      Table.get input.license_id w.state.licenses ≡ none
      → register_body c input actor w ≡ (err (license_not_found input.license_id), w)
  unfolding register_body
  register_body-missing e = ground arith

  module _ (license : License)
      (found : Table.get input.license_id w.state.licenses ≡ some license) where
    pub register_body-unusable :
        (e : Error)
        → usable_error license.status ≡ some e
        → register_body c input actor w ≡ (err e, w)
    unfolding register_body
    register_body-unusable e u = ground arith

    module _ (keyed : UsagesKeyed w.state) (usable : usable_error license.status ≡ none) where
      pub register_body-again :
          (usage : LicenseUsage)
          → existing_seat w.state input ≡ some usage
          → register_body c input actor w
            ≡ (ok (record { usage = usage; license = license; created = false }), w)
      unfolding register_body
      register_body-again usage e =
          ground (arith, find_active_usage_lem input.license_id input.fingerprint w keyed)

      pub register_body-new :
          existing_seat w.state input ≡ none
          → register_body c input actor w ≡ take_seat c input actor license w
      unfolding register_body
      register_body-new e =
          ground (arith, find_active_usage_lem input.license_id input.fingerprint w keyed)

  -- A registration that returned found its license usable, and a seat or none.
  pub register_body-ok :
      (res : RegisterUsageResult)
      → (register_body c input actor w).0 ≡ ok res
      → (license : License) × (Table.get input.license_id w.state.licenses ≡ some license)
        × (usable_error license.status ≡ none)
  register_body-ok res h = elim (Option-cases (Table.get input.license_id w.state.licenses)) [
    | inl missing ↦ absurd (ground (arith, register_body-missing missing))
    | inr (license, found) ↦ elim (Option-cases (usable_error license.status)) [
      | inl usable ↦ (license, found, usable)
      | inr (e, unusable) ↦ absurd (ground (arith, register_body-unusable license found e unusable))
    ]
  ]
