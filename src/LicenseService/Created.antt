-- ===== src/LicenseService/Created.antt =====
-- What `createLicense` of typescript/src/license-service.ts leaves behind.
use licensing.Common.{String, ◌≡◌, sym, ap, ◌∙◌, some, inl, inr, arith}
use licensing.Table
use licensing.Types.{License, UuidV7, Instant}
use licensing.Errors.{ok}
use licensing.Id.{Clock}
use licensing.Lifecycle.{TransitionOptions}
use licensing.Storage.Monad.{State, World}
use licensing.Storage.Shapes.{LicenseInput, AuditLogInput}
use licensing.Storage.Licenses.{license_row}
use licensing.Storage.Licenses.Cases.{create_license-cases}
use licensing.Storage.Audit.{append_audit}
use licensing.Storage.Audit.Cases.{append_audit-cases}
use licensing.Storage.Frame.{>>=-eq-ok}
use licensing.Storage.Tx.{with_transaction}
use licensing.Storage.Tx.Laws.{enter, with_transaction-commit}
use licensing.LicenseService.{
  CreateLicenseInput, license_input, create_body, key_for, create_licensed,
}

licenses-append_audit :
    (i : AuditLogInput) (w : World) → (append_audit i w).1.state.licenses ≡ w.state.licenses
licenses-append_audit i w = elim (append_audit-cases i w) [
  | inl failed ↦ ap (λ (s : State). s.licenses) failed.state
  | inr (id, minted, done) ↦ ap (λ (s : State). s.licenses) done.state
]

create_body-stored :
    (c : Clock) (input : LicenseInput) (opts : TransitionOptions) (license : License) (w : World)
    → (create_body c input opts w).0 ≡ ok license
    → (id : UuidV7) × (now : Instant) × (license ≡ license_row input id now)
      × (Table.get id (create_body c input opts w).1.state.licenses ≡ some license)
unfolding create_body
create_body-stored c input opts license w h = elim (create_license-cases input w) [
  | inl failed ↦ absurd (ground (arith, failed.thrown))
  | inr (id, now, minted, clear, done) ↦
      let row = license_row input id now in
      let same : license ≡ row = grind (arith, done.returned) in
      let written : (create_body c input opts w).1.state.licenses
          ≡ Table.set id row w.state.licenses =
        grind (arith, done.returned, licenses-append_audit)
        ∙ ap (λ (s : State). s.licenses) done.state in
      (
        id,
        now,
        same,
        (ap (Table.get id) written
            ∙ Table.get-set_self id row w.state.licenses
            ∙ ap some (sym same)),
      )
]

-- The row that a createLicense returns is the stored one, with the caller's fields.
pub create_licensed-stored :
    (c : Clock) (input : CreateLicenseInput) (opts : TransitionOptions) (license : License)
    (w : World)
    → (create_licensed c input opts w).0 ≡ ok license
    → (key : String) × (id : UuidV7) × (now : Instant) × (license
        ≡ license_row (license_input input key) id now)
      × (Table.get id (create_licensed c input opts w).1.state.licenses ≡ some license)
unfolding create_licensed
create_licensed-stored c input opts license w h =
    let body = λ (key : String). create_body c (license_input input key) opts in
    let (key, keyed, rest, whole) =
      >>=-eq-ok (key_for input.license_key) (λ key. with_transaction (body key)) w license h in
    let v = (key_for input.license_key w).1 in
    let (depth, returned, state) = with_transaction-commit (body key) v license rest in
    let (id, now, row, stored) =
      create_body-stored c (license_input input key) opts license (enter v) returned in
    (
      key,
      id,
      now,
      row,
      (ap (λ r. Table.get id r.1.state.licenses) whole
          ∙ ap (λ (s : State). Table.get id s.licenses) state
          ∙ stored),
    )
