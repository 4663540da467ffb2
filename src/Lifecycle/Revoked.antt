-- ===== src/Lifecycle/Revoked.antt =====
-- Revocation is final for the commands of typescript/src/lifecycle.ts on the stored license.
use licensing.Common.{
  ◌≡◌, ◌≢◌, refl, ◌∙◌, ap, sym, false, some, arith, inl, inr, Bool-cases, ◌==◌, eq_iff,
}
use licensing.Table
use licensing.Types.{License, LicenseStatus, UuidV7}
use licensing.Errors.{Result-cases}
use licensing.Id.{Clock}
use mathlib.Core.Bool.{false≢true}
use licensing.Storage.Monad.{World, State}
use licensing.Storage.Tx.{with_transaction}
use licensing.Storage.Tx.Laws.{enter, with_transaction-rollback, with_transaction-commit}
use licensing.Lifecycle.{TransitionOptions}
use licensing.Lifecycle.Legal.{
  Command, activation, suspension, resumption, revocation, expiry, renewal, run, moves, run-stays,
  run-Transitioned,
}

-- One command in a transaction, on a license as it is stored under its identifier.
pub data Step (w : World) : World → Type 0 where
  commanded :
      (op : Command) (license : License) (clock : Clock) (opts : TransitionOptions)
      → Table.get license.id w.state.licenses ≡ some license
      → Step w (with_transaction (run op license clock opts) w).1

-- Any number of commands, one after the other.
pub data Reaches (w : World) : World → Type 0 where
  start : Reaches w w
  then_step : (v u : World) → Reaches w v → Step v u → Reaches w u

-- The license under `id` is revoked.
abbrev pub IsRevoked : UuidV7 → World → Type 0
IsRevoked id w =
    (l : License) × (Table.get id w.state.licenses ≡ some l) × (l.status ≡ LicenseStatus.revoked)

module _ (op : Command) (license : License) (clock : Clock) (opts : TransitionOptions)
    (w : World) where
  abbrev done : World
  done = (with_transaction (run op license clock opts) w).1

  -- A command that moves nothing leaves the tables.
  commanded_stays : moves op license.status ≡ false → done.state ≡ w.state
  commanded_stays m = elim (Result-cases (with_transaction (run op license clock opts) w).0) [
    | inr (e, thrown) ↦ with_transaction-rollback (run op license clock opts) w e thrown
    | inl (a, returned) ↦
        let (depth, body, state) =
          with_transaction-commit (run op license clock opts) w a returned in
        state ∙ ap (λ (v : World). v.state) (run-stays license clock opts (enter w) op m).0
  ]

  -- A command to one license leaves the rows of the others.
  commanded_other :
      (id : UuidV7)
      → Table.get license.id w.state.licenses ≡ some license
      → license.id ≢ id
      → Table.get id done.state.licenses ≡ Table.get id w.state.licenses
  commanded_other id own away = elim (Bool-cases (moves op license.status)) [
    | inr m ↦ ap (λ (s : State). Table.get id s.licenses) (commanded_stays m)
    | inl m ↦ elim (Result-cases (with_transaction (run op license clock opts) w).0) [
      | inr (e, thrown) ↦
          ap (λ (s : State). Table.get id s.licenses)
            (with_transaction-rollback (run op license clock opts) w e thrown)
      | inl (a, returned) ↦
          let (depth, body, state) =
            with_transaction-commit (run op license clock opts) w a returned in
          let (status, t) = run-Transitioned license clock opts (enter w) op a own m body in
          ap (λ (s : State). Table.get id s.licenses) (state ∙ t.written)
          ∙ Table.get-set license.id id a w.state.licenses
          ∙ ground (arith, eq_iff license.id id)
    ]
  ]

moves-revoked : (op : Command) → moves op LicenseStatus.revoked ≡ false
moves-revoked activation = refl
moves-revoked suspension = refl
moves-revoked resumption = refl
moves-revoked revocation = refl
moves-revoked expiry = refl
moves-revoked (renewal expires_at grace_until) = refl

Step-IsRevoked : (id : UuidV7) (w v : World) → Step w v → IsRevoked id w → IsRevoked id v
Step-IsRevoked id w v (commanded op license clock opts own) (l, there, status) =
    elim (Bool-cases (license.id == id)) [
      | inl same ↦
          let here : license ≡ l = ground (arith, eq_iff license.id id) in
          let still = commanded_stays op license clock opts w (
            ap (λ (r : License). moves op r.status) here
            ∙ ap (moves op) status
            ∙ moves-revoked op) in
          (l, ap (λ (s : State). Table.get id s.licenses) still ∙ there, status)
      | inr other ↦ (
        l,
        commanded_other op license clock opts w id own
              (λ e. false≢true (sym other ∙ (eq_iff license.id id).1 e))
            ∙ there,
        status,
      )
    ]

-- Whatever commands are run in transactions on licenses as they are stored, in whatever order,
-- a license that is revoked at the start is stored and revoked at the end.
pub Reaches-IsRevoked : (id : UuidV7) (w v : World) → Reaches w v → IsRevoked id w → IsRevoked id v
Reaches-IsRevoked id w v start h = h
Reaches-IsRevoked id w v (then_step u _ before step) h =
    Step-IsRevoked id u v step (Reaches-IsRevoked id w u before h)
