-- ===== src/Lifecycle/Returns.antt =====
-- The legal transitions of typescript/src/lifecycle.ts go through.
use licensing.Common.{
  String, ℕ, ◌+◌, ◌≤◌, ◌≡◌, refl, none, some, List, [], ◌∷◌, first, arith, inl, inr, true,
}
use licensing.Table
use licensing.Types.{License, Instant, UuidV7}
use licensing.Errors.{ok, Result-cases}
use licensing.Id.{Clock}
use licensing.Storage.Monad.{World, adapter_now_iso, new_uuid_v7}
use licensing.Storage.Shapes.{LicensePatch}
use licensing.Storage.Licenses.{license_key_taken, update_license}
use licensing.Storage.Audit.{append_audit}
use licensing.Lifecycle.{TransitionOptions, apply_transition, write_transition}
use licensing.Lifecycle.Legal.{
  Command, activation, suspension, resumption, revocation, expiry, renewal, run, moves, patch_of,
  event_of, run-moves,
}

-- The adapter's clock stays within the 48 bits of an identifier.
abbrev pub ClockFits : World → Type 0
ClockFits w = (n : ℕ) → w.clock.now_ms n ≤ 0xffffffffffff

-- A patch without a license key is not checked against the others.
none_taken : (id : UuidV7) (rows : List License) → first (license_key_taken id none) rows ≡ none
unfolding license_key_taken
none_taken id [] = refl
none_taken id (row ∷ rows) = none_taken id rows

write_transition-returns :
    (license : License) (patch : LicensePatch) (now : Instant) (opts : TransitionOptions)
    (event : String) (w : World)
    → ClockFits w
    → patch.license_key ≡ none
    → Table.get license.id w.state.licenses ≡ some license
    → (u : License) × ((write_transition license patch now opts event w).0 ≡ ok u)
unfolding write_transition update_license append_audit adapter_now_iso new_uuid_v7
write_transition-returns license patch now opts event w fits no_key found =
    elim (Result-cases (write_transition license patch now opts event w).0) [
      | inl r ↦ r
      | inr (e, thrown) ↦ absurd (
          ground
            (arith, fits (w.moment + 1), none_taken license.id (Table.values w.state.licenses)))
    ]

patch_of-key : (op : Command) (now : Instant) → (patch_of op now).license_key ≡ none
patch_of-key activation now = refl
patch_of-key suspension now = refl
patch_of-key resumption now = refl
patch_of-key revocation now = refl
patch_of-key expiry now = refl
patch_of-key (renewal expires_at grace_until) now = refl

-- A command of the lifecycle that the table of legal transitions allows in the status of the
-- stored license returns, if the adapter's clock stays within the 48 bits that an identifier
-- holds. The table is the code's: it lets a renewal activate a pending license.
pub run-returns :
    (license : License) (clock : Clock) (opts : TransitionOptions) (w : World) (op : Command)
    → ClockFits w
    → Table.get license.id w.state.licenses ≡ some license
    → moves op license.status ≡ true
    → (u : License) × ((run op license clock opts w).0 ≡ ok u)
unfolding apply_transition
run-returns license clock opts w op fits found m =
    let now = clock.now_iso w.moment in
    rw (run-moves license clock opts w op m) (
      write_transition-returns license (patch_of op now) now opts (event_of op)
        (record w { moment = w.moment + 1 }) fits (patch_of-key op now) found)
