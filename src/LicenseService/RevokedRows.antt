-- ===== src/LicenseService/RevokedRows.antt =====
-- What the loop over one page of `rotateLicenseKey` of typescript/src/license-service.ts leaves.
use licensing.Common.{
  true, false, ◌≡◌, ◌⊎◌, inl, inr, sym, ap, ◌∙◌, none, some, List, [], ◌∷◌, ◌==◌, eq_iff, any, All,
  All-map, Bool-cases, arith,
}
use mathlib.Core.Path.{subst}
use licensing.Table.Keyed.{set-IsKeyed, get-IsKeyed}
use licensing.Types.{LicenseUsage, UuidV7, Instant}
use licensing.Errors.{ok}
use licensing.Storage.Monad.{State, World, pure, ◌>>=◌}
use licensing.Storage.Frame.{>>=-eq-ok}
use licensing.Storage.Usages.{usage_matches, usage_patched, update_usage}
use licensing.Storage.Usages.Cases.{update_usage-cases}
use licensing.UsageService.{active_of, revoked_patch}
use licensing.UsageService.Pages.{active_rows, UsagesKeyed}
use licensing.LicenseService.{revoke_each}
use licensing.LicenseService.Remaining.{set-All}

-- The row is among some, by its identifier.
abbrev pub Listed : List LicenseUsage → LicenseUsage → Type 0
Listed items r = any (λ (y : LicenseUsage). y.id == r.id) items ≡ true

pub seat_revoked :
    (l : UuidV7) (cur : LicenseUsage) (t now : Instant)
    → usage_matches (active_of (some l) none) (usage_patched cur (revoked_patch t) now) ≡ false
unfolding usage_matches
seat_revoked l cur t now = ground arith

-- One revoked row.
update_usage-remaining :
    (l : UuidV7) (id : UuidV7) (t : Instant) (P : LicenseUsage → Type 0) (u : LicenseUsage)
    (w : World)
    → UsagesKeyed w.state
    → All (λ r. (r.id ≡ id) ⊎ P r) (active_rows w.state l none)
    → (update_usage id (revoked_patch t) w).0 ≡ ok u
    → let after = (update_usage id (revoked_patch t) w).1.state in
      UsagesKeyed after × All P (active_rows after l none)
update_usage-remaining l id t P u w keyed h returned =
    elim (update_usage-cases id (revoked_patch t) w) [
      | inl failed ↦ absurd (ground (arith, failed.thrown))
      | inr (cur, now, there, clear, done) ↦
          let row = usage_patched cur (revoked_patch t) now in
          let named : id ≡ row.id =
            sym (get-IsKeyed (λ (r : LicenseUsage). r.id) id cur w.state.usages keyed there) in
          rw done.state (
            set-IsKeyed (λ (r : LicenseUsage). r.id) id row w.state.usages named keyed,
            set-All (λ (r : LicenseUsage). r.id) (usage_matches (active_of (some l) none)) P id row
                w.state.usages (seat_revoked l cur t now) keyed h,
          )
    ]

Listed-cases :
    (x r : LicenseUsage) (items : List LicenseUsage) (P : LicenseUsage → Type 0)
    → Listed (x ∷ items) r ⊎ P r
    → (r.id ≡ x.id) ⊎ (Listed items r ⊎ P r)
Listed-cases x r items P (inr h) = inr (inr h)
Listed-cases x r items P (inl h) = elim (Bool-cases (x.id == r.id)) [
  | inl same ↦ inl (sym ((eq_iff x.id r.id).0 same))
  | inr apart ↦ inr (inl (ground (arith, apart, h)))
]

not_listed : (r : LicenseUsage) (P : LicenseUsage → Type 0) → Listed [] r ⊎ P r → P r
not_listed r P (inl h) = absurd (ground (arith, h))
not_listed r P (inr h) = h

-- A page of revoked rows.
pub revoke_each-remaining :
    (l : UuidV7) (t : Instant) (P : LicenseUsage → Type 0) (items : List LicenseUsage)
    (ids : List UuidV7) (w : World)
    → UsagesKeyed w.state
    → All (λ r. Listed items r ⊎ P r) (active_rows w.state l none)
    → (revoke_each t items w).0 ≡ ok ids
    → let after = (revoke_each t items w).1.state in
      UsagesKeyed after × All P (active_rows after l none)
unfolding revoke_each
revoke_each-remaining l t P [] ids w keyed h returned =
    (keyed, All-map _ _ (λ r. not_listed r P) _ h)
revoke_each-remaining l t P (x ∷ items) ids w keyed h returned =
    let (u, updated, rest, whole) =
      >>=-eq-ok (update_usage x.id (revoked_patch t))
        (λ _. revoke_each t items >>= λ rest. pure (x.id ∷ rest)) w ids returned in
    let v = (update_usage x.id (revoked_patch t) w).1 in
    let (ids', others, last_step, whole') =
      >>=-eq-ok (revoke_each t items) (λ rest. pure (x.id ∷ rest)) v ids rest in
    let (keyed', left) =
      update_usage-remaining l x.id t (λ r. Listed items r ⊎ P r) u w keyed
        (All-map _ _ (λ r. Listed-cases x r items P) _ h) updated in
    let done = revoke_each-remaining l t P items ids' v keyed' left others in
    subst (λ (s : State). UsagesKeyed s × All P (active_rows s l none))
      (sym (ap (λ r. r.1.state) (whole ∙ whole'))) done
