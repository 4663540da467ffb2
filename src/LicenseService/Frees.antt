-- ===== src/LicenseService/Frees.antt =====
-- `rotateLicenseKey` of typescript/src/license-service.ts goes through, and frees every seat.
use licensing.Common.{
  ℕ, zero, suc, ◌+◌, String, ◌≡◌, ◌≢◌, inl, inr, refl, sym, ap, ◌∙◌, Option, none, some, List, [],
  ◌∷◌, ◌++◌, first, All, Bool-cases, arith, length, eq_iff, ◌==◌, length-filter-le, ◌≤◌,
}
use mathlib.Core.Path.{subst}
use licensing.Table
use licensing.Table.Keyed.{IsKeyed}
use licensing.Types.{
  License, LicenseStatus, status_eq, status_eq-true, LicenseUsage, UuidV7, Instant,
}
use licensing.Errors.{ok, Result-cases}
use licensing.Id.{Clock}
use licensing.Lifecycle.{TransitionOptions}
use licensing.Lifecycle.Returns.{ClockFits}
use licensing.LicenseKey.{generate_license_key, license_key_of}
use licensing.Storage.Monad.{World, Action, pure, now_iso, ◌>>=◌, adapter_now_iso, new_uuid_v7}
use licensing.Storage.Shapes.{AuditLogInput}
use licensing.Storage.Audit.{append_audit}
use licensing.Storage.Licenses.{update_license, license_key_taken, no_license_patch}
use licensing.Storage.Paging.{CursorTuple, paginate}
use licensing.Storage.Tx.Laws.{enter, with_transaction-result}
use licensing.Storage.Usages.{usage_matches, usage_cursor, list_usages, update_usage}
use licensing.Storage.Usages.Cases.{update_usage-cases}
use licensing.UsageService.{active_of, revoked_patch, enough_pages}
use licensing.UsageService.Pages.{active_count, active_rows, UsagesKeyed}
use licensing.LicenseService.{
  RotateLicenseKeyResult, revoke_each, revoke_pages, rotated_audit, rotate_found, rotate_body,
  rotate_license_key,
}
use licensing.LicenseService.RevokedPages.{next_page}
use licensing.LicenseService.RevokedReturns.{bound, revoke_pages-returns}
use licensing.LicenseService.Rotation.{rotate_license_key-clears}
use licensing.UsageService.Register.{usages-update_license}

-- The action leaves the adapter's clock alone.
abbrev KeepsClock : {A : Type 0} → Action A → Type 0
KeepsClock m = (w : World) → (m w).1.clock ≡ w.clock

>>=-KeepsClock :
    {A B : Type 0} (m : Action A) (f : A → Action B)
    → KeepsClock m
    → ((a : A) → KeepsClock (f a))
    → KeepsClock (m >>= f)
>>=-KeepsClock m f h k w = elim (Result-cases (m w).0) [
  | inl (a, e) ↦ ground (arith, h w, k a (m w).1)
  | inr (x, e) ↦ ground (arith, h w)
]

update_usage-KeepsClock :
    (id : UuidV7) (t : Instant) → KeepsClock (update_usage id (revoked_patch t))
update_usage-KeepsClock id t w = elim (update_usage-cases id (revoked_patch t) w) [
  | inl failed ↦ failed.frame.clock
  | inr (cur, now, there, clear, done) ↦ done.frame.clock
]

revoke_each-KeepsClock :
    (t : Instant) (items : List LicenseUsage) → KeepsClock (revoke_each t items)
unfolding revoke_each
revoke_each-KeepsClock t [] w = refl
revoke_each-KeepsClock t (x ∷ items) w =
    >>=-KeepsClock (update_usage x.id (revoked_patch t))
      (λ _. revoke_each t items >>= λ rest. pure (x.id ∷ rest)) (update_usage-KeepsClock x.id t)
      (λ u.
        >>=-KeepsClock (revoke_each t items) (λ rest. pure (x.id ∷ rest))
          (revoke_each-KeepsClock t items) (λ ids v. refl))
      w

next_page-KeepsClock :
    (fuel : ℕ) (t : Instant) (l : UuidV7) (found : List UuidV7) (cursor : Option CursorTuple)
    → ((c : CursorTuple) → KeepsClock (revoke_pages fuel t l (some c)))
    → KeepsClock (next_page fuel t l found cursor)
next_page-KeepsClock fuel t l found none h w = refl
next_page-KeepsClock fuel t l found (some c) h w =
    >>=-KeepsClock (revoke_pages fuel t l (some c)) (λ rest. pure (found ++ rest)) (h c)
      (λ ids v. refl) w

revoke_pages-KeepsClock :
    (fuel : ℕ) (t : Instant) (l : UuidV7) (cursor : Option CursorTuple)
    → KeepsClock (revoke_pages fuel t l cursor)
unfolding revoke_pages list_usages
revoke_pages-KeepsClock zero t l cursor w = refl
revoke_pages-KeepsClock (suc fuel) t l cursor w =
    let page =
      paginate usage_cursor (active_rows w.state l none)
        (record { limit = 500; cursor = cursor }) in
    >>=-KeepsClock (revoke_each t page.items) (λ found. next_page fuel t l found page.cursor)
      (revoke_each-KeepsClock t page.items)
      (λ found.
        next_page-KeepsClock fuel t l found page.cursor
          (λ c. revoke_pages-KeepsClock fuel t l (some c)))
      w

untaken :
    (id : UuidV7) (key : String) (rows : List License)
    → All (λ r. r.license_key ≢ key) rows
    → first (license_key_taken id (some key)) rows ≡ none
unfolding license_key_taken
untaken id key [] h = refl
untaken id key (r ∷ rows) h = elim (Bool-cases (r.license_key == key)) [
  | inl same ↦ absurd (h.0 ((eq_iff r.license_key key).0 same))
  | inr apart ↦ ground (arith, apart, untaken id key rows h.1)
]

update_license-returns :
    (license : License) (key : String) (w : World)
    → Table.get license.id w.state.licenses ≡ some license
    → All (λ r. r.license_key ≢ key) (Table.values w.state.licenses)
    → let m = update_license license.id (record no_license_patch { license_key = some key }) in
      (u : License) × ((m w).0 ≡ ok u) × ((m w).1.clock ≡ w.clock)
unfolding update_license adapter_now_iso
update_license-returns license key w found fresh =
    let clear = untaken license.id key (Table.values w.state.licenses) fresh in
    let m = update_license license.id (record no_license_patch { license_key = some key }) in
    elim (Result-cases (m w).0) [
      | inl (u, e) ↦ (u, e, ground (arith, found, clear))
      | inr (e, thrown) ↦ absurd (ground (arith, found, clear, thrown))
    ]

append_audit-returns :
    {A : Type 0} (i : AuditLogInput) (a : A) (w : World)
    → ClockFits w
    → ((append_audit i >>= λ _. pure a) w).0 ≡ ok a
unfolding append_audit new_uuid_v7
append_audit-returns i a w fits = ground (arith, fits w.moment)

module _ (c : Clock) (license : License) (opts : TransitionOptions) where
  -- The transaction's body, once the license is found and not revoked.
  rotate_found-returns :
      (w : World)
      → ClockFits w
      → UsagesKeyed w.state
      → Table.get license.id w.state.licenses ≡ some license
      → All (λ r. r.license_key ≢ license_key_of (w.random w.draws)) (Table.values w.state.licenses)
      → (res : RotateLicenseKeyResult) × ((rotate_found c license opts w).0 ≡ ok res)
  unfolding rotate_found generate_license_key
  rotate_found-returns w fits keyed found fresh =
      let audited : License → Instant → List UuidV7 → Action RotateLicenseKeyResult =
        λ updated now ids. append_audit (rotated_audit license (length ids) now opts) >>= λ _.
        pure (record { license = updated; revoked_usage_ids = ids }) in
      let paged : License → Action RotateLicenseKeyResult = λ updated. now_iso c >>= λ now.
      enough_pages >>= λ fuel. revoke_pages fuel now license.id none >>= audited updated now in
      let key = license_key_of (w.random w.draws) in
      let m = update_license license.id (record no_license_patch { license_key = some key }) in
      let w1 : World = record w { draws = w.draws + 1 } in
      let (updated, done, clock) = update_license-returns license key w1 found fresh in
      let w2 = (m w1).1 in
      let now = c.now_iso w2.moment in
      let w3 : World = record w2 { moment = w2.moment + 1 } in
      let rows = Table.values w3.state.usages in
      let fuel = suc (length rows) in
      let same : w3.state.usages ≡ w.state.usages =
        usages-update_license license.id (record no_license_patch { license_key = some key }) w1 in
      let keyed3 = subst (IsKeyed (λ (r : LicenseUsage). r.id)) (sym same) keyed in
      let active = length-filter-le (usage_matches (active_of (some license.id) none)) rows in
      let (ids, revoked) =
        revoke_pages-returns fuel now license.id none w3 keyed3 tt (omega (arith, active)) in
      let w4 = (revoke_pages fuel now license.id none w3).1 in
      let ticks = revoke_pages-KeepsClock fuel now license.id none w3 ∙ clock in
      let res : RotateLicenseKeyResult = record { license = updated; revoked_usage_ids = ids } in
      (
        res,
        ap (λ r. r.0)
              (bound m paged w1 updated done
                ∙ bound (revoke_pages fuel now license.id none) (audited updated now) w3 ids
                    revoked)
            ∙ append_audit-returns (rotated_audit license (length ids) now opts) res w4
                (subst (λ (k : Clock). (n : ℕ) → k.now_ms n ≤ 0xffffffffffff) (sym ticks) fits),
      )

rotate_body-live :
    (c : Clock) (id : UuidV7) (opts : TransitionOptions) (license : License) (w : World)
    → Table.get id w.state.licenses ≡ some license
    → license.status ≢ LicenseStatus.revoked
    → rotate_body c id opts w ≡ rotate_found c license opts w
unfolding rotate_body
rotate_body-live c id opts license w found live =
    elim (Bool-cases (status_eq license.status LicenseStatus.revoked)) [
      | inl revoked ↦ absurd (live (status_eq-true license.status LicenseStatus.revoked revoked))
      | inr other ↦ ground (arith, found, other)
    ]

-- Outside a transaction, if every usage and the license stand under their own identifiers, the
-- license is not revoked, no stored license has the key that is drawn, and the adapter's clock
-- stays within the 48 bits of an identifier, rotateLicenseKey returns and leaves no active seat
-- of the license, however many pages there were and although every page is read after the rows
-- of the pages before it have left the list.
pub rotate_license_key_frees_seats :
    (c : Clock) (id : UuidV7) (opts : TransitionOptions) (license : License) (w : World)
    → w.tx_depth ≡ 0
    → ClockFits w
    → UsagesKeyed w.state
    → Table.get id w.state.licenses ≡ some license
    → license.id ≡ id
    → license.status ≢ LicenseStatus.revoked
    → All (λ r. r.license_key ≢ license_key_of (w.random w.draws)) (Table.values w.state.licenses)
    → (res : RotateLicenseKeyResult) × ((rotate_license_key c id opts w).0 ≡ ok res)
      × (active_count (rotate_license_key c id opts w).1.state id ≡ 0)
unfolding rotate_license_key
rotate_license_key_frees_seats c id opts license w outside fits keyed found named live fresh =
    let own = ap (λ (k : String). Table.get k w.state.licenses) named ∙ found in
    let (res, done) = rotate_found-returns c license opts (enter w) fits keyed own fresh in
    let returned =
      with_transaction-result (rotate_body c id opts) w outside
      ∙ ap (λ r. r.0) (rotate_body-live c id opts license (enter w) found live)
      ∙ done in
    (res, returned, rotate_license_key-clears c id opts license res w keyed found named returned)
