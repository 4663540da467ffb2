-- ===== src/LicenseService/Rotation.antt =====
-- A rotated key leaves no seat: `rotateLicenseKey` of typescript/src/license-service.ts, whose pages
-- are read while the rows of the list change.
use licensing.Common.{
  ℕ, zero, suc, ◌+◌, String, true, ◌≡◌, inl, inr, refl, sym, ap, ◌∙◌, Option, none, some, List, [],
  ◌∷◌, ◌++◌, filter, take, All, All-map, Bool-cases, arith, length,
}
use mathlib.Core.Path.{subst}
use licensing.Table
use licensing.Table.Keyed.{IsKeyed}
use licensing.Types.{License, LicenseStatus, status_eq, LicenseUsage, UuidV7, Instant}
use licensing.Errors.{ok, Result-cases}
use licensing.Id.{Clock}
use licensing.Lifecycle.{TransitionOptions}
use licensing.Storage.Monad.{State, World, Action, pure, now_iso, ◌>>=◌}
use licensing.Storage.Frame.{>>=-eq-ok}
use licensing.Storage.Paging.{CursorTuple, is_after, sort, page_from, paginate, Page}
use licensing.Storage.Paging.Sort.{unsort-All, sort-IsDescending}
use licensing.Storage.Usages.{usage_matches, usage_cursor, list_usages}
use licensing.UsageService.{active_of, enough_pages}
use licensing.UsageService.Pages.{active_rows, active_count, UsagesKeyed, active_rows-distinct}
use licensing.LicenseService.{
  revoke_each, revoke_pages, RotateLicenseKeyResult, rotated_audit, rotate_found, rotate_body,
  rotate_license_key,
}
use licensing.LicenseKey.{generate_license_key}
use licensing.Storage.Licenses.{update_license, no_license_patch}
use licensing.Storage.Shapes.{AuditLogInput}
use licensing.Storage.Audit.{append_audit}
use licensing.Storage.Tx.Laws.{enter, with_transaction-commit}
use licensing.UsageService.Register.{usages-append_audit, usages-update_license}
use licensing.Table.{Table}
use licensing.LicenseService.RevokedRows.{Listed, revoke_each-remaining}
use licensing.LicenseService.RevokedPages.{
  Ahead, paginate-Ahead, page_from-cases, Listed-self, split_page, next_page, next_page-none,
  next_page-some,
}

-- The loop of the pages, from a cursor before every active row.
revoke_pages-clears :
    (fuel : ℕ) (t : Instant) (l : UuidV7) (cursor : Option CursorTuple) (ids : List UuidV7)
    (w : World)
    → UsagesKeyed w.state
    → Ahead cursor (active_rows w.state l none)
    → (revoke_pages fuel t l cursor w).0 ≡ ok ids
    → All (λ _. ⊥) (active_rows (revoke_pages fuel t l cursor w).1.state l none)
unfolding revoke_pages list_usages page_from sort
revoke_pages-clears zero t l cursor ids w keyed ahead h = absurd (ground (arith, h))
revoke_pages-clears (suc fuel) t l cursor ids w keyed ahead h =
    let rows = active_rows w.state l none in
    let sorted = sort usage_cursor rows in
    let page = paginate usage_cursor rows (record { limit = 500; cursor = cursor }) in
    let first_page = paginate-Ahead cursor rows ahead in
    let next : List UuidV7 → Action (List UuidV7) = λ found. next_page fuel t l found page.cursor in
    let (found, revoked, rest, whole) = >>=-eq-ok (revoke_each t page.items) next w ids h in
    let v = (revoke_each t page.items w).1 in
    elim (page_from-cases sorted 499) [
      | inl (no_cursor, everything) ↦
          let ended : next found v ≡ (ok found, v) =
            next_page-none fuel t l found v page.cursor
              (ap (λ (p : Page LicenseUsage). p.cursor) first_page ∙ no_cursor) in
          let items : page.items ≡ sorted =
            ap (λ (p : Page LicenseUsage). p.items) first_page ∙ everything in
          let listed =
            subst (λ (xs : List LicenseUsage). All (Listed xs) sorted) (sym items)
              (Listed-self sorted) in
          let (kept, cleared) =
            revoke_each-remaining l t (λ _. ⊥) page.items found w keyed
              (unsort-All usage_cursor _ rows (All-map _ _ (λ r e. inl e) sorted listed)) revoked in
          subst (λ (s : State). All (λ _. ⊥) (active_rows s l none))
            (sym (ap (λ r. r.1.state) (whole ∙ ended))) cleared
      | inr (r, at, ends) ↦
          let c = usage_cursor r in
          let items : page.items ≡ take 500 sorted =
            ap (λ (p : Page LicenseUsage). p.items) first_page in
          let parts =
            split_page sorted 500 r page.items items ends
              (sort-IsDescending usage_cursor rows (active_rows-distinct w.state l none keyed)) in
          let (kept, left) =
            revoke_each-remaining l t (λ y. is_after (usage_cursor y) c ≡ true) page.items found w
              keyed (unsort-All usage_cursor _ rows parts) revoked in
          let goes_on =
            next_page-some fuel t l found v page.cursor c
              (ap (λ (p : Page LicenseUsage). p.cursor) first_page ∙ at) in
          let (others, later, last_step, whole') =
            >>=-eq-ok (revoke_pages fuel t l (some c)) (λ rest. pure (found ++ rest)) v ids
              (sym (ap (λ r. r.0) goes_on) ∙ rest) in
          subst (λ (s : State). All (λ _. ⊥) (active_rows s l none))
            (sym (ap (λ r. r.1.state) (whole ∙ goes_on ∙ whole')))
            (revoke_pages-clears fuel t l (some c) others v kept left later)
    ]

none_left : (rows : List LicenseUsage) → All (λ _. ⊥) rows → length rows ≡ 0
none_left [] h = refl
none_left (x ∷ rows) h = absurd h.0

usages-generate_license_key : (w : World) → (generate_license_key w).1.state.usages ≡ w.state.usages
unfolding generate_license_key
usages-generate_license_key w = refl

usages-audited :
    {A : Type 0} (i : AuditLogInput) (a : A) (w : World)
    → ((append_audit i >>= λ _. pure a) w).1.state.usages ≡ w.state.usages
usages-audited i a w = elim (Result-cases (append_audit i w).0) [
  | inl (entry, e) ↦ grind (arith, e, usages-append_audit)
  | inr (failure, e) ↦ grind (arith, e, usages-append_audit)
]

-- The active rows depend on the table of usages only.
rows_of_usages :
    (s t : State) (l : UuidV7) → s.usages ≡ t.usages → active_rows s l none ≡ active_rows t l none
rows_of_usages s t l e =
    ap
      (λ (m : Table LicenseUsage).
        filter (usage_matches (active_of (some l) none)) (Table.values m))
      e

rotate_found-clears :
    (c : Clock) (license : License) (opts : TransitionOptions) (res : RotateLicenseKeyResult)
    (w : World)
    → UsagesKeyed w.state
    → (rotate_found c license opts w).0 ≡ ok res
    → active_count (rotate_found c license opts w).1.state license.id ≡ 0
unfolding rotate_found
rotate_found-clears c license opts res w keyed h =
    let audited : License → Instant → List UuidV7 → Action RotateLicenseKeyResult =
      λ updated now ids. append_audit (rotated_audit license (length ids) now opts) >>= λ _.
      pure (record { license = updated; revoked_usage_ids = ids }) in
    let paged : License → Action RotateLicenseKeyResult = λ updated. now_iso c >>= λ now.
    enough_pages >>= λ fuel. revoke_pages fuel now license.id none >>= audited updated now in
    let patch = λ (k : String). record no_license_patch { license_key = some k } in
    let (k, k_ok, rest1, whole1) =
      >>=-eq-ok generate_license_key (λ k. update_license license.id (patch k) >>= paged) w res h in
    let w1 = (generate_license_key w).1 in
    let (updated, u_ok, rest2, whole2) =
      >>=-eq-ok (update_license license.id (patch k)) paged w1 res rest1 in
    let w2 = (update_license license.id (patch k) w1).1 in
    let now = c.now_iso w2.moment in
    let w3 : World = record w2 { moment = w2.moment + 1 } in
    let fuel = suc (length (Table.values w2.state.usages)) in
    let (ids, ids_ok, rest3, whole3) =
      >>=-eq-ok (revoke_pages fuel now license.id none) (audited updated now) w3 res rest2 in
    let w4 = (revoke_pages fuel now license.id none w3).1 in
    let same : w3.state.usages ≡ w.state.usages =
      usages-update_license license.id (patch k) w1 ∙ usages-generate_license_key w in
    let keyed3 = subst (IsKeyed (λ (r : LicenseUsage). r.id)) (sym same) keyed in
    let cleared = revoke_pages-clears fuel now license.id none ids w3 keyed3 tt ids_ok in
    let final =
      ap (λ r. r.1.state.usages) (whole1 ∙ whole2 ∙ whole3)
      ∙ usages-audited (rotated_audit license (length ids) now opts)
          (record { license = updated; revoked_usage_ids = ids }) w4 in
    ap length (rows_of_usages (rotate_found c license opts w).1.state w4.state license.id final)
    ∙ none_left _ cleared

rotate_body-found :
    (c : Clock) (id : UuidV7) (opts : TransitionOptions) (license : License)
    (res : RotateLicenseKeyResult) (w : World)
    → Table.get id w.state.licenses ≡ some license
    → (rotate_body c id opts w).0 ≡ ok res
    → rotate_body c id opts w ≡ rotate_found c license opts w
unfolding rotate_body
rotate_body-found c id opts license res w found h =
    elim (Bool-cases (status_eq license.status LicenseStatus.revoked)) [
      | inl revoked ↦ absurd (ground (arith, found, revoked, h))
      | inr other ↦ ground (arith, found, other)
    ]

-- A rotation that returns leaves no active seat of the license.
pub rotate_license_key-clears :
    (c : Clock) (id : UuidV7) (opts : TransitionOptions) (license : License)
    (res : RotateLicenseKeyResult) (w : World)
    → UsagesKeyed w.state
    → Table.get id w.state.licenses ≡ some license
    → license.id ≡ id
    → (rotate_license_key c id opts w).0 ≡ ok res
    → active_count (rotate_license_key c id opts w).1.state id ≡ 0
unfolding rotate_license_key
rotate_license_key-clears c id opts license res w keyed found named h =
    let (depth, body, state) = with_transaction-commit (rotate_body c id opts) w res h in
    let begun = rotate_body-found c id opts license res (enter w) found body in
    ap (λ (s : State). active_count s id) (state ∙ ap (λ r. r.1.state) begun)
    ∙ ap (active_count (rotate_found c license opts (enter w)).1.state) (sym named)
    ∙ rotate_found-clears c license opts res (enter w) keyed (sym (ap (λ r. r.0) begun) ∙ body)
