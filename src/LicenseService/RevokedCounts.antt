-- ===== src/LicenseService/RevokedCounts.antt =====
-- How many rows the pages of `rotateLicenseKey` of typescript/src/license-service.ts leave.
use licensing.Common.{
  ℕ, zero, suc, ◌≤◌, ◌<◌, Bool, true, false, ◌&&◌, ◌≡◌, inl, inr, ap, ◌∙◌, none, some, List, [],
  ◌∷◌, filter, take, All, Bool-cases, arith, length, text_lt_irrefl, eq_refl, ltb, ltb→lt,
}
use mathlib.Core.Path.{subst}
use licensing.Table
use licensing.Table.Keyed.{count_rows, count-set_dropped}
use licensing.Types.{LicenseUsage, UuidV7, Instant}
use licensing.Errors.{ok}
use licensing.Storage.Monad.{State, World, pure, ◌>>=◌}
use licensing.Storage.Frame.{>>=-eq-ok}
use licensing.Storage.Paging.{CursorTuple, last, is_after, sort}
use licensing.Storage.Paging.Sort.{sort-All}
use licensing.Storage.Usages.{usage_matches, usage_patched, usage_cursor, update_usage}
use licensing.Storage.Usages.Cases.{update_usage-cases}
use licensing.UsageService.{active_of, revoked_patch}
use licensing.UsageService.Pages.{active_rows}
use licensing.LicenseService.{revoke_each}
use licensing.LicenseService.RevokedRows.{seat_revoked}

module _ {A : Type 0} (p q : A → Bool) where
  length-filter_both : (xs : List A) → length (filter (λ x. p x && q x) xs) ≤ length (filter p xs)
  length-filter_both [] = omega arith
  length-filter_both (x ∷ xs) = ground (arith, length-filter_both xs)

  filter_both-All :
      (xs : List A)
      → All (λ x. q x ≡ true) (filter p xs)
      → length (filter p xs) ≤ length (filter (λ x. p x && q x) xs)
  filter_both-All [] h = omega arith
  filter_both-All (x ∷ xs) h = elim (Bool-cases (p x)) [
    | inl picked ↦ let k = rw picked at h in ground (arith, picked, k.0, filter_both-All xs k.1)
    | inr dropped ↦ let k = rw dropped at h in ground (arith, dropped, filter_both-All xs k)
  ]

  All-filter_both :
      (xs : List A)
      → length (filter p xs) ≤ length (filter (λ x. p x && q x) xs)
      → All (λ x. q x ≡ true) (filter p xs)
  All-filter_both [] h = tt
  All-filter_both (x ∷ xs) h = elim (Bool-cases (p x)) [
    | inl picked ↦ rw picked (
      ground (arith, picked, length-filter_both xs),
      All-filter_both xs (ground (arith, picked, length-filter_both xs)),
    )
    | inr dropped ↦ rw dropped (All-filter_both xs (ground (arith, dropped)))
  ]

pub All-take : {A : Type 0} (P : A → Type 0) (n : ℕ) (xs : List A) → All P xs → All P (take n xs)
All-take P zero xs h = tt
All-take P (suc n) [] h = tt
All-take P (suc n) (x ∷ xs) h = (h.0, All-take P n xs h.1)

last-All : {A : Type 0} (P : A → Type 0) (xs : List A) (r : A) → All P xs → last xs ≡ some r → P r
unfolding last
last-All P [] r h e = absurd (ground (arith, e))
last-All P (x ∷ []) r h e = let same : x ≡ r = ground (arith, e) in subst P same h.0
last-All P (x ∷ y ∷ xs) r h e = last-All P (y ∷ xs) r h.1 e

-- The active rows of a license that a second test picks.
abbrev picked_rows : UuidV7 → (LicenseUsage → Bool) → State → ℕ
picked_rows l q s = count_rows (λ r. usage_matches (active_of (some l) none) r && q r) s.usages

update_usage-picked :
    (l : UuidV7) (id : UuidV7) (t : Instant) (q : LicenseUsage → Bool) (w : World)
    → picked_rows l q (update_usage id (revoked_patch t) w).1.state ≤ picked_rows l q w.state
update_usage-picked l id t q w = elim (update_usage-cases id (revoked_patch t) w) [
  | inl failed ↦ rw failed.state (omega arith)
  | inr (cur, now, there, clear, done) ↦
      let row = usage_patched cur (revoked_patch t) now in
      rw done.state (
        count-set_dropped (λ r. usage_matches (active_of (some l) none) r && q r) id row
          w.state.usages (ap (λ b. b && q row) (seat_revoked l cur t now)))
]

revoke_each-picked :
    (l : UuidV7) (t : Instant) (q : LicenseUsage → Bool) (items : List LicenseUsage)
    (ids : List UuidV7) (w : World)
    → (revoke_each t items w).0 ≡ ok ids
    → picked_rows l q (revoke_each t items w).1.state ≤ picked_rows l q w.state
unfolding revoke_each
revoke_each-picked l t q [] ids w h = omega arith
revoke_each-picked l t q (x ∷ items) ids w h =
    let (u, updated, rest, whole) =
      >>=-eq-ok (update_usage x.id (revoked_patch t))
        (λ _. revoke_each t items >>= λ rest. pure (x.id ∷ rest)) w ids h in
    let v = (update_usage x.id (revoked_patch t) w).1 in
    let (ids', others, last_step, whole') =
      >>=-eq-ok (revoke_each t items) (λ rest. pure (x.id ∷ rest)) v ids rest in
    let done : (revoke_each t (x ∷ items) w).1.state ≡ (revoke_each t items v).1.state =
      ap (λ r. r.1.state) (whole ∙ whole') in
    let one = update_usage-picked l x.id t q w in
    let more = revoke_each-picked l t q items ids' v others in
    let same = ap (picked_rows l q) done in omega (arith, one, more, same)

is_after_irrefl : (c : CursorTuple) → is_after c c ≡ false
unfolding is_after
is_after_irrefl c = ground (arith, text_lt_irrefl c.id, eq_refl c.created_at)

-- If all that is left comes after the last row of a page, less is left than there was.
pub revoke_each-fewer :
    (l : UuidV7) (t : Instant) (n : ℕ) (r : LicenseUsage) (items : List LicenseUsage)
    (ids : List UuidV7) (w : World)
    → last (take n (sort usage_cursor (active_rows w.state l none))) ≡ some r
    → (revoke_each t items w).0 ≡ ok ids
    → let after = (revoke_each t items w).1.state in
      All (λ y. is_after (usage_cursor y) (usage_cursor r) ≡ true) (active_rows after l none)
      → length (active_rows after l none) < length (active_rows w.state l none)
revoke_each-fewer l t n r items ids w ends h left =
    let p = usage_matches (active_of (some l) none) in
    let q = λ (y : LicenseUsage). is_after (usage_cursor y) (usage_cursor r) in
    let after = (revoke_each t items w).1.state in
    let rows = active_rows w.state l none in
    let counted = filter_both-All p q (Table.values after.usages) left in
    let fewer = revoke_each-picked l t q items ids w h in
    let refuted : length rows ≤ length (active_rows after l none) → ⊥ =
      λ (k : length rows ≤ length (active_rows after l none)).
        let all =
          All-filter_both p q (Table.values w.state.usages) (omega (arith, k, counted, fewer)) in
        let self =
          last-All (λ y. q y ≡ true) _ r
            (All-take (λ y. q y ≡ true) n _ (sort-All usage_cursor (λ y. q y ≡ true) rows all))
            ends in
        absurd (ground (arith, self, is_after_irrefl (usage_cursor r))) in
    elim (Bool-cases (ltb (length (active_rows after l none)) (length rows))) [
      | inl less ↦ ltb→lt _ _ less
      | inr not_less ↦ absurd (refuted (ground (arith, not_less)))
    ]
