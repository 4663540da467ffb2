-- ===== src/Storage/Unique/Licenses.antt =====
-- No two licenses have one key, and creating, changing and re-keying licenses keeps it so.
use licensing.Common.{
  String, ◌≡◌, ◌≢◌, sym, ◌∙◌, some, none, arith, inl, inr, eq_iff, first, Option-cases,
}
use licensing.Table
use licensing.Table.Unique.{IsUnique, set-IsUnique}
use licensing.Types.{License, UuidV7, Instant}
use licensing.Storage.Monad.{State, World}
use licensing.Storage.Shapes.{LicenseInput, LicensePatch}
use licensing.Storage.Licenses.{
  license_conflict, license_row, create_license, license_key_taken, license_patched, update_license,
}
use licensing.Storage.Licenses.Cases.{create_license-cases, update_license-cases}
use licensing.Table.Keyed.{IsKeyed, get-IsKeyed}

abbrev SameKey : License → License → Type 0
SameKey a b = a.license_key ≡ b.license_key

-- No two licenses have one license key.
abbrev pub HasUniqueLicenseKeys : State → Type 0
HasUniqueLicenseKeys s = IsUnique SameKey s.licenses

clear_of_conflict :
    (i : LicenseInput) (row : License)
    → license_conflict i row ≡ none
    → i.license_key ≢ row.license_key
unfolding license_conflict
clear_of_conflict i row h e = ground (arith, eq_iff row.license_key i.license_key)

-- If no two licenses have one license key, the same holds after createLicense, whether it
-- returns or throws.
pub create_license-HasUniqueLicenseKeys :
    (i : LicenseInput) (w : World)
    → HasUniqueLicenseKeys w.state
    → HasUniqueLicenseKeys (create_license i w).1.state
create_license-HasUniqueLicenseKeys i w unique = elim (create_license-cases i w) [
  | inl failed ↦ rw (failed.state) unique
  | inr (id, now, minted, clear, done) ↦ rw (done.state) (
      set-IsUnique SameKey id (license_row i id now) w.state.licenses (λ a b e. sym e)
        (λ j b away found.
          clear_of_conflict i b
            (Table.get-first (license_conflict i) w.state.licenses j b clear found))
        unique)
]

-- What a change of the license key has been checked against.
clear_of_taken :
    (id : UuidV7) (k : String) (row : License)
    → license_key_taken id (some k) row ≡ none
    → id ≢ row.id
    → k ≢ row.license_key
unfolding license_key_taken
clear_of_taken id k row h away e =
    ground (arith, eq_iff row.license_key k, eq_iff row.id id, λ (q : row.id ≡ id). away (sym q))

-- The row that `updateLicense` writes has the key of no other license.
patched_apart :
    (id : UuidV7) (p : LicensePatch) (cur : License) (now : Instant) (w : World)
    → IsKeyed (λ (r : License). r.id) w.state.licenses
    → HasUniqueLicenseKeys w.state
    → Table.get id w.state.licenses ≡ some cur
    → first (license_key_taken id p.license_key) (Table.values w.state.licenses) ≡ none
    → (j : UuidV7) (b : License) → id ≢ j
    → Table.get j w.state.licenses ≡ some b
    → ¬ SameKey (license_patched cur p now) b
patched_apart id p cur now w keyed unique found clear j b away there =
    let own = get-IsKeyed (λ (r : License). r.id) j b w.state.licenses keyed there in
    let free =
      Table.get-first (license_key_taken id p.license_key) w.state.licenses j b clear there in
    elim (Option-cases p.license_key) [
      | inl same ↦ λ e. away (unique id j cur b found there (ground arith))
      | inr (k, new) ↦
          λ e. clear_of_taken id k b (rw new at free) (λ q. away (q ∙ own)) (ground arith)
    ]

-- If every license stands under its own identifier and no two licenses have one license key,
-- the same holds after updateLicense, a change of the key included, whether it returns or
-- throws.
pub update_license-HasUniqueLicenseKeys :
    (id : UuidV7) (p : LicensePatch) (w : World)
    → IsKeyed (λ (r : License). r.id) w.state.licenses
    → HasUniqueLicenseKeys w.state
    → HasUniqueLicenseKeys (update_license id p w).1.state
update_license-HasUniqueLicenseKeys id p w keyed unique = elim (update_license-cases id p w) [
  | inl failed ↦ rw (failed.state) unique
  | inr (cur, now, found, clear, done) ↦ rw (done.state) (
      set-IsUnique SameKey id (license_patched cur p now) w.state.licenses (λ a b e. sym e)
        (patched_apart id p cur now w keyed unique found clear) unique)
]
