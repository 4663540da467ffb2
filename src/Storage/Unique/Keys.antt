-- ===== src/Storage/Unique/Keys.antt =====
-- A scope has one active signing key at most, and creating and changing keys keeps it so.
use licensing.Common.{
  opt_text_eq-true, ◌≡◌, ◌≢◌, sym, ◌∙◌, Bool, ◌&&◌, true, false, some, none, arith, inl, inr,
  eq_iff, first, Option-cases, Bool-cases,
}
use licensing.Table
use licensing.Table.Unique.{IsUnique, set-IsUnique}
use licensing.Table.Keyed.{IsKeyed, get-IsKeyed}
use licensing.Types.{LicenseKey, KeyState, KeyRole, key_state_eq, key_role_eq, UuidV7, Instant}
use licensing.Storage.Monad.{State, World}
use licensing.Storage.Shapes.{LicenseKeyInput, LicenseKeyPatch}
use licensing.Storage.Keys.{
  signs_for, signing_conflict, key_row, create_key, signing_taken, key_patched, update_key,
}
use licensing.Storage.Keys.Cases.{create_key-cases, update_key-cases}

-- An active signing key.
abbrev is_signing : LicenseKey → Bool
is_signing row = key_role_eq row.role KeyRole.signing && key_state_eq row.state KeyState.active

-- Two active signing keys of one scope.
abbrev SameSigner : LicenseKey → LicenseKey → Type 0
SameSigner a b = (a.scope_id ≡ b.scope_id) × (is_signing a ≡ true) × (is_signing b ≡ true)

SameSigner-sym : (a b : LicenseKey) → SameSigner a b → SameSigner b a
SameSigner-sym a b h = (sym h.0, h.2, h.1)

-- A scope, or no scope, has one active signing key at most.
abbrev pub HasOneSigner : State → Type 0
HasOneSigner s = IsUnique SameSigner s.keys

clear_of_conflict :
    (i : LicenseKeyInput) (id : UuidV7) (now : Instant) (row : LicenseKey)
    → signing_conflict i row ≡ none
    → ¬ SameSigner (key_row i id now) row
unfolding signing_conflict signs_for
clear_of_conflict i id now row h (scope, a, b) =
    let same = opt_text_eq-true row.scope_id i.scope_id (sym scope) in ground arith

-- If a scope, or no scope, has one active signing key at most, the same holds after createKey,
-- whether it returns or throws.
pub create_key-HasOneSigner :
    (i : LicenseKeyInput) (w : World) → HasOneSigner w.state → HasOneSigner (create_key i w).1.state
create_key-HasOneSigner i w unique = elim (create_key-cases i w) [
  | inl failed ↦ rw (failed.state) unique
  | inr (id, now, new, clear, done) ↦ rw (done.state) (
      set-IsUnique SameSigner id (key_row i id now) w.state.keys SameSigner-sym
        (λ j b away found.
          clear_of_conflict i id now b
            (Table.get-first (signing_conflict i) w.state.keys j b clear found))
        unique)
]

clear_of_taken :
    (id : UuidV7) (cur : LicenseKey) (p : LicenseKeyPatch) (now : Instant) (row : LicenseKey)
    → signing_taken id cur p row ≡ none
    → id ≢ row.id
    → is_signing cur ≡ false
    → ¬ SameSigner (key_patched cur p now) row
unfolding signing_taken signs_for
clear_of_taken id cur p now row h away idle (scope, a, b) =
    let same = opt_text_eq-true row.scope_id cur.scope_id (sym scope) in
    elim (Option-cases p.state) [
      | inl kept ↦ ground arith
      | inr (s, new) ↦ ground (arith, eq_iff row.id id, λ (q : row.id ≡ id). away (sym q))
    ]

patched_apart :
    (id : UuidV7) (p : LicenseKeyPatch) (cur : LicenseKey) (now : Instant) (w : World)
    → IsKeyed (λ (r : LicenseKey). r.id) w.state.keys
    → HasOneSigner w.state
    → Table.get id w.state.keys ≡ some cur
    → first (signing_taken id cur p) (Table.values w.state.keys) ≡ none
    → (j : UuidV7) (b : LicenseKey) → id ≢ j
    → Table.get j w.state.keys ≡ some b
    → ¬ SameSigner (key_patched cur p now) b
patched_apart id p cur now w keyed unique found clear j b away there clash =
    let own = get-IsKeyed (λ (r : LicenseKey). r.id) j b w.state.keys keyed there in
    elim (Bool-cases (is_signing cur)) [
      | inl signs ↦ away (unique id j cur b found there (clash.0, signs, clash.2))
      | inr idle ↦
          clear_of_taken id cur p now b
            (Table.get-first (signing_taken id cur p) w.state.keys j b clear there)
            (λ q. away (q ∙ own)) idle clash
    ]

-- If every key stands under its own identifier and a scope, or no scope, has one active signing
-- key at most, the same holds after updateKey, an activation included, whether it returns or
-- throws.
pub update_key-HasOneSigner :
    (id : UuidV7) (p : LicenseKeyPatch) (w : World)
    → IsKeyed (λ (r : LicenseKey). r.id) w.state.keys
    → HasOneSigner w.state
    → HasOneSigner (update_key id p w).1.state
update_key-HasOneSigner id p w keyed unique = elim (update_key-cases id p w) [
  | inl failed ↦ rw (failed.state) unique
  | inr (cur, now, found, clear, done) ↦ rw (done.state) (
      set-IsUnique SameSigner id (key_patched cur p now) w.state.keys SameSigner-sym
        (patched_apart id p cur now w keyed unique found clear) unique)
]
