-- ===== src/Storage/Keys.antt =====
-- The key methods of `MemoryStorage`.
pub mod Cases
use licensing.Common.{
  String, ◌==◌, Bool, true, false, not, ◌&&◌, Option, none, some, if◌then◌else◌, first, filter,
  opt_text_eq, get_or,
}
use licensing.Table
use licensing.Types.{
  LicenseKey, KeyState, KeyRole, key_state_eq, key_role_eq, key_alg_eq, UuidV7, Instant,
}
use licensing.Errors.{Error, ok, unique_constraint_violation}
use licensing.Storage.Monad.{
  Action, gets, or_throw, throw_found, ◌>>=◌, ◌>>◌, adapter_now_iso, new_uuid_v7,
}
use licensing.Storage.Shapes.{LicenseKeyInput, LicenseKeyPatch, LicenseKeyFilter}
use licensing.Storage.Paging.{CursorTuple, Page, PageRequest, paginate}

abbrev pub key_cursor : LicenseKey → CursorTuple
key_cursor r = record { created_at = r.created_at; id = r.id }

-- An active signing key of a scope.
unfoldable pub signs_for : Option UuidV7 → LicenseKey → Bool
signs_for scope_id row =
    key_role_eq row.role KeyRole.signing
    && (key_state_eq row.state KeyState.active && opt_text_eq row.scope_id scope_id)

-- The two loops of checks that `createKey` makes, each of one stored row.
unfoldable pub kid_conflict : LicenseKeyInput → LicenseKey → Option Error
kid_conflict input row =
    if row.kid == input.kid then some (unique_constraint_violation "kid" input.kid) else none

unfoldable pub signing_conflict : LicenseKeyInput → LicenseKey → Option Error
unfolding signs_for
signing_conflict input row =
    if (key_role_eq input.role KeyRole.signing && key_state_eq input.state KeyState.active)
      && signs_for input.scope_id row
    then some (unique_constraint_violation "scope_active_signing" (get_or input.scope_id "null"))
    else none

abbrev pub key_row : LicenseKeyInput → UuidV7 → Instant → LicenseKey
key_row input id now = record {
  id = id;
  scope_id = input.scope_id;
  kid = input.kid;
  alg = input.alg;
  role = input.role;
  state = input.state;
  public_pem = input.public_pem;
  private_pem_enc = input.private_pem_enc;
  rotated_from = input.rotated_from;
  rotated_at = input.rotated_at;
  not_before = input.not_before;
  not_after = input.not_after;
  meta = input.meta;
  created_at = now;
  updated_at = now;
}

abbrev pub save_key : UuidV7 → LicenseKey → Action LicenseKey
save_key id row w =
    (ok row, record w { state = record w.state { keys = Table.set id row w.state.keys } })

-- `createKey`
unfoldable pub create_key : LicenseKeyInput → Action LicenseKey
create_key input = do
  rows ← gets (λ s. Table.values s.keys)
  throw_found (first (kid_conflict input) rows)
  throw_found (first (signing_conflict input) rows)
  now ← adapter_now_iso
  id ← new_uuid_v7
  save_key id (key_row input id now)

-- `getKey`
abbrev pub get_key : UuidV7 → Action (Option LicenseKey)
get_key id = gets (λ s. Table.get id s.keys)

abbrev has_kid : String → LicenseKey → Option LicenseKey
has_kid kid row = if row.kid == kid then some row else none

-- `getKeyByKid`
unfoldable pub get_key_by_kid : String → Action (Option LicenseKey)
get_key_by_kid kid = gets (λ s. first (has_kid kid) (Table.values s.keys))

-- The predicate of `listKeys`.
unfoldable pub key_matches : LicenseKeyFilter → LicenseKey → Bool
key_matches f r =
    elim f.scope_id [ none ↦ true | some x ↦ opt_text_eq r.scope_id x ]
    && (elim f.kid [ none ↦ true | some x ↦ r.kid == x ]
        && (elim f.alg [ none ↦ true | some x ↦ key_alg_eq r.alg x ]
            && (elim f.role [ none ↦ true | some x ↦ key_role_eq r.role x ]
                && elim f.state [ none ↦ true | some x ↦ key_state_eq r.state x ])))

-- `listKeys`
unfoldable pub list_keys : LicenseKeyFilter → PageRequest → Action (Page LicenseKey)
list_keys f page =
    gets (λ s. paginate key_cursor (filter (key_matches f) (Table.values s.keys)) page)

abbrev pub key_patched : LicenseKey → LicenseKeyPatch → Instant → LicenseKey
key_patched cur patch now = record cur {
  state = get_or patch.state cur.state;
  rotated_from = get_or patch.rotated_from cur.rotated_from;
  rotated_at = get_or patch.rotated_at cur.rotated_at;
  not_after = get_or patch.not_after cur.not_after;
  meta = get_or patch.meta cur.meta;
  updated_at = now;
}

-- The patch activates a signing key that was not active.
abbrev activates_signing : LicenseKey → LicenseKeyPatch → Bool
activates_signing cur patch =
    elim patch.state [ none ↦ false | some s ↦ key_state_eq s KeyState.active ]
    && (not (key_state_eq cur.state KeyState.active) && key_role_eq cur.role KeyRole.signing)

-- The check that `updateKey` makes of one stored row.
unfoldable pub signing_taken : UuidV7 → LicenseKey → LicenseKeyPatch → LicenseKey → Option Error
unfolding signs_for
signing_taken id cur patch row =
    if activates_signing cur patch && (not (row.id == id) && signs_for cur.scope_id row)
    then some (unique_constraint_violation "scope_active_signing" (get_or cur.scope_id "null"))
    else none

-- `updateKey`
unfoldable pub update_key : UuidV7 → LicenseKeyPatch → Action LicenseKey
update_key id patch = do
  found ← get_key id
  cur ← or_throw found (unique_constraint_violation "pk" id)
  rows ← gets (λ s. Table.values s.keys)
  throw_found (first (signing_taken id cur patch) rows)
  now ← adapter_now_iso
  save_key id (key_patched cur patch now)
