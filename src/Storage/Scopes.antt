-- ===== src/Storage/Scopes.antt =====
-- The scope methods of `MemoryStorage`.
use licensing.Common.{String, ◌==◌, true, Option, none, some, if◌then◌else◌, first, filter, get_or}
use licensing.Table
use licensing.Types.{LicenseScope, UuidV7, Instant}
use licensing.Errors.{Error, ok, unique_constraint_violation}
use licensing.Storage.Monad.{
  Action, gets, or_throw, throw_found, ◌>>=◌, ◌>>◌, adapter_now_iso, new_uuid_v7,
}
use licensing.Storage.Shapes.{LicenseScopeInput, LicenseScopePatch, LicenseScopeFilter}
use licensing.Storage.Paging.{CursorTuple, Page, PageRequest, paginate}

abbrev pub scope_cursor : LicenseScope → CursorTuple
scope_cursor r = record { created_at = r.created_at; id = r.id }

-- The check that `createScope` makes of one stored row.
unfoldable pub scope_conflict : LicenseScopeInput → LicenseScope → Option Error
scope_conflict input row =
    if row.slug == input.slug then some (unique_constraint_violation "slug" input.slug) else none

abbrev pub scope_row : LicenseScopeInput → UuidV7 → Instant → LicenseScope
scope_row input id now = record {
  id = id;
  slug = input.slug;
  name = input.name;
  meta = input.meta;
  created_at = now;
  updated_at = now;
}

abbrev pub save_scope : UuidV7 → LicenseScope → Action LicenseScope
save_scope id row w =
    (ok row, record w { state = record w.state { scopes = Table.set id row w.state.scopes } })

-- `createScope`
unfoldable pub create_scope : LicenseScopeInput → Action LicenseScope
create_scope input = do
  rows ← gets (λ s. Table.values s.scopes)
  throw_found (first (scope_conflict input) rows)
  now ← adapter_now_iso
  id ← new_uuid_v7
  save_scope id (scope_row input id now)

-- `getScope`
abbrev pub get_scope : UuidV7 → Action (Option LicenseScope)
get_scope id = gets (λ s. Table.get id s.scopes)

abbrev has_slug : String → LicenseScope → Option LicenseScope
has_slug slug row = if row.slug == slug then some row else none

-- `getScopeBySlug`
unfoldable pub get_scope_by_slug : String → Action (Option LicenseScope)
get_scope_by_slug slug = gets (λ s. first (has_slug slug) (Table.values s.scopes))

-- `listScopes`
unfoldable pub list_scopes : LicenseScopeFilter → PageRequest → Action (Page LicenseScope)
list_scopes f page = gets (λ s.
    paginate scope_cursor
      (filter (λ (r : LicenseScope). elim f.slug [ none ↦ true | some x ↦ r.slug == x ])
        (Table.values s.scopes))
      page)

abbrev pub scope_patched : LicenseScope → LicenseScopePatch → Instant → LicenseScope
scope_patched cur patch now = record cur {
  name = get_or patch.name cur.name;
  meta = get_or patch.meta cur.meta;
  updated_at = now;
}

-- `updateScope`
unfoldable pub update_scope : UuidV7 → LicenseScopePatch → Action LicenseScope
update_scope id patch = do
  found ← get_scope id
  cur ← or_throw found (unique_constraint_violation "pk" id)
  now ← adapter_now_iso
  save_scope id (scope_patched cur patch now)
