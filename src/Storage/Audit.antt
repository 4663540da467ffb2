-- ===== src/Storage/Audit.antt =====
-- The audit log of `MemoryStorage`, append-only, with `deriveActorKind` and `resolveActorKind` of
-- typescript/src/storage/types.ts.
pub mod Cases
use text.Mathlib.Text.{starts_with}
use licensing.Common.{
  String, ◌==◌, Bool, true, false, not, ◌&&◌, ◌||◌, Option, none, some, List, if◌then◌else◌, get_or,
  any, filter, opt_text_eq, text_lt,
}
use licensing.Table
use licensing.Types.{AuditLogEntry, License, ActorKind, UuidV7}
use licensing.Errors.{ok}
use licensing.Storage.Monad.{Action, gets, ◌>>=◌, new_uuid_v7}
use licensing.Storage.Shapes.{AuditLogInput, AuditLogFilter}
use licensing.Storage.Paging.{CursorTuple, Page, PageRequest, paginate}

-- `deriveActorKind`
unfoldable pub derive_actor_kind : String → ActorKind
derive_actor_kind actor =
    if actor == "system" || starts_with actor "system:"
    then ActorKind.system
    else if actor == "admin" || starts_with actor "admin:"
    then ActorKind.admin
    else if actor == "client" || starts_with actor "client:"
    then ActorKind.client
    else ActorKind.unknown

-- `resolveActorKind`
unfoldable pub resolve_actor_kind : AuditLogInput → ActorKind
unfolding derive_actor_kind
resolve_actor_kind input = get_or input.actor_kind (derive_actor_kind input.actor)

abbrev pub audit_row : AuditLogInput → UuidV7 → AuditLogEntry
audit_row input id = record {
  id = id;
  license_id = input.license_id;
  scope_id = input.scope_id;
  actor = input.actor;
  actor_kind = resolve_actor_kind input;
  actor_id = get_or input.actor_id none;
  event = input.event;
  prior_state = input.prior_state;
  new_state = input.new_state;
  occurred_at = input.occurred_at;
}

abbrev pub save_audit : UuidV7 → AuditLogEntry → Action AuditLogEntry
save_audit id row w =
    (ok row, record w { state = record w.state { audit = Table.set id row w.state.audit } })

-- `appendAudit`
unfoldable pub append_audit : AuditLogInput → Action AuditLogEntry
append_audit input = do id ← new_uuid_v7; save_audit id (audit_row input id)

-- `getAudit`
abbrev pub get_audit : UuidV7 → Action (Option AuditLogEntry)
get_audit id = gets (λ s. Table.get id s.audit)

-- The filter names no licensable: there is no join with the licenses.
abbrev no_licensable : AuditLogFilter → Bool
no_licensable f =
    elim f.licensable_type [ none ↦ true | some _ ↦ false ]
    && elim f.licensable_id [ none ↦ true | some _ ↦ false ]

-- `licenseIdsByLicensable.has(id)`
abbrev is_licensable : AuditLogFilter → UuidV7 → License → Bool
is_licensable f id lic =
    elim f.licensable_type [ none ↦ true | some x ↦ lic.licensable_type == x ]
    && (elim f.licensable_id [ none ↦ true | some x ↦ lic.licensable_id == x ] && lic.id == id)

-- The test of the licensable in the filter of `listAudit`.
unfoldable licensable_matches : AuditLogFilter → List License → Option UuidV7 → Bool
licensable_matches f licenses license_id =
    no_licensable f
    || elim license_id [ none ↦ false | some id ↦ any (is_licensable f id) licenses ]

-- The predicate of `listAudit`.
unfoldable pub audit_matches : AuditLogFilter → List License → AuditLogEntry → Bool
unfolding licensable_matches
audit_matches f licenses r =
    elim f.license_id [ none ↦ true | some x ↦ opt_text_eq r.license_id x ]
    && (elim f.scope_id [ none ↦ true | some x ↦ opt_text_eq r.scope_id x ]
        && (elim f.event [ none ↦ true | some xs ↦ any (λ e. e == r.event) xs ]
            && (elim f.actor [ none ↦ true | some x ↦ r.actor == x ]
                && (elim f.since [ none ↦ true | some x ↦ not (text_lt r.occurred_at x) ]
                    && (elim f.until [ none ↦ true | some x ↦ text_lt r.occurred_at x ]
                        && licensable_matches f licenses r.license_id)))))

-- The order of the audit log: `occurred_at` stands in for `created_at`.
abbrev pub audit_cursor : AuditLogEntry → CursorTuple
audit_cursor r = record { created_at = r.occurred_at; id = r.id }

-- `listAudit`
unfoldable pub list_audit : AuditLogFilter → PageRequest → Action (Page AuditLogEntry)
list_audit f page = gets (λ s.
    paginate audit_cursor
      (filter (audit_matches f (Table.values s.licenses)) (Table.values s.audit)) page)
