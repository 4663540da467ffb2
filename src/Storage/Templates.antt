-- ===== src/Storage/Templates.antt =====
-- The template methods of `MemoryStorage`, with the walk that keeps the parents free of cycles.
pub mod Acyclic
use licensing.Common.{
  ℕ, zero, suc, ◌==◌, Bool, true, ◌&&◌, Option, none, some, List, [], ◌∷◌, ◌++◌, if◌then◌else◌,
  first, filter, opt_text_eq, get_or, colon,
}
use licensing.Table.{Table}
use licensing.Table
use licensing.Types.{LicenseTemplate, UuidV7, Instant}
use licensing.Errors.{Error, ok, unique_constraint_violation, template_cycle}
use licensing.Storage.Monad.{
  State, Action, gets, or_throw, throw_found, ◌>>=◌, ◌>>◌, adapter_now_iso, new_uuid_v7,
}
use licensing.Storage.Shapes.{LicenseTemplateInput, LicenseTemplatePatch, LicenseTemplateFilter}
use licensing.Storage.Paging.{CursorTuple, Page, PageRequest, paginate}

abbrev pub template_cursor : LicenseTemplate → CursorTuple
template_cursor r = record { created_at = r.created_at; id = r.id }

-- The `for` loop of `walkParentChain`, with `hops` turns left.
unfoldable pub parent_chain :
    ℕ → Table LicenseTemplate → Option UuidV7 → UuidV7 → List UuidV7 → Option (List UuidV7)
parent_chain zero templates cursor forbidden visited = none
parent_chain (suc hops) templates none forbidden visited = none
parent_chain (suc hops) templates (some c) forbidden visited =
    let seen = visited ++ (c ∷ []) in
    if c == forbidden then some seen else elim (Table.get c templates) [
      | none ↦ none
      | some node ↦ parent_chain hops templates node.parent_id forbidden seen
    ]

-- `walkParentChain`
unfoldable pub walk_parent_chain :
    Table LicenseTemplate → Option UuidV7 → UuidV7 → Option (List UuidV7)
walk_parent_chain templates start forbidden = parent_chain 64 templates start forbidden []

-- The check that `createTemplate` makes of one stored row.
unfoldable pub template_conflict : LicenseTemplateInput → LicenseTemplate → Option Error
template_conflict input row =
    if opt_text_eq row.scope_id input.scope_id && row.name == input.name
    then some
        (unique_constraint_violation "scope_name" (colon (get_or input.scope_id "null") input.name))
    else none

-- A parent that is no stored template.
unfoldable pub parent_missing : Table LicenseTemplate → Option UuidV7 → Option Error
parent_missing templates none = none
parent_missing templates (some p) = elim (Table.get p templates) [
  | none ↦ some (unique_constraint_violation "parent_id" p)
  | some _ ↦ none
]

abbrev pub template_row : LicenseTemplateInput → UuidV7 → Instant → LicenseTemplate
template_row input id now = record {
  id = id;
  scope_id = input.scope_id;
  parent_id = input.parent_id;
  name = input.name;
  max_usages = input.max_usages;
  trial_duration_sec = input.trial_duration_sec;
  trial_cooldown_sec = input.trial_cooldown_sec;
  grace_duration_sec = input.grace_duration_sec;
  force_online_after_sec = input.force_online_after_sec;
  entitlements = input.entitlements;
  meta = input.meta;
  created_at = now;
  updated_at = now;
}

abbrev pub save_template : UuidV7 → LicenseTemplate → Action LicenseTemplate
save_template id row w =
    (ok row, record w { state = record w.state { templates = Table.set id row w.state.templates } })

-- `createTemplate`
unfoldable pub create_template : LicenseTemplateInput → Action LicenseTemplate
create_template input = do
  templates ← gets (λ (s : State). s.templates)
  throw_found (first (template_conflict input) (Table.values templates))
  throw_found (parent_missing templates input.parent_id)
  id ← new_uuid_v7
  now ← adapter_now_iso
  save_template id (template_row input id now)

-- `getTemplate`
abbrev pub get_template : UuidV7 → Action (Option LicenseTemplate)
get_template id = gets (λ s. Table.get id s.templates)

-- The predicate of `listTemplates`.
unfoldable pub template_matches : LicenseTemplateFilter → LicenseTemplate → Bool
template_matches f r =
    elim f.scope_id [ none ↦ true | some x ↦ opt_text_eq r.scope_id x ]
    && (elim f.name [ none ↦ true | some x ↦ r.name == x ]
        && elim f.parent_id [ none ↦ true | some x ↦ opt_text_eq r.parent_id x ])

-- `listTemplates`
unfoldable pub list_templates : LicenseTemplateFilter → PageRequest → Action (Page LicenseTemplate)
list_templates f page =
    gets
      (λ s. paginate template_cursor (filter (template_matches f) (Table.values s.templates)) page)

-- The checks that `updateTemplate` makes of a patch that names a parent.
unfoldable pub reparent_error :
    Table LicenseTemplate → UuidV7 → Option (Option UuidV7) → Option Error
unfolding walk_parent_chain parent_missing
reparent_error templates id none = none
reparent_error templates id (some parent) = elim (parent_missing templates parent) [
  | some e ↦ some e
  | none ↦ elim (walk_parent_chain templates parent id) [
    | none ↦ none
    | some chain ↦ some (template_cycle id chain)
  ]
]

abbrev pub template_patched : LicenseTemplate → LicenseTemplatePatch → Instant → LicenseTemplate
template_patched cur patch now = record cur {
  name = get_or patch.name cur.name;
  parent_id = get_or patch.parent_id cur.parent_id;
  max_usages = get_or patch.max_usages cur.max_usages;
  trial_duration_sec = get_or patch.trial_duration_sec cur.trial_duration_sec;
  trial_cooldown_sec = get_or patch.trial_cooldown_sec cur.trial_cooldown_sec;
  grace_duration_sec = get_or patch.grace_duration_sec cur.grace_duration_sec;
  force_online_after_sec = get_or patch.force_online_after_sec cur.force_online_after_sec;
  entitlements = get_or patch.entitlements cur.entitlements;
  meta = get_or patch.meta cur.meta;
  updated_at = now;
}

-- `updateTemplate`
unfoldable pub update_template : UuidV7 → LicenseTemplatePatch → Action LicenseTemplate
update_template id patch = do
  found ← get_template id
  cur ← or_throw found (unique_constraint_violation "pk" id)
  templates ← gets (λ (s : State). s.templates)
  throw_found (reparent_error templates id patch.parent_id)
  now ← adapter_now_iso
  save_template id (template_patched cur patch now)
