-- ===== src/Resolve/Tests.antt =====
-- Templates that inherit, and the theorems at them.
use licensing.Common.{◌≡◌, refl, ◌≤◌, String, true, false, Option, none, some, ◌==◌, if◌then◌else◌}
use licensing.Types.{LicenseTemplate, UuidV7, JsonObject, obj, null, num, bool, end, field}
use licensing.Resolve.{
  get_field, set_field, deep_merge_json, walk_ancestors, merge_chain, resolve_template,
}
use licensing.Resolve.Merge.{merged, get_field-deep_merge_json}
use licensing.Resolve.Walk.{resolve_template-bound}

abbrev parent_entitlements : JsonObject
parent_entitlements =
    field "seats" (num 5) (field "features" (obj (field "sso" (bool false) end)) end)

abbrev child_entitlements : JsonObject
child_entitlements =
    field "features" (obj (field "sso" (bool true) (field "audit" (bool true) end))) end

deep_merge_json-demo :
    deep_merge_json parent_entitlements child_entitlements
    ≡ field "seats"
        (num 5)
        (field "features" (obj (field "sso" (bool true) (field "audit" (bool true) end))) end)
unfolding deep_merge_json get_field set_field
deep_merge_json-demo = refl

-- A null in the child takes the place of the parent's object.
deep_merge_json-null :
    deep_merge_json parent_entitlements (field "features" null end)
    ≡ field "seats" (num 5) (field "features" null end)
unfolding deep_merge_json get_field set_field
deep_merge_json-null = refl

get_field-deep_merge_json_example :
    get_field "features" (deep_merge_json parent_entitlements (field "features" null end))
    ≡ merged (get_field "features" parent_entitlements) (some null)
unfolding get_field
get_field-deep_merge_json_example =
    get_field-deep_merge_json parent_entitlements (field "features" null end) "features" (refl, tt)

abbrev template_of : String → Option String → JsonObject → LicenseTemplate
template_of id parent_id entitlements = record {
  id = id;
  scope_id = none;
  parent_id = parent_id;
  name = id;
  max_usages = 1;
  trial_duration_sec = 0;
  trial_cooldown_sec = none;
  grace_duration_sec = 0;
  force_online_after_sec = none;
  entitlements = entitlements;
  meta = end;
  created_at = "2026-01-01T00:00:00.000000Z";
  updated_at = "2026-01-01T00:00:00.000000Z";
}

abbrev leaf : LicenseTemplate
leaf = template_of "t2" (some "t1") child_entitlements

abbrev loader : UuidV7 → Option LicenseTemplate
loader c = if c == "t1" then some (template_of "t1" none parent_entitlements) else none

resolve_template-demo :
    ((resolve_template leaf loader).entitlements
      ≡ deep_merge_json parent_entitlements child_entitlements)
    × ((resolve_template leaf loader).inherited_depth ≡ 1)
unfolding resolve_template walk_ancestors merge_chain deep_merge_json get_field set_field
resolve_template-demo = (refl, refl)

resolve_template-bound_example :
    ((resolve_template leaf loader).inherited_depth ≤ 5)
    × ((resolve_template leaf loader).truncated ≡ true
        → (resolve_template leaf loader).inherited_depth ≡ 5)
resolve_template-bound_example = resolve_template-bound leaf loader
