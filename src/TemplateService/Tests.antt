-- ===== src/TemplateService/Tests.antt =====
-- A trial template, and a license that is made of it.
use licensing.Common.{String, ℕ, ◌≡◌, refl, Option, true, none, some, [], ◌∷◌, ◌==◌, if◌then◌else◌}
use licensing.Table
use licensing.Fixtures.{clock, license_of, world_of}
use licensing.Types.{
  License, LicenseStatus, LicenseTemplate, Instant, JsonObject, bool, num, obj, end, field,
}
use licensing.Errors.{ok, err, bad_template_max_usages}
use licensing.Id.{uuid_v7_text, iso_from_ms}
use licensing.Lifecycle.{TransitionOptions}
use licensing.LicenseKey.{assert_license_key, normalize_license_key}
use licensing.LicenseService.{create_licensed, key_for, create_body}
use licensing.Resolve.{get_field, set_field}
use licensing.TemplateService.Meta.{or_else, template_field}
use licensing.Storage.Licenses.{create_license}
use licensing.Storage.Audit.{append_audit}
use licensing.Storage.Tx.{with_transaction}
use licensing.Storage.Monad.{World, adapter_now_iso, new_uuid_v7}
use licensing.TemplateService.{
  CreateLicenseFromTemplateInput, create_license_from_template, create_template_checked,
}
use licensing.TemplateService.Licenses.{create_license_from_template-stored}

abbrev trial : LicenseTemplate
trial = record {
  id = "t1";
  scope_id = none;
  parent_id = none;
  name = "trial";
  max_usages = 3;
  trial_duration_sec = 86400;
  trial_cooldown_sec = none;
  grace_duration_sec = 3600;
  force_online_after_sec = some 600;
  entitlements = field "pro" (bool true) end;
  meta = end;
  created_at = "2026-01-01T00:00:00.000000Z";
  updated_at = "2026-01-01T00:00:00.000000Z";
}

-- The world with the template and no license of the user.
abbrev offered : World
offered =
    let w = world_of (license_of LicenseStatus.pending 2) [] in
    record w { state = record w.state { licenses = []; templates = ("t1", trial) ∷ [] } }

-- `Date.parse` at the clock's instant and a day later.
abbrev parse_demo : Instant → Option ℕ
parse_demo s =
    if s == "2026-04-13T10:00:00.000000Z"
    then some 1776074400000
    else if s == "2026-04-14T10:00:00.000000Z"
    then some 1776160800000
    else none

-- The caller has an offline limit of its own.
abbrev caller_meta : JsonObject
caller_meta = field "force_online_after_sec" (num 30) end

abbrev order : CreateLicenseFromTemplateInput
order = record {
  template_id = "t1";
  licensable_type = "user";
  licensable_id = "u1";
  scope_id = none;
  license_key = some "LIC-0000-0000-0000-0000-0000";
  status = none;
  max_usages = some 5;
  expires_at = none;
  grace_until = none;
  meta = some caller_meta;
}

abbrev by_system : TransitionOptions
by_system = record { actor = none; actor_kind = none; actor_id = none }

abbrev sold : License
sold = record (license_of LicenseStatus.pending 5) {
  id = "019d8648-a102-7000-8000-000000000000";
  scope_id = none;
  template_id = some "t1";
  expires_at = some "2026-04-14T10:00:00.000000Z";
  grace_until = some "2026-04-14T11:00:00.000000Z";
  meta =
      field "entitlements" (obj (field "pro" (bool true) end))
        (field "force_online_after_sec" (num 30) end);
  created_at = "2026-04-13T10:00:00.001000Z";
  updated_at = "2026-04-13T10:00:00.001000Z";
}

create_license_from_template-order :
    (create_license_from_template parse_demo clock order by_system offered).0 ≡ ok sold
unfolding create_license_from_template create_licensed Table.get iso_from_ms key_for
    assert_license_key normalize_license_key with_transaction create_body create_license
    Table.values adapter_now_iso new_uuid_v7 append_audit uuid_v7_text set_field Table.set
create_license_from_template-order = refl

create_license_from_template-stored_example :
    let after = (create_license_from_template parse_demo clock order by_system offered).1.state in
    (sold.template_id ≡ some "t1")
    × (sold.scope_id ≡ none)
    × (sold.max_usages ≡ 5)
    × (sold.expires_at ≡ some "2026-04-14T10:00:00.000000Z")
    × (sold.grace_until ≡ some "2026-04-14T11:00:00.000000Z")
    × ((key : String)
        → get_field key sold.meta ≡ or_else (get_field key caller_meta) (template_field trial key))
    × (Table.get sold.id after.licenses ≡ some sold)
unfolding iso_from_ms Table.get get_field
create_license_from_template-stored_example =
    create_license_from_template-stored parse_demo clock order by_system trial sold offered
      (refl, tt) refl create_license_from_template-order

-- A template without seats is refused.
create_template_checked-seatless :
    (create_template_checked clock
      (record {
        scope_id = none;
        parent_id = none;
        name = "none";
        max_usages = 0;
        trial_duration_sec = 0;
        trial_cooldown_sec = none;
        grace_duration_sec = 0;
        force_online_after_sec = none;
        entitlements = none;
        meta = none;
      })
      none
      offered).0
    ≡ err (bad_template_max_usages 0)
unfolding create_template_checked
create_template_checked-seatless = refl
