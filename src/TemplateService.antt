-- ===== src/TemplateService.antt =====
-- Templates and the licenses made of them: typescript/src/template-service.ts. `Date.parse` is the
-- parameter `parse`, none for NaN; the durations are natural numbers.
pub mod Meta
pub mod Licenses
mod Tests
use licensing.Common.{ℕ, ◌+◌, ◌*◌, String, Option, none, some, if◌then◌else◌, get_or, ltb, leb}
use licensing.Types.{
  License, LicenseStatus, LicenseTemplate, JsonObject, end, field, obj, str, num, UuidV7, Instant,
}
use licensing.Errors.{template_not_found, bad_template_max_usages, invalid_time_value}
use licensing.Id.{Clock, iso_from_ms}
use licensing.Lifecycle.{TransitionOptions}
use licensing.LicenseService.{CreateLicenseInput, create_licensed}
use licensing.Resolve.{set_field}
use licensing.Storage.Monad.{Action, pure, throw, or_throw, throw_if, ◌>>=◌, ◌>>◌, now_iso}
use licensing.Storage.Shapes.{LicenseTemplateInput, AuditLogInput}
use licensing.Storage.Templates.{create_template, get_template}
use licensing.Storage.Audit.{append_audit}
use licensing.Storage.Tx.{with_transaction}

-- `CreateTemplateInput`, which may leave fields out.
pub record CreateTemplateInput : Type 0 where
  pub scope_id : Option UuidV7
  pub parent_id : Option UuidV7
  pub name : String
  pub max_usages : ℕ
  pub trial_duration_sec : ℕ
  pub trial_cooldown_sec : Option ℕ
  pub grace_duration_sec : ℕ
  pub force_online_after_sec : Option ℕ
  pub entitlements : Option JsonObject
  pub meta : Option JsonObject

abbrev pub template_input : CreateTemplateInput → LicenseTemplateInput
template_input input = record {
  scope_id = input.scope_id;
  parent_id = input.parent_id;
  name = input.name;
  max_usages = input.max_usages;
  trial_duration_sec = input.trial_duration_sec;
  trial_cooldown_sec = input.trial_cooldown_sec;
  grace_duration_sec = input.grace_duration_sec;
  force_online_after_sec = input.force_online_after_sec;
  entitlements = get_or input.entitlements end;
  meta = get_or input.meta end;
}

abbrev pub template_audit : LicenseTemplate → Option String → Instant → AuditLogInput
template_audit template actor now = record {
  license_id = none;
  scope_id = template.scope_id;
  actor = get_or actor "system";
  actor_kind = none;
  actor_id = none;
  event = "template.created";
  prior_state = none;
  new_state = some (
      field "template_id" (str template.id) (
        field "name" (str template.name) (
          field "max_usages" (num template.max_usages) (
            field "trial_duration_sec" (num template.trial_duration_sec)
              (field "grace_duration_sec" (num template.grace_duration_sec) end)))));
  occurred_at = now;
}

-- The body of the transaction of `createTemplate`.
unfoldable pub template_body : Clock → CreateTemplateInput → Option String → Action LicenseTemplate
template_body clock input actor = do
  template ← create_template (template_input input)
  now ← now_iso clock
  append_audit (template_audit template actor now)
  pure template

-- `createTemplate` of the service; a negative duration is no natural number.
unfoldable pub create_template_checked :
    Clock → CreateTemplateInput → Option String → Action LicenseTemplate
unfolding template_body
create_template_checked clock input actor = do
  throw_if (ltb input.max_usages 1) (bad_template_max_usages input.max_usages)
  with_transaction (template_body clock input actor)

-- `CreateLicenseFromTemplateInput`: none for a field that is left out, `some none` for null.
pub record CreateLicenseFromTemplateInput : Type 0 where
  pub template_id : UuidV7
  pub licensable_type : String
  pub licensable_id : String
  pub scope_id : Option (Option UuidV7)
  pub license_key : Option String
  pub status : Option LicenseStatus
  pub max_usages : Option ℕ
  pub expires_at : Option (Option Instant)
  pub grace_until : Option (Option Instant)
  pub meta : Option JsonObject

-- `new Date(Date.parse(from) + seconds * 1000)` as an instant; it throws where `from` does not parse.
unfoldable pub shifted : (Instant → Option ℕ) → Instant → ℕ → Action (Option Instant)
shifted parse from seconds = elim (parse from) [
  | none ↦ throw invalid_time_value
  | some ms ↦ pure (some (iso_from_ms (ms + seconds * 1000)))
]

-- `computeExpiresAt`
unfoldable pub compute_expires_at : (Instant → Option ℕ) → Instant → ℕ → Action (Option Instant)
unfolding shifted
compute_expires_at parse now trial_duration_sec =
    if ltb 0 trial_duration_sec then shifted parse now trial_duration_sec else pure none

-- `computeGraceUntil`
unfoldable pub compute_grace_until :
    (Instant → Option ℕ) → Option Instant → ℕ → Action (Option Instant)
unfolding shifted
compute_grace_until parse none grace_duration_sec = pure none
compute_grace_until parse (some expires_at) grace_duration_sec =
    if ltb 0 grace_duration_sec then shifted parse expires_at grace_duration_sec else pure none

-- `isUnset(v) ? computed : v`
abbrev pub unless_unset :
    Option (Option Instant) → Action (Option Instant) → Action (Option Instant)
unless_unset none computed = computed
unless_unset (some v) computed = pure v

-- `{ ...base, ...override }`
unfoldable pub spread : JsonObject → JsonObject → JsonObject
spread base end = base
spread base (field k v rest) = spread (set_field k v base) rest

abbrev pub entitlements_of : JsonObject → JsonObject
entitlements_of end = end
entitlements_of (field k v rest) = field "entitlements" (obj (field k v rest)) end

abbrev pub with_force_online : Option ℕ → JsonObject → JsonObject
with_force_online none meta = meta
with_force_online (some sec) meta = set_field "force_online_after_sec" (num sec) meta

-- `mergedMeta`
abbrev pub merged_meta : LicenseTemplate → Option JsonObject → JsonObject
merged_meta template meta =
    spread
      (with_force_online template.force_online_after_sec (entitlements_of template.entitlements))
      (get_or meta end)

-- `createInput`
abbrev pub create_input :
    LicenseTemplate
    → CreateLicenseFromTemplateInput
    → Option Instant
    → Option Instant
    → CreateLicenseInput
create_input template input expires_at grace_until = record {
  scope_id = get_or input.scope_id template.scope_id;
  template_id = some template.id;
  licensable_type = input.licensable_type;
  licensable_id = input.licensable_id;
  license_key = input.license_key;
  status = input.status;
  max_usages = get_or input.max_usages template.max_usages;
  activated_at = none;
  expires_at = some expires_at;
  grace_until = some grace_until;
  meta = some (merged_meta template input.meta);
}

-- `createLicenseFromTemplate`
unfoldable pub create_license_from_template :
    (Instant → Option ℕ)
    → Clock
    → CreateLicenseFromTemplateInput
    → TransitionOptions
    → Action License
unfolding compute_expires_at compute_grace_until spread
create_license_from_template parse clock input opts = do
  found ← get_template input.template_id
  template ← or_throw found (template_not_found input.template_id)
  now ← now_iso clock
  expires_at ←
      unless_unset input.expires_at (compute_expires_at parse now template.trial_duration_sec)
  grace_until ←
      unless_unset input.grace_until
        (compute_grace_until parse expires_at template.grace_duration_sec)
  create_licensed clock (create_input template input expires_at grace_until) opts
