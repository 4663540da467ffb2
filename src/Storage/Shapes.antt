-- ===== src/Storage/Shapes.antt =====
-- The inputs, patches, filters and pages of typescript/src/storage/types.ts. A field of a patch or of
-- a filter that the caller left out is `none`; `null` is an inner `none`.
use licensing.Common.{ℕ, String, Option, List}
use licensing.Types.{
  JsonObject, LicenseStatus, UsageStatus, KeyState, KeyRole, KeyAlg, ActorKind, Instant, UuidV7,
}
use licensing.Common.{Bool}

pub record LicenseInput : Type 0 where
  pub scope_id : Option UuidV7
  pub template_id : Option UuidV7
  pub licensable_type : String
  pub licensable_id : String
  pub license_key : String
  pub status : LicenseStatus
  pub max_usages : ℕ
  pub is_trial : Option Bool
  pub activated_at : Option Instant
  pub expires_at : Option Instant
  pub grace_until : Option Instant
  pub meta : JsonObject

pub record LicenseScopeInput : Type 0 where
  pub slug : String
  pub name : String
  pub meta : JsonObject

pub record LicenseTemplateInput : Type 0 where
  pub scope_id : Option UuidV7
  pub parent_id : Option UuidV7
  pub name : String
  pub max_usages : ℕ
  pub trial_duration_sec : ℕ
  pub trial_cooldown_sec : Option ℕ
  pub grace_duration_sec : ℕ
  pub force_online_after_sec : Option ℕ
  pub entitlements : JsonObject
  pub meta : JsonObject

pub record LicenseUsageInput : Type 0 where
  pub license_id : UuidV7
  pub fingerprint : String
  pub status : UsageStatus
  pub registered_at : Instant
  pub revoked_at : Option Instant
  pub client_meta : JsonObject

pub record LicenseKeyInput : Type 0 where
  pub scope_id : Option UuidV7
  pub kid : String
  pub alg : KeyAlg
  pub role : KeyRole
  pub state : KeyState
  pub public_pem : String
  pub private_pem_enc : Option String
  pub rotated_from : Option UuidV7
  pub rotated_at : Option Instant
  pub not_before : Instant
  pub not_after : Option Instant
  pub meta : JsonObject

pub record AuditLogInput : Type 0 where
  pub license_id : Option UuidV7
  pub scope_id : Option UuidV7
  pub actor : String
  pub actor_kind : Option ActorKind
  pub actor_id : Option (Option String)
  pub event : String
  pub prior_state : Option JsonObject
  pub new_state : Option JsonObject
  pub occurred_at : Instant

pub record TrialIssuanceInput : Type 0 where
  pub template_id : Option UuidV7
  pub fingerprint_hash : String

pub record LicensePatch : Type 0 where
  pub status : Option LicenseStatus
  pub max_usages : Option ℕ
  pub activated_at : Option (Option Instant)
  pub expires_at : Option (Option Instant)
  pub grace_until : Option (Option Instant)
  pub meta : Option JsonObject
  pub scope_id : Option (Option UuidV7)
  pub template_id : Option (Option UuidV7)
  pub license_key : Option String

pub record LicenseScopePatch : Type 0 where
  pub name : Option String
  pub meta : Option JsonObject

pub record LicenseTemplatePatch : Type 0 where
  pub name : Option String
  pub parent_id : Option (Option UuidV7)
  pub max_usages : Option ℕ
  pub trial_duration_sec : Option ℕ
  pub trial_cooldown_sec : Option (Option ℕ)
  pub grace_duration_sec : Option ℕ
  pub force_online_after_sec : Option (Option ℕ)
  pub entitlements : Option JsonObject
  pub meta : Option JsonObject

pub record LicenseUsagePatch : Type 0 where
  pub status : Option UsageStatus
  pub revoked_at : Option (Option Instant)
  pub last_seen_at : Option Instant
  pub client_meta : Option JsonObject

pub record LicenseKeyPatch : Type 0 where
  pub state : Option KeyState
  pub rotated_from : Option (Option UuidV7)
  pub rotated_at : Option (Option Instant)
  pub not_after : Option (Option Instant)
  pub meta : Option JsonObject

pub record LicenseFilter : Type 0 where
  pub scope_id : Option (Option UuidV7)
  pub status : Option (List LicenseStatus)
  pub licensable_type : Option String
  pub licensable_id : Option String
  pub template_id : Option UuidV7

pub record LicenseScopeFilter : Type 0 where
  pub slug : Option String

pub record LicenseTemplateFilter : Type 0 where
  pub scope_id : Option (Option UuidV7)
  pub name : Option String
  pub parent_id : Option (Option UuidV7)

pub record LicenseUsageFilter : Type 0 where
  pub license_id : Option UuidV7
  pub fingerprint : Option String
  pub status : Option (List UsageStatus)

pub record LicenseKeyFilter : Type 0 where
  pub scope_id : Option (Option UuidV7)
  pub kid : Option String
  pub alg : Option KeyAlg
  pub role : Option KeyRole
  pub state : Option KeyState

pub record AuditLogFilter : Type 0 where
  pub license_id : Option (Option UuidV7)
  pub scope_id : Option (Option UuidV7)
  -- One event or several; one stands for a list of one.
  pub event : Option (List String)
  pub licensable_type : Option String
  pub licensable_id : Option String
  pub actor : Option String
  pub since : Option Instant
  pub until : Option Instant

pub record TrialIssuanceLookup : Type 0 where
  pub template_id : Option UuidV7
  pub fingerprint_hash : String

pub record FindByLicensableQuery : Type 0 where
  pub type : String
  pub id : String
  pub scope_id : Option (Option UuidV7)
