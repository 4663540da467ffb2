-- ===== src/Types/Rows.antt =====
-- The entities of typescript/src/types.ts, with their fields under the source's names. `null` is
-- `none`; counts and durations are natural numbers.
use licensing.Common.{ℕ, String, Bool, Option}
use licensing.Types.Json.{JsonObject}
use licensing.Types.Enums.{LicenseStatus, UsageStatus, KeyState, KeyRole, KeyAlg, ActorKind}

-- An absolute instant as an ISO-8601 text, compared as a text.
abbrev pub Instant : Type 0
Instant = String

abbrev pub UuidV7 : Type 0
UuidV7 = String

abbrev pub Fingerprint : Type 0
Fingerprint = String

pub record License : Type 0 where
  pub id : UuidV7
  pub scope_id : Option UuidV7
  pub template_id : Option UuidV7
  pub licensable_type : String
  pub licensable_id : String
  pub license_key : String
  pub status : LicenseStatus
  pub max_usages : ℕ
  pub is_trial : Bool
  pub activated_at : Option Instant
  pub expires_at : Option Instant
  pub grace_until : Option Instant
  pub meta : JsonObject
  pub created_at : Instant
  pub updated_at : Instant

pub record LicenseScope : Type 0 where
  pub id : UuidV7
  pub slug : String
  pub name : String
  pub meta : JsonObject
  pub created_at : Instant
  pub updated_at : Instant

pub record LicenseTemplate : Type 0 where
  pub id : UuidV7
  pub scope_id : Option UuidV7
  pub parent_id : Option UuidV7
  pub name : String
  pub max_usages : ℕ
  pub trial_duration_sec : ℕ
  pub trial_cooldown_sec : Option ℕ
  pub grace_duration_sec : ℕ
  pub force_online_after_sec : Option ℕ
  pub entitlements : JsonObject
  pub meta : JsonObject
  pub created_at : Instant
  pub updated_at : Instant

pub record LicenseUsage : Type 0 where
  pub id : UuidV7
  pub license_id : UuidV7
  pub fingerprint : Fingerprint
  pub status : UsageStatus
  pub registered_at : Instant
  pub revoked_at : Option Instant
  pub last_seen_at : Instant
  pub client_meta : JsonObject
  pub created_at : Instant
  pub updated_at : Instant

pub record LicenseKey : Type 0 where
  pub id : UuidV7
  pub scope_id : Option UuidV7
  pub kid : String
  pub alg : KeyAlg
  pub role : KeyRole
  pub state : KeyState
  pub public_pem : String
  pub private_pem_enc : Option String
  pub rotated_from : Option UuidV7
  pub rotated_at : Option Instant
  pub not_before : Instant
  pub not_after : Option Instant
  pub meta : JsonObject
  pub created_at : Instant
  pub updated_at : Instant

pub record AuditLogEntry : Type 0 where
  pub id : UuidV7
  pub license_id : Option UuidV7
  pub scope_id : Option UuidV7
  pub actor : String
  pub actor_kind : ActorKind
  pub actor_id : Option String
  pub event : String
  pub prior_state : Option JsonObject
  pub new_state : Option JsonObject
  pub occurred_at : Instant

pub record TrialIssuance : Type 0 where
  pub id : UuidV7
  pub template_id : Option UuidV7
  pub fingerprint_hash : String
  pub issued_at : Instant
