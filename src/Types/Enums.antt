-- ===== src/Types/Enums.antt =====
-- The string unions of typescript/src/types.ts, the test `===` on each, and their texts.
use licensing.Common.{ℕ, String, ◌≡◌, Bool, true, eqb, arith}

pub data LicenseStatus : Type 0 where
  pending active grace expired suspended revoked : LicenseStatus

pub data UsageStatus : Type 0 where
  active revoked : UsageStatus

pub data KeyState : Type 0 where
  active retiring : KeyState

pub data KeyRole : Type 0 where
  root signing : KeyRole

pub data KeyAlg : Type 0 where
  ed25519 rs256_pss hs256 : KeyAlg

pub data ActorKind : Type 0 where
  system admin client unknown : ActorKind

abbrev status_index : LicenseStatus → ℕ
status_index LicenseStatus.pending = 0
status_index LicenseStatus.active = 1
status_index LicenseStatus.grace = 2
status_index LicenseStatus.expired = 3
status_index LicenseStatus.suspended = 4
status_index LicenseStatus.revoked = 5

abbrev pub status_eq : LicenseStatus → LicenseStatus → Bool
status_eq a b = eqb (status_index a) (status_index b)

abbrev pub status_text : LicenseStatus → String
status_text LicenseStatus.pending = "pending"
status_text LicenseStatus.active = "active"
status_text LicenseStatus.grace = "grace"
status_text LicenseStatus.expired = "expired"
status_text LicenseStatus.suspended = "suspended"
status_text LicenseStatus.revoked = "revoked"

abbrev usage_status_index : UsageStatus → ℕ
usage_status_index UsageStatus.active = 0
usage_status_index UsageStatus.revoked = 1

abbrev pub usage_status_eq : UsageStatus → UsageStatus → Bool
usage_status_eq a b = eqb (usage_status_index a) (usage_status_index b)

abbrev key_state_index : KeyState → ℕ
key_state_index KeyState.active = 0
key_state_index KeyState.retiring = 1

abbrev pub key_state_eq : KeyState → KeyState → Bool
key_state_eq a b = eqb (key_state_index a) (key_state_index b)

abbrev key_role_index : KeyRole → ℕ
key_role_index KeyRole.root = 0
key_role_index KeyRole.signing = 1

abbrev pub key_role_eq : KeyRole → KeyRole → Bool
key_role_eq a b = eqb (key_role_index a) (key_role_index b)

abbrev key_alg_index : KeyAlg → ℕ
key_alg_index KeyAlg.ed25519 = 0
key_alg_index KeyAlg.rs256_pss = 1
key_alg_index KeyAlg.hs256 = 2

abbrev pub key_alg_eq : KeyAlg → KeyAlg → Bool
key_alg_eq a b = eqb (key_alg_index a) (key_alg_index b)

pub status_eq-true : (a b : LicenseStatus) → status_eq a b ≡ true → a ≡ b
status_eq-true a b h = ground arith
