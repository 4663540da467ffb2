-- ===== src/Fixtures.antt =====
-- A small world for the tests: one pending license with two seats, one of them taken.
use licensing.Common.{ℕ, String, false, none, some, List, [], ◌∷◌, ◌+◌}
use licensing.Types.{License, LicenseStatus, LicenseUsage, UsageStatus, end}
use licensing.Id.{Clock}
use licensing.Storage.Monad.{World}

abbrev pub clock : Clock
clock = record { now_ms = λ t. 1776074400000 + t; now_iso = λ t. "2026-04-13T10:00:00.000000Z" }

abbrev pub license_of : LicenseStatus → ℕ → License
license_of status max_usages = record {
  id = "l1";
  scope_id = some "s1";
  template_id = none;
  licensable_type = "user";
  licensable_id = "u1";
  license_key = "LIC-0000-0000-0000-0000-0000";
  status = status;
  max_usages = max_usages;
  is_trial = false;
  activated_at = none;
  expires_at = some "2026-05-01T00:00:00.000000Z";
  grace_until = some "2026-05-08T00:00:00.000000Z";
  meta = end;
  created_at = "2026-01-01T00:00:00.000000Z";
  updated_at = "2026-01-01T00:00:00.000000Z";
}

abbrev pub usage_of : String → String → LicenseUsage
usage_of id fingerprint = record {
  id = id;
  license_id = "l1";
  fingerprint = fingerprint;
  status = UsageStatus.active;
  registered_at = "2026-02-01T00:00:00.000000Z";
  revoked_at = none;
  last_seen_at = "2026-02-01T00:00:00.000000Z";
  client_meta = end;
  created_at = "2026-02-01T00:00:00.000000Z";
  updated_at = "2026-02-01T00:00:00.000000Z";
}

-- The world with one license and the given usages.
abbrev pub world_of : License → List (String × LicenseUsage) → World
world_of license usages = record {
  state = record {
    licenses = (license.id, license) ∷ [];
    scopes = [];
    templates = [];
    usages = usages;
    keys = [];
    audit = [];
    trial_issuances = [];
  };
  tx_depth = 0;
  clock = clock;
  moment = 0;
  random = λ n i. n;
  draws = 0;
}

abbrev pub one_taken : List (String × LicenseUsage)
one_taken = ("seat-a", usage_of "seat-a" "fp-a") ∷ []
