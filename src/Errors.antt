-- ===== src/Errors.antt =====
-- The errors of typescript/src/errors.ts that the modelled code throws, each with the values that
-- its message and its `details` are made of, the plain `Error`s among them.
use licensing.Common.{ℕ, String, List, ◌≡◌, refl, ◌⊎◌, inl, inr}
use licensing.Types.{LicenseStatus}

pub data Error : Type 0 where
  -- storage
  unique_constraint_violation : String → String → Error
  template_cycle : String → List String → Error
  -- licenses and usages
  license_key_conflict : String → Error
  license_not_found : String → Error
  license_revoked license_suspended license_expired : Error
  illegal_lifecycle_transition : LicenseStatus → LicenseStatus → Error
  seat_limit_exceeded : ℕ → ℕ → Error
  usage_not_found : String → Error
  template_not_found : String → Error
  bad_template_max_usages : ℕ → Error
  invalid_license_key : Error
  -- plain errors: a nested transaction, a clock reading of more than 48 bits, a malformed UUID, a
  -- sweep without a positive threshold, an instant that does not parse
  nested_transactions : Error
  ms_out_of_range : ℕ → Error
  invalid_uuid : String → Error
  not_a_v7_uuid : String → Error
  invalid_time_value : Error
  bad_inactivity : ℕ → Error
  unparseable_instant : String → Error
  -- the `URIError` of a path with a malformed escape
  malformed_uri : Error
  -- canonical and strict JSON: the duplicate key as code units
  canonical_invalid_number canonical_invalid_utf8 canonical_invalid_top_level : Error
  canonical_duplicate_key : List ℕ → Error
  token_malformed : Error
  -- no error of the program: a loop of the model went on past its fuel
  out_of_fuel : Error

pub data Result {ℓ} (A : Type ℓ) : Type ℓ where
  ok : A → Result A
  err : Error → Result A

pub Result-cases {ℓ} :
    {A : Type ℓ} (r : Result A) → ((a : A) × (r ≡ ok a)) ⊎ ((e : Error) × (r ≡ err e))
Result-cases (ok a) = inl (a, refl)
Result-cases (err e) = inr (e, refl)
