-- ===== src/Storage/Unique/Tests.antt =====
-- Keys, trials and templates on small tables, and the theorems at them.
use mathlib.Core.Path.{subst}
use licensing.Common.{
  inl, inr, Bool-cases, ◌==◌, String, refl, none, some, [], ◌∷◌, arith, eq_iff, Option,
}
use licensing.Table
use licensing.Types.{
  LicenseStatus, LicenseKey, KeyState, KeyRole, KeyAlg, TrialIssuance, LicenseTemplate, end,
}
use licensing.Fixtures.{license_of, world_of, one_taken}
use licensing.Storage.Monad.{World}
use licensing.Storage.Shapes.{
  LicenseKeyInput, LicenseKeyPatch, TrialIssuanceInput, LicenseTemplatePatch,
}
use licensing.Storage.Keys.{create_key, update_key}
use licensing.Storage.Trials.{record_trial_issuance}
use licensing.Storage.Templates.{update_template}
use licensing.Storage.Templates.Acyclic.{Rooted, top, up, IsAcyclic, update_template-IsAcyclic}
use licensing.Storage.Unique.Keys.{HasOneSigner, create_key-HasOneSigner, update_key-HasOneSigner}
use licensing.Storage.Unique.Trials.{HasUniqueTrials, record_trial_issuance-HasUniqueTrials}

abbrev signer : LicenseKey
signer = record {
  id = "k1";
  scope_id = some "s1";
  kid = "kid-1";
  alg = KeyAlg.ed25519;
  role = KeyRole.signing;
  state = KeyState.active;
  public_pem = "pem";
  private_pem_enc = none;
  rotated_from = none;
  rotated_at = none;
  not_before = "2026-01-01T00:00:00.000000Z";
  not_after = none;
  meta = end;
  created_at = "2026-01-01T00:00:00.000000Z";
  updated_at = "2026-01-01T00:00:00.000000Z";
}

abbrev trial : TrialIssuance
trial = record {
  id = "i1";
  template_id = none;
  fingerprint_hash = "hash";
  issued_at = "2026-01-01T00:00:00.000000Z";
}

abbrev template_of : String → Option String → LicenseTemplate
template_of id parent_id = record {
  id = id;
  scope_id = none;
  parent_id = parent_id;
  name = id;
  max_usages = 1;
  trial_duration_sec = 0;
  trial_cooldown_sec = none;
  grace_duration_sec = 0;
  force_online_after_sec = none;
  entitlements = end;
  meta = end;
  created_at = "2026-01-01T00:00:00.000000Z";
  updated_at = "2026-01-01T00:00:00.000000Z";
}

-- One signing key, one trial, and two templates, the second below the first.
abbrev stocked : World
stocked =
    let empty = world_of (license_of LicenseStatus.active 2) one_taken in
    record empty {
      state = record empty.state {
        keys = ("k1", signer) ∷ [];
        trial_issuances = ("i1", trial) ∷ [];
        templates = ("t1", template_of "t1" none) ∷ ("t2", template_of "t2" (some "t1")) ∷ [];
      };
    }

stocked-HasOneSigner : HasOneSigner stocked.state
unfolding Table.get
stocked-HasOneSigner i j a b h k e = grind (arith, eq_iff "k1" i, eq_iff "k1" j)

stocked-HasUniqueTrials : HasUniqueTrials stocked.state
unfolding Table.get
stocked-HasUniqueTrials i j a b h k e = grind (arith, eq_iff "i1" i, eq_iff "i1" j)

abbrev second : LicenseKeyInput
second = record {
  scope_id = some "s1";
  kid = "kid-2";
  alg = KeyAlg.ed25519;
  role = KeyRole.signing;
  state = KeyState.active;
  public_pem = "pem";
  private_pem_enc = none;
  rotated_from = none;
  rotated_at = none;
  not_before = "2026-01-01T00:00:00.000000Z";
  not_after = none;
  meta = end;
}

create_key-HasOneSigner_example : HasOneSigner (create_key second stocked).1.state
create_key-HasOneSigner_example = create_key-HasOneSigner second stocked stocked-HasOneSigner

abbrev retire : LicenseKeyPatch
retire = record {
  state = some KeyState.retiring;
  rotated_from = none;
  rotated_at = none;
  not_after = none;
  meta = none;
}

update_key-HasOneSigner_example : HasOneSigner (update_key "k1" retire stocked).1.state
unfolding Table.get
update_key-HasOneSigner_example =
    update_key-HasOneSigner "k1" retire stocked (refl, refl, tt) stocked-HasOneSigner

abbrev again : TrialIssuanceInput
again = record { template_id = none; fingerprint_hash = "hash" }

record_trial_issuance-HasUniqueTrials_example :
    HasUniqueTrials (record_trial_issuance again stocked).1.state
record_trial_issuance-HasUniqueTrials_example =
    record_trial_issuance-HasUniqueTrials again stocked stocked-HasUniqueTrials

t1-Rooted : Rooted stocked.state.templates 1 (some "t1")
unfolding Table.get
t1-Rooted = up 0 "t1" (template_of "t1" none) refl top

t2-Rooted : Rooted stocked.state.templates 2 (some "t2")
unfolding Table.get
t2-Rooted = up 1 "t2" (template_of "t2" (some "t1")) refl t1-Rooted

stocked-IsAcyclic : IsAcyclic stocked.state.templates
unfolding Table.get
stocked-IsAcyclic c node e = elim (Bool-cases ("t1" == c)) [
  | inl first ↦ (
    1,
    subst (λ k. Rooted stocked.state.templates 1 (some k)) ((eq_iff "t1" c).0 first) t1-Rooted,
  )
  | inr later ↦ elim (Bool-cases ("t2" == c)) [
    | inl here ↦ (
      2,
      subst (λ k. Rooted stocked.state.templates 2 (some k)) ((eq_iff "t2" c).0 here) t2-Rooted,
    )
    | inr none_left ↦ absurd (ground arith)
  ]
]

-- The first template below the second, which is below it already.
abbrev below_t2 : LicenseTemplatePatch
below_t2 = record {
  name = none;
  parent_id = some (some "t2");
  max_usages = none;
  trial_duration_sec = none;
  trial_cooldown_sec = none;
  grace_duration_sec = none;
  force_online_after_sec = none;
  entitlements = none;
  meta = none;
}

update_template-IsAcyclic_example :
    IsAcyclic (update_template "t1" below_t2 stocked).1.state.templates
update_template-IsAcyclic_example =
    update_template-IsAcyclic "t1" below_t2 stocked stocked-IsAcyclic
      (λ q e. (2, omega arith, subst (Rooted stocked.state.templates 2) (ground arith) t2-Rooted))
