-- ===== src/Storage/Trials.antt =====
-- The trial issuances of `MemoryStorage`: one for each template and fingerprint hash.
use licensing.Common.{
  ◌==◌, ◌&&◌, Option, none, some, if◌then◌else◌, first, opt_text_eq, get_or, colon,
}
use licensing.Table
use licensing.Types.{TrialIssuance, UuidV7, Instant}
use licensing.Errors.{Error, ok, unique_constraint_violation}
use licensing.Storage.Monad.{Action, gets, throw_found, ◌>>=◌, ◌>>◌, adapter_now_iso, new_uuid_v7}
use licensing.Storage.Shapes.{TrialIssuanceInput, TrialIssuanceLookup}

-- The check that `recordTrialIssuance` makes of one stored row.
unfoldable pub trial_conflict : TrialIssuanceInput → TrialIssuance → Option Error
trial_conflict input row =
    if opt_text_eq row.template_id input.template_id
      && row.fingerprint_hash == input.fingerprint_hash
    then some (
        unique_constraint_violation "template_fingerprint"
          (colon (get_or input.template_id "null") input.fingerprint_hash))
    else none

abbrev pub trial_row : TrialIssuanceInput → UuidV7 → Instant → TrialIssuance
trial_row input id now = record {
  id = id;
  template_id = input.template_id;
  fingerprint_hash = input.fingerprint_hash;
  issued_at = now;
}

abbrev pub save_trial : UuidV7 → TrialIssuance → Action TrialIssuance
save_trial id row w = (
  ok row,
  record w {
    state = record w.state { trial_issuances = Table.set id row w.state.trial_issuances };
  },
)

-- `recordTrialIssuance`
unfoldable pub record_trial_issuance : TrialIssuanceInput → Action TrialIssuance
record_trial_issuance input = do
  rows ← gets (λ s. Table.values s.trial_issuances)
  throw_found (first (trial_conflict input) rows)
  id ← new_uuid_v7
  now ← adapter_now_iso
  save_trial id (trial_row input id now)

-- The row that `findTrialIssuance` looks for.
unfoldable pub trial_found : TrialIssuanceLookup → TrialIssuance → Option TrialIssuance
trial_found q row =
    if opt_text_eq row.template_id q.template_id && row.fingerprint_hash == q.fingerprint_hash
    then some row
    else none

-- `findTrialIssuance`
unfoldable pub find_trial_issuance : TrialIssuanceLookup → Action (Option TrialIssuance)
find_trial_issuance q = gets (λ s. first (trial_found q) (Table.values s.trial_issuances))

-- `deleteTrialIssuance`
unfoldable pub delete_trial_issuance : UuidV7 → Action (Unit {0})
delete_trial_issuance id w = (
  ok tt,
  record w { state = record w.state { trial_issuances = Table.delete id w.state.trial_issuances } },
)
