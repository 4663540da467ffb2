-- ===== src/Storage/Unique/Trials.antt =====
-- A template and a device have one trial at most.
use licensing.Common.{
  opt_text_eq-true, ◌+◌, ◌≡◌, sym, none, arith, inl, inr, eq_iff, first, ltb, Option-cases,
  Bool-cases, ◌⊎◌,
}
use licensing.Table
use licensing.Table.Unique.{IsUnique, set-IsUnique}
use licensing.Types.{TrialIssuance, UuidV7, Instant}
use licensing.Errors.{ms_out_of_range}
use licensing.Id.{iso_from_ms}
use licensing.Storage.Frame.{Failed, Done, minted_id}
use licensing.Storage.Monad.{State, World, adapter_now_iso, new_uuid_v7}
use licensing.Storage.Shapes.{TrialIssuanceInput}
use licensing.Storage.Trials.{trial_conflict, trial_row, record_trial_issuance}

abbrev SameTrial : TrialIssuance → TrialIssuance → Type 0
SameTrial a b = (a.template_id ≡ b.template_id) × (a.fingerprint_hash ≡ b.fingerprint_hash)

-- A template, or no template, and a fingerprint hash have one trial issuance at most.
abbrev pub HasUniqueTrials : State → Type 0
HasUniqueTrials s = IsUnique SameTrial s.trial_issuances

clear_of_conflict :
    (i : TrialIssuanceInput) (id : UuidV7) (now : Instant) (row : TrialIssuance)
    → trial_conflict i row ≡ none
    → ¬ SameTrial (trial_row i id now) row
unfolding trial_conflict
clear_of_conflict i id now row h (template, device) =
    let same = opt_text_eq-true row.template_id i.template_id (sym template) in
    ground (arith, eq_iff row.fingerprint_hash i.fingerprint_hash)

abbrev with_trial : State → UuidV7 → TrialIssuance → State
with_trial s id row = record s { trial_issuances = Table.set id row s.trial_issuances }

record_trial_issuance-cases :
    (i : TrialIssuanceInput) (w : World)
    → Failed w (record_trial_issuance i w)
      ⊎ ((id : UuidV7) × (now : Instant) × (first
              (trial_conflict i)
              (Table.values w.state.trial_issuances)
            ≡ none)
          × Done w
              (trial_row i id now)
              (with_trial w.state id (trial_row i id now))
              (record_trial_issuance i w))
unfolding record_trial_issuance adapter_now_iso new_uuid_v7
record_trial_issuance-cases i w =
    elim (Option-cases (first (trial_conflict i) (Table.values w.state.trial_issuances))) [
      | inr (e, found) ↦
          inl (record {
            error = e;
            thrown = ground arith;
            state = ground arith;
            frame = ground arith;
          })
      | inl clear ↦ elim (Bool-cases (ltb 0xffffffffffff (w.clock.now_ms w.moment))) [
        | inl late ↦ inl (record {
          error = ms_out_of_range (w.clock.now_ms w.moment);
          thrown = ground arith;
          state = ground arith;
          frame = ground arith;
        })
        | inr fits ↦
            inr (minted_id w 0, iso_from_ms (w.clock.now_ms (w.moment + 1)), clear, ground arith)
      ]
    ]

-- If a template, or no template, and a fingerprint hash have one trial issuance at most, the
-- same holds after recordTrialIssuance, whether it returns or throws.
pub record_trial_issuance-HasUniqueTrials :
    (i : TrialIssuanceInput) (w : World)
    → HasUniqueTrials w.state
    → HasUniqueTrials (record_trial_issuance i w).1.state
record_trial_issuance-HasUniqueTrials i w unique = elim (record_trial_issuance-cases i w) [
  | inl failed ↦ rw (failed.state) unique
  | inr (id, now, clear, done) ↦ rw (done.state) (
      set-IsUnique SameTrial id (trial_row i id now) w.state.trial_issuances
        (λ a b h. (sym h.0, sym h.1))
        (λ j b away found.
          clear_of_conflict i id now b
            (Table.get-first (trial_conflict i) w.state.trial_issuances j b clear found))
        unique)
]
