-- ===== src/Storage/Usages/Cases.antt =====
-- How a write to the usages ends: an error and the tables as they were, or one row written.
use licensing.Common.{
  ◌+◌, ◌≡◌, ◌⊎◌, inl, inr, none, some, arith, Option-cases, Bool-cases, first, ltb,
}
use licensing.Table
use licensing.Types.{LicenseUsage, UuidV7, Instant}
use licensing.Errors.{unique_constraint_violation, ms_out_of_range}
use licensing.Storage.Frame.{Failed, Done, Minted, minted_id, minted_id-Minted}
use licensing.Id.{iso_from_ms}
use licensing.Storage.Monad.{State, World, adapter_now_iso, new_uuid_v7}
use licensing.Storage.Shapes.{LicenseUsageInput, LicenseUsagePatch}
use licensing.Storage.Usages.{
  usage_conflict, usage_row, create_usage, usage_taken, usage_patched, update_usage,
}

-- The tables with `row` written at `id` among the usages.
abbrev pub with_usage : State → UuidV7 → LicenseUsage → State
with_usage s id row = record s { usages = Table.set id row s.usages }

pub create_usage-cases :
    (i : LicenseUsageInput) (w : World)
    → Failed w (create_usage i w)
      ⊎ ((id : UuidV7) × (now : Instant) × Minted w id
          × (first (usage_conflict i) (Table.values w.state.usages) ≡ none)
          × Done w
              (usage_row i id now)
              (with_usage w.state id (usage_row i id now))
              (create_usage i w))
unfolding create_usage adapter_now_iso new_uuid_v7
create_usage-cases i w =
    elim (Option-cases (first (usage_conflict i) (Table.values w.state.usages))) [
      | inr (e, found) ↦
          inl (record {
            error = e;
            thrown = ground arith;
            state = ground arith;
            frame = ground arith;
          })
      | inl clear ↦ elim (Bool-cases (ltb 0xffffffffffff (w.clock.now_ms (w.moment + 1)))) [
        | inl late ↦ inl (record {
          error = ms_out_of_range (w.clock.now_ms (w.moment + 1));
          thrown = ground arith;
          state = ground arith;
          frame = ground arith;
        })
        | inr fits ↦ inr (
          minted_id w 1,
          iso_from_ms (w.clock.now_ms w.moment),
          minted_id-Minted w 1,
          clear,
          ground arith,
        )
      ]
    ]

pub update_usage-cases :
    (id : UuidV7) (p : LicenseUsagePatch) (w : World)
    → Failed w (update_usage id p w)
      ⊎ ((cur : LicenseUsage) × (now : Instant) × (Table.get id w.state.usages ≡ some cur)
          × (first (usage_taken id cur p) (Table.values w.state.usages) ≡ none)
          × Done w
              (usage_patched cur p now)
              (with_usage w.state id (usage_patched cur p now))
              (update_usage id p w))
unfolding update_usage adapter_now_iso
update_usage-cases id p w = elim (Option-cases (Table.get id w.state.usages)) [
  | inl missing ↦ inl (record {
    error = unique_constraint_violation "pk" id;
    thrown = ground arith;
    state = ground arith;
    frame = ground arith;
  })
  | inr (cur, found) ↦
      elim (Option-cases (first (usage_taken id cur p) (Table.values w.state.usages))) [
        | inr (e, taken) ↦ inl (record {
          error = e;
          thrown = ground arith;
          state = ground arith;
          frame = ground arith;
        })
        | inl clear ↦ inr (cur, iso_from_ms (w.clock.now_ms w.moment), found, clear, ground arith)
      ]
]
