-- ===== src/Storage/Keys/Cases.antt =====
-- How a write to the keys ends: an error and the tables as they were, or one row written.
use licensing.Common.{
  ◌+◌, ◌≡◌, ◌⊎◌, inl, inr, none, some, arith, Option-cases, Bool-cases, first, ltb,
}
use licensing.Table
use licensing.Types.{LicenseKey, UuidV7, Instant}
use licensing.Errors.{unique_constraint_violation, ms_out_of_range}
use licensing.Storage.Frame.{Failed, Done, minted_id}
use licensing.Id.{iso_from_ms}
use licensing.Storage.Monad.{State, World, adapter_now_iso, new_uuid_v7}
use licensing.Storage.Shapes.{LicenseKeyInput, LicenseKeyPatch}
use licensing.Storage.Keys.{
  kid_conflict, signing_conflict, key_row, create_key, signing_taken, key_patched, update_key,
}

-- The tables with `row` written at `id` among the keys.
abbrev pub with_key : State → UuidV7 → LicenseKey → State
with_key s id row = record s { keys = Table.set id row s.keys }

pub create_key-cases :
    (i : LicenseKeyInput) (w : World)
    → Failed w (create_key i w)
      ⊎ ((id : UuidV7) × (now : Instant) × (first (kid_conflict i) (Table.values w.state.keys)
            ≡ none)
          × (first (signing_conflict i) (Table.values w.state.keys) ≡ none)
          × Done w (key_row i id now) (with_key w.state id (key_row i id now)) (create_key i w))
unfolding create_key adapter_now_iso new_uuid_v7
create_key-cases i w = elim (Option-cases (first (kid_conflict i) (Table.values w.state.keys))) [
  | inr (e, found) ↦
      inl (record { error = e; thrown = ground arith; state = ground arith; frame = ground arith })
  | inl new ↦ elim (Option-cases (first (signing_conflict i) (Table.values w.state.keys))) [
    | inr (e, found) ↦
        inl
          (record { error = e; thrown = ground arith; state = ground arith; frame = ground arith })
    | inl clear ↦ elim (Bool-cases (ltb 0xffffffffffff (w.clock.now_ms (w.moment + 1)))) [
      | inl late ↦ inl (record {
        error = ms_out_of_range (w.clock.now_ms (w.moment + 1));
        thrown = ground arith;
        state = ground arith;
        frame = ground arith;
      })
      | inr fits ↦
          inr (minted_id w 1, iso_from_ms (w.clock.now_ms w.moment), new, clear, ground arith)
    ]
  ]
]

pub update_key-cases :
    (id : UuidV7) (p : LicenseKeyPatch) (w : World)
    → Failed w (update_key id p w)
      ⊎ ((cur : LicenseKey) × (now : Instant) × (Table.get id w.state.keys ≡ some cur)
          × (first (signing_taken id cur p) (Table.values w.state.keys) ≡ none)
          × Done w
              (key_patched cur p now)
              (with_key w.state id (key_patched cur p now))
              (update_key id p w))
unfolding update_key adapter_now_iso
update_key-cases id p w = elim (Option-cases (Table.get id w.state.keys)) [
  | inl missing ↦ inl (record {
    error = unique_constraint_violation "pk" id;
    thrown = ground arith;
    state = ground arith;
    frame = ground arith;
  })
  | inr (cur, found) ↦
      elim (Option-cases (first (signing_taken id cur p) (Table.values w.state.keys))) [
        | inr (e, taken) ↦ inl (record {
          error = e;
          thrown = ground arith;
          state = ground arith;
          frame = ground arith;
        })
        | inl clear ↦ inr (cur, iso_from_ms (w.clock.now_ms w.moment), found, clear, ground arith)
      ]
]
