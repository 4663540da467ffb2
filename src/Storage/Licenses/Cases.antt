-- ===== src/Storage/Licenses/Cases.antt =====
-- How a write to the licenses ends: an error and the tables as they were, or one row written.
use licensing.Common.{
  ◌+◌, ◌≡◌, ◌⊎◌, inl, inr, none, some, arith, Option-cases, Bool-cases, first, ltb,
}
use licensing.Table
use licensing.Types.{License, UuidV7, Instant}
use licensing.Errors.{license_not_found, ms_out_of_range}
use licensing.Storage.Frame.{Failed, Done, Minted, minted_id, minted_id-Minted}
use licensing.Id.{iso_from_ms}
use licensing.Storage.Monad.{State, World, adapter_now_iso, new_uuid_v7}
use licensing.Storage.Shapes.{LicenseInput, LicensePatch}
use licensing.Storage.Licenses.{
  license_conflict, license_row, create_license, license_key_taken, license_patched, update_license,
}

-- The tables with `row` written at `id` among the licenses.
abbrev pub with_license : State → UuidV7 → License → State
with_license s id row = record s { licenses = Table.set id row s.licenses }

pub create_license-cases :
    (i : LicenseInput) (w : World)
    → Failed w (create_license i w)
      ⊎ ((id : UuidV7) × (now : Instant) × Minted w id
          × (first (license_conflict i) (Table.values w.state.licenses) ≡ none)
          × Done w
              (license_row i id now)
              (with_license w.state id (license_row i id now))
              (create_license i w))
unfolding create_license adapter_now_iso new_uuid_v7
create_license-cases i w =
    elim (Option-cases (first (license_conflict i) (Table.values w.state.licenses))) [
      | inr (e, found) ↦
          inl (record {
            error = e;
            thrown = ground arith;
            state = ground arith;
            frame = ground arith;
          })
      | inl clear ↦ elim (Bool-cases (ltb 0xffffffffffff (w.clock.now_ms (w.moment + 1)))) [
        | inl late ↦ inl (record {
          error = ms_out_of_range (w.clock.now_ms (w.moment + 1));
          thrown = ground arith;
          state = ground arith;
          frame = ground arith;
        })
        | inr fits ↦ inr (
          minted_id w 1,
          iso_from_ms (w.clock.now_ms w.moment),
          minted_id-Minted w 1,
          clear,
          ground arith,
        )
      ]
    ]

pub update_license-cases :
    (id : UuidV7) (p : LicensePatch) (w : World)
    → Failed w (update_license id p w)
      ⊎ ((cur : License) × (now : Instant) × (Table.get id w.state.licenses ≡ some cur)
          × (first (license_key_taken id p.license_key) (Table.values w.state.licenses) ≡ none)
          × Done w
              (license_patched cur p now)
              (with_license w.state id (license_patched cur p now))
              (update_license id p w))
unfolding update_license adapter_now_iso
update_license-cases id p w = elim (Option-cases (Table.get id w.state.licenses)) [
  | inl missing ↦ inl (record {
    error = license_not_found id;
    thrown = ground arith;
    state = ground arith;
    frame = ground arith;
  })
  | inr (cur, found) ↦
      elim (Option-cases
        (first (license_key_taken id p.license_key) (Table.values w.state.licenses))) [
          | inr (e, taken) ↦ inl (record {
            error = e;
            thrown = ground arith;
            state = ground arith;
            frame = ground arith;
          })
          | inl clear ↦ inr (cur, iso_from_ms (w.clock.now_ms w.moment), found, clear, ground arith)
        ]
]
