-- ===== src/Storage/Audit/Cases.antt =====
-- How an append to the audit log ends.
use licensing.Common.{refl, ◌⊎◌, inl, inr, arith, Bool-cases, ltb}
use licensing.Table
use licensing.Types.{AuditLogEntry, UuidV7}
use licensing.Errors.{ms_out_of_range}
use licensing.Id.{uuid_v7_text}
use licensing.Storage.Frame.{Failed, Done, Minted}
use licensing.Storage.Monad.{State, World, new_uuid_v7}
use licensing.Storage.Shapes.{AuditLogInput}
use licensing.Storage.Audit.{audit_row, append_audit}

-- The tables with `row` written at `id` in the audit log.
abbrev pub with_audit : State → UuidV7 → AuditLogEntry → State
with_audit s id row = record s { audit = Table.set id row s.audit }

pub append_audit-cases :
    (i : AuditLogInput) (w : World)
    → Failed w (append_audit i w)
      ⊎ ((id : UuidV7) × Minted w id
          × Done w (audit_row i id) (with_audit w.state id (audit_row i id)) (append_audit i w))
unfolding append_audit new_uuid_v7
append_audit-cases i w = elim (Bool-cases (ltb 0xffffffffffff (w.clock.now_ms w.moment))) [
  | inl late ↦ inl (record {
    error = ms_out_of_range (w.clock.now_ms w.moment);
    thrown = ground arith;
    state = ground arith;
    frame = ground arith;
  })
  | inr fits ↦ inr (
    uuid_v7_text (w.clock.now_ms w.moment) (w.random w.draws),
    record { ms = w.clock.now_ms w.moment; draw = w.draws; unused = omega arith; text = refl },
    ground arith,
  )
]
