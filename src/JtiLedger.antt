-- ===== src/JtiLedger.antt =====
-- The replay ledger: typescript/src/client/jti-ledger.ts.
pub mod Refinement
mod Tests
use licensing.Common.{
  ℕ, suc, String, Bool, true, false, none, some, [], ◌∷◌, List, leb, if◌then◌else◌,
}
use licensing.Table
use licensing.Table.{Table}

-- `#entries` of `MemoryJtiLedger`: the second from which a recorded identifier may be pruned.
abbrev pub Entries : Type 0
Entries = Table ℕ

-- `recordJtiUse(jti, expSec)`
unfoldable pub record_jti_use : String → ℕ → Entries → Bool × Entries
record_jti_use jti exp_sec entries = elim (Table.get jti entries) [
  | some _ ↦ (false, entries)
  | none ↦ (true, Table.set jti exp_sec entries)
]

-- `pruneExpired(nowSec)`
unfoldable pub prune_expired : ℕ → Entries → ℕ × Entries
prune_expired now_sec [] = (0, [])
prune_expired now_sec ((jti, exp) ∷ entries) =
    let (removed, kept) = prune_expired now_sec entries in
    if leb exp now_sec then (suc removed, kept) else (removed, (jti, exp) ∷ kept)

-- A call on a ledger.
pub data Call : Type 0 where
  record_use : String → ℕ → Call
  prune : ℕ → Call

-- The answers to the uses among some calls, in order.
unfoldable pub answers : List Call → Entries → List Bool
answers [] entries = []
answers (record_use jti exp_sec ∷ calls) entries =
    let (fresh, next) = record_jti_use jti exp_sec entries in fresh ∷ answers calls next
answers (prune now_sec ∷ calls) entries = answers calls (prune_expired now_sec entries).1
