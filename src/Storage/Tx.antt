-- ===== src/Storage/Tx.antt =====
-- `withTransaction` of `MemoryStorage`.
pub mod Laws
use licensing.Common.{◌+◌, ◌-◌, ltb, if◌then◌else◌}
use licensing.Errors.{Result, ok, err, nested_transactions}
use licensing.Storage.Monad.{State, World, Action}

-- The `try`/`catch`/`finally`: a thrown error puts the live tables back.
unfoldable pub settle : {A : Type 0} → State → Result A → World → Result A × World
settle live (ok a) w = (ok a, record w { tx_depth = w.tx_depth - 1 })
settle live (err e) w = (err e, record w { state = live; tx_depth = w.tx_depth - 1 })

-- `withTransaction(fn)`. The tables are values here, so the clone that `fn` writes to is the state
-- that it is given.
unfoldable pub with_transaction : {A : Type 0} → Action A → Action A
unfolding settle
with_transaction fn w =
    let (r, w') = fn (record w { tx_depth = w.tx_depth + 1 }) in
    if ltb 0 w.tx_depth then (err nested_transactions, w) else settle w.state r w'
