-- ===== src/Storage/Tx/Laws.antt =====
-- Transactions are atomic: `withTransaction` of typescript/src/storage/memory/adapter.ts.
use licensing.Common.{◌+◌, ◌≡◌, arith, inl, inr}
use licensing.Errors.{Error, ok, err, Result-cases}
use licensing.Storage.Monad.{World, Action}
use licensing.Storage.Tx.{with_transaction}

-- The world in which the body of a transaction runs.
abbrev pub enter : World → World
enter w = record w { tx_depth = w.tx_depth + 1 }

-- A transaction that throws leaves every table as it was before it began.
pub with_transaction-rollback :
    {A : Type 0} (fn : Action A) (w : World) (e : Error)
    → (with_transaction fn w).0 ≡ err e
    → (with_transaction fn w).1.state ≡ w.state
unfolding with_transaction
with_transaction-rollback fn w e h = elim (Result-cases (fn (enter w)).0) [
  | inl (a, q) ↦ ground arith
  | inr (x, q) ↦ ground arith
]

-- A transaction that returns was not nested, and leaves the tables that its body wrote.
pub with_transaction-commit :
    {A : Type 0} (fn : Action A) (w : World) (a : A)
    → (with_transaction fn w).0 ≡ ok a
    → (w.tx_depth ≡ 0)
      × ((fn (enter w)).0 ≡ ok a)
      × ((with_transaction fn w).1.state ≡ (fn (enter w)).1.state)
unfolding with_transaction
with_transaction-commit fn w a h = elim (Result-cases (fn (enter w)).0) [
  | inl (b, q) ↦ ground arith
  | inr (x, q) ↦ absurd (ground arith)
]

-- Outside a transaction the result is that of the body.
pub with_transaction-result :
    {A : Type 0} (fn : Action A) (w : World)
    → w.tx_depth ≡ 0
    → (with_transaction fn w).0 ≡ (fn (enter w)).0
unfolding with_transaction
with_transaction-result fn w h = elim (Result-cases (fn (enter w)).0) [
  | inl (b, q) ↦ ground arith
  | inr (x, q) ↦ ground arith
]
