-- ===== src/Storage.antt =====
-- The memory storage adapter, typescript/src/storage/memory/adapter.ts and cursor.ts.
pub mod Monad
pub mod Frame
pub mod Paging
pub mod Shapes
pub mod Licenses
pub mod Usages
pub mod Audit
pub mod Scopes
pub mod Templates
pub mod Keys
pub mod Trials
pub mod Unique
pub mod Tx
mod Tests
