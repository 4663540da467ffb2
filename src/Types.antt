-- ===== src/Types.antt =====
-- The entity types of typescript/src/types.ts, row for row.
mod Json
mod Enums
mod Rows
pub use Json.*
pub use Enums.*
pub use Rows.*
