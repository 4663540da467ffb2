-- ===== src/Id.antt =====
-- Clocks, instants and identifiers: typescript/src/id.ts.
pub mod Digits
mod Reading
mod Iso
pub mod Uuid
mod Tests
pub use Reading.*
unfoldable pub use Iso.{iso_from_ms}
unfoldable pub use Uuid.{uuid_v7_text}
