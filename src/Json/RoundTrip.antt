-- ===== src/Json/RoundTrip.antt =====
-- What canonical-json.ts writes, strict-json.ts reads.
pub mod Strings
pub mod Numbers
pub mod Normal
pub mod Pieces
pub mod Values
pub mod Entries
pub mod Objects
pub mod Whole
