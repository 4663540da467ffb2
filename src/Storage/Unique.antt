-- ===== src/Storage/Unique.antt =====
-- The unique constraints that the memory adapter keeps, each over one table.
pub mod Licenses
pub mod Usages
pub mod Keys
pub mod Trials
mod Tests
