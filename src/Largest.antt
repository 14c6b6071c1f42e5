-- ===== src/Largest.antt =====
-- crates/core/src/modules/largest_accounts: the largest holders of each tracked mint and of the three
-- sentinel mints.
pub mod Top
pub mod State
pub mod Seed
pub mod Block
mod Tests
