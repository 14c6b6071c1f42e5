-- ===== src/Supply.antt =====
-- crates/core/src/modules/supply: the running total of lamports, kept by per-block deltas.
pub mod Cache
pub mod Tracker
mod Tests
