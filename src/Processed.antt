-- ===== src/Processed.antt =====
-- crates/core/src/modules/processed: blocks at processed commitment, kept in memory around the
-- confirmed slot. This file has the data that the child modules share.
pub mod Ingest
pub mod Store
pub mod Read
pub mod Writer
mod Tests
use cloudbreak.Prelude.{ℕ, String, Bool, Option, List}
use cloudbreak.Prelude.Int.{ℤ}
use cloudbreak.OrdMap.{OrdMap}

-- Stored slots above the confirmed slot.
abbrev pub max_slots_above_confirmed : ℕ
max_slots_above_confirmed = 32

-- Slots kept below the confirmed slot.
abbrev pub retained_slots_below_confirmed : ℕ
retained_slots_below_confirmed = 4

-- The confirmed slot of Postgres and its blockhash.
pub record Anchor : Type 0 where
  pub confirmed_slot : ℕ
  pub confirmed_blockhash : String

-- A public key is the number that its 32 bytes write.
pub record LiveAccount : Type 0 where
  pub lamports : ℕ
  pub owner : ℕ
  pub executable : Bool
  pub rent_epoch : ℕ
  pub account_data : List ℕ

-- `closed`: zero lamports, or an owner outside the program filter.
pub data AccountEntry : Type 0 where
  live : LiveAccount → AccountEntry
  closed : AccountEntry

-- One sealed block. `received_at` is a reading of the monotonic clock in nanoseconds.
pub record SlotBlock : Type 0 where
  pub slot : ℕ
  pub blockhash : String
  pub parent_slot : ℕ
  pub parent_blockhash : String
  pub block_time : Option ℤ
  pub received_at : ℕ
  pub accounts : OrdMap AccountEntry
  pub heap_bytes : ℕ

-- The chain that a request reads, newest block first.
pub record ProcessedBlocks : Type 0 where
  pub slot : ℕ
  pub block_time : ℤ
  pub anchor_slot : ℕ
  pub stored_blocks : ℕ
  pub stored_bytes : ℕ
  pub blocks : List SlotBlock
