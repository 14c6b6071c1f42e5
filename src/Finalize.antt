-- ===== src/Finalize.antt =====
-- crates/index/src/modules/finalize_slot.rs: the confirmed blocks that are kept until they are finalized,
-- and the queue of the slots to finalize. A queue that waits for space is `none`. The accounts of a block
-- are a parameter, `no_accounts` their default; the writes of a finalized slot to the database are the
-- caller's, in the order of the chain that is returned.
pub mod Ancestors
pub mod Runs
mod Tests
use cloudbreak.Prelude.{
  ℕ, zero, suc, String, str_eq, Bool, true, false, not, ◌&&◌, Option, none, some, List, [], ◌∷◌,
  ltb, if◌then◌else◌, length, unwrap_or,
}
use cloudbreak.OrdMap.{OrdMap, get, insert, remove}

pub record BlockEntry (A : Type 0) : Type 0 where
  pub accounts : A
  pub blockhash : String
  pub parent_slot : ℕ
  pub parent_blockhash : String

-- With the reason of the service's health that the pause sets.
pub record FinalizerInner (A : Type 0) : Type 0 where
  pub blocks : OrdMap (BlockEntry A)
  pub pending : OrdMap (Unit {0})
  pub paused : Bool
  pub gap_unhealthy : Bool

-- How the walk of `get_slot_ancestors` ends: `stuck` is no end of the code's, the fuel ran out.
pub data Walk (A : Type 0) : Type 0 where
  stuck : Walk A
  walked : FinalizerInner A → List (ℕ × BlockEntry A) → Walk A

module _ {A : Type 0} where
  unfoldable pub record_block : FinalizerInner A → ℕ → BlockEntry A → FinalizerInner A
  unfolding insert
  record_block s slot entry = record s { blocks = insert slot entry s.blocks }

  unfoldable pub enqueue_unbounded : FinalizerInner A → ℕ → FinalizerInner A
  unfolding insert
  enqueue_unbounded s slot = record s { pending = insert slot tt s.pending }

  unfoldable pub note_finalized : ℕ → FinalizerInner A → ℕ → Option (FinalizerInner A)
  unfolding insert
  note_finalized limit s slot =
      if ltb (length s.pending) limit
      then some (record s { pending = insert slot tt s.pending })
      else none

  unfoldable pub pause : FinalizerInner A → FinalizerInner A
  pause s = record s { paused = true; gap_unhealthy = true }

  unfoldable pub resume : FinalizerInner A → FinalizerInner A
  resume s = record s { paused = false; gap_unhealthy = false }

  abbrev pub empty_entry : A → BlockEntry A
  empty_entry no_accounts = record {
    accounts = no_accounts;
    blockhash = "";
    parent_slot = 0;
    parent_blockhash = "";
  }

  abbrev pub parent_matches : String → BlockEntry A → Bool
  parent_matches parent_hash parent =
      not (str_eq parent_hash "") && str_eq parent.blockhash parent_hash

  -- The loop from the parent of the oldest block of `chain`, with fuel. The chain is the oldest first.
  unfoldable pub walk : ℕ → FinalizerInner A → ℕ → String → List (ℕ × BlockEntry A) → Walk A
  unfolding get remove
  walk zero s parent_slot parent_hash chain = stuck
  walk (suc fuel) s parent_slot parent_hash chain = elim (get parent_slot s.blocks) [
    | none ↦ walked s chain
    | some parent ↦
        let s' = record s {
          blocks = remove parent_slot s.blocks;
          pending = remove parent_slot s.pending;
        } in
        let rest =
          walk fuel s' parent.parent_slot parent.parent_blockhash ((parent_slot, parent) ∷ chain) in
        if parent_matches parent_hash parent then rest else walked s chain
  ]

  unfoldable pub get_slot_ancestors : A → FinalizerInner A → ℕ → Walk A
  unfolding walk get remove
  get_slot_ancestors no_accounts s slot =
      let entry = unwrap_or (get slot s.blocks) (empty_entry no_accounts) in
      let s' = record s { blocks = remove slot s.blocks } in
      walk (suc (length s'.blocks)) s' entry.parent_slot entry.parent_blockhash ((slot, entry) ∷ [])

  abbrev pub next_of : FinalizerInner A → OrdMap (Unit {0}) → Option (ℕ × FinalizerInner A)
  next_of s [] = none
  next_of s ((slot, _) ∷ rest) = if s.paused then none else some (slot, record s { pending = rest })

  -- The next slot of the worker, unless it is paused.
  unfoldable pub next_slot : FinalizerInner A → Option (ℕ × FinalizerInner A)
  next_slot s = next_of s s.pending
