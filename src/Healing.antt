-- ===== src/Healing.antt =====
-- crates/index/src/modules/self_healing.rs: the slots missing in the stream of blocks, and their repair out
-- of snapshots. What a snapshot covers and which of its slots have accounts are the caller's. The task of
-- `fill_gaps` is a state machine whose steps interleave with the blocks; an error that ends the task, or
-- its panic during startup, ends the indexer and is not modelled.
pub mod Slots
pub mod Runs
pub mod Resume
pub mod Races
mod Tests
use cloudbreak.Prelude.{
  ℕ, zero, suc, ◌+◌, ◌-◌, String, str_eq, Bool, true, false, not, ◌&&◌, ◌||◌, Option, none, some,
  List, [], ◌∷◌, ◌++◌, ltb, leb, ◌==◌, if◌then◌else◌, keep, contains, min,
}
use cloudbreak.Prelude.Word.{add64}
use cloudbreak.OrdMap.{OrdMap, get, insert, remove}
use cloudbreak.Supply.Tracker.{SupplyState, mark_gap, finish_gap}
use cloudbreak.Finalize.{BlockEntry, FinalizerInner, record_block, enqueue_unbounded, pause, resume}

pub record SelfHealingState (A : Type 0) : Type 0 where
  pub last_slot_received : ℕ
  pub last_blockhash_received : String
  pub gaps_list : List ℕ
  pub gap_boundaries : OrdMap (Unit {0})
  pub finalizer : FinalizerInner A
  pub supply_tracker : SupplyState

-- `first..past` as a list, of `n` slots.
abbrev pub slots_from : ℕ → ℕ → List ℕ
slots_from first zero = []
slots_from first (suc n) = first ∷ slots_from (suc first) n

abbrev pub least : List ℕ → Option ℕ
least [] = none
least (slot ∷ slots) = elim (least slots) [ none ↦ some slot | some other ↦ some (min slot other) ]

abbrev pub is_empty : List ℕ → Bool
is_empty [] = true
is_empty (slot ∷ slots) = false

module _ {A : Type 0} where
  unfoldable pub lowest_gap : SelfHealingState A → Option ℕ
  lowest_gap s = least s.gaps_list

  unfoldable pub remove_slot_from_gaps_list : SelfHealingState A → ℕ → SelfHealingState A
  remove_slot_from_gaps_list s slot = record s {
    gaps_list = keep (λ g. not (g == slot)) s.gaps_list;
  }

  unfoldable pub builds_on_last : SelfHealingState A → ℕ → String → Bool
  builds_on_last s parent_slot parent_blockhash =
      parent_slot == s.last_slot_received && str_eq s.last_blockhash_received parent_blockhash

  -- The branch for a block that does not build on the last one.
  unfoldable pub open_gap : SelfHealingState A → ℕ → SelfHealingState A
  unfolding insert pause mark_gap
  open_gap s slot = record s {
    gaps_list =
        s.gaps_list
        ++ slots_from (add64 s.last_slot_received 1) (slot - add64 s.last_slot_received 1);
    gap_boundaries = insert s.last_slot_received tt s.gap_boundaries;
    finalizer = pause s.finalizer;
    supply_tracker = (mark_gap s.supply_tracker).0;
  }

  unfoldable pub opens_gap : SelfHealingState A → ℕ → ℕ → String → Bool
  unfolding builds_on_last
  opens_gap s slot parent_slot parent_blockhash =
      not (s.last_slot_received == 0)
      && ltb (add64 s.last_slot_received 1) slot
      && not (builds_on_last s parent_slot parent_blockhash)

  unfoldable pub check_slot_gap : SelfHealingState A → ℕ → String → ℕ → String → SelfHealingState A
  unfolding remove_slot_from_gaps_list opens_gap open_gap
  check_slot_gap s slot blockhash parent_slot parent_blockhash =
      let s' = if opens_gap s slot parent_slot parent_blockhash then open_gap s slot else s in
      if leb slot s.last_slot_received
      then remove_slot_from_gaps_list s slot
      else record s' { last_slot_received = slot; last_blockhash_received = blockhash }

  -- A repaired block of the snapshot.
  unfoldable pub repair : SelfHealingState A → ℕ → BlockEntry A → SelfHealingState A
  unfolding record_block enqueue_unbounded remove_slot_from_gaps_list
  repair s slot entry =
      remove_slot_from_gaps_list
        (record s { finalizer = enqueue_unbounded (record_block s.finalizer slot entry) slot }) slot

  unfoldable pub remove_slots : SelfHealingState A → List ℕ → SelfHealingState A
  unfolding remove_slot_from_gaps_list
  remove_slots s [] = s
  remove_slots s (slot ∷ slots) = remove_slots (remove_slot_from_gaps_list s slot) slots

  unfoldable pub enqueue_boundaries : SelfHealingState A → OrdMap (Unit {0}) → SelfHealingState A
  unfolding enqueue_unbounded remove
  enqueue_boundaries s [] = s
  enqueue_boundaries s ((slot, _) ∷ boundaries) =
      enqueue_boundaries
        (record s {
          finalizer = enqueue_unbounded s.finalizer slot;
          gap_boundaries = remove slot s.gap_boundaries;
        })
        boundaries

-- What an iteration of `fill_gaps` holds: the covered gaps, the boundaries, and the repaired slots.
pub record Fill : Type 0 where
  pub covered : List ℕ
  pub boundaries : OrdMap (Unit {0})
  pub repaired : List ℕ

-- `resuming` is between the look at an empty list and the calls that resume; the flag says whether the
-- supply tracker is told.
pub data Task : Type 0 where
  waits : Task
  filling : Fill → Task
  resuming : Bool → Task

unfoldable pub empty_slots : Fill → List ℕ
empty_slots fill = keep (λ slot. not (contains fill.repaired slot)) fill.covered

module _ {A : Type 0} where
  -- The start of an iteration, with the base slot of the snapshot if there is one.
  unfoldable pub start_iteration : SelfHealingState A → Option ℕ → Task
  start_iteration s none = if is_empty s.gaps_list then resuming false else waits
  start_iteration s (some base_slot) =
      let covered = keep (λ slot. ltb base_slot slot) s.gaps_list in
      let fill =
        filling (record { covered = covered; boundaries = s.gap_boundaries; repaired = [] }) in
      if is_empty s.gaps_list then resuming false else if is_empty covered then waits else fill

  -- The rest of an iteration once the snapshot is processed, up to its look at the list.
  unfoldable pub end_iteration : SelfHealingState A → Fill → SelfHealingState A × Task
  unfolding remove_slots empty_slots enqueue_boundaries
  end_iteration s fill =
      let s' = enqueue_boundaries (remove_slots s (empty_slots fill)) fill.boundaries in
      (s', if is_empty s'.gaps_list then resuming true else waits)

  -- The calls that resume.
  unfoldable pub resume_all : SelfHealingState A → Bool → SelfHealingState A
  unfolding resume finish_gap
  resume_all s told = record s {
    finalizer = resume s.finalizer;
    supply_tracker = if told then finish_gap s.supply_tracker else s.supply_tracker;
  }
