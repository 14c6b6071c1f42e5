-- ===== src/Processed/Store.antt =====
-- crates/core/src/modules/processed/store.rs: one block for each slot, the anchor, conflicts,
-- retention, the cap on slots and the latest chained blocks.
pub mod Chain
pub mod Prune
pub mod Conflict
pub mod Events
pub mod Latest
use cloudbreak.Prelude.{
  ℕ, zero, suc, ◌+◌, ◌-◌, max, String, Bool, true, false, not, ◌&&◌, Option, none, some, List, [],
  ◌∷◌, str_eq, ltb, leb, ◌==◌, if◌then◌else◌, is_some, is_some_and, map_or, length, ◌++◌, ◌>>=◌,
  ◌>>◌, contains, reject_if,
}
use cloudbreak.Prelude.Word.{add64}
use cloudbreak.OrdMap.{OrdMap, get, insert, remove, range_from, last_value, pop_below, remove_all}
use cloudbreak.Processed.{
  Anchor, SlotBlock, ProcessedBlocks, max_slots_above_confirmed, retained_slots_below_confirmed,
}

pub record BlockStore : Type 0 where
  pub blocks : OrdMap SlotBlock
  pub conflict_until : Option ℕ
  pub anchor : Option Anchor

abbrev pub new : BlockStore
new = record { blocks = []; conflict_until = none; anchor = none }

abbrev pub slot_of : Option Anchor → Option ℕ
slot_of none = none
slot_of (some a) = some a.confirmed_slot

unfoldable pub anchor_slot : BlockStore → Option ℕ
anchor_slot s = slot_of s.anchor

unfoldable pub find : BlockStore → ℕ → String → Option SlotBlock
find s slot hash = do
  block ← get slot s.blocks
  if str_eq block.blockhash hash then some block else none

unfoldable pub parent_of : BlockStore → SlotBlock → Option SlotBlock
parent_of s block =
    if leb block.slot block.parent_slot
    then none
    else find s block.parent_slot block.parent_blockhash

-- The closure of `on_block`: at or below the confirmed slot.
unfoldable pub confirmed : BlockStore → ℕ → Bool
unfolding anchor_slot
confirmed s slot = is_some_and (anchor_slot s) (λ a. leb slot a)

-- The loop of `conflict`: the slots whose blocks descend from a doomed one.
unfoldable pub doomed_from : BlockStore → List ℕ → OrdMap SlotBlock → List ℕ
doomed_from s doomed [] = doomed
doomed_from s doomed ((child_slot, child) ∷ rest) =
    doomed_from s
      (if contains doomed child.parent_slot && is_some (parent_of s child)
        then child_slot ∷ doomed
        else doomed)
      rest

unfoldable pub conflict : BlockStore → ℕ → BlockStore
conflict s slot =
    let doomed = doomed_from s (slot ∷ []) (range_from (add64 slot 1) s.blocks) in
    record s {
      blocks = remove_all doomed s.blocks;
      conflict_until = some (map_or s.conflict_until slot (λ c. max c slot));
    }

abbrev pub insert_block : BlockStore → SlotBlock → BlockStore
insert_block s block = record s { blocks = insert block.slot block s.blocks }

-- The part of `on_block` that looks at the stored parent.
abbrev pub on_new_slot : BlockStore → SlotBlock → Option SlotBlock → BlockStore
on_new_slot s block none = insert_block s block
on_new_slot s block (some parent) =
    if str_eq parent.blockhash block.parent_blockhash
    then insert_block s block
    else if confirmed s block.parent_slot
    then s
    else conflict s block.parent_slot

abbrev pub on_known_slot : BlockStore → SlotBlock → Option SlotBlock → BlockStore
on_known_slot s block (some stored) =
    if not (str_eq stored.blockhash block.blockhash) && not (confirmed s block.slot)
    then conflict s block.slot
    else s
on_known_slot s block none = on_new_slot s block (get block.parent_slot s.blocks)

unfoldable pub on_block : BlockStore → SlotBlock → BlockStore
on_block s block = on_known_slot s block (get block.slot s.blocks)

-- `std::iter::successors` along `parent_of`, with fuel.
unfoldable pub successors : ℕ → BlockStore → Option SlotBlock → List SlotBlock
successors zero s b = []
successors (suc f) s none = []
successors (suc f) s (some block) = block ∷ successors f s (parent_of s block)

abbrev pub take_while_above : ℕ → List SlotBlock → List SlotBlock
take_while_above previous [] = []
take_while_above previous (block ∷ rest) =
    let more = take_while_above previous rest in
    if ltb previous block.slot then block ∷ more else []

-- The latencies, in nanoseconds, that the metric of `set_anchor` observes.
abbrev pub latencies : ℕ → List SlotBlock → List ℕ
latencies now [] = []
latencies now (block ∷ rest) = (now - block.received_at) ∷ latencies now rest

-- The blocks that the new anchor confirms, newest first.
unfoldable pub newly_confirmed : BlockStore → Anchor → List SlotBlock
unfolding anchor_slot find parent_of successors
newly_confirmed s anchor = map_or (anchor_slot s) [] (λ previous.
    map_or (find s anchor.confirmed_slot anchor.confirmed_blockhash) []
      (λ confirmed. take_while_above previous (successors (suc confirmed.slot) s (some confirmed))))

-- The new store, beside what the metric observes at the time `now`.
unfoldable pub set_anchor : BlockStore → Anchor → ℕ → BlockStore × List ℕ
set_anchor s anchor now = (
  record s {
    conflict_until =
        if is_some_and s.conflict_until (λ until. ltb until anchor.confirmed_slot)
        then none
        else s.conflict_until;
    anchor = some anchor;
  },
  latencies now (newly_confirmed s anchor),
)

-- The second loop of `prune`, with fuel: removes the lowest slot at or above `above` while more than
-- the cap remain.
unfoldable pub evict_above : ℕ → ℕ → OrdMap SlotBlock → OrdMap SlotBlock
evict_above zero above blocks = blocks
evict_above (suc f) above blocks =
    elim (ltb max_slots_above_confirmed (length (range_from above blocks))) [
      | false ↦ blocks
      | true ↦ elim (range_from above blocks) [
        | [] ↦ blocks
        | lowest ∷ _ ↦ evict_above f above (remove lowest.0 blocks)
      ]
    ]

unfoldable pub prune : BlockStore → BlockStore
unfolding anchor_slot
prune s =
    let kept =
      map_or (anchor_slot s) s.blocks
        (λ a. pop_below (a - retained_slots_below_confirmed) s.blocks) in
    let above = map_or (anchor_slot s) 0 (λ a. add64 a 1) in
    record s { blocks = evict_above (length kept) above kept }

-- The loop of `latest_chained_blocks`, with fuel: the blocks that it pushes, and the block at which
-- it stops.
unfoldable pub walk : ℕ → BlockStore → Anchor → SlotBlock → Option (List SlotBlock × SlotBlock)
walk zero s anchor block = none
walk (suc f) s anchor block =
    if ltb anchor.confirmed_slot block.slot
    then if block.parent_slot == anchor.confirmed_slot
      then if str_eq block.parent_blockhash anchor.confirmed_blockhash
        then some (block ∷ [], block)
        else none
      else (do
        parent ← parent_of s block
        (blocks, last) ← walk f s anchor parent
        some (block ∷ blocks, last))
    else some ([], block)

-- Where the chain goes on below the anchor: `none` rejects the walk.
unfoldable pub at_anchor : BlockStore → Anchor → SlotBlock → Option (Option SlotBlock)
at_anchor s anchor block =
    if ltb anchor.confirmed_slot block.slot
    then some (parent_of s block)
    else if block.slot == anchor.confirmed_slot
    then (do
      confirmed ← find s anchor.confirmed_slot anchor.confirmed_blockhash
      some (some confirmed))
    else none

abbrev pub sum_heap_bytes : OrdMap SlotBlock → ℕ
sum_heap_bytes [] = 0
sum_heap_bytes ((_, block) ∷ m) = block.heap_bytes + sum_heap_bytes m

-- The chain from `head`, for an anchor that no conflict hides.
unfoldable pub chain_from : BlockStore → Anchor → SlotBlock → Option (List SlotBlock)
chain_from s anchor head = do
  (blocks, last) ← walk (suc head.slot) s anchor head
  below ← at_anchor s anchor last
  some (blocks ++ successors (suc head.slot) s below)

unfoldable pub latest_chained_blocks : BlockStore → Option ProcessedBlocks
latest_chained_blocks s = do
  anchor ← s.anchor
  reject_if (is_some_and s.conflict_until (λ until. leb anchor.confirmed_slot until))
  head ← last_value s.blocks
  block_time ← head.block_time
  blocks ← chain_from s anchor head
  some (record {
    slot = head.slot;
    block_time = block_time;
    anchor_slot = anchor.confirmed_slot;
    stored_blocks = length s.blocks;
    stored_bytes = sum_heap_bytes s.blocks;
    blocks = blocks;
  })
