-- ===== src/Processed/Tests.antt =====
-- The theorems about the processed blocks at concrete stores, and runs of the code.
use cloudbreak.Prelude.{
  ℕ, ◌≡◌, ◌≤◌, refl, ◌⊎◌, inl, inr, true, false, Option, none, some, List, [], ◌∷◌, arith, length,
  if◌then◌else◌, All,
}
use cloudbreak.Prelude.Int.{pos}
use cloudbreak.OrdMap.{get, insert, remove, range_from, last_value, pop_below, remove_all}
use cloudbreak.Processed.{Anchor, AccountEntry, LiveAccount, SlotBlock, ProcessedBlocks}
use cloudbreak.Processed.Ingest.{
  AccountSelectorConfig, AccountInfo, BlockUpdate, is_program_selected, from_update, last_write,
  from_update-last_write,
}
use cloudbreak.Processed.Store.{
  BlockStore, find, parent_of, confirmed, doomed_from, conflict, on_block, set_anchor, evict_above,
  prune, walk, at_anchor, successors, chain_from, latest_chained_blocks, anchor_slot,
  newly_confirmed,
}
use cloudbreak.Processed.Store.Chain.{IsValid, ancestors, meets, chain_from-ancestors}
use cloudbreak.Processed.Store.Conflict.{IsCut, conflict-IsCut}
use cloudbreak.Processed.Store.Prune.{IsPruned, prune-IsPruned}
use cloudbreak.Processed.Store.Latest.{
  Serves, Any, Ties, latest_chained_blocks-Serves, latest_chained_blocks_complete,
}
use cloudbreak.Processed.Read.{
  ProcessedAccount, of_entry, first_write, get_account, IsNewest, get_account-IsNewest,
}
use cloudbreak.Processed.Writer.{Inner, from_config, writer, blocks}
use cloudbreak.Processed.Writer
use cloudbreak.Processed.Writer.Runs.{Event, run, run-Serves, IsSound}
use cloudbreak.Processed.Writer.Quarantine.{IsHidden, run-quarantined}

program : Unit {0}
unfolding get insert remove range_from last_value pop_below remove_all find parent_of confirmed
    doomed_from conflict on_block set_anchor evict_above prune walk at_anchor successors chain_from
    latest_chained_blocks anchor_slot newly_confirmed ancestors first_write get_account meets
program = tt

abbrev account : ℕ → LiveAccount
account n = record {
  lamports = n;
  owner = 9;
  executable = false;
  rent_epoch = 0;
  account_data = [];
}

abbrev block_101 : SlotBlock
block_101 = record {
  slot = 101;
  blockhash = "h101";
  parent_slot = 100;
  parent_blockhash = "h100";
  block_time = some (pos 7);
  received_at = 5;
  accounts = (1, AccountEntry.live (account 3)) ∷ [];
  heap_bytes = 10;
}

abbrev block_103 : SlotBlock
block_103 = record {
  slot = 103;
  blockhash = "h103";
  parent_slot = 101;
  parent_blockhash = "h101";
  block_time = some (pos 8);
  received_at = 6;
  accounts = (1, AccountEntry.closed) ∷ [];
  heap_bytes = 11;
}

abbrev anchor_100 : Anchor
anchor_100 = record { confirmed_slot = 100; confirmed_blockhash = "h100" }

abbrev store : BlockStore
store = record {
  blocks = (101, block_101) ∷ (103, block_103) ∷ [];
  conflict_until = none;
  anchor = some anchor_100;
}

store-IsValid : IsValid store
unfolding get
store-IsValid = record { sorted = omega arith; keyed = λ k b e. ground arith }

abbrev served : ProcessedBlocks
served = record {
  slot = 103;
  block_time = pos 8;
  anchor_slot = 100;
  stored_blocks = 2;
  stored_bytes = 21;
  blocks = block_103 ∷ block_101 ∷ [];
}

store_serves : latest_chained_blocks store ≡ some served
unfolding program
store_serves = refl

latest_chained_blocks-Serves_example : Serves store served
latest_chained_blocks-Serves_example =
    latest_chained_blocks-Serves store store-IsValid served store_serves

store-Ties : Any (Ties anchor_100) (ancestors store block_103)
unfolding program
store-Ties = inr (inl (Ties.above (omega arith) refl refl))

stored_103 : get 103 store.blocks ≡ some block_103
unfolding get
stored_103 = refl

highest_103 : (q : ℕ) (b : SlotBlock) → get q store.blocks ≡ some b → q ≤ 103
unfolding get
highest_103 q b e = ground arith

latest_chained_blocks_complete_example :
    (pb : ProcessedBlocks) × (latest_chained_blocks store ≡ some pb)
    × (pb.slot ≡ 103)
    × (pb.block_time ≡ pos 8)
    × (pb.anchor_slot ≡ 100)
    × (pb.blocks ≡ ancestors store block_103)
latest_chained_blocks_complete_example =
    latest_chained_blocks_complete store store-IsValid anchor_100 block_103 (pos 8) refl (λ u e. cc)
      stored_103 highest_103 refl store-Ties

chain_from-ancestors_example : chain_from store anchor_100 block_103 ≡ (
    if meets anchor_100 (ancestors store block_103) then some (ancestors store block_103) else none)
chain_from-ancestors_example =
    chain_from-ancestors store store-IsValid anchor_100 block_103 stored_103

conflict-IsCut_example : IsCut store 101 (conflict store 101)
conflict-IsCut_example = conflict-IsCut store store-IsValid 101 (omega arith)

-- Both blocks go: 103 descends from 101.
conflict_runs :
    conflict store 101 ≡ record { blocks = []; conflict_until = some 101; anchor = some anchor_100 }
unfolding program
conflict_runs = refl

prune-IsPruned_example : IsPruned store (prune store)
prune-IsPruned_example = prune-IsPruned store store-IsValid

abbrev rival_101 : SlotBlock
rival_101 = record block_101 { blockhash = "x101" }

get_account-IsNewest_example :
    ((get_account served 1 ≡ ProcessedAccount.unknown)
      × All (λ c. get 1 c.accounts ≡ none) served.blocks)
    ⊎ ((b : SlotBlock) × (entry : AccountEntry) × (get_account served 1 ≡ of_entry entry)
        × IsNewest 1 served.blocks b entry)
get_account-IsNewest_example =
    get_account-IsNewest store store-IsValid 1 served latest_chained_blocks-Serves_example

-- The closing write in the newer block shadows the live one.
get_account_runs : get_account served 1 ≡ ProcessedAccount.closed
unfolding program
get_account_runs = refl

abbrev filter : AccountSelectorConfig
filter = record { include = []; exclude = 9 ∷ [] }

-- A key is read from the first byte, if there is one.
abbrev first_byte : List ℕ → Option ℕ
first_byte [] = none
first_byte (b ∷ bs) = some b

abbrev info : ℕ → AccountInfo
info owner = record {
  pubkey = 1 ∷ [];
  lamports = 4;
  owner = owner ∷ [];
  executable = false;
  rent_epoch = 0;
  account_data = [];
}

abbrev update_101 : BlockUpdate
update_101 = record {
  slot = 101;
  blockhash = "h101";
  parent_slot = 100;
  parent_blockhash = "h100";
  block_time = some (pos 7);
  accounts = info 8 ∷ info 9 ∷ [];
}

from_update-last_write_example :
    get 1 (from_update first_byte (λ n. n) filter update_101 5).accounts
    ≡ last_write first_byte (λ n. n) filter 1 none update_101.accounts
from_update-last_write_example = from_update-last_write first_byte (λ n. n) filter update_101 5 1

abbrev sealed_101 : SlotBlock
sealed_101 = record {
  slot = 101;
  blockhash = "h101";
  parent_slot = 100;
  parent_blockhash = "h100";
  block_time = some (pos 7);
  received_at = 5;
  accounts = (1, AccountEntry.closed) ∷ [];
  heap_bytes = 2;
}

abbrev served_101 : ProcessedBlocks
served_101 = record {
  slot = 101;
  block_time = pos 7;
  anchor_slot = 100;
  stored_blocks = 1;
  stored_bytes = 2;
  blocks = sealed_101 ∷ [];
}

abbrev events : List Event
events = Event.anchor anchor_100 4 ∷ Event.block update_101 5 ∷ []

run_serves :
    blocks (run first_byte (λ n. n) (writer (from_config (some true) filter)) events)
    ≡ some served_101
unfolding program run Writer.on_block Writer.set_anchor from_update is_program_selected writer
    from_config blocks
run_serves = refl

run-Serves_example :
    (i : Inner) × (run first_byte (λ n. n) (writer (from_config (some true) filter)) events
      ≡ some i)
    × Serves i.store served_101
    × (length i.store.blocks ≤ 37)
run-Serves_example =
    run-Serves first_byte (λ n. n) (some true) filter events served_101 (omega arith) run_serves

abbrev waiting : Inner
waiting = record {
  shared = record { program_filter = filter; latest = none };
  store = record { blocks = []; conflict_until = some 102; anchor = some anchor_100 };
}

waiting-IsSound : IsSound waiting
unfolding program
waiting-IsSound = record {
  valid = record { sorted = tt; keyed = λ k b e. cc };
  published = refl;
  anchored = λ a e. ground arith;
  bounded = λ a e. omega arith;
  capped = λ e. cc;
}

waiting-IsHidden : IsHidden 102 waiting.store
waiting-IsHidden = record {
  until = 102;
  pending = refl;
  later = omega arith;
  behind = λ a e. ground arith;
}

run-quarantined_example : blocks (run first_byte (λ n. n) (some waiting) events) ≡ none
run-quarantined_example =
    run-quarantined 102 first_byte (λ n. n) waiting events waiting-IsSound waiting-IsHidden
      (omega arith) (omega arith, (tt, tt))
