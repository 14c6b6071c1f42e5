-- ===== src/Mint/Tests.antt =====
-- Runs of the mint cache on small inputs.
use cloudbreak.Prelude.{
  ℕ, String, map_or, ◌≤◌, ◌<◌, ◌≡◌, refl, ◌⊎◌, true, false, none, some, List, [], ◌∷◌, arith,
}
use cloudbreak.Prelude.{inl}
use cloudbreak.OrdMap.{get}
use cloudbreak.Mint.{MintState, MintChange, live, closed, state_eq}
use cloudbreak.Mint.Store.{MutableMint, mutable, missing, MintStore, presized, stored, apply}
use cloudbreak.Mint.Store.View.{IsSplit}
use cloudbreak.Mint.Store.Runs.{Op, change, row, run, replay, run-presized_refines, apply_older}
use cloudbreak.Mint.Indexer.{
  Inner, write_due, complete_through, start_write_if_needed, start_write, take_pending_rows,
  start_bootstrap_write, apply_closes,
}
use cloudbreak.Mint.Indexer.Covered.{Sent, Covers}
use cloudbreak.Mint.Indexer.Followed.{waiting as waiting_close}
use cloudbreak.Mint.Indexer.Lossless.{follow, unknown, run-lossless}
use cloudbreak.Mint.Indexer.Runs.{
  Event, snapshot_account, block, bootstrap_ends, write_ends, fresh_system, rows_in,
  run as run_events, declares, declares-lt,
}
use cloudbreak.Mint.Api.{
  Applied, BufferedBlock, Cache, live_table, walk, chain, apply_chain, on_confirmed, lookup_one,
  found, postgres, loading,
}
use cloudbreak.Mint.Api.Buffer.{IsBackward}
use cloudbreak.Mint.Api.Chain.{Advances, apply_chain_total}
use cloudbreak.Mint.Api.Confirmed.{IsCovered, on_confirmed-IsCovered}
use cloudbreak.Mint.Api.Reads.{Answers, apply_blocks, state_at, fixed_at, lookup_one-exact}

abbrev with_decimals : ℕ → MintState
with_decimals d = record { decimals = d; configs = none; immutable = false }

-- A mint made at slot 3, changed at 5 and closed at 7, and another read from the table.
abbrev writes : List Op
writes =
    change 1 3 (live (with_decimals 6))
    ∷ change 1 5 (live (with_decimals 9))
    ∷ row 2 4 (some (with_decimals 2))
    ∷ change 1 7 closed
    ∷ []

run-presized_refines_example : stored (run writes presized) ≡ replay writes (λ k. missing)
run-presized_refines_example = run-presized_refines writes

abbrev six_at_3 : MutableMint
six_at_3 = record { slot = 3; state = with_decimals 6 }

abbrev one_mint : MintStore
one_mint = record { immutables = []; mutables = (1, six_at_3) ∷ []; tombstones = [] }

one_mint-IsSplit : IsSplit one_mint
unfolding get
one_mint-IsSplit = record {
  immutable_only = λ k d e. absurd (ground (arith, e));
  closed_only = λ k at e. absurd (ground (arith, e));
}

one_mint-stored : stored one_mint 1 ≡ mutable six_at_3
unfolding stored get
one_mint-stored = refl

six_not_nine : state_eq (with_decimals 6) (with_decimals 9) ≡ false
unfolding state_eq
six_not_nine = refl

-- The state of slot 3 is seen again at slot 8, and then a write of slot 5 is taken.
apply_older_example :
    stored (apply (apply one_mint 1 8 (live (with_decimals 6))).0 1 5 (live (with_decimals 9))).0 1
    ≡ mutable (record { slot = 5; state = with_decimals 9 })
apply_older_example =
    apply_older one_mint 1 six_at_3 5 8 (with_decimals 9) one_mint-IsSplit one_mint-stored
      (omega arith) (omega arith) refl six_not_nine

abbrev no_rows : Sent
no_rows k = none

-- A close of mint 2 comes before the mint, in the snapshot, and a write fails.
abbrev events : List Event
events =
    snapshot_account 2 1 (live (with_decimals 6))
    ∷ block 3 ((2, closed) ∷ []) none
    ∷ snapshot_account 2 2 (live (with_decimals 9))
    ∷ bootstrap_ends
    ∷ block 4 ((1, closed) ∷ []) none
    ∷ write_ends false
    ∷ []

run-lossless_example :
    (stored (run_events (fresh_system 10 no_rows) events).inner.store 2
      ≡ (follow 2 (fresh_system 10 no_rows) unknown events).value)
    × (waiting_close (run_events (fresh_system 10 no_rows) events).inner.closed_pending 2
        ≡ (follow 2 (fresh_system 10 no_rows) unknown events).waits)
    × Covers
        (run_events (fresh_system 10 no_rows) events).inner.store
        (run_events (fresh_system 10 no_rows) events).inner.pending_to_db
        (rows_in (run_events (fresh_system 10 no_rows) events).running)
        (run_events (fresh_system 10 no_rows) events).sent
        2
run-lossless_example = run-lossless 10 no_rows events 2

-- Written through slot 20, with blocks up to 40 and a gap at 35.
abbrev due : Inner
due = record {
  store = presized;
  closed_pending = none;
  pending_to_db = [];
  last_slot = 40;
  lowest_gap = some 35;
  last_db_slot = some 20;
  db_write_running = false;
  db_write_interval_slots = 10;
}

due_at_34 : declares (start_write_if_needed due).1 ≡ some 34
unfolding start_write_if_needed write_due complete_through start_write take_pending_rows
due_at_34 = refl

declares-lt_example : (34 ≤ 40) × (34 < 35)
declares-lt_example = declares-lt due 34 35 (inl due_at_34) refl (omega arith)

-- The write at the end of the bootstrap.
bootstrap_declares : declares (start_bootstrap_write due).1 ≡ some 34
unfolding start_bootstrap_write apply_closes complete_through start_write take_pending_rows
bootstrap_declares = refl

abbrev change_in : ℕ → MintState → BufferedBlock
change_in parent state = record {
  blockhash = "b";
  parent_slot = parent;
  parent_blockhash = "";
  changes = (1, live state) ∷ [];
}

-- Two linked blocks above the applied slot 3.
abbrev waiting : Cache
waiting = record {
  status = live_table;
  store = one_mint;
  applied = record { slot = 3; blockhash = "" };
  buffer = (4, change_in 3 (with_decimals 7) ∷ []) ∷ (6, change_in 4 (with_decimals 8) ∷ []) ∷ [];
  unhealthy_since = none;
  pending = none;
}

abbrev waiting-IsBackward : IsBackward waiting.buffer
waiting-IsBackward = ((omega arith, tt), ((omega arith, tt), tt))

abbrev confirmed_6 : Applied
confirmed_6 = record { slot = 6; blockhash = "b" }

apply_chain_total_example :
    (apply_chain waiting confirmed_6 waiting.applied ≡ some (false, waiting))
    ⊎ ((links : List (ℕ × String)) × (walk 7 waiting.buffer waiting.applied 6 "b" ≡ chain links)
        × Advances waiting confirmed_6 links)
apply_chain_total_example = apply_chain_total waiting confirmed_6 waiting-IsBackward

on_confirmed-IsCovered_example :
    (after : Cache) × (on_confirmed waiting 6 "b" true ≡ some after) × IsCovered 6 after
on_confirmed-IsCovered_example =
    on_confirmed-IsCovered waiting 6 "b" true waiting-IsBackward refl (omega arith)

abbrev block_changes : List (ℕ × List (ℕ × MintChange))
block_changes =
    (3, (1, live (with_decimals 6)) ∷ []) ∷ (5, (1, closed) ∷ (2, live (with_decimals 4)) ∷ []) ∷ []

abbrev after_blocks : Cache
after_blocks = record waiting {
  store = apply_blocks presized block_changes;
  applied = record { slot = 6; blockhash = "" };
}

lookup_one-exact_example :
    Answers
      (lookup_one after_blocks 1 6)
      (state_at 1 6 none block_changes)
      (fixed_at 1 none block_changes)
lookup_one-exact_example =
    lookup_one-exact after_blocks block_changes 1 6 (omega arith, (omega arith, omega arith)) refl

-- The chain is applied: slot 6 is the last one, and the state of its block is found.
looks_up_chain :
    map_or (on_confirmed waiting 6 "b" true) (postgres loading) (λ c. lookup_one c 1 6)
    ≡ found (with_decimals 8)
unfolding on_confirmed lookup_one apply_chain
looks_up_chain = refl
