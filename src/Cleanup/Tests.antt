-- ===== src/Cleanup/Tests.antt =====
-- The theorems about the cleanup queue at concrete values, and runs of the code.
use cloudbreak.Prelude.{ℕ, ◌≡◌, refl, Bool, true, false, none, some, List, [], ◌∷◌, arith}
use cloudbreak.OrdMap
use cloudbreak.OrdMap.{insert, remove, IsSorted}
use cloudbreak.Cleanup.{CleanupKey, omax}
use cloudbreak.Cleanup.Keys.{AccountsReceivedPerBlock, keys_for_slot, unrouted_key}
use cloudbreak.Cleanup.Pending.{Pending, Taken, take_window, lag_slots, is_quiescent, handle}
use cloudbreak.Cleanup.Pending.Owed.{
  Op, begins, ends, Draining, run, deleted, handed, waiting, owed, run-owed, take_window-owed,
  owed_taken,
}
use cloudbreak.Cleanup.Pending.Progress.{rounds, rounds-is_quiescent}

abbrev key_1 : CleanupKey
key_1 = record { owner = some 9; pubkey = 1 }

abbrev key_2 : CleanupKey
key_2 = record { owner = none; pubkey = 2 }

abbrev works : Taken → Bool
works t = true

-- A key comes while a drain waits that fails, and a drain that succeeds takes both slots in turn.
abbrev ops : List Op
ops =
    Op.enqueue 100 ((key_1, 100) ∷ (key_2, 101) ∷ [])
    ∷ begins
    ∷ Op.enqueue 100 ((key_1, 102) ∷ [])
    ∷ ends false
    ∷ Op.enqueue 90 ((key_1, 90) ∷ [])
    ∷ begins
    ∷ ends true
    ∷ []

abbrev idle : Draining
unfolding handle
idle = record { queue = handle 1; held = none }

run-owed_example : omax (deleted key_1 idle ops) (waiting key_1 (run idle ops)) ≡ handed key_1 ops
unfolding idle
run-owed_example = run-owed key_1 1 ops

-- The slot that failed keeps the higher cutoff, and is drained later than the lower one.
run_runs : run idle ops ≡ record {
  queue = record {
    slots = (100, record { keys = (key_1, 102) ∷ (key_2, 101) ∷ []; stamp = 100 }) ∷ [];
    in_flight_stamp = none;
    high_water = 100;
    enqueued_since_drain = 0;
    last_drain_slot = some 100;
    interval_slots = 1;
  };
  held = none;
}
unfolding run idle handle insert remove OrdMap.get
run_runs = refl

abbrev two_slots : Pending
two_slots = record {
  slots =
      (100, record { keys = (key_1, 100) ∷ []; stamp = 100 })
      ∷ (101, record { keys = (key_1, 101) ∷ (key_2, 101) ∷ []; stamp = 101 })
      ∷ [];
  in_flight_stamp = none;
  high_water = 101;
  enqueued_since_drain = 2;
  last_drain_slot = none;
  interval_slots = 2;
}

take_window-owed_example :
    IsSorted (take_window two_slots).1.slots
    × (omax (owed_taken key_1 (take_window two_slots).0) (owed key_1 (take_window two_slots).1)
        ≡ owed key_1 two_slots)
take_window-owed_example = take_window-owed two_slots (omega arith) key_1

rounds-is_quiescent_example : is_quiescent (rounds 1 works two_slots) ≡ true
rounds-is_quiescent_example =
    rounds-is_quiescent works (λ t. refl) 1 two_slots (omega arith) refl (omega arith)

lag_runs : lag_slots two_slots ≡ 1
unfolding lag_slots
lag_runs = refl

-- A key of 32 bytes whose number is its last byte.
abbrev bytes : ℕ → List ℕ
bytes n =
    0 ∷ 0 ∷ 0 ∷ 0 ∷ 0 ∷ 0 ∷ 0 ∷ 0 ∷ 0 ∷ 0 ∷ 0 ∷ 0 ∷ 0 ∷ 0 ∷ 0 ∷ 0 ∷ 0 ∷ 0 ∷ 0 ∷ 0 ∷ 0 ∷ 0 ∷ 0 ∷ 0
    ∷ 0 ∷ 0 ∷ 0 ∷ 0 ∷ 0 ∷ 0 ∷ 0 ∷ n ∷ []

abbrev received : AccountsReceivedPerBlock
received = record {
  accounts = bytes 1 ∷ bytes 2 ∷ (7 ∷ []) ∷ [];
  accounts_owners = [];
  closed_accounts = bytes 2 ∷ [];
  closed_cleanup_pubkeys = [];
  closed_cleanup_owners = [];
}

keys_for_slot_runs :
    (keys_for_slot received 100 false).items
    ≡ (unrouted_key 1, 100) ∷ (unrouted_key 2, 100) ∷ (unrouted_key 2, 101) ∷ []
unfolding keys_for_slot
keys_for_slot_runs = refl
