-- ===== src/Supply/Tests.antt =====
-- Runs of the cache and the tracker on small inputs.
use cloudbreak.Prelude.{
  ℕ, ◌≡◌, refl, inl, inr, true, false, none, some, List, [], ◌∷◌, arith, ◌==◌, if◌then◌else◌,
  Bool-cases, length, min, ◌-◌, ◌/◌, ◌+◌, ◌≤◌,
}
use cloudbreak.Prelude.Int.{pos, ◌+ℤ◌}
use cloudbreak.OrdMap.{get}
use cloudbreak.Supply.Cache.{Entry, HotAccounts, PrevRow, pin_failed, sweep, unpinned_slots}
use cloudbreak.Supply.Cache.Pins.{count_pinned, IsCounted, IsSwept, pin_failed-IsCounted}
use cloudbreak.Supply.Cache.Sweep.{sweep_total}
use cloudbreak.Supply.Cache.Repeated.{pin_failed-repeated}
use cloudbreak.Supply.Tracker.{
  Pending, StakeBlock, SupplyState, SupplyStatus, new, apply_block, changed,
}
use cloudbreak.Supply.Tracker.Stale.{Op, gap, block_done, run, run-Rests}
use cloudbreak.Supply.Tracker.Delta.{
  ledger_delta, delta_of, Agrees, RowAgrees, apply_block-ledger_delta,
}

abbrev cached : ℕ → ℕ → Entry
cached lamports slot = record { lamports = lamports; slot = slot; pinned = false }

-- Three unpinned accounts under a cap of two.
abbrev crowded : HotAccounts
crowded = record {
  entries = (1, cached 10 4) ∷ (2, cached 20 3) ∷ (3, cached 30 5) ∷ [];
  cap = 2;
  fail_pin_cap = 8;
  pinned_count = 0;
  last_sweep_slot = 0;
}

crowded-IsCounted : IsCounted crowded
crowded-IsCounted = record {
  sorted = ((omega arith, (omega arith, tt)), ((omega arith, tt), (tt, tt)));
  counted = refl;
  small = omega arith;
}

sweep_total_example :
    (c' : HotAccounts) × (evicted : ℕ) × (sweep crowded 9 ≡ some (c', evicted))
    × IsSwept crowded c'
    × (evicted + length c'.entries ≡ length crowded.entries)
    × (min (crowded.cap - crowded.cap / 10) (length (unpinned_slots crowded.entries))
        ≤ length (unpinned_slots c'.entries))
sweep_total_example = sweep_total crowded 9 crowded-IsCounted (omega arith) (omega arith)

pin_failed-IsCounted_example : IsCounted (pin_failed crowded (1 ∷ 3 ∷ 7 ∷ [])).0
pin_failed-IsCounted_example =
    pin_failed-IsCounted crowded crowded-IsCounted 9 (1 ∷ 3 ∷ 7 ∷ []) (refl, (refl, (refl, tt)))
      (omega arith)

pin_failed-repeated_example :
    ((pin_failed crowded (2 ∷ 2 ∷ [])).0.pinned_count
      ≡ count_pinned (pin_failed crowded (2 ∷ 2 ∷ [])).0.entries + 1)
    × ((pin_failed crowded (2 ∷ 2 ∷ [])).1 ≡ true)
unfolding get
pin_failed-repeated_example =
    pin_failed-repeated crowded 2 crowded-IsCounted refl (omega arith) (omega arith)

-- A tracker that went live at slot 5 and has the three accounts cached.
abbrev live_state : SupplyState
unfolding new
live_state = record (new 2 8) {
  status = SupplyStatus.live;
  total = 100;
  slot = 5;
  startup_slot = 2;
  cache = crowded;
}

-- Account 1 gains 5, and account 9 is new to the cache but not to the database.
abbrev block : List Pending
block =
    record { pubkey = 1; owner = 50; lamports = 15 }
    ∷ record { pubkey = 9; owner = 50; lamports = 6 }
    ∷ []

abbrev ledger : ℕ → ℕ
ledger k = if k == 1 then 10 else if k == 9 then 8 else 0

abbrev rows : ℕ → PrevRow
rows k = if k == 1 then some (10, 4) else if k == 9 then some (8, 2) else none

abbrev no_stake : StakeBlock
no_stake = record { delta = pos 0; handled = [] }

rows-RowAgrees : (k : ℕ) → RowAgrees ledger 6 k (rows k)
unfolding RowAgrees
rows-RowAgrees k = elim (Bool-cases (k == 1)) [
  | inl one ↦ rw (one) (ground (arith, one), omega arith)
  | inr other ↦ elim (Bool-cases (k == 9)) [
    | inl nine ↦ rw (other, nine) (ground (arith, other, nine), omega arith)
    | inr rest ↦ rw (other, rest) (ground (arith, other, rest))
  ]
]

crowded-Agrees : Agrees ledger 6 crowded [] 1
unfolding get
crowded-Agrees = record {
  cached = λ e found. (ground (arith, found), ground (arith, found));
  zero = λ z. absurd (ground (arith, z));
}

missing-Agrees : Agrees ledger 6 crowded [] 9
unfolding get
missing-Agrees = record {
  cached = λ e found. absurd (ground (arith, found));
  zero = λ z. absurd (ground (arith, z));
}

apply_block-ledger_delta_example :
    delta_of (apply_block 99 live_state 6 false block no_stake none (some rows)).1
    ≡ some (pos 0 +ℤ ledger_delta ledger [] block)
unfolding get live_state
apply_block-ledger_delta_example =
    apply_block-ledger_delta 99 ledger live_state 6 block no_stake none (some rows) rows refl
      ((refl, tt), (tt, tt)) (crowded-Agrees, (missing-Agrees, tt)) refl rows-RowAgrees

abbrev stale_state : SupplyState
unfolding new
stale_state = record (new 2 8) { status = SupplyStatus.stale; total = 100; slot = 5 }

-- A gap, a block and its commit.
abbrev ops : List Op
ops =
    gap
    ∷ Op.block 6 false block no_stake none (some rows)
    ∷ block_done 6 (changed (pos 3) (1 ∷ [])) true none
    ∷ []

run-Rests_example :
    ((run 99 stale_state ops).0.status ≡ SupplyStatus.stale)
    × ((run 99 stale_state ops).0.total ≡ stale_state.total)
    × ((run 99 stale_state ops).1 ≡ [])
unfolding stale_state
run-Rests_example = run-Rests 99 stale_state ops refl
