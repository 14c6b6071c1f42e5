-- ===== src/NonCirculating/Tests.antt =====
-- The theorems about the non-circulating tracker at concrete values, and runs of the code.
use cloudbreak.Prelude.{
  ℕ, ◌+◌, ◌/◌, ◌≡◌, refl, Bool, true, false, Option, none, some, List, [], ◌∷◌, arith,
}
use mathlib.Core.Path.{subst}
use mathlib.Core.Option.{some-injective}
use cloudbreak.OrdMap.{get, insert, remove}
use cloudbreak.PairSet
use cloudbreak.NonCirculating.{
  epoch_start, BlockClock, evaluate, set_clock, unplace, placed, with_placed, place, note_flip,
  leave, pass_epoch, expire_epochs, expire_timestamps, expire,
}
use cloudbreak.NonCirculating.Tracker.{
  StakeMeta, Shared, Account, State, set_of, retain, place_all, new, with_lockup,
  entry_from_account, entry_of, clocked, seeded, seed_account, finish_bootstrap, find_clock,
  fold_vacant, fold_occupied, fold_account, fold_accounts, advance_clock, apply_block,
  is_non_circulating, total,
}
use cloudbreak.Prelude.{unwrap_or, Bool-cases, inl, inr, ◌<◌, ◌==◌, if◌then◌else◌}
use cloudbreak.Supply
use cloudbreak.Supply.Cache.{PrevRow}
use cloudbreak.Supply.Tracker.{SupplyState, SupplyStatus}
use cloudbreak.Supply.Tracker.Delta.{ledger_delta, delta_of, RowAgrees}
use cloudbreak.NonCirculating.{StakeEntry, StakeBlock}
use cloudbreak.NonCirculating.Effects.{build_block_pending}
use cloudbreak.NonCirculating.Ledger.{stake_of, apply_block-full_delta}
use cloudbreak.NonCirculating.Life.{Block, Load, seed, early, boot, follow, run, IsExact, OnChain}
use cloudbreak.NonCirculating.Runs.{run-IsExact}

abbrev epoch_at : ℕ → ℕ
epoch_at slot = slot / 100

abbrev timestamp_at : ℕ → ℕ
timestamp_at slot = epoch_start + slot

-- The data of the Clock is its slot.
abbrev clock_of : ℕ → BlockClock
clock_of slot = record { slot = slot; epoch = epoch_at slot; unix_timestamp = timestamp_at slot }

-- The data of a stake account is the epoch of its lockup.
abbrev meta_of : ℕ → StakeMeta
meta_of epoch = record { unix_timestamp = epoch_start + 450; epoch = epoch; withdrawer = 9 }

abbrev test_shared : Shared ℕ
test_shared = record {
  stake_program = 5;
  clock_sysvar = 1;
  pinned = 20 ∷ [];
  withdraw_authorities = [];
  parse_clock = λ d. some (clock_of d);
  parse_stake = λ d. some (meta_of d);
}

abbrev clock_account : ℕ → Account ℕ
clock_account slot = record { pubkey = 1; owner = 0; lamports = 1; account_data = slot }

abbrev stake_account : ℕ → ℕ → ℕ → Account ℕ
stake_account k lamports epoch = record {
  pubkey = k;
  owner = 5;
  lamports = lamports;
  account_data = epoch;
}

abbrev loads : List (Load ℕ)
loads =
    seed (clock_account 150) 150
    ∷ seed (stake_account 10 70 4) 150
    ∷ early (record { slot = 160; is_repaired = false; accounts = stake_account 11 30 0 ∷ [] })
    ∷ []

abbrev block_250 : Block ℕ
block_250 = record {
  slot = 250;
  is_repaired = false;
  accounts = clock_account 250 ∷ stake_account 11 35 6 ∷ stake_account 12 4 0 ∷ [];
}

-- Its clock is past every time and the lockup of account 10.
abbrev block_500 : Block ℕ
block_500 = record { slot = 500; is_repaired = false; accounts = clock_account 500 ∷ [] }

clock-OnChain :
    (slot : ℕ) (c : BlockClock)
    → some (clock_of slot) ≡ some c
    → OnChain test_shared epoch_at timestamp_at c
clock-OnChain slot c e =
    subst (OnChain test_shared epoch_at timestamp_at) (some-injective (clock_of slot) c e)
      (refl, refl)

no_clock : (c : BlockClock) → none ≡ some c → OnChain test_shared epoch_at timestamp_at c
no_clock c e = absurd (ground (arith, e))

run-IsExact_example :
    (s : State) × (run test_shared loads (block_250 ∷ block_500 ∷ []) ≡ some s)
    × IsExact test_shared s
unfolding find_clock
run-IsExact_example =
    run-IsExact test_shared epoch_at timestamp_at (λ a b le. ground (arith, le)) loads
      (block_250 ∷ block_500 ∷ [])
      (λ c _ e. clock-OnChain 150 c e, (λ c k e. absurd (ground (arith, k)), (no_clock, tt)))
      (clock-OnChain 250, (clock-OnChain 500, tt))

abbrev served : Option State → Option (Option ℕ × List Bool)
served none = none
served (some s) = some (
  total s,
  is_non_circulating s 10
      ∷ is_non_circulating s 11
      ∷ is_non_circulating s 12
      ∷ is_non_circulating s 20
      ∷ [],
)

-- Two lockups are in force, and the account that waits for its time.
before_expiry :
    served (run test_shared loads (block_250 ∷ []))
    ≡ some (some 109, true ∷ true ∷ true ∷ true ∷ [])
unfolding run boot follow new set_of seed_account seeded clocked set_clock entry_of
    entry_from_account with_lockup finish_bootstrap retain place_all place placed with_placed
    unplace evaluate find_clock advance_clock expire expire_epochs expire_timestamps pass_epoch
    leave note_flip fold_accounts fold_account fold_vacant fold_occupied apply_block get insert
    remove PairSet.insert PairSet.remove total is_non_circulating
before_expiry = refl

-- Only the lockup until epoch 6 and the pinned account are left.
after_expiry :
    served (run test_shared loads (block_250 ∷ block_500 ∷ []))
    ≡ some (some 35, false ∷ true ∷ false ∷ true ∷ [])
unfolding run boot follow new set_of seed_account seeded clocked set_clock entry_of
    entry_from_account with_lockup finish_bootstrap retain place_all place placed with_placed
    unplace evaluate find_clock advance_clock expire expire_epochs expire_timestamps pass_epoch
    leave note_flip fold_accounts fold_account fold_vacant fold_occupied apply_block get insert
    remove PairSet.insert PairSet.remove total is_non_circulating
after_expiry = refl

-- The clock, an account of the map, and one that is of neither tracker.
abbrev block_480 : Block ℕ
block_480 = record {
  slot = 480;
  is_repaired = false;
  accounts =
      clock_account 480
      ∷ stake_account 11 40 6
      ∷ record { pubkey = 30; owner = 7; lamports = 9; account_data = 0 }
      ∷ [];
}

abbrev ledger : ℕ → ℕ
ledger k = if k == 1 then 1 else if k == 11 then 35 else if k == 30 then 2 else 0

abbrev rows : ℕ → PrevRow
rows k =
    if k == 1
    then some (1, 250)
    else if k == 11
    then some (35, 250)
    else if k == 30
    then some (2, 3)
    else none

rows-RowAgrees : (k : ℕ) → RowAgrees ledger 480 k (rows k)
unfolding RowAgrees
rows-RowAgrees k = elim (Bool-cases (k == 1)) [
  | inl clock ↦ rw (clock) (ground (arith, clock), omega arith)
  | inr a ↦ elim (Bool-cases (k == 11)) [
    | inl stake ↦ rw (a, stake) (ground (arith, stake, a), omega arith)
    | inr b ↦ elim (Bool-cases (k == 30)) [
      | inl plain ↦ rw (a, b, plain) (ground (arith, plain, a, b), omega arith)
      | inr rest ↦ rw (a, b, rest) (ground (arith, a, b, rest))
    ]
  ]
]

abbrev counting : SupplyState
unfolding Supply.Tracker.new
counting = record (Supply.Tracker.new 8 8) {
  status = SupplyStatus.live;
  total = 100;
  slot = 250;
  startup_slot = 2;
}

abbrev state_250 : State
state_250 = unwrap_or (run test_shared loads (block_250 ∷ [])) (new test_shared)

-- Account 11 as the map holds it.
abbrev entry_11 : StakeEntry
entry_11 = record {
  lamports = 35;
  lockup_unix_timestamp = epoch_start + 450;
  lockup_epoch = 6;
  slot = 250;
  stake_owned = true;
  lockup = true;
  listed_withdrawer = false;
  pinned = false;
  member = true;
  in_by_epoch = true;
  in_by_timestamp = false;
}

entry_11-Agrees :
    (e : StakeEntry) → some entry_11 ≡ some e → (e.lamports ≡ ledger 11) × (e.slot < 480)
entry_11-Agrees e eq =
    subst (λ e. (e.lamports ≡ ledger 11) × (e.slot < 480)) (some-injective entry_11 e eq)
      (refl, omega arith)

no_entry-Agrees :
    (k : ℕ) (e : StakeEntry) → none ≡ some e → (e.lamports ≡ ledger k) × (e.slot < 480)
no_entry-Agrees k e eq = absurd (ground (arith, eq))

uncached-Agrees : (k : ℕ) → Supply.Tracker.Delta.Agrees ledger 480 counting.cache [] k
unfolding get counting Supply.Tracker.new
uncached-Agrees k = record {
  cached = λ e eq. absurd (ground (arith, eq));
  zero = λ e. absurd (ground (arith, e));
}

apply_block-full_delta_example :
    (r : State × StakeBlock) × (apply_block test_shared state_250 480 false block_480.accounts
      ≡ some r)
    × (delta_of
          (Supply.Tracker.apply_block 5 counting 480 false
            (build_block_pending block_480.accounts)
            (stake_of r.1)
            none
            (some rows)).1
        ≡ some (ledger_delta ledger [] (build_block_pending block_480.accounts)))
unfolding run boot follow new set_of seed_account seeded clocked set_clock entry_of
    entry_from_account with_lockup finish_bootstrap retain place_all place placed with_placed
    unplace evaluate find_clock advance_clock expire expire_epochs expire_timestamps pass_epoch
    leave note_flip fold_accounts fold_account fold_vacant fold_occupied apply_block get insert
    remove PairSet.insert PairSet.remove counting Supply.Tracker.new
apply_block-full_delta_example =
    apply_block-full_delta test_shared epoch_at timestamp_at ledger loads (block_250 ∷ []) state_250
      block_480 5 counting none (some rows) rows (λ a b le. ground (arith, le))
      (λ c _ e. clock-OnChain 150 c e, (λ c k e. absurd (ground (arith, k)), (no_clock, tt)))
      (clock-OnChain 250, tt) (clock-OnChain 480) refl refl refl refl refl
      ((refl, (refl, tt)), ((refl, tt), (tt, tt)))
      (
        λ e eq _. no_entry-Agrees 1 e eq,
        (λ e eq _. entry_11-Agrees e eq, (λ e eq _. no_entry-Agrees 30 e eq, tt)),
      )
      (uncached-Agrees 1, (uncached-Agrees 11, (uncached-Agrees 30, tt))) refl rows-RowAgrees
