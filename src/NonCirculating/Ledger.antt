-- ===== src/NonCirculating/Ledger.antt =====
-- The two trackers of a block together: the stake map first, then the supply tracker with what the map
-- reports (crates/index/src/modules/save_block.rs).
use cloudbreak.Prelude.{
  ℕ, ◌≤◌, ◌≡◌, sym, ◌∙◌, ap, true, false, not, ◌&&◌, Option, some, List, [], leb, All,
}
use mathlib.Core.Path.{subst}
use mathlib.Core.Option.{some-injective}
use cloudbreak.Supply.Cache.{PrevRow}
use cloudbreak.Supply
use cloudbreak.Supply.Tracker.{SupplyState}
use cloudbreak.Supply.Tracker.Delta.{
  counts, delta_of, ledger_delta, Once, RowAgrees, apply_block-ledger_delta,
}
use cloudbreak.NonCirculating.{StakeBlock}
use cloudbreak.NonCirculating.Tracker.{Shared, State, is_live, apply_block}
use cloudbreak.NonCirculating.Life.{Block, Load, run, IsLoadOnChain, IsBlockOnChain}
use cloudbreak.NonCirculating.Runs.{IsTracking, Tracked, Ran, run-Ran, apply_block-Tracked}
use cloudbreak.NonCirculating.Effects.{Agrees, build_block_pending}
use cloudbreak.NonCirculating.Delta.{apply_block-delta}

-- What the supply tracker takes of a block of the stake map.
abbrev pub stake_of : StakeBlock → Supply.Tracker.StakeBlock
stake_of b = record { delta = b.delta; handled = b.handled }

-- A block above the slots of both trackers, of which the stake map is live and the supply tracker counts:
-- the stake map returns, and the supply tracker then adds exactly the change of the ledger over all
-- accounts of the block, each counted once. The stake map is in a state that a run with ordered clocks
-- reaches, and the clock of the block is ordered with them. The accounts of the block are distinct, what
-- either tracker holds of them is older and agrees with the ledger, and one of the two reads of
-- rows succeeds with rows that agree with it.
pub apply_block-full_delta :
    {Data : Type 0} (shared : Shared Data) (epoch_at timestamp_at ledger : ℕ → ℕ)
    (loads : List (Load Data)) (blocks : List (Block Data)) (s : State) (b : Block Data)
    (stake_program : ℕ) (supply : SupplyState) (first second : Option (ℕ → PrevRow))
    (prev : ℕ → PrevRow)
    → ((a c : ℕ) → a ≤ c → (epoch_at a ≤ epoch_at c) × (timestamp_at a ≤ timestamp_at c))
    → All (IsLoadOnChain shared epoch_at timestamp_at) loads
    → All (IsBlockOnChain shared epoch_at timestamp_at) blocks
    → IsBlockOnChain shared epoch_at timestamp_at b
    → run shared loads blocks ≡ some s
    → is_live s.status ≡ true
    → leb b.slot s.slot ≡ false
    → b.is_repaired ≡ false
    → counts supply b.slot ≡ true
    → Once (build_block_pending b.accounts)
    → All (λ a. Agrees ledger b.slot s.accounts a.pubkey) b.accounts
    → All
        (λ q.
          Supply.Tracker.Delta.Agrees ledger b.slot supply.cache supply.startup_zero_prev q.pubkey)
        (build_block_pending b.accounts)
    → Supply.Tracker.either_read first second ≡ some prev
    → ((k : ℕ) → RowAgrees ledger b.slot k (prev k))
    → (r : State × StakeBlock) × (apply_block shared s b.slot b.is_repaired b.accounts ≡ some r)
      × (delta_of
            (Supply.Tracker.apply_block stake_program supply b.slot false
              (build_block_pending b.accounts)
              (stake_of r.1)
              first
              second).1
          ≡ some (ledger_delta ledger [] (build_block_pending b.accounts)))
apply_block-full_delta shared epoch_at timestamp_at ledger loads blocks s b stake_program supply
      first second prev monotone on_loads on_blocks on_block reached running above streamed counting
      once agrees cached read rows =
    let pending = build_block_pending b.accounts in
    let ran : Ran shared epoch_at timestamp_at (run shared loads blocks) =
      run-Ran shared epoch_at timestamp_at monotone loads blocks on_loads on_blocks in
    let tracks : IsTracking shared epoch_at timestamp_at s =
      subst (IsTracking shared epoch_at timestamp_at)
        (some-injective ran.last s (sym ran.runs ∙ reached)) ran.tracks in
    let t : Tracked shared epoch_at timestamp_at
        (apply_block shared s b.slot b.is_repaired b.accounts) =
      apply_block-Tracked shared epoch_at timestamp_at monotone s b on_block tracks in
    (
      t.next,
      t.runs,
      apply_block-ledger_delta stake_program ledger supply b.slot pending (stake_of t.next.1) first
            second prev counting once cached read rows
          ∙ ap some (
              apply_block-delta shared ledger b.slot s b.is_repaired b.accounts t.next running
                (ap (λ r. not r && leb b.slot s.slot) streamed ∙ above) once agrees t.runs),
    )
