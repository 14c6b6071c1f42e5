-- ===== src/Supply/Tracker.antt =====
-- crates/core/src/modules/supply/tracker.rs: the running total and its life cycle. The model is that
-- of an enabled tracker; a disabled one does nothing. The two reads of the database that a block may
-- make, the result of its row writes and the total of the non-circulating accounts are arguments.
pub mod Delta
pub mod Stale
use cloudbreak.Prelude.{
  ℕ, ◌+◌, ◌-◌, ◌%◌, max, Bool, true, false, not, ◌&&◌, ◌||◌, Option, none, some, List, [], ◌∷◌,
  ◌++◌, ltb, leb, ◌==◌, if◌then◌else◌, is_some_and, contains, keep, map_or, ◌>>=◌, map,
}
use cloudbreak.Prelude.Int.{ℤ, pos, negsuc, sub_ℕ, ◌+ℤ◌}
use cloudbreak.Prelude.Word.{u64_mod}
use cloudbreak.OrdMap.{OrdMap, get, insert}
use cloudbreak.Supply.Cache.{
  HotAccounts, Probe, hit, miss, PrevRow, with_capacity, probe, apply_miss, sweep_due, sweep,
  pin_failed,
}

pub record Pending : Type 0 where
  pub pubkey : ℕ
  pub owner : ℕ
  pub lamports : ℕ

pub record TouchedAccount : Type 0 where
  pub slot : ℕ
  pub lamports : ℕ

-- What the stake map of the non-circulating tracker has counted and handled of a block.
pub record StakeBlock : Type 0 where
  pub delta : ℤ
  pub handled : List ℕ

pub data BlockOutcome : Type 0 where
  idle bootstrapping read_failed : BlockOutcome
  changed : ℤ → List ℕ → BlockOutcome

pub data SupplyStatus : Type 0 where
  bootstrapping live gap_filling stale : SupplyStatus

pub record SupplyState : Type 0 where
  pub status : SupplyStatus
  pub bootstrap_failed : Bool
  pub total : ℕ
  pub slot : ℕ
  pub startup_slot : ℕ
  pub startup_touched : OrdMap TouchedAccount
  pub startup_zero_prev : List ℕ
  pub gap_closes : OrdMap ℕ
  pub cache : HotAccounts

pub record SupplyCommit : Type 0 where
  pub slot : ℕ
  pub total : ℕ
  pub non_circulating : Option ℕ

unfoldable pub new : ℕ → ℕ → SupplyState
unfolding with_capacity
new cap fail_pin_cap = record {
  status = SupplyStatus.bootstrapping;
  bootstrap_failed = false;
  total = 0;
  slot = 0;
  startup_slot = 0;
  startup_touched = [];
  startup_zero_prev = [];
  gap_closes = [];
  cache = with_capacity cap fail_pin_cap;
}

-- `i128 as u64`
abbrev pub to_u64 : ℤ → ℕ
to_u64 (pos n) = n % u64_mod
to_u64 (negsuc n) = u64_mod - 1 - n % u64_mod

-- `(total as i128 + delta) as u64`
unfoldable pub add_delta : ℕ → ℤ → ℕ
unfolding ◌+ℤ◌
add_delta total delta = to_u64 (pos total +ℤ delta)

abbrev pub is_bootstrapping : SupplyStatus → Bool
is_bootstrapping SupplyStatus.bootstrapping = true
is_bootstrapping _ = false

abbrev pub is_live : SupplyStatus → Bool
is_live SupplyStatus.live = true
is_live _ = false

abbrev pub is_gap_filling : SupplyStatus → Bool
is_gap_filling SupplyStatus.gap_filling = true
is_gap_filling _ = false

unfoldable pub set_startup_total : SupplyState → ℕ → ℕ → SupplyState
set_startup_total s slot capitalization =
    if is_bootstrapping s.status && ltb s.startup_slot slot
    then record s { startup_slot = slot; total = capitalization }
    else s

unfoldable pub mark_bootstrap_failed : SupplyState → SupplyState × Bool
mark_bootstrap_failed s =
    if not (is_bootstrapping s.status) || s.bootstrap_failed
    then (s, false)
    else (record s { bootstrap_failed = true }, true)

abbrev pub commit : SupplyState → Option ℕ → SupplyCommit
commit s non_circulating = record {
  slot = s.slot;
  total = s.total;
  non_circulating = non_circulating;
}

-- What the loop of `finish_bootstrap` has gathered: the delta of the window, the highest slot, and the
-- accounts that closed in it.
pub record Window : Type 0 where
  pub delta : ℤ
  pub max_slot : ℕ
  pub zero_prev : List ℕ

abbrev pub note_zero : Window → ℕ → TouchedAccount → Window
note_zero w pubkey account = record w {
  zero_prev = if account.lamports == 0 then pubkey ∷ w.zero_prev else w.zero_prev;
}

unfoldable pub window_loop : ℕ → OrdMap ℕ → Window → OrdMap TouchedAccount → Option Window
unfolding get ◌+ℤ◌
window_loop startup_slot balances w [] = some w
window_loop startup_slot balances w ((pubkey, account) ∷ rest) =
    let noted = note_zero w pubkey account in
    elim (leb account.slot startup_slot) [
      | true ↦ window_loop startup_slot balances noted rest
      | false ↦ (do
        balance ← get pubkey balances
        window_loop startup_slot balances
            (record noted {
              delta = noted.delta +ℤ sub_ℕ account.lamports balance;
              max_slot = max noted.max_slot account.slot;
            })
            rest)
    ]

abbrev pub went_live : SupplyState → Window → SupplyState
went_live s w = record s {
  total = add_delta s.total w.delta;
  slot = max s.slot w.max_slot;
  startup_touched = [];
  startup_zero_prev = w.zero_prev;
  status = SupplyStatus.live;
}

unfoldable pub finish_bootstrap :
    SupplyState → OrdMap ℕ → Option ℕ → SupplyState × Option SupplyCommit
unfolding window_loop add_delta
finish_bootstrap s balances non_circulating =
    if not (is_bootstrapping s.status) || s.startup_slot == 0 || s.bootstrap_failed
    then (s, none)
    else elim (window_loop s.startup_slot balances
        (record { delta = pos 0; max_slot = s.startup_slot; zero_prev = [] }) s.startup_touched) [
          | none ↦ (s, none)
          | some w ↦ (went_live s w, some (commit (went_live s w) non_circulating))
        ]

unfoldable pub mark_gap : SupplyState → SupplyState × Bool
mark_gap s =
    if is_live s.status then (record s { status = SupplyStatus.gap_filling }, true) else (s, false)

unfoldable pub finish_gap : SupplyState → SupplyState
finish_gap s =
    if is_gap_filling s.status then record s { status = SupplyStatus.live; gap_closes = [] } else s

unfoldable pub mark_stale : SupplyState → SupplyState × Bool
mark_stale s =
    if is_live s.status || is_gap_filling s.status
    then (record s { status = SupplyStatus.stale }, true)
    else (s, false)

-- The new state and the number evicted; `none` is the panic of the sweep.
unfoldable pub sweep_if_due : SupplyState → ℕ → Option (SupplyState × ℕ)
unfolding sweep_due sweep
sweep_if_due s slot =
    if sweep_due s.cache slot
    then (do (cache, evicted) ← sweep s.cache slot; some (record s { cache = cache }, evicted))
    else some (s, 0)

-- `HashSet::remove`
abbrev pub without : List ℕ → ℕ → List ℕ
without set k = keep (λ j. not (j == k)) set

-- The loop of `probe_block` over the closes of a live block while a gap fills.
unfoldable pub note_closes : ℕ → OrdMap ℕ → List Pending → OrdMap ℕ
unfolding get insert
note_closes slot closes [] = closes
note_closes slot closes (p ∷ rest) =
    note_closes slot
      (if p.lamports == 0
        then insert p.pubkey (max (map_or (get p.pubkey closes) slot (λ c. c)) slot) closes
        else closes)
      rest

-- The batched read, tried again once: `none` is a failed attempt.
abbrev pub either_read : Option (ℕ → PrevRow) → Option (ℕ → PrevRow) → Option (ℕ → PrevRow)
either_read (some rows) second = some rows
either_read none second = second

-- What the main loop of `probe_block` has done so far.
pub record Probing : Type 0 where
  pub cache : HotAccounts
  pub zero_prev : List ℕ
  pub delta : ℤ
  pub touched : List ℕ
  pub misses : List Pending

abbrev pub counted : Probing → Pending → HotAccounts × Probe → Probing
counted st p (cache, hit d) = record st {
  cache = cache;
  delta = st.delta +ℤ d;
  touched = st.touched ++ p.pubkey ∷ [];
}
counted st p (cache, miss) = record st {
  cache = cache;
  touched = st.touched ++ p.pubkey ∷ [];
  misses = st.misses ++ p ∷ [];
}

module _ (stake_program : ℕ) where
  -- The loop of a bootstrap block.
  unfoldable pub bootstrap_loop :
      ℕ → HotAccounts → OrdMap TouchedAccount → List Pending → HotAccounts × OrdMap TouchedAccount
  unfolding get insert probe
  bootstrap_loop slot cache touched [] = (cache, touched)
  bootstrap_loop slot cache touched (p ∷ rest) =
      bootstrap_loop slot (probe stake_program cache p.pubkey p.lamports slot p.owner false).0
        (if is_some_and (get p.pubkey touched) (λ t. not (leb t.slot slot))
          then touched
          else insert p.pubkey (record { slot = slot; lamports = p.lamports }) touched)
        rest

  -- One round of the main loop.
  unfoldable pub probe_step : ℕ → Bool → OrdMap ℕ → List ℕ → Probing → Pending → Probing
  unfolding get probe
  probe_step slot is_repaired closes handled st p =
      if contains handled p.pubkey
      then st
      else (let zero_prev = contains st.zero_prev p.pubkey in
          let st' = record st { zero_prev = without st.zero_prev p.pubkey } in
          if is_repaired && not zero_prev && is_some_and (get p.pubkey closes) (λ c. leb slot c)
          then st'
          else counted st' p
              (probe stake_program st.cache p.pubkey p.lamports slot p.owner zero_prev))

  unfoldable pub probe_loop : ℕ → Bool → OrdMap ℕ → List ℕ → Probing → List Pending → Probing
  unfolding probe_step
  probe_loop slot is_repaired closes handled st [] = st
  probe_loop slot is_repaired closes handled st (p ∷ rest) =
      probe_loop slot is_repaired closes handled (probe_step slot is_repaired closes handled st p)
        rest

  abbrev pub probed : SupplyState → Probing → SupplyState × BlockOutcome × List Pending
  probed s st = (
    record s { cache = st.cache; startup_zero_prev = st.zero_prev },
    changed st.delta st.touched,
    st.misses,
  )

  -- `probe_block` of a live or gap-filling tracker.
  unfoldable pub probe_counting :
      SupplyState → ℕ → Bool → List Pending → StakeBlock → SupplyState × BlockOutcome × List Pending
  unfolding probe_loop note_closes
  probe_counting s slot is_repaired pending stake =
      if not is_repaired && leb slot s.slot
      then (s, idle, [])
      else (let closes =
            if not is_repaired && is_gap_filling s.status
            then note_closes slot s.gap_closes pending
            else s.gap_closes in
          let s' = record s { gap_closes = closes } in
          probed s' (
            probe_loop slot is_repaired closes stake.handled
              (record {
                cache = s.cache;
                zero_prev = s.startup_zero_prev;
                delta = stake.delta;
                touched = [];
                misses = [];
              })
              pending))

  unfoldable pub probe_block :
      SupplyState → ℕ → Bool → List Pending → StakeBlock → SupplyState × BlockOutcome × List Pending
  unfolding bootstrap_loop probe_counting
  probe_block s slot is_repaired pending stake = elim s.status [
    | SupplyStatus.bootstrapping ↦
        let (cache, touched) = bootstrap_loop slot s.cache s.startup_touched pending in
        (record s { cache = cache; startup_touched = touched }, BlockOutcome.bootstrapping, [])
    | SupplyStatus.stale ↦ (s, idle, [])
    | SupplyStatus.live ↦ probe_counting s slot is_repaired pending stake
    | SupplyStatus.gap_filling ↦ probe_counting s slot is_repaired pending stake
  ]

  -- The loop of `apply_block` over the misses, with the rows that the read returned.
  unfoldable pub miss_loop :
      ℕ → (ℕ → PrevRow) → HotAccounts → ℤ → List ℕ → List Pending → HotAccounts × ℤ × List ℕ
  unfolding apply_miss
  miss_loop slot prev cache delta touched [] = (cache, delta, touched)
  miss_loop slot prev cache delta touched (p ∷ rest) =
      let (cache', d) =
        apply_miss stake_program cache p.pubkey p.lamports slot p.owner (prev p.pubkey) in
      miss_loop slot prev cache' (delta +ℤ d) (touched ++ p.pubkey ∷ []) rest

  unfoldable pub resolve :
      SupplyState
      → ℕ
      → BlockOutcome
      → List Pending
      → Option (ℕ → PrevRow)
      → SupplyState × BlockOutcome
  unfolding miss_loop mark_stale
  resolve s slot (changed delta touched) [] read = (s, changed delta touched)
  resolve s slot (changed delta touched) (p ∷ misses) none = ((mark_stale s).0, read_failed)
  resolve s slot (changed delta touched) (p ∷ misses) (some prev) =
      let (cache, delta', touched') = miss_loop slot prev s.cache delta touched (p ∷ misses) in
      (record s { cache = cache }, changed delta' touched')
  resolve s slot outcome misses read = (s, outcome)

  -- `apply_block`, with the results of the two attempts to read.
  unfoldable pub apply_block :
      SupplyState
      → ℕ
      → Bool
      → List Pending
      → StakeBlock
      → Option (ℕ → PrevRow)
      → Option (ℕ → PrevRow)
      → SupplyState × BlockOutcome
  unfolding probe_block resolve
  apply_block s slot is_repaired pending stake first second =
      let (s', outcome, misses) = probe_block s slot is_repaired pending stake in
      resolve s' slot outcome misses (either_read first second)

-- `commit_block` past the startup slot.
unfoldable pub commit_counted : SupplyState → ℤ → Option ℕ → SupplyState × Option SupplyCommit
unfolding add_delta
commit_counted s delta non_circulating =
    let s' = record s { total = add_delta s.total delta } in
    elim s.status [
      | SupplyStatus.bootstrapping ↦ (s, none)
      | SupplyStatus.stale ↦ (s, none)
      | SupplyStatus.gap_filling ↦ (s', none)
      | SupplyStatus.live ↦ (s', some (commit s' non_circulating))
    ]

unfoldable pub commit_block : SupplyState → ℕ → ℤ → Option ℕ → SupplyState × Option SupplyCommit
unfolding commit_counted
commit_block s slot delta non_circulating =
    let s' = record s { slot = max s.slot slot } in
    if leb slot s.startup_slot then (s', none) else commit_counted s' delta non_circulating

-- `finish_block` after the writes of a counted block failed: pins, or gives up.
unfoldable pub pin_block :
    SupplyState → ℕ → ℤ → List ℕ → Option ℕ → SupplyState × Option SupplyCommit
unfolding pin_failed mark_stale commit_block
pin_block s slot delta touched non_circulating =
    let (cache, pinned) = pin_failed s.cache touched in
    let s' = record s { cache = cache } in
    if pinned then commit_block s' slot delta non_circulating else ((mark_stale s').0, none)

unfoldable pub finish_block :
    SupplyState → ℕ → BlockOutcome → Bool → Option ℕ → SupplyState × Option SupplyCommit
unfolding pin_block mark_bootstrap_failed
finish_block s slot idle writes_ok non_circulating = (s, none)
finish_block s slot read_failed writes_ok non_circulating = (s, none)
finish_block s slot BlockOutcome.bootstrapping writes_ok non_circulating =
    (if writes_ok then s else (mark_bootstrap_failed s).0, none)
finish_block s slot (changed delta touched) writes_ok non_circulating =
    if writes_ok
    then commit_block s slot delta non_circulating
    else pin_block s slot delta touched non_circulating
