-- ===== src/Largest/Block.antt =====
-- crates/core/src/modules/largest_accounts/tracker.rs: the blocks, and the end of the bootstrap. The
-- model is that of an enabled tracker, given by its sizes. Maps are walked in the order of their keys.
use cloudbreak.Prelude.{
  ℕ, max, Bool, true, false, not, ◌&&◌, Option, none, some, List, [], ◌∷◌, leb, ◌==◌, if◌then◌else◌,
  contains, is_some, is_some_and, ◌>>=◌, keep, map,
}
use cloudbreak.Prelude.Word.{u64_max}
use cloudbreak.OrdMap.{OrdMap, get, insert}
use cloudbreak.Largest.Top.{Entry, MintTop, empty_top}
use cloudbreak.Largest.State.{
  SeedAccount, TrackerState, Touched, Status, bootstrapping, live, BlockOutcome, empty_outcome,
  sol_sentinel_mint, circulating_sentinel_mint, non_circulating_sentinel_mint, record_tombstone,
  remove_member, apply_update, trim, emit, emit_all,
}
use cloudbreak.Largest.Seed.{LargestAccountsSeed, k_for, remove_sentinels}

pub record PendingLargestAccount : Type 0 where
  pub write_version : ℕ
  pub lamports : ℕ
  pub non_circulating : Bool
  pub token : Option (ℕ × ℕ)

pub record NonCirculatingBalance : Type 0 where
  pub pubkey : ℕ
  pub slot : ℕ
  pub lamports : ℕ

abbrev pub is_bootstrapping : Status → Bool
is_bootstrapping bootstrapping = true
is_bootstrapping live = false

abbrev empty_tops : List ℕ → OrdMap MintTop
unfolding insert empty_top
empty_tops [] = []
empty_tops (mint ∷ mints) = insert mint empty_top (empty_tops mints)

-- The state of `LargestAccountsTracker::new`, for `sol_k` and the tracked mints.
unfoldable pub new : Option ℕ → List ℕ → TrackerState
unfolding insert empty_top empty_tops
new sol_k tracked_mints =
    let tops = empty_tops tracked_mints in
    record {
      status = bootstrapping;
      max_applied_slot = 0;
      mints =
          if is_some sol_k
          then insert sol_sentinel_mint empty_top (
              insert circulating_sentinel_mint empty_top
                (insert non_circulating_sentinel_mint empty_top tops))
          else tops;
      member_index = [];
      tombstones = [];
      seed_reservoir = [];
    }

abbrev pub new_seed : Option ℕ → ℕ → List ℕ → LargestAccountsSeed
new_seed sol_k token_k tracked_mints = record {
  sol_k = sol_k;
  token_k = token_k;
  tracked_mints = tracked_mints;
  mints = [];
  closes = [];
}

-- The first loop of `seed_class_sentinels`.
unfoldable pub seed_members : Touched → List NonCirculatingBalance → ℕ → Option Touched
unfolding remove_member apply_update
seed_members s [] k = some s
seed_members s (b ∷ balances) k =
    let cleared = remove_member s circulating_sentinel_mint b.pubkey b.slot u64_max in
    elim (b.lamports == 0) [
      | true ↦ seed_members cleared balances k
      | false ↦ (do
        s' ←
            apply_update cleared non_circulating_sentinel_mint b.pubkey
              (record { amount = b.lamports; slot = b.slot; write_version = u64_max }) false false k
        seed_members s' balances k)
    ]

-- The second loop of `seed_class_sentinels`.
unfoldable pub seed_candidates : Touched → OrdMap Entry → ℕ → Option Touched
unfolding apply_update
seed_candidates s [] k = some s
seed_candidates s ((pubkey, entry) ∷ candidates) k = do
  s' ← apply_update s circulating_sentinel_mint pubkey entry false false k
  seed_candidates s' candidates k

abbrev pub set_circulating_floor : TrackerState → ℕ → Option MintTop → TrackerState
unfolding insert
set_circulating_floor s floor none = s
set_circulating_floor s floor (some top) = record s {
  mints = insert circulating_sentinel_mint (record top { dropped_floor = floor }) s.mints;
}

-- The part of `seed_class_sentinels` past its first loop.
unfoldable pub seed_circulating : Touched → List NonCirculatingBalance → ℕ → Option Touched
unfolding get seed_candidates set_circulating_floor
seed_circulating (s, touched) balances k = elim (get sol_sentinel_mint s.mints) [
  | none ↦ some (s, touched)
  | some sol ↦
      let members = map (λ b. b.pubkey) balances in
      seed_candidates
        (set_circulating_floor s sol.dropped_floor (get circulating_sentinel_mint s.mints), touched)
        (keep (λ e. not (contains members e.0)) sol.entries) k
]

unfoldable pub seed_class_sentinels : Touched → List NonCirculatingBalance → ℕ → Option Touched
unfolding seed_members seed_circulating
seed_class_sentinels s balances k = do
  s' ← seed_members s balances k
  seed_circulating s' balances k

unfoldable pub apply_seeds : ℕ → ℕ → Touched → List SeedAccount → Option Touched
unfolding apply_update
apply_seeds k mint s [] = some s
apply_seeds k mint s (a ∷ accounts) = do
  s' ←
      apply_update s mint a.pubkey
        (record { amount = a.amount; slot = a.slot; write_version = a.write_version }) true false k
  apply_seeds k mint s' accounts

module _ (sol_k : Option ℕ) (token_k : ℕ) where
  unfoldable pub apply_reservoir : Touched → OrdMap (List SeedAccount) → Option Touched
  unfolding apply_seeds k_for
  apply_reservoir s [] = some s
  apply_reservoir s ((mint, accounts) ∷ reservoir) = do
    s' ← apply_seeds (k_for sol_k token_k mint) mint s accounts
    apply_reservoir s' reservoir

  -- The last loop of `finish_bootstrap`.
  unfoldable pub trim_all : TrackerState → List ℕ → ℕ → BlockOutcome → TrackerState × BlockOutcome
  unfolding trim emit k_for
  trim_all s [] slot outcome = (s, outcome)
  trim_all s (mint ∷ mints) slot outcome =
      let (s', outcome') = emit (trim s mint (k_for sol_k token_k mint)) mint slot outcome in
      trim_all s' mints slot outcome'

  abbrev pub seed_classes : Option ℕ → Touched → List NonCirculatingBalance → Option Touched
  unfolding seed_class_sentinels
  seed_classes none s balances = some s
  seed_classes (some k) s balances = seed_class_sentinels s balances k

  unfoldable pub finish_bootstrap :
      TrackerState → List NonCirculatingBalance → Option (TrackerState × BlockOutcome)
  unfolding apply_reservoir trim_all seed_classes
  finish_bootstrap s non_circulating =
      if is_bootstrapping s.status
      then (do
        seeded ← apply_reservoir (record s { seed_reservoir = [] }, []) s.seed_reservoir
        (s', touched) ← seed_classes sol_k seeded non_circulating
        some (
            trim_all (record s' { tombstones = []; status = live }) (map (λ e. e.0) s'.mints)
              s'.max_applied_slot empty_outcome))
      else some (s, empty_outcome)

  abbrev pub class_mint : Bool → ℕ
  class_mint non_circulating =
      if non_circulating then non_circulating_sentinel_mint else circulating_sentinel_mint

  abbrev pub route_token : Touched → ℕ → Option (ℕ × ℕ) → (ℕ → Entry) → Bool → Bool → Option Touched
  unfolding apply_update k_for
  route_token s pubkey none stamped boot old_block = some s
  route_token s pubkey (some (mint, amount)) stamped boot old_block =
      apply_update s mint pubkey (stamped amount) boot old_block (k_for sol_k token_k mint)

  -- An account that is not closed goes to its token's top, the native top and the top of its class.
  unfoldable pub route_update :
      Touched → ℕ → ℕ → PendingLargestAccount → Bool → Bool → Option Touched
  unfolding apply_update remove_member k_for route_token
  route_update s slot pubkey update boot old_block =
      let stamped : ℕ → Entry =
        λ amount. record { amount = amount; slot = slot; write_version = update.write_version } in
      let class = class_mint update.non_circulating in
      (do
        s1 ← route_token s pubkey update.token stamped boot old_block
        s2 ←
            apply_update s1 sol_sentinel_mint pubkey (stamped update.lamports) boot old_block
              (k_for sol_k token_k sol_sentinel_mint)
        apply_update
            (remove_member s2 (class_mint (not update.non_circulating)) pubkey slot
              update.write_version)
            class pubkey (stamped update.lamports) boot old_block (k_for sol_k token_k class))

  -- A member whose token mint is not the update's leaves the top it is in.
  abbrev pub leave_mint : Touched → ℕ → ℕ → PendingLargestAccount → Option ℕ → Touched
  unfolding remove_member
  leave_mint s slot pubkey update none = s
  leave_mint s slot pubkey update (some mint) =
      if is_some_and update.token (λ t. t.0 == mint)
      then s
      else remove_member s mint pubkey slot update.write_version

  abbrev pub close_account : Touched → ℕ → ℕ → PendingLargestAccount → Bool → Touched
  unfolding record_tombstone remove_sentinels
  close_account (s, touched) slot pubkey update boot =
      remove_sentinels
        (if boot then record_tombstone s pubkey slot update.write_version else s, touched) pubkey
        slot update.write_version

  -- One round of the loop of `apply_block`.
  unfoldable pub apply_account :
      Touched → ℕ → ℕ → PendingLargestAccount → Bool → Bool → Option Touched
  unfolding get route_update leave_mint close_account
  apply_account s slot pubkey update boot old_block =
      let left = leave_mint s slot pubkey update (get pubkey s.0.member_index) in
      if update.lamports == 0
      then some (close_account left slot pubkey update boot)
      else route_update left slot pubkey update boot old_block

  unfoldable pub apply_accounts :
      Touched → ℕ → OrdMap PendingLargestAccount → Bool → Bool → Option Touched
  unfolding apply_account
  apply_accounts s slot [] boot old_block = some s
  apply_accounts s slot ((pubkey, update) ∷ pending) boot old_block = do
    s' ← apply_account s slot pubkey update boot old_block
    apply_accounts s' slot pending boot old_block

  unfoldable pub apply_block :
      TrackerState → ℕ → OrdMap PendingLargestAccount → Option (TrackerState × BlockOutcome)
  unfolding apply_accounts emit_all
  apply_block s slot pending =
      let boot = is_bootstrapping s.status in
      let old_block = not boot && leb slot s.max_applied_slot in
      let s' = record s { max_applied_slot = max s.max_applied_slot slot } in
      (do
        (end, touched) ← apply_accounts (s', []) slot pending boot old_block
        some (
            if boot
            then (end, empty_outcome)
            else emit_all end touched end.max_applied_slot empty_outcome))
