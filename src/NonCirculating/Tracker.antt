-- ===== src/NonCirculating/Tracker.antt =====
-- crates/core/src/modules/non_circulating/tracker.rs: the tracker while it is enabled. The parse of account
-- data and the ids and lists of accounts are parameters; a public key that cannot be parsed is left out by
-- the caller.
use cloudbreak.Prelude.{
  ℕ, ◌%◌, max, Bool, true, false, not, ◌&&◌, ◌||◌, Option, none, some, List, [], ◌∷◌, map, ltb, leb,
  ◌==◌, if◌then◌else◌, contains, is_some, is_some_and, map_or, unwrap_or, keep, ◌>>=◌,
}
use cloudbreak.Prelude.Int.{sub_ℕ, ◌+ℤ◌}
use cloudbreak.OrdMap.{OrdMap, get, insert}
use cloudbreak.NonCirculating.{
  BlockClock, StakeEntry, StakeBlock, no_change, Membership, set_clock, unplace, place, note_flip,
  Expiring, expire, epoch_start,
}

-- `StakeStateV2::Initialized` or `Stake`.
pub record StakeMeta : Type 0 where
  pub unix_timestamp : ℕ
  pub epoch : ℕ
  pub withdrawer : ℕ

pub record Shared (Data : Type 0) : Type 0 where
  pub stake_program : ℕ
  pub clock_sysvar : ℕ
  pub pinned : List ℕ
  pub withdraw_authorities : List ℕ
  pub parse_clock : Data → Option BlockClock
  pub parse_stake : Data → Option StakeMeta

pub record Account (Data : Type 0) : Type 0 where
  pub pubkey : ℕ
  pub owner : ℕ
  pub lamports : ℕ
  pub account_data : Data

pub data Status : Type 0 where
  bootstrapping live : Status

pub record State : Type 0 where
  pub status : Status
  pub slot : ℕ
  pub accounts : OrdMap StakeEntry
  pub membership : Membership
  pub seed_shadow : OrdMap ℕ

abbrev pub is_live : Status → Bool
is_live bootstrapping = false
is_live live = true

unfoldable pub set_of : List ℕ → OrdMap (Unit {0})
unfolding insert
set_of [] = []
set_of (k ∷ ks) = insert k tt (set_of ks)

-- The retention of `finish_bootstrap`.
unfoldable pub retain : OrdMap StakeEntry → OrdMap StakeEntry
retain accounts = keep (λ e. e.1.stake_owned || e.1.pinned) accounts

-- Every entry placed, in the order of the keys.
unfoldable pub place_all : Membership → OrdMap StakeEntry → Option (Membership × OrdMap StakeEntry)
unfolding place
place_all m [] = some (m, [])
place_all m ((pubkey, e) ∷ accounts) = do
  (m', e') ← place m pubkey e
  (m'', accounts') ← place_all m' accounts
  some (m'', (pubkey, e') ∷ accounts')

unfoldable pub lamports_in : OrdMap StakeEntry → ℕ → ℕ
unfolding get
lamports_in accounts pubkey = map_or (get pubkey accounts) 0 (λ e. e.lamports)

module _ {Data : Type 0} (shared : Shared Data) where
  unfoldable pub new : State
  unfolding set_of
  new = record {
    status = bootstrapping;
    slot = 0;
    accounts = [];
    membership = record {
      clock = none;
      members = set_of shared.pinned;
      by_epoch = [];
      by_timestamp = [];
      total = 0;
    };
    seed_shadow = [];
  }

  unfoldable pub with_lockup : StakeEntry → Option StakeMeta → StakeEntry
  with_lockup e none = e
  with_lockup e (some meta) = record e {
    lockup = true;
    lockup_unix_timestamp = meta.unix_timestamp;
    lockup_epoch = meta.epoch;
    listed_withdrawer = contains shared.withdraw_authorities meta.withdrawer;
  }

  unfoldable pub entry_from_account : Bool → Bool → ℕ → Data → ℕ → StakeEntry
  entry_from_account stake_owned pinned lamports account_data slot =
      let entry : StakeEntry = record {
        lamports = lamports;
        lockup_unix_timestamp = epoch_start;
        lockup_epoch = 0;
        slot = slot;
        stake_owned = stake_owned;
        lockup = false;
        listed_withdrawer = false;
        pinned = pinned;
        member = false;
        in_by_epoch = false;
        in_by_timestamp = false;
      } in
      if stake_owned then with_lockup entry (shared.parse_stake account_data) else entry

  unfoldable pub entry_of : Account Data → ℕ → StakeEntry
  unfolding entry_from_account
  entry_of a slot =
      entry_from_account (a.owner == shared.stake_program) (contains shared.pinned a.pubkey)
        a.lamports a.account_data slot

  abbrev pub is_tracked : Account Data → Bool
  is_tracked a = a.owner == shared.stake_program || contains shared.pinned a.pubkey

  unfoldable pub clocked : Membership → Option BlockClock → Membership
  unfolding set_clock
  clocked m none = m
  clocked m (some clock) = (set_clock m clock).0

  unfoldable pub seeded : State → Account Data → ℕ → Option StakeEntry → State
  unfolding get insert entry_of
  seeded s a slot none =
      if is_some_and (get a.pubkey s.seed_shadow) (λ seen. leb slot seen)
      then s
      else record s { accounts = insert a.pubkey (entry_of a slot) s.accounts }
  seeded s a slot (some old) =
      if ltb old.slot slot
      then record s { accounts = insert a.pubkey (entry_of a slot) s.accounts }
      else s

  unfoldable pub seed_account : State → Account Data → ℕ → State
  unfolding seeded clocked get
  seed_account s a slot =
      if a.pubkey == shared.clock_sysvar
      then record s { membership = clocked s.membership (shared.parse_clock a.account_data) }
      else if is_tracked a
      then seeded s a slot (get a.pubkey s.accounts)
      else s

  -- The state and whether it flipped.
  unfoldable pub finish_bootstrap : State → Option (State × Bool)
  unfolding retain place_all
  finish_bootstrap s =
      let flipped = (do
        (membership, accounts) ← place_all s.membership (retain s.accounts)
        some (
          record s {
            accounts = accounts;
            membership = membership;
            seed_shadow = [];
            status = live;
          },
          true,
        )) in
      if is_live s.status || not (is_some s.membership.clock) then some (s, false) else flipped

  -- The clock of the first account of the Clock sysvar.
  unfoldable pub find_clock : List (Account Data) → Option BlockClock
  find_clock [] = none
  find_clock (a ∷ accounts) =
      if a.pubkey == shared.clock_sysvar
      then shared.parse_clock a.account_data
      else find_clock accounts

  -- What the loop over the accounts of a block works on.
  pub record Folding : Type 0 where
    pub accounts : OrdMap StakeEntry
    pub membership : Membership
    pub seed_shadow : OrdMap ℕ
    pub block : StakeBlock

  -- An account that is not in the map.
  unfoldable pub fold_vacant : ℕ → Bool → Folding → Account Data → Option Folding
  unfolding get insert place note_flip entry_of
  fold_vacant slot running x a =
      let shadowed = record x {
        seed_shadow =
            insert a.pubkey (max (unwrap_or (get a.pubkey x.seed_shadow) slot) slot) x.seed_shadow;
      } in
      let joined = (do
        (membership, entry) ← place x.membership a.pubkey (entry_of a slot)
        some (record x {
          accounts = insert a.pubkey entry x.accounts;
          membership = membership;
          block = note_flip false entry.member x.block;
        })) in
      if not (is_tracked a)
      then some (if running then x else shadowed)
      else if running
      then joined
      else some (record x { accounts = insert a.pubkey (entry_of a slot) x.accounts })

  -- An account with an entry.
  unfoldable pub fold_occupied : ℕ → Bool → Folding → Account Data → StakeEntry → Option Folding
  unfolding insert place unplace note_flip entry_of
  fold_occupied slot running x a old =
      let owned = running && old.stake_owned in
      let block =
        if owned then record x.block { handled = a.pubkey ∷ x.block.handled } else x.block in
      let block' =
        if owned
        then record block { delta = block.delta +ℤ sub_ℕ a.lamports old.lamports }
        else block in
      let moved = (do
        (membership, entry) ← place (unplace x.membership a.pubkey old) a.pubkey (entry_of a slot)
        some (record x {
          accounts = insert a.pubkey entry x.accounts;
          membership = membership;
          block = note_flip old.member entry.member block';
        })) in
      if leb slot old.slot
      then some (record x { block = block })
      else if running
      then moved
      else some
          (record x { accounts = insert a.pubkey (entry_of a slot) x.accounts; block = block' })

  unfoldable pub fold_account : ℕ → Bool → Folding → Account Data → Option Folding
  unfolding get fold_vacant fold_occupied
  fold_account slot running x a = elim (get a.pubkey x.accounts) [
    | none ↦ fold_vacant slot running x a
    | some old ↦ fold_occupied slot running x a old
  ]

  unfoldable pub fold_accounts : ℕ → Bool → Folding → List (Account Data) → Option Folding
  unfolding fold_account
  fold_accounts slot running x [] = some x
  fold_accounts slot running x (a ∷ accounts) = do
    x' ← fold_account slot running x a
    fold_accounts slot running x' accounts

  -- The clock of a block, and the expiries that it brings on a live tracker.
  unfoldable pub advance_clock : Bool → Expiring → Option BlockClock → Option Expiring
  unfolding set_clock expire
  advance_clock running x none = some x
  advance_clock running x (some clock) =
      let (membership, newer) = set_clock x.membership clock in
      let x' = record x { membership = membership } in
      if newer && running then expire x' else some x'

  unfoldable pub apply_block : State → ℕ → Bool → List (Account Data) → Option (State × StakeBlock)
  unfolding find_clock advance_clock fold_accounts
  apply_block s slot is_repaired accounts =
      let running = is_live s.status in
      let applied = (do
        e ←
            advance_clock running
              (record { accounts = s.accounts; membership = s.membership; block = no_change })
              (find_clock accounts)
        x ←
            fold_accounts slot running
              (record {
                accounts = e.accounts;
                membership = e.membership;
                seed_shadow = s.seed_shadow;
                block = e.block;
              })
              accounts
        some (
          record s {
            slot = max s.slot slot;
            accounts = x.accounts;
            membership = x.membership;
            seed_shadow = x.seed_shadow;
          },
          x.block,
        )) in
      if not is_repaired && leb slot s.slot then some (s, no_change) else applied

unfoldable pub is_non_circulating : State → ℕ → Bool
unfolding get
is_non_circulating s pubkey = is_live s.status && is_some (get pubkey s.membership.members)

-- `as u64`.
unfoldable pub total : State → Option ℕ
total s = if is_live s.status then some (s.membership.total % 18_446_744_073_709_551_616) else none

unfoldable pub balances_of : OrdMap StakeEntry → OrdMap (Unit {0}) → List (ℕ × (ℕ × ℕ))
unfolding get
balances_of accounts [] = []
balances_of accounts ((pubkey, _) ∷ members) = elim (get pubkey accounts) [
  | none ↦ balances_of accounts members
  | some e ↦ (pubkey, (e.slot, e.lamports)) ∷ balances_of accounts members
]

-- The key, slot and lamports of each member that has an entry.
unfoldable pub member_balances : State → List (ℕ × (ℕ × ℕ))
unfolding balances_of
member_balances s = if is_live s.status then balances_of s.accounts s.membership.members else []

unfoldable pub members : State → ℕ × List ℕ
members s = if is_live s.status then (s.slot, map (λ m. m.0) s.membership.members) else (s.slot, [])
