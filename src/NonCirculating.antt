-- ===== src/NonCirculating.antt =====
-- crates/core/src/modules/non_circulating (mod.rs, and the membership of tracker.rs): the stake accounts and
-- which of them are out of circulation. The flags of an entry are fields of their own. A timestamp is
-- an `i64` plus 2^63, whose order is that of the `i64`. `none` is a panic.
pub mod Tracker
pub mod Indexed
pub mod Changes
pub mod Settled
pub mod Leaving
pub mod Expiries
pub mod Folds
pub mod Bootstrap
pub mod Loading
pub mod Life
pub mod Runs
pub mod Owned
pub mod Effects
pub mod Delta
pub mod Ledger
mod Tests
use cloudbreak.Prelude.{
  ℕ, ◌+◌, ◌-◌, ◌%◌, max, Bool, true, false, not, ◌&&◌, ◌||◌, Option, none, some, List, [], ◌∷◌,
  ◌++◌, ltb, leb, ◌==◌, if◌then◌else◌, contains, is_some_and, map_or, keep, ◌>>=◌,
}
use cloudbreak.Prelude.Int.{ℤ, pos, sub_ℕ, ◌+ℤ◌}
use cloudbreak.OrdMap.{OrdMap, get, insert, remove}
use cloudbreak.PairSet
use cloudbreak.PairSet.{PairSet}

-- 2 ^ 128
abbrev pub u128_mod : ℕ
u128_mod = 340_282_366_920_938_463_463_374_607_431_768_211_456

abbrev pub add128 : ℕ → ℕ → ℕ
add128 a b = (a + b) % u128_mod

abbrev pub sub128 : ℕ → ℕ → ℕ
sub128 a b = (a + (u128_mod - b % u128_mod)) % u128_mod

-- The timestamp 0.
abbrev pub epoch_start : ℕ
epoch_start = 9_223_372_036_854_775_808

pub record BlockClock : Type 0 where
  pub slot : ℕ
  pub epoch : ℕ
  pub unix_timestamp : ℕ

pub record StakeEntry : Type 0 where
  pub lamports : ℕ
  pub lockup_unix_timestamp : ℕ
  pub lockup_epoch : ℕ
  pub slot : ℕ
  pub stake_owned : Bool
  pub lockup : Bool
  pub listed_withdrawer : Bool
  pub pinned : Bool
  pub member : Bool
  pub in_by_epoch : Bool
  pub in_by_timestamp : Bool

unfoldable pub evaluate : StakeEntry → BlockClock → Bool
evaluate e clock =
    e.pinned
    || e.stake_owned
      && e.lockup
      && (e.listed_withdrawer
          || ltb clock.unix_timestamp e.lockup_unix_timestamp
          || ltb clock.epoch e.lockup_epoch)

pub record StakeBlock : Type 0 where
  pub delta : ℤ
  pub handled : List ℕ
  pub expired : List (ℕ × ℕ)
  pub members_changed : Bool

abbrev pub no_change : StakeBlock
no_change = record { delta = pos 0; handled = []; expired = []; members_changed = false }

pub record Membership : Type 0 where
  pub clock : Option BlockClock
  pub members : OrdMap (Unit {0})
  pub by_epoch : PairSet
  pub by_timestamp : PairSet
  pub total : ℕ

-- The membership and whether the clock is newer.
unfoldable pub set_clock : Membership → BlockClock → Membership × Bool
set_clock m clock =
    if is_some_and m.clock (λ current. leb clock.slot current.slot)
    then (m, false)
    else (record m { clock = some clock }, true)

unfoldable pub unplace : Membership → ℕ → StakeEntry → Membership
unplace m pubkey e = record m {
  by_epoch =
      if e.in_by_epoch then PairSet.remove (e.lockup_epoch, pubkey) m.by_epoch else m.by_epoch;
  by_timestamp =
      if e.in_by_timestamp
      then PairSet.remove (e.lockup_unix_timestamp, pubkey) m.by_timestamp
      else m.by_timestamp;
  total = if e.member then sub128 m.total e.lamports else m.total;
}

-- The flags that `place` sets.
unfoldable pub placed : BlockClock → StakeEntry → StakeEntry
unfolding evaluate
placed clock e =
    let member = evaluate e clock in
    let expires = member && not e.pinned && not e.listed_withdrawer in
    record e {
      member = member;
      in_by_epoch = expires && ltb clock.epoch e.lockup_epoch;
      in_by_timestamp = expires && not (ltb clock.epoch e.lockup_epoch);
    }

-- The sets and the total with a placed entry.
unfoldable pub with_placed : Membership → ℕ → StakeEntry → Membership
unfolding insert remove
with_placed m pubkey e = record m {
  by_epoch =
      if e.in_by_epoch then PairSet.insert (e.lockup_epoch, pubkey) m.by_epoch else m.by_epoch;
  by_timestamp =
      if e.in_by_timestamp
      then PairSet.insert (e.lockup_unix_timestamp, pubkey) m.by_timestamp
      else m.by_timestamp;
  total = if e.member then add128 m.total e.lamports else m.total;
  members = if e.member then insert pubkey tt m.members else remove pubkey m.members;
}

unfoldable pub place : Membership → ℕ → StakeEntry → Option (Membership × StakeEntry)
unfolding placed with_placed
place m pubkey e = do clock ← m.clock; some (with_placed m pubkey (placed clock e), placed clock e)

unfoldable pub note_flip : Bool → Bool → StakeBlock → StakeBlock
note_flip was_member is_member block =
    if was_member && is_member || not was_member && not is_member
    then block
    else record block { members_changed = true }

-- What `expire` works on. The two sets are the lists that its loops run down.
pub record Expiring : Type 0 where
  pub accounts : OrdMap StakeEntry
  pub membership : Membership
  pub block : StakeBlock

-- `leave`, with the entry written back.
unfoldable pub leave : Expiring → ℕ → StakeEntry → Expiring
unfolding insert remove note_flip
leave x pubkey e = record {
  accounts = insert pubkey (record e { member = false }) x.accounts;
  membership = record x.membership {
    total = sub128 x.membership.total e.lamports;
    members = remove pubkey x.membership.members;
  };
  block =
      note_flip true false
        (record x.block { expired = x.block.expired ++ (pubkey, e.lamports) ∷ [] });
}

-- A member whose epoch has passed: it waits for its timestamp, or leaves.
unfoldable pub pass_epoch : BlockClock → Expiring → ℕ → StakeEntry → Expiring
unfolding insert leave
pass_epoch clock x pubkey e =
    if ltb clock.unix_timestamp e.lockup_unix_timestamp
    then record x {
      accounts =
          insert pubkey (record e { in_by_epoch = false; in_by_timestamp = true }) x.accounts;
      membership = record x.membership {
        by_timestamp = PairSet.insert (e.lockup_unix_timestamp, pubkey) x.membership.by_timestamp;
      };
    }
    else leave x pubkey (record e { in_by_epoch = false })

unfoldable pub expire_epochs : BlockClock → PairSet → Expiring → Option Expiring
unfolding get pass_epoch
expire_epochs clock [] x = some (record x { membership = record x.membership { by_epoch = [] } })
expire_epochs clock ((epoch, pubkey) ∷ rest) x =
    let popped = (do
      e ← get pubkey x.accounts
      expire_epochs clock rest (pass_epoch clock x pubkey e)) in
    if ltb clock.epoch epoch
    then some (record x { membership = record x.membership { by_epoch = (epoch, pubkey) ∷ rest } })
    else popped

unfoldable pub expire_timestamps : BlockClock → PairSet → Expiring → Option Expiring
unfolding get leave
expire_timestamps clock [] x =
    some (record x { membership = record x.membership { by_timestamp = [] } })
expire_timestamps clock ((unix_timestamp, pubkey) ∷ rest) x =
    let popped = (do
      e ← get pubkey x.accounts
      expire_timestamps clock rest (leave x pubkey (record e { in_by_timestamp = false }))) in
    if ltb clock.unix_timestamp unix_timestamp
    then some (record x {
      membership = record x.membership { by_timestamp = (unix_timestamp, pubkey) ∷ rest };
    })
    else popped

unfoldable pub expire : Expiring → Option Expiring
unfolding expire_epochs expire_timestamps
expire x = do
  clock ← x.membership.clock
  x' ← expire_epochs clock x.membership.by_epoch x
  expire_timestamps clock x'.membership.by_timestamp x'
