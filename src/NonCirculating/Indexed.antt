-- ===== src/NonCirculating/Indexed.antt =====
-- The sets, the members and the total against the entries of the map.
use cloudbreak.Prelude.{
  ℕ, ◌+◌, ◌%◌, ◌≡◌, Bool, false, ◌&&◌, Option, none, some, List, [], ◌∷◌, arith, ◌==◌,
  if◌then◌else◌, contains, is_some,
}
use cloudbreak.OrdMap.{OrdMap, get, insert, IsSorted, get-Above}
use cloudbreak.PairSet.{has, IsAscending}
use cloudbreak.NonCirculating.{StakeEntry, Membership, u128_mod, add128, sub128}

abbrev pub share : Option StakeEntry → ℕ
share none = 0
share (some e) = if e.member then e.lamports else 0

-- The lamports of the entries that are members.
unfoldable pub members_total : OrdMap StakeEntry → ℕ
members_total [] = 0
members_total ((_, e) ∷ accounts) = share (some e) + members_total accounts

abbrev pub waits_epoch : Option StakeEntry → ℕ → Bool
waits_epoch none epoch = false
waits_epoch (some e) epoch = e.in_by_epoch && e.lockup_epoch == epoch

abbrev pub waits_timestamp : Option StakeEntry → ℕ → Bool
waits_timestamp none t = false
waits_timestamp (some e) t = e.in_by_timestamp && e.lockup_unix_timestamp == t

-- A pinned account without an entry belongs.
abbrev pub belongs : List ℕ → ℕ → Option StakeEntry → Bool
belongs pinned k none = contains pinned k
belongs pinned k (some e) = e.member

pub record Indexed (pinned : List ℕ) (accounts : OrdMap StakeEntry) (m : Membership) : Type 0 where
  pub sorted : IsSorted accounts
  pub summed : m.total ≡ members_total accounts % u128_mod
  pub epochs : (k epoch : ℕ) → has (epoch, k) m.by_epoch ≡ waits_epoch (get k accounts) epoch
  pub timestamps : (k t : ℕ) → has (t, k) m.by_timestamp ≡ waits_timestamp (get k accounts) t
  pub epochs_ascend : IsAscending m.by_epoch
  pub timestamps_ascend : IsAscending m.by_timestamp
  pub joined : (k : ℕ) → is_some (get k m.members) ≡ belongs pinned k (get k accounts)

pub members_total-insert :
    (k : ℕ) (e : StakeEntry) (accounts : OrdMap StakeEntry)
    → IsSorted accounts
    → members_total (insert k e accounts) + share (get k accounts)
      ≡ members_total accounts + share (some e)
unfolding members_total insert get
members_total-insert k e [] h = omega arith
members_total-insert k e ((j, d) ∷ accounts) h =
    ground (arith, members_total-insert k e accounts h.1, get-Above j k accounts h.0)

pub add128-lem :
    (total s s' l : ℕ) → total ≡ s % u128_mod → s' ≡ s + l → add128 total l ≡ s' % u128_mod
add128-lem total s s' l e e' = omega arith

pub sub128-lem :
    (total s s' l : ℕ) → total ≡ s % u128_mod → s' + l ≡ s → sub128 total l ≡ s' % u128_mod
sub128-lem total s s' l e e' = omega arith
