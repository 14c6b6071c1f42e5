-- ===== src/NonCirculating/Settled.antt =====
-- Entries against a clock, and what a newer clock leaves of it.
use cloudbreak.Prelude.{
  ℕ, ◌≤◌, ◌<◌, ◌≡◌, refl, ◌==◌, inl, inr, Bool-cases, true, false, not, ◌&&◌, ◌||◌, some, arith,
  ltb,
}
use mathlib.Core.Path.{subst}
use mathlib.Core.Option.{some-injective}
use cloudbreak.OrdMap.{OrdMap, get, insert, get-insert}
use cloudbreak.NonCirculating.{BlockClock, StakeEntry, evaluate, placed}

-- The entry is a member as the clock says, and only a member by its lockup waits to expire.
pub record IsSettled (clock : BlockClock) (e : StakeEntry) : Type 0 where
  pub membership : e.member ≡ evaluate e clock
  pub epoch : e.in_by_epoch ≡ (
      evaluate e clock && not e.pinned && not e.listed_withdrawer && ltb clock.epoch e.lockup_epoch)
  pub timestamp : e.in_by_timestamp ≡ (
      evaluate e clock
      && not e.pinned
      && not e.listed_withdrawer
      && not (ltb clock.epoch e.lockup_epoch))

-- The entry was placed under an older clock, and its expiry may be due.
pub record IsDue (clock : BlockClock) (e : StakeEntry) : Type 0 where
  pub one_set : (e.in_by_epoch && e.in_by_timestamp) ≡ false
  pub waits :
      (e.in_by_epoch || e.in_by_timestamp) ≡ (e.member && not e.pinned && not e.listed_withdrawer)
  pub stays : (e.in_by_epoch || e.in_by_timestamp) ≡ false → e.member ≡ evaluate e clock
  pub by_lockup : e.member ≡ true → (e.pinned || e.stake_owned && e.lockup) ≡ true
  pub member : evaluate e clock ≡ true → e.member ≡ true
  pub epoch_passed : e.in_by_timestamp ≡ true → ltb clock.epoch e.lockup_epoch ≡ false

abbrev pub Each : (StakeEntry → Type 0) → OrdMap StakeEntry → Type 0
Each P accounts = (k : ℕ) (e : StakeEntry) → get k accounts ≡ some e → P e

pub Each-insert :
    (P : StakeEntry → Type 0) (k : ℕ) (e : StakeEntry) (accounts : OrdMap StakeEntry)
    → P e
    → Each P accounts
    → Each P (insert k e accounts)
unfolding get insert
Each-insert P k e accounts p h q d eq = elim (Bool-cases (k == q)) [
  | inl same ↦ subst P (some-injective e d (ground (arith, get-insert k q e accounts, same, eq))) p
  | inr other ↦ h q d (ground (arith, get-insert k q e accounts, other, eq))
]

pub placed-IsSettled : (clock : BlockClock) (e : StakeEntry) → IsSettled clock (placed clock e)
unfolding placed evaluate
placed-IsSettled clock e = record {
  membership = refl;
  epoch = ground arith;
  timestamp = ground arith;
}

pub IsSettled-IsDue :
    (old clock : BlockClock) (e : StakeEntry)
    → old.epoch ≤ clock.epoch
    → old.unix_timestamp ≤ clock.unix_timestamp
    → IsSettled old e
    → IsDue clock e
unfolding evaluate
IsSettled-IsDue old clock e epochs timestamps h = record {
  one_set = ground (arith, h.epoch, h.timestamp);
  waits = ground (arith, h.epoch, h.timestamp, h.membership);
  stays = λ w. ground (arith, h.epoch, h.timestamp, h.membership, w);
  by_lockup = λ w. ground (arith, h.membership, w);
  member = λ w. ground (arith, h.membership, w);
  epoch_passed = λ w. ground (arith, h.timestamp, w);
}

-- No expiry of the entry is due.
pub IsDue-IsSettled :
    (clock : BlockClock) (e : StakeEntry)
    → IsDue clock e
    → (e.in_by_epoch ≡ true → clock.epoch < e.lockup_epoch)
    → (e.in_by_timestamp ≡ true → clock.unix_timestamp < e.lockup_unix_timestamp)
    → IsSettled clock e
unfolding evaluate
IsDue-IsSettled clock e h epochs timestamps = record {
  membership = ground (
    arith, h.waits, h.stays, h.by_lockup, h.member, h.one_set, h.epoch_passed, epochs, timestamps,
  );
  epoch = ground (
    arith, h.waits, h.stays, h.by_lockup, h.member, h.one_set, h.epoch_passed, epochs, timestamps,
  );
  timestamp = ground (
    arith, h.waits, h.stays, h.by_lockup, h.member, h.one_set, h.epoch_passed, epochs, timestamps,
  );
}
