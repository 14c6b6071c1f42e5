-- ===== src/NonCirculating/Life.antt =====
-- The life of a tracker: what reaches it in which order, and what it then has to serve.
use cloudbreak.Prelude.{
  ℕ, ◌+◌, ◌%◌, ◌≤◌, ◌≡◌, refl, Bool, true, ◌&&◌, Option, none, some, List, [], ◌∷◌, arith, ◌==◌,
  if◌then◌else◌, is_some_and, contains, inl, inr, Option-cases, ◌>>=◌,
}
use cloudbreak.OrdMap.{OrdMap, get, IsSorted, get-Above}
use cloudbreak.NonCirculating.{BlockClock, StakeEntry, evaluate}
use cloudbreak.NonCirculating.Tracker.{
  Shared, Account, is_live, State, new, seed_account, finish_bootstrap, find_clock, apply_block,
  is_non_circulating, total,
}
use cloudbreak.NonCirculating.Indexed.{members_total, belongs}
use cloudbreak.NonCirculating.Settled.{IsSettled, Each}

pub record Block (Data : Type 0) : Type 0 where
  pub slot : ℕ
  pub is_repaired : Bool
  pub accounts : List (Account Data)

-- What reaches the tracker while the snapshot is seeded.
pub data Load (Data : Type 0) : Type 0 where
  seed : Account Data → ℕ → Load Data
  early : Block Data → Load Data

-- The lamports of the entries that the clock puts out of circulation.
unfoldable pub locked_total : Option BlockClock → OrdMap StakeEntry → ℕ
unfolding evaluate
locked_total none accounts = 0
locked_total (some clock) [] = 0
locked_total (some clock) ((_, e) ∷ accounts) =
    (if evaluate e clock then e.lamports else 0) + locked_total (some clock) accounts

unfoldable pub locked : List ℕ → Option BlockClock → ℕ → Option StakeEntry → Bool
unfolding evaluate
locked pinned clock k none = contains pinned k
locked pinned clock k (some e) = is_some_and clock (evaluate e)

pub locked_total-lem :
    (c : BlockClock) (accounts : OrdMap StakeEntry)
    → IsSorted accounts
    → Each (IsSettled c) accounts
    → members_total accounts ≡ locked_total (some c) accounts
unfolding locked_total members_total get
locked_total-lem c [] sorted h = refl
locked_total-lem c ((k, e) ∷ accounts) sorted h = ground (
  arith,
  (h k e (ground arith)).membership,
  locked_total-lem c accounts sorted.1
      (λ q d eq. h q d (ground (arith, eq, λ (le : q ≤ k). get-Above k q accounts sorted.0 le))),
)

pub belongs-locked :
    (pinned : List ℕ) (c : BlockClock) (k : ℕ) (accounts : OrdMap StakeEntry)
    → Each (IsSettled c) accounts
    → belongs pinned k (get k accounts) ≡ locked pinned (some c) k (get k accounts)
unfolding locked
belongs-locked pinned c k accounts h = elim (Option-cases (get k accounts)) [
  | inl missing ↦ rw (missing) refl
  | inr (e, eq) ↦ rw (eq) (h k e eq).membership
]

module _ {Data : Type 0} (shared : Shared Data) where
  unfoldable pub boot : State → List (Load Data) → Option State
  unfolding seed_account apply_block
  boot s [] = some s
  boot s (seed a slot ∷ loads) = boot (seed_account shared s a slot) loads
  boot s (early b ∷ loads) =
      apply_block shared s b.slot b.is_repaired b.accounts >>= λ r. boot r.0 loads

  unfoldable pub follow : State → List (Block Data) → Option State
  unfolding apply_block
  follow s [] = some s
  follow s (b ∷ blocks) =
      apply_block shared s b.slot b.is_repaired b.accounts >>= λ r. follow r.0 blocks

  unfoldable pub run : List (Load Data) → List (Block Data) → Option State
  unfolding boot follow finish_bootstrap
  run loads blocks =
      boot (new shared) loads >>= λ s. finish_bootstrap shared s >>= λ r. follow r.0 blocks

  -- What the tracker serves is what its entries say under its clock.
  pub record IsExact (s : State) : Type 0 where
    pub listed :
        (k : ℕ)
        → is_non_circulating s k
          ≡ (is_live s.status && locked shared.pinned s.membership.clock k (get k s.accounts))
    pub sum : total s ≡ (
        if is_live s.status
        then some (locked_total s.membership.clock s.accounts % 18_446_744_073_709_551_616)
        else none)

  -- The clocks of the chain: the epoch and the time of a slot, which never go back.
  module _ (epoch_at timestamp_at : ℕ → ℕ) where
    abbrev pub OnChain : BlockClock → Type 0
    OnChain c = (c.epoch ≡ epoch_at c.slot) × (c.unix_timestamp ≡ timestamp_at c.slot)

    abbrev pub IsLoadOnChain : Load Data → Type 0
    IsLoadOnChain (seed a slot) =
        (c : BlockClock)
        → (a.pubkey == shared.clock_sysvar) ≡ true
        → shared.parse_clock a.account_data ≡ some c
        → OnChain c
    IsLoadOnChain (early b) = (c : BlockClock) → find_clock shared b.accounts ≡ some c → OnChain c

    abbrev pub IsBlockOnChain : Block Data → Type 0
    IsBlockOnChain b = (c : BlockClock) → find_clock shared b.accounts ≡ some c → OnChain c
