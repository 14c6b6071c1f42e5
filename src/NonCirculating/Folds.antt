-- ===== src/NonCirculating/Folds.antt =====
-- A block on a live tracker: the clock, the expiries and the accounts.
use cloudbreak.Prelude.{
  ℕ, ◌≤◌, ◌≡◌, refl, ◌∙◌, ap, Bool, true, false, not, ◌&&◌, Option, none, some, List, [], ◌∷◌,
  arith, leb, max, if◌then◌else◌, is_some_and, ◌⊎◌, inl, inr, Bool-cases, Option-cases, ◌>>=◌,
}
use cloudbreak.Prelude.Int.{sub_ℕ, ◌+ℤ◌}
use cloudbreak.OrdMap.{OrdMap, get, insert}
use cloudbreak.NonCirculating.{
  BlockClock, StakeEntry, StakeBlock, no_change, Membership, set_clock, placed, with_placed,
  unplace, place, note_flip, Expiring,
}
use cloudbreak.NonCirculating.Tracker.{
  Shared, Account, State, Folding, fold_vacant, fold_occupied, fold_account, fold_accounts,
  advance_clock, apply_block, is_tracked, entry_of, find_clock,
}
use cloudbreak.NonCirculating.Tracker.{is_live}
use cloudbreak.NonCirculating.Indexed.{Indexed}
use cloudbreak.NonCirculating.Changes.{with_placed-Indexed, unplace-Indexed}
use cloudbreak.NonCirculating.Settled.{
  IsSettled, Each, Each-insert, placed-IsSettled, IsSettled-IsDue,
}
use cloudbreak.NonCirculating.Expiries.{Expired, expire-Expired}

-- The membership is what the entries say under the clock.
pub record IsPlaced (pinned : List ℕ) (clock : BlockClock) (accounts : OrdMap StakeEntry)
    (m : Membership) : Type 0 where
  pub clock_set : m.clock ≡ some clock
  pub indexed : Indexed pinned accounts m
  pub settled : Each (IsSettled clock) accounts

pub place_total :
    (clock : BlockClock) (m : Membership) (k : ℕ) (e : StakeEntry)
    → m.clock ≡ some clock
    → place m k e ≡ some (with_placed m k (placed clock e), placed clock e)
unfolding place
place_total clock m k e at = ap (λ o. o >>= λ c. some (with_placed m k (placed c e), placed c e)) at

module _ {Data : Type 0} (shared : Shared Data) (clock : BlockClock) where
  -- The folding after a step that returns.
  pub record Folded (o : Option (Folding shared)) : Type 0 where
    pub last : Folding shared
    pub runs : o ≡ some last
    pub is_placed : IsPlaced shared.pinned clock last.accounts last.membership

  fold_vacant-Folded :
      (slot : ℕ) (x : Folding shared) (a : Account Data)
      → get a.pubkey x.accounts ≡ none
      → IsPlaced shared.pinned clock x.accounts x.membership
      → Folded (fold_vacant shared slot true x a)
  unfolding fold_vacant with_placed
  fold_vacant-Folded slot x a eq h =
      let e : StakeEntry = placed clock (entry_of shared a slot) in
      elim (Bool-cases (is_tracked shared a)) [
        | inl tracked ↦ record {
          last = record x {
            accounts = insert a.pubkey e x.accounts;
            membership = with_placed x.membership a.pubkey e;
            block = note_flip false e.member x.block;
          };
          runs =
              rw
                (
                  tracked,
                  is_tracked,
                  place_total clock x.membership a.pubkey (entry_of shared a slot) h.clock_set,
                )
                refl;
          is_placed = record {
            clock_set = h.clock_set;
            indexed =
                with_placed-Indexed shared.pinned a.pubkey e x.accounts x.membership eq h.indexed;
            settled =
                Each-insert (IsSettled clock) a.pubkey e x.accounts
                  (placed-IsSettled clock (entry_of shared a slot)) h.settled;
          };
        }
        | inr not_tracked ↦ record {
          last = x;
          runs = rw (not_tracked, is_tracked) refl;
          is_placed = h;
        }
      ]

  fold_occupied-Folded :
      (slot : ℕ) (x : Folding shared) (a : Account Data) (old : StakeEntry)
      → get a.pubkey x.accounts ≡ some old
      → IsPlaced shared.pinned clock x.accounts x.membership
      → Folded (fold_occupied shared slot true x a old)
  unfolding fold_occupied with_placed unplace
  fold_occupied-Folded slot x a old eq h =
      let e : StakeEntry = placed clock (entry_of shared a slot) in
      let block : StakeBlock =
        if old.stake_owned
        then record x.block { handled = a.pubkey ∷ x.block.handled }
        else x.block in
      let block' : StakeBlock =
        if old.stake_owned
        then record block { delta = block.delta +ℤ sub_ℕ a.lamports old.lamports }
        else block in
      elim (Bool-cases (leb slot old.slot)) [
        | inl stale ↦ record {
          last = record x { block = block };
          runs = rw (stale) refl;
          is_placed = h;
        }
        | inr newer ↦ record {
          last = record x {
            accounts = insert a.pubkey e x.accounts;
            membership = with_placed (unplace x.membership a.pubkey old) a.pubkey e;
            block = note_flip old.member e.member block';
          };
          runs =
              rw
                (
                  newer,
                  place_total clock (unplace x.membership a.pubkey old) a.pubkey
                      (entry_of shared a slot) h.clock_set,
                )
                refl;
          is_placed = record {
            clock_set = h.clock_set;
            indexed =
                unplace-Indexed shared.pinned a.pubkey old e x.accounts x.membership eq h.indexed;
            settled =
                Each-insert (IsSettled clock) a.pubkey e x.accounts
                  (placed-IsSettled clock (entry_of shared a slot)) h.settled;
          };
        }
      ]

  fold_account-Folded :
      (slot : ℕ) (x : Folding shared) (a : Account Data)
      → IsPlaced shared.pinned clock x.accounts x.membership
      → Folded (fold_account shared slot true x a)
  unfolding fold_account
  fold_account-Folded slot x a h = elim (Option-cases (get a.pubkey x.accounts)) [
    | inl missing ↦ rw (missing, fold_account) (fold_vacant-Folded slot x a missing h)
    | inr (old, eq) ↦ rw (eq, fold_account) (fold_occupied-Folded slot x a old eq h)
  ]

  pub fold_accounts-Folded :
      (slot : ℕ) (accounts : List (Account Data)) (x : Folding shared)
      → IsPlaced shared.pinned clock x.accounts x.membership
      → Folded (fold_accounts shared slot true x accounts)
  unfolding fold_accounts
  fold_accounts-Folded slot [] x h = record { last = x; runs = refl; is_placed = h }
  fold_accounts-Folded slot (a ∷ accounts) x h =
      let first : Folded (fold_account shared slot true x a) = fold_account-Folded slot x a h in
      let rest : Folded (fold_accounts shared slot true first.last accounts) =
        fold_accounts-Folded slot accounts first.last first.is_placed in
      record {
        last = rest.last;
        runs =
            ap (λ o. o >>= λ y. fold_accounts shared slot true y accounts) first.runs ∙ rest.runs;
        is_placed = rest.is_placed;
      }

  -- The membership after the clock of a block, under that clock or the old one.
  pub record Advanced (o : Option BlockClock) (r : Option Expiring) : Type 0 where
    pub now : BlockClock
    pub last : Expiring
    pub runs : r ≡ some last
    pub from : (now ≡ clock) ⊎ (o ≡ some now)
    pub is_placed : IsPlaced shared.pinned now last.accounts last.membership

  pub advance_clock-Advanced :
      (x : Expiring) (o : Option BlockClock)
      → ((c : BlockClock)
          → o ≡ some c
          → clock.slot ≤ c.slot
          → (clock.epoch ≤ c.epoch) × (clock.unix_timestamp ≤ c.unix_timestamp))
      → IsPlaced shared.pinned clock x.accounts x.membership
      → Advanced o (advance_clock shared true x o)
  unfolding advance_clock set_clock
  advance_clock-Advanced x none ordered h = record {
    now = clock;
    last = x;
    runs = refl;
    from = inl refl;
    is_placed = h;
  }
  advance_clock-Advanced x (some c) ordered h =
      let seen : is_some_and x.membership.clock (λ current. leb c.slot current.slot)
          ≡ leb c.slot clock.slot =
        ap (λ o. is_some_and o (λ current. leb c.slot current.slot)) h.clock_set in
      elim (Bool-cases (leb c.slot clock.slot)) [
        | inl old ↦ record {
          now = clock;
          last = x;
          runs = rw (seen ∙ old) refl;
          from = inl refl;
          is_placed = h;
        }
        | inr newer ↦
            let m : Membership = record x.membership { clock = some c } in
            let le : (clock.epoch ≤ c.epoch) × (clock.unix_timestamp ≤ c.unix_timestamp) =
              ordered c refl (ground (arith, newer)) in
            let done : Expired shared.pinned c (record x { membership = m }) =
              expire-Expired shared.pinned c (record x { membership = m }) refl
                (record {
                  sorted = h.indexed.sorted;
                  summed = h.indexed.summed;
                  epochs = h.indexed.epochs;
                  timestamps = h.indexed.timestamps;
                  epochs_ascend = h.indexed.epochs_ascend;
                  timestamps_ascend = h.indexed.timestamps_ascend;
                  joined = h.indexed.joined;
                })
                (λ k e eq. IsSettled-IsDue clock c e le.0 le.1 (h.settled k e eq)) in
            record {
              now = c;
              last = done.last;
              runs = rw (seen ∙ newer) done.runs;
              from = inr refl;
              is_placed = record {
                clock_set = done.clock_set;
                indexed = done.indexed;
                settled = done.settled;
              };
            }
      ]

module _ {Data : Type 0} (shared : Shared Data) where
  abbrev pub started : State → Expiring → Folding shared
  started s e = record {
    accounts = e.accounts;
    membership = e.membership;
    seed_shadow = s.seed_shadow;
    block = e.block;
  }

  abbrev pub stepped : State → ℕ → Folding shared → State
  stepped s slot x = record s {
    slot = max s.slot slot;
    accounts = x.accounts;
    membership = x.membership;
    seed_shadow = x.seed_shadow;
  }

  -- A block that is not skipped, from its two parts.
  pub apply_block-stepped :
      (s : State) (slot : ℕ) (is_repaired running : Bool) (accounts : List (Account Data))
      (e : Expiring) (x : Folding shared)
      → (not is_repaired && leb slot s.slot) ≡ false
      → is_live s.status ≡ running
      → advance_clock shared running
          (record { accounts = s.accounts; membership = s.membership; block = no_change })
          (find_clock shared accounts)
        ≡ some e
      → fold_accounts shared slot running (started s e) accounts ≡ some x
      → apply_block shared s slot is_repaired accounts ≡ some (stepped s slot x, x.block)
  unfolding apply_block
  apply_block-stepped s slot is_repaired running accounts e x applied status advanced folded =
      let begin : Expiring = record {
        accounts = s.accounts;
        membership = s.membership;
        block = no_change;
      } in
      rw (applied) (
        ap
          (λ b. advance_clock shared b begin (find_clock shared accounts) >>= λ e.
            fold_accounts shared slot b (started s e) accounts >>= λ x.
            some (stepped s slot x, x.block))
          status
        ∙ ap
            (λ o. o >>= λ e. fold_accounts shared slot running (started s e) accounts >>= λ x.
              some (stepped s slot x, x.block))
            advanced
        ∙ ap (λ o. o >>= λ x. some (stepped s slot x, x.block)) folded)
