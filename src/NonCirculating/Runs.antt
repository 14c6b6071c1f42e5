-- ===== src/NonCirculating/Runs.antt =====
-- The tracker from its start through the seeds, the flip and the blocks.
use cloudbreak.Prelude.{
  ℕ, ◌≤◌, ◌≡◌, refl, sym, ◌∙◌, ap, Bool, true, false, not, ◌&&◌, ◌||◌, Option, none, some, List, [],
  ◌∷◌, arith, leb, if◌then◌else◌, is_some, ◌⊎◌, inl, inr, Bool-cases, Option-cases, ◌>>=◌, All,
}
use mathlib.Core.Path.{subst}
use cloudbreak.OrdMap.{get}
use cloudbreak.NonCirculating.{BlockClock, StakeBlock, no_change, Expiring}
use cloudbreak.NonCirculating.Tracker.{
  Shared, live, is_live, State, new, retain, seed_account, finish_bootstrap, find_clock,
  fold_accounts, advance_clock, apply_block, is_non_circulating, total,
}
use cloudbreak.NonCirculating.Folds.{
  IsPlaced, Folded, fold_accounts-Folded, Advanced, advance_clock-Advanced, started, stepped,
  apply_block-stepped,
}
use cloudbreak.NonCirculating.Loading.{
  IsLoading, new-IsLoading, seed_account-IsLoading, seed_account-status, Loaded, apply_block-Loaded,
}
use cloudbreak.NonCirculating.Bootstrap.{Flipped, place_all-Flipped, placed_all, keep-IsSorted}
use cloudbreak.NonCirculating.Life.{
  Block, Load, seed, early, locked_total, locked, locked_total-lem, belongs-locked, boot, follow,
  run, IsExact, OnChain, IsLoadOnChain, IsBlockOnChain,
}

module _ {Data : Type 0} (shared : Shared Data) (epoch_at timestamp_at : ℕ → ℕ) where
  -- The tracker is live, and its membership is what its entries say under a clock of the chain.
  pub record IsLive (s : State) : Type 0 where
    pub status : is_live s.status ≡ true
    pub now : BlockClock
    pub on_chain : (OnChain shared epoch_at timestamp_at) now
    pub is_placed : IsPlaced shared.pinned now s.accounts s.membership

  abbrev pub IsTracking : State → Type 0
  IsTracking s =
      ((is_live s.status ≡ false)
        × IsLoading shared (OnChain shared epoch_at timestamp_at) s.accounts s.membership)
      ⊎ IsLive s

  -- A step that returns.
  pub record Tracked (o : Option (State × StakeBlock)) : Type 0 where
    pub next : State × StakeBlock
    pub runs : o ≡ some next
    pub tracks : IsTracking next.0

  pub apply_block-Tracked :
      ((a b : ℕ) → a ≤ b → (epoch_at a ≤ epoch_at b) × (timestamp_at a ≤ timestamp_at b))
      → (s : State) (b : Block Data) → IsBlockOnChain shared epoch_at timestamp_at b
      → IsTracking s
      → Tracked (apply_block shared s b.slot b.is_repaired b.accounts)
  unfolding apply_block
  apply_block-Tracked monotone s b on (inl before) =
      let l : Loaded shared (OnChain shared epoch_at timestamp_at) s
          (apply_block shared s b.slot b.is_repaired b.accounts) =
        apply_block-Loaded shared (OnChain shared epoch_at timestamp_at) s b.slot b.is_repaired
          b.accounts before.0 on before.1 in
      record {
        next = l.next;
        runs = l.runs;
        tracks = inl (ap is_live l.status ∙ before.0, l.is_loading);
      }
  apply_block-Tracked monotone s b on (inr h) =
      let begin : Expiring = record {
        accounts = s.accounts;
        membership = s.membership;
        block = no_change;
      } in
      let a : Advanced shared h.now (find_clock shared b.accounts)
          (advance_clock shared true begin (find_clock shared b.accounts)) =
        advance_clock-Advanced shared h.now begin (find_clock shared b.accounts)
          (λ c e le. ground (arith, on c e, h.on_chain, monotone h.now.slot c.slot le))
          (record {
            clock_set = h.is_placed.clock_set;
            indexed = h.is_placed.indexed;
            settled = h.is_placed.settled;
          }) in
      let f : Folded shared a.now
          (fold_accounts shared b.slot true (started shared s a.last) b.accounts) =
        fold_accounts-Folded shared a.now b.slot b.accounts (started shared s a.last) a.is_placed in
      elim (Bool-cases (not b.is_repaired && leb b.slot s.slot)) [
        | inl replayed ↦ record { next = (s, no_change); runs = rw (replayed) refl; tracks = inr h }
        | inr applied ↦ record {
          next = (stepped shared s b.slot f.last, f.last.block);
          runs =
              apply_block-stepped shared s b.slot b.is_repaired true b.accounts a.last f.last
                applied h.status a.runs f.runs;
          tracks = inr (record {
            status = h.status;
            now = a.now;
            on_chain = elim a.from [
              | inl same ↦ subst (OnChain shared epoch_at timestamp_at) (sym same) h.on_chain
              | inr newer ↦ on a.now newer
            ];
            is_placed = f.is_placed;
          });
        }
      ]

  new-status : is_live (new shared).status ≡ false
  unfolding new
  new-status = refl

  -- A run that returns.
  pub record Ran (o : Option State) : Type 0 where
    pub last : State
    pub runs : o ≡ some last
    pub tracks : IsTracking last

  follow-Ran :
      ((a b : ℕ) → a ≤ b → (epoch_at a ≤ epoch_at b) × (timestamp_at a ≤ timestamp_at b))
      → (blocks : List (Block Data)) (s : State)
      → All (IsBlockOnChain shared epoch_at timestamp_at) blocks
      → IsTracking s
      → Ran (follow shared s blocks)
  unfolding follow
  follow-Ran monotone [] s on h = record { last = s; runs = refl; tracks = h }
  follow-Ran monotone (b ∷ blocks) s on h =
      let first : Tracked (apply_block shared s b.slot b.is_repaired b.accounts) =
        apply_block-Tracked monotone s b on.0 h in
      let rest : Ran (follow shared first.next.0 blocks) =
        follow-Ran monotone blocks first.next.0 on.1 first.tracks in
      record {
        last = rest.last;
        runs = ap (λ o. o >>= λ r. follow shared r.0 blocks) first.runs ∙ rest.runs;
        tracks = rest.tracks;
      }

  record Booted (o : Option State) : Type 0 where
    last : State
    runs : o ≡ some last
    status : is_live last.status ≡ false
    is_loading :
        IsLoading shared (OnChain shared epoch_at timestamp_at) last.accounts last.membership

  boot-Booted :
      (loads : List (Load Data)) (s : State)
      → All (IsLoadOnChain shared epoch_at timestamp_at) loads
      → is_live s.status ≡ false
      → IsLoading shared (OnChain shared epoch_at timestamp_at) s.accounts s.membership
      → Booted (boot shared s loads)
  unfolding boot
  boot-Booted [] s on status h = record { last = s; runs = refl; status = status; is_loading = h }
  boot-Booted (seed a slot ∷ loads) s on status h =
      boot-Booted loads (seed_account shared s a slot) on.1
        (ap is_live (seed_account-status shared (OnChain shared epoch_at timestamp_at) s a slot)
          ∙ status)
        (seed_account-IsLoading shared (OnChain shared epoch_at timestamp_at) s a slot on.0 h)
  boot-Booted (early b ∷ loads) s on status h =
      let first : Loaded shared (OnChain shared epoch_at timestamp_at) s
          (apply_block shared s b.slot b.is_repaired b.accounts) =
        apply_block-Loaded shared (OnChain shared epoch_at timestamp_at) s b.slot b.is_repaired
          b.accounts status on.0 h in
      let rest : Booted (boot shared first.next.0 loads) =
        boot-Booted loads first.next.0 on.1 (ap is_live first.status ∙ status) first.is_loading in
      record {
        last = rest.last;
        runs = ap (λ o. o >>= λ r. boot shared r.0 loads) first.runs ∙ rest.runs;
        status = rest.status;
        is_loading = rest.is_loading;
      }

  finish_bootstrap-Tracked :
      (s : State)
      → is_live s.status ≡ false
      → IsLoading shared (OnChain shared epoch_at timestamp_at) s.accounts s.membership
      → (r : State × Bool) × (finish_bootstrap shared s ≡ some r) × IsTracking r.0
  unfolding finish_bootstrap retain
  finish_bootstrap-Tracked s status h =
      let going : (c : BlockClock)
          → s.membership.clock ≡ some c
          → (is_live s.status || not (is_some s.membership.clock)) ≡ false =
        λ c eq. ground (arith, status, eq) in
      elim (Option-cases s.membership.clock) [
        | inl missing ↦ ((s, false), rw (status, missing) refl, inl (status, h))
        | inr (c, eq) ↦
            let f : Flipped shared.pinned c (retain s.accounts) s.membership =
              place_all-Flipped shared.pinned c (retain s.accounts) s.membership eq
                (keep-IsSorted (λ e. e.1.stake_owned || e.1.pinned) s.accounts h.sorted)
                h.booting in
            (
              (
                record s {
                  accounts = placed_all c (retain s.accounts);
                  membership = f.last;
                  seed_shadow = [];
                  status = live;
                },
                true,
              ),
              rw (going c eq) (
                  ap
                    (λ o. o >>= λ x. some (
                      record s {
                        accounts = x.1;
                        membership = x.0;
                        seed_shadow = [];
                        status = live;
                      },
                      true,
                    ))
                    f.runs),
              inr (record {
                status = refl;
                now = c;
                on_chain = h.on_chain c eq;
                is_placed = f.is_placed;
              }),
            )
      ]

  IsTracking-IsExact : (s : State) → IsTracking s → IsExact shared s
  unfolding is_non_circulating total
  IsTracking-IsExact s (inl before) = record {
    listed = λ k. ground (arith, before.0);
    sum = ground (arith, before.0);
  }
  IsTracking-IsExact s (inr h) = record {
    listed = λ k.
        ap (λ b. is_live s.status && b)
          (h.is_placed.indexed.joined k
            ∙ belongs-locked shared.pinned h.now k s.accounts h.is_placed.settled
            ∙ ap (λ c. locked shared.pinned c k (get k s.accounts)) (sym h.is_placed.clock_set));
    sum =
        ap (λ n. if is_live s.status then some n else none)
          (omega (
            arith,
            h.is_placed.indexed.summed,
            locked_total-lem h.now s.accounts h.is_placed.indexed.sorted h.is_placed.settled,
            ap (λ c. locked_total c s.accounts) h.is_placed.clock_set,
          ));
  }

  pub run-Ran :
      ((a b : ℕ) → a ≤ b → (epoch_at a ≤ epoch_at b) × (timestamp_at a ≤ timestamp_at b))
      → (loads : List (Load Data)) (blocks : List (Block Data))
      → All (IsLoadOnChain shared epoch_at timestamp_at) loads
      → All (IsBlockOnChain shared epoch_at timestamp_at) blocks
      → Ran (run shared loads blocks)
  unfolding run
  run-Ran monotone loads blocks on_loads on_blocks =
      let b : Booted (boot shared (new shared) loads) =
        boot-Booted loads (new shared) on_loads new-status
          (new-IsLoading shared (OnChain shared epoch_at timestamp_at)) in
      let f : (r : State × Bool) × (finish_bootstrap shared b.last ≡ some r) × IsTracking r.0 =
        finish_bootstrap-Tracked b.last b.status b.is_loading in
      let r : Ran (follow shared f.0.0 blocks) = follow-Ran monotone blocks f.0.0 on_blocks f.2 in
      record {
        last = r.last;
        runs =
            ap (λ o. o >>= λ s. finish_bootstrap shared s >>= λ r. follow shared r.0 blocks) b.runs
            ∙ ap (λ o. o >>= λ r. follow shared r.0 blocks) f.1
            ∙ r.runs;
        tracks = r.tracks;
      }

  -- From its start, through any seeds and early blocks, the flip and any later blocks whose clocks are of
  -- one chain on which epoch and time never go back, the tracker never panics. Once it is live, it
  -- lists as non-circulating the pinned accounts without an entry and the accounts whose entry the
  -- latest clock evaluates so, and its total is the sum of the lamports of those entries modulo 2^64.
  -- Before that it lists nothing and has no total.
  pub run-IsExact :
      ((a b : ℕ) → a ≤ b → (epoch_at a ≤ epoch_at b) × (timestamp_at a ≤ timestamp_at b))
      → (loads : List (Load Data)) (blocks : List (Block Data))
      → All (IsLoadOnChain shared epoch_at timestamp_at) loads
      → All (IsBlockOnChain shared epoch_at timestamp_at) blocks
      → (s : State) × (run shared loads blocks ≡ some s) × IsExact shared s
  run-IsExact monotone loads blocks on_loads on_blocks =
      let r : Ran (run shared loads blocks) = run-Ran monotone loads blocks on_loads on_blocks in
      (r.last, r.runs, IsTracking-IsExact r.last r.tracks)
