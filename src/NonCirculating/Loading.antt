-- ===== src/NonCirculating/Loading.antt =====
-- The tracker before the flip: the accounts are written silently, and only the clock of the membership changes.
use cloudbreak.Prelude.{
  ℕ, ◌≡◌, refl, sym, ◌∙◌, ap, Bool, true, false, not, Option, none, some, List, [], ◌∷◌, arith, ltb,
  leb, ◌==◌, max, is_some_and, unwrap_or, ◌&&◌, inl, inr, Bool-cases, Option-cases, ◌>>=◌,
}
use mathlib.Core.Path.{subst}
use mathlib.Core.Option.{some-injective}
use cloudbreak.OrdMap.{OrdMap, get, insert, IsSorted, insert-IsSorted}
use cloudbreak.NonCirculating.{
  BlockClock, StakeEntry, StakeBlock, no_change, Membership, set_clock, Expiring,
}
use cloudbreak.NonCirculating.Tracker.{
  Shared, Account, is_live, State, new, seed_account, find_clock, seeded, clocked, is_tracked,
  entry_of, Folding, fold_vacant, fold_occupied, fold_account, fold_accounts, advance_clock,
  apply_block,
}
use cloudbreak.NonCirculating.Folds.{apply_block-stepped}
use cloudbreak.NonCirculating.Bootstrap.{IsBooting}

module _ {Data : Type 0} (shared : Shared Data) (OnChain : BlockClock → Type 0) where
  -- The clock of the membership is one of the chain.
  pub record IsLoading (accounts : OrdMap StakeEntry) (m : Membership) : Type 0 where
    pub sorted : IsSorted accounts
    pub booting : IsBooting shared.pinned m
    pub on_chain : (c : BlockClock) → m.clock ≡ some c → OnChain c

  pub new-IsLoading : IsLoading (new shared).accounts (new shared).membership
  unfolding new
  new-IsLoading = record {
    sorted = tt;
    booting = record { epochs = refl; timestamps = refl; total = refl; members = refl };
    on_chain = λ c e. absurd (ground (arith, e));
  }

  set_clock-IsLoading :
      (accounts : OrdMap StakeEntry) (m : Membership) (c : BlockClock)
      → OnChain c
      → IsLoading accounts m
      → IsLoading accounts (set_clock m c).0
  unfolding set_clock
  set_clock-IsLoading accounts m c on h =
      elim (Bool-cases (is_some_and m.clock (λ current. leb c.slot current.slot))) [
        | inl old ↦ rw (old) h
        | inr newer ↦ rw (newer) (record {
          sorted = h.sorted;
          booting = record {
            epochs = h.booting.epochs;
            timestamps = h.booting.timestamps;
            total = h.booting.total;
            members = h.booting.members;
          };
          on_chain = λ d e. subst OnChain (some-injective c d e) on;
        })
      ]

  sorted-IsLoading :
      (accounts accounts' : OrdMap StakeEntry) (m : Membership)
      → IsSorted accounts'
      → IsLoading accounts m
      → IsLoading accounts' m
  sorted-IsLoading accounts accounts' m sorted h = record {
    sorted = sorted;
    booting = h.booting;
    on_chain = h.on_chain;
  }

  seeded-IsLoading :
      (s : State) (a : Account Data) (slot : ℕ) (o : Option StakeEntry)
      → IsLoading s.accounts s.membership
      → IsLoading (seeded shared s a slot o).accounts (seeded shared s a slot o).membership
  unfolding seeded
  seeded-IsLoading s a slot none h =
      elim (Bool-cases (is_some_and (get a.pubkey s.seed_shadow) (λ seen. leb slot seen))) [
        | inl shadowed ↦ rw (shadowed) h
        | inr free ↦ rw (free) (
            sorted-IsLoading s.accounts (insert a.pubkey (entry_of shared a slot) s.accounts)
              s.membership (insert-IsSorted a.pubkey (entry_of shared a slot) s.accounts h.sorted)
              h)
      ]
  seeded-IsLoading s a slot (some old) h = elim (Bool-cases (ltb old.slot slot)) [
    | inl newer ↦ rw (newer) (
        sorted-IsLoading s.accounts (insert a.pubkey (entry_of shared a slot) s.accounts)
          s.membership (insert-IsSorted a.pubkey (entry_of shared a slot) s.accounts h.sorted) h)
    | inr stale ↦ rw (stale) h
  ]

  clocked-IsLoading :
      (accounts : OrdMap StakeEntry) (m : Membership) (o : Option BlockClock)
      → ((c : BlockClock) → o ≡ some c → OnChain c)
      → IsLoading accounts m
      → IsLoading accounts (clocked shared m o)
  unfolding clocked
  clocked-IsLoading accounts m none on h = h
  clocked-IsLoading accounts m (some c) on h = set_clock-IsLoading accounts m c (on c refl) h

  pub seed_account-IsLoading :
      (s : State) (a : Account Data) (slot : ℕ)
      → ((c : BlockClock)
          → (a.pubkey == shared.clock_sysvar) ≡ true
          → shared.parse_clock a.account_data ≡ some c
          → OnChain c)
      → IsLoading s.accounts s.membership
      → IsLoading (seed_account shared s a slot).accounts (seed_account shared s a slot).membership
  unfolding seed_account
  seed_account-IsLoading s a slot on h = elim (Bool-cases (a.pubkey == shared.clock_sysvar)) [
    | inl clock ↦ rw (clock) (
        clocked-IsLoading s.accounts s.membership (shared.parse_clock a.account_data)
          (λ c. on c clock) h)
    | inr other ↦ elim (Bool-cases (is_tracked shared a)) [
      | inl tracked ↦
          rw (other, tracked, is_tracked) (seeded-IsLoading s a slot (get a.pubkey s.accounts) h)
      | inr skipped ↦ rw (other, skipped, is_tracked) h
    ]
  ]

  pub seed_account-status :
      (s : State) (a : Account Data) (slot : ℕ) → (seed_account shared s a slot).status ≡ s.status
  unfolding seed_account seeded
  seed_account-status s a slot = elim (Option-cases (get a.pubkey s.accounts)) [
    | inl missing ↦ rw (missing) (ground arith)
    | inr (old, eq) ↦ rw (eq) (ground arith)
  ]

  -- A step of the fold before the flip returns, and leaves the membership.
  record Silent (m : Membership) (o : Option (Folding shared)) : Type 0 where
    last : Folding shared
    runs : o ≡ some last
    same : last.membership ≡ m
    sorted : IsSorted last.accounts

  fold_account-Silent :
      (slot : ℕ) (x : Folding shared) (a : Account Data)
      → IsSorted x.accounts
      → Silent x.membership (fold_account shared slot false x a)
  unfolding fold_account fold_vacant fold_occupied
  fold_account-Silent slot x a h = elim (Option-cases (get a.pubkey x.accounts)) [
    | inl missing ↦ elim (Bool-cases (is_tracked shared a)) [
      | inl tracked ↦ record {
        last = record x { accounts = insert a.pubkey (entry_of shared a slot) x.accounts };
        runs = rw (missing, fold_account, tracked, is_tracked) refl;
        same = refl;
        sorted = insert-IsSorted a.pubkey (entry_of shared a slot) x.accounts h;
      }
      | inr skipped ↦ record {
        last = record x {
          seed_shadow =
              insert a.pubkey (max (unwrap_or (get a.pubkey x.seed_shadow) slot) slot)
                x.seed_shadow;
        };
        runs = rw (missing, fold_account, skipped, is_tracked) refl;
        same = refl;
        sorted = h;
      }
    ]
    | inr (old, eq) ↦ elim (Bool-cases (leb slot old.slot)) [
      | inl stale ↦ record {
        last = x;
        runs = rw (eq, fold_account, stale) refl;
        same = refl;
        sorted = h;
      }
      | inr newer ↦ record {
        last = record x { accounts = insert a.pubkey (entry_of shared a slot) x.accounts };
        runs = rw (eq, fold_account, newer) refl;
        same = refl;
        sorted = insert-IsSorted a.pubkey (entry_of shared a slot) x.accounts h;
      }
    ]
  ]

  fold_accounts-Silent :
      (slot : ℕ) (accounts : List (Account Data)) (x : Folding shared)
      → IsSorted x.accounts
      → Silent x.membership (fold_accounts shared slot false x accounts)
  unfolding fold_accounts
  fold_accounts-Silent slot [] x h = record { last = x; runs = refl; same = refl; sorted = h }
  fold_accounts-Silent slot (a ∷ accounts) x h =
      let first : Silent x.membership (fold_account shared slot false x a) =
        fold_account-Silent slot x a h in
      let rest : Silent first.last.membership
          (fold_accounts shared slot false first.last accounts) =
        fold_accounts-Silent slot accounts first.last first.sorted in
      record {
        last = rest.last;
        runs =
            ap (λ o. o >>= λ y. fold_accounts shared slot false y accounts) first.runs ∙ rest.runs;
        same = rest.same ∙ first.same;
        sorted = rest.sorted;
      }

  advance_clock-early :
      (x : Expiring) (o : Option BlockClock)
      → advance_clock shared false x o
        ≡ some (record x { membership = clocked shared x.membership o })
  unfolding advance_clock clocked
  advance_clock-early x none = refl
  advance_clock-early x (some c) = ground arith

  -- A block before the flip returns, and only writes accounts and the clock.
  pub record Loaded (s : State) (o : Option (State × StakeBlock)) : Type 0 where
    pub next : State × StakeBlock
    pub runs : o ≡ some next
    pub status : next.0.status ≡ s.status
    pub is_loading : IsLoading next.0.accounts next.0.membership

  pub apply_block-Loaded :
      (s : State) (slot : ℕ) (is_repaired : Bool) (accounts : List (Account Data))
      → is_live s.status ≡ false
      → ((c : BlockClock) → find_clock shared accounts ≡ some c → OnChain c)
      → IsLoading s.accounts s.membership
      → Loaded s (apply_block shared s slot is_repaired accounts)
  unfolding apply_block
  apply_block-Loaded s slot is_repaired accounts early on h =
      let m : Membership = clocked shared s.membership (find_clock shared accounts) in
      let h' : IsLoading s.accounts m =
        clocked-IsLoading s.accounts s.membership (find_clock shared accounts) on h in
      let f : Silent m (
          fold_accounts shared slot false
            (record {
              accounts = s.accounts;
              membership = m;
              seed_shadow = s.seed_shadow;
              block = no_change;
            })
            accounts) =
        fold_accounts-Silent slot accounts
          (record {
            accounts = s.accounts;
            membership = m;
            seed_shadow = s.seed_shadow;
            block = no_change;
          })
          h.sorted in
      elim (Bool-cases (not is_repaired && leb slot s.slot)) [
        | inl replayed ↦ record {
          next = (s, no_change);
          runs = rw (replayed) refl;
          status = refl;
          is_loading = h;
        }
        | inr applied ↦ record {
          next = (
            record s {
              slot = max s.slot slot;
              accounts = f.last.accounts;
              membership = f.last.membership;
              seed_shadow = f.last.seed_shadow;
            },
            f.last.block,
          );
          runs =
              apply_block-stepped shared s slot is_repaired false accounts
                (record { accounts = s.accounts; membership = m; block = no_change }) f.last applied
                early
                (advance_clock-early
                  (record { accounts = s.accounts; membership = s.membership; block = no_change })
                  (find_clock shared accounts))
                f.runs;
          status = refl;
          is_loading =
              subst (IsLoading f.last.accounts) (sym f.same)
                (sorted-IsLoading s.accounts f.last.accounts m f.sorted h');
        }
      ]
