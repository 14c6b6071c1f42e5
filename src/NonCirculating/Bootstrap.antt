-- ===== src/NonCirculating/Bootstrap.antt =====
-- `finish_bootstrap`: every seeded entry is placed.
use cloudbreak.Prelude.{
  ℕ, ◌+◌, ◌%◌, ◌≤◌, ◌≡◌, refl, sym, ◌∙◌, ap, Bool, true, Option, none, some, List, [], ◌∷◌, arith,
  ◌==◌, is_some, contains, keep, inl, inr, Bool-cases, ◌>>=◌,
}
use mathlib.Core.Path.{subst}
use mathlib.Core.Option.{some-injective}
use cloudbreak.OrdMap.{OrdMap, get, insert, Above, IsSorted, get-Above, get-insert}
use cloudbreak.PairSet.{has, IsAscending}
use cloudbreak.NonCirculating.{BlockClock, StakeEntry, Membership, u128_mod, placed, with_placed}
use cloudbreak.NonCirculating.Tracker.{set_of, place_all}
use cloudbreak.NonCirculating.Indexed.{
  share, members_total, waits_epoch, waits_timestamp, belongs, Indexed, members_total-insert,
}
use cloudbreak.NonCirculating.Changes.{with_placed-Indexed}
use cloudbreak.NonCirculating.Settled.{IsSettled, Each, placed-IsSettled}
use cloudbreak.NonCirculating.Folds.{IsPlaced, place_total}

unfoldable pub placed_all : BlockClock → OrdMap StakeEntry → OrdMap StakeEntry
placed_all clock [] = []
placed_all clock ((k, e) ∷ accounts) = (k, placed clock e) ∷ placed_all clock accounts

placed_all-Above :
    (clock : BlockClock) (a : ℕ) (accounts : OrdMap StakeEntry)
    → Above a accounts
    → Above a (placed_all clock accounts)
unfolding placed_all
placed_all-Above clock a [] h = h
placed_all-Above clock a ((k, e) ∷ accounts) h = (h.0, placed_all-Above clock a accounts h.1)

placed_all-IsSorted :
    (clock : BlockClock) (accounts : OrdMap StakeEntry)
    → IsSorted accounts
    → IsSorted (placed_all clock accounts)
unfolding placed_all
placed_all-IsSorted clock [] h = h
placed_all-IsSorted clock ((k, e) ∷ accounts) h =
    (placed_all-Above clock k accounts h.0, placed_all-IsSorted clock accounts h.1)

placed_all-IsSettled :
    (clock : BlockClock) (accounts : OrdMap StakeEntry)
    → Each (IsSettled clock) (placed_all clock accounts)
unfolding placed_all get
placed_all-IsSettled clock [] q d eq = absurd (ground (arith, eq))
placed_all-IsSettled clock ((k, e) ∷ accounts) q d eq = elim (Bool-cases (k == q)) [
  | inl same ↦
      subst (IsSettled clock) (some-injective (placed clock e) d (ground (arith, same, eq)))
        (placed-IsSettled clock e)
  | inr other ↦ placed_all-IsSettled clock accounts q d (ground (arith, other, eq))
]

pub keep-Above :
    (p : ℕ × StakeEntry → Bool) (a : ℕ) (accounts : OrdMap StakeEntry)
    → Above a accounts
    → Above a (keep p accounts)
keep-Above p a [] h = h
keep-Above p a ((k, e) ∷ accounts) h = elim (Bool-cases (p (k, e))) [
  | inl kept ↦ rw (kept) (h.0, keep-Above p a accounts h.1)
  | inr gone ↦ rw (gone) (keep-Above p a accounts h.1)
]

pub keep-IsSorted :
    (p : ℕ × StakeEntry → Bool) (accounts : OrdMap StakeEntry)
    → IsSorted accounts
    → IsSorted (keep p accounts)
keep-IsSorted p [] h = h
keep-IsSorted p ((k, e) ∷ accounts) h = elim (Bool-cases (p (k, e))) [
  | inl kept ↦ rw (kept) (keep-Above p k accounts h.0, keep-IsSorted p accounts h.1)
  | inr gone ↦ rw (gone) (keep-IsSorted p accounts h.1)
]

-- The entries that are placed so far come first.
abbrev over : Option StakeEntry → Option StakeEntry → Option StakeEntry
over none old = old
over (some e) old = some e

module _ (pinned : List ℕ) (clock : BlockClock) where
  record PlacedOver (earlier accounts : OrdMap StakeEntry) (m : Membership) : Type 0 where
    last : Membership
    all : OrdMap StakeEntry
    runs : place_all m accounts ≡ some (last, placed_all clock accounts)
    clock_set : last.clock ≡ some clock
    indexed : Indexed pinned all last
    found_in : (q : ℕ) → get q all ≡ over (get q (placed_all clock accounts)) (get q earlier)
    summed : members_total all ≡ members_total earlier + members_total (placed_all clock accounts)

  place_all-PlacedOver :
      (accounts earlier : OrdMap StakeEntry) (m : Membership)
      → m.clock ≡ some clock
      → IsSorted accounts
      → ((q : ℕ) → is_some (get q accounts) ≡ true → get q earlier ≡ none)
      → Indexed pinned earlier m
      → PlacedOver earlier accounts m
  unfolding place_all placed_all get members_total with_placed
  place_all-PlacedOver [] earlier m at sorted apart h = record {
    last = m;
    all = earlier;
    runs = refl;
    clock_set = at;
    indexed = h;
    found_in = λ q. refl;
    summed = omega arith;
  }
  place_all-PlacedOver ((k, e) ∷ accounts) earlier m at sorted apart h =
      let e' : StakeEntry = placed clock e in
      let missing : get k earlier ≡ none = apart k (ground arith) in
      let rest : PlacedOver (insert k e' earlier) accounts (with_placed m k e') =
        place_all-PlacedOver accounts (insert k e' earlier) (with_placed m k e') at sorted.1
          (λ q there.
            ground
              (arith, get-insert k q e' earlier, apart q, there, get-Above k k accounts sorted.0))
          (with_placed-Indexed pinned k e' earlier m missing h) in
      record {
        last = rest.last;
        all = rest.all;
        runs =
            ap
              (λ o. o >>= λ (x : Membership × StakeEntry).
                place_all x.0 accounts >>= λ y. some (y.0, (k, x.1) ∷ y.1))
              (place_total clock m k e at)
            ∙ ap (λ o. o >>= λ y. some (y.0, (k, e') ∷ y.1)) rest.runs;
        clock_set = rest.clock_set;
        indexed = rest.indexed;
        found_in = λ q. ground (
          arith,
          rest.found_in q,
          get-insert k q e' earlier,
          λ (le : q ≤ k).
              get-Above k q (placed_all clock accounts) (placed_all-Above clock k accounts sorted.0)
                le,
        );
        summed =
            ground
              (arith, rest.summed, members_total-insert k e' earlier h.sorted, ap share missing);
      }

over-none : (o : Option StakeEntry) → over o none ≡ o
over-none none = refl
over-none (some e) = refl

has_set_of : (pinned : List ℕ) (q : ℕ) → is_some (get q (set_of pinned)) ≡ contains pinned q
unfolding get set_of
has_set_of [] q = refl
has_set_of (k ∷ pinned) q = ground (arith, get-insert k q tt (set_of pinned), has_set_of pinned q)

-- The membership before the flip: the pinned accounts and nothing that expires.
pub record IsBooting (pinned : List ℕ) (m : Membership) : Type 0 where
  pub epochs : m.by_epoch ≡ []
  pub timestamps : m.by_timestamp ≡ []
  pub total : m.total ≡ 0
  pub members : m.members ≡ set_of pinned

IsBooting-Indexed : (pinned : List ℕ) (m : Membership) → IsBooting pinned m → Indexed pinned [] m
unfolding get members_total has
IsBooting-Indexed pinned m h = record {
  sorted = tt;
  summed = h.total;
  epochs = λ k v. ap (has (v, k)) h.epochs;
  timestamps = λ k v. ap (has (v, k)) h.timestamps;
  epochs_ascend = subst IsAscending (sym h.epochs) tt;
  timestamps_ascend = subst IsAscending (sym h.timestamps) tt;
  joined = λ k. ap (λ s. is_some (get k s)) h.members ∙ has_set_of pinned k;
}

-- The placing of the seeded entries returns, and the membership is what they say.
pub record Flipped (pinned : List ℕ) (clock : BlockClock) (accounts : OrdMap StakeEntry)
    (m : Membership) : Type 0 where
  pub last : Membership
  pub runs : place_all m accounts ≡ some (last, placed_all clock accounts)
  pub is_placed : IsPlaced pinned clock (placed_all clock accounts) last

pub place_all-Flipped :
    (pinned : List ℕ) (clock : BlockClock) (accounts : OrdMap StakeEntry) (m : Membership)
    → m.clock ≡ some clock
    → IsSorted accounts
    → IsBooting pinned m
    → Flipped pinned clock accounts m
unfolding get members_total
place_all-Flipped pinned clock accounts m at sorted h =
    let p : PlacedOver pinned clock [] accounts m =
      place_all-PlacedOver pinned clock accounts [] m at sorted (λ q there. refl)
        (IsBooting-Indexed pinned m h) in
    let same : (q : ℕ) → get q p.all ≡ get q (placed_all clock accounts) =
      λ q. p.found_in q ∙ over-none (get q (placed_all clock accounts)) in
    record {
      last = p.last;
      runs = p.runs;
      is_placed = record {
        clock_set = p.clock_set;
        indexed = record {
          sorted = placed_all-IsSorted clock accounts sorted;
          summed = p.indexed.summed ∙ ap (λ n. n % u128_mod) (ground (arith, p.summed));
          epochs = λ k v. p.indexed.epochs k v ∙ ap (λ o. waits_epoch o v) (same k);
          timestamps = λ k v. p.indexed.timestamps k v ∙ ap (λ o. waits_timestamp o v) (same k);
          epochs_ascend = p.indexed.epochs_ascend;
          timestamps_ascend = p.indexed.timestamps_ascend;
          joined = λ k. p.indexed.joined k ∙ ap (belongs pinned k) (same k);
        };
        settled = placed_all-IsSettled clock accounts;
      };
    }
