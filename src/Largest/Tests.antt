-- ===== src/Largest/Tests.antt =====
-- Runs of the tops on small inputs.
use cloudbreak.Prelude.{
  ℕ, ◌≡◌, true, none, refl, ap, false, some, [], ◌∷◌, arith, ◌==◌, if◌then◌else◌,
}
use mathlib.Core.Option.{some-injective}
use cloudbreak.OrdMap.{get, insert, remove}
use cloudbreak.Largest.Top.{
  Entry, MintTop, Updated, compute_top, insert_row, sort_rows, update_top, remove_top, empty_top,
  admit,
}
use cloudbreak.Largest.Top.Sound.{IsTop, Covers, compute_top-IsTop}
use cloudbreak.Largest.Top.Runs.{Reaches, start, wrote, closed, compute_top-Reaches}
use cloudbreak.Largest.Top.Update.{write_ledger, update_top-Covers}

abbrev held : ℕ → Entry
held amount = record { amount = amount; slot = 3; write_version = 1 }

-- Two holders, and nobody else has anything.
abbrev two_holders : MintTop
two_holders = record {
  entries = (4, held 50) ∷ (7, held 20) ∷ [];
  cached_min = some (7, 20);
  dropped_floor = 0;
  stale = false;
  last_record = [];
}

abbrev ledger : ℕ → ℕ
ledger k = if k == 4 then 50 else if k == 7 then 20 else 0

least : ℕ × ℕ
least = (7, 20)

least_of : (r : ℕ × ℕ) → two_holders.cached_min ≡ some r → least ≡ r
unfolding least
least_of r e = some-injective least r e

two_holders-Covers : Covers ledger two_holders
unfolding get least
two_holders-Covers = record {
  sorted = ((omega arith, tt), (tt, tt));
  members = λ k e found. ground (arith, found);
  others = λ k absent. ground (arith, absent);
  cached = λ r e. (let one = least_of r e in (held 20, rw⁻¹ (one) refl, ap (λ s. s.1) one));
  full = λ e. absurd (ground (arith, e));
}

compute_top-IsTop_example : IsTop ledger ((4, 50) ∷ (7, 20) ∷ [])
unfolding compute_top sort_rows insert_row
compute_top-IsTop_example =
    compute_top-IsTop ledger two_holders ((4, 50) ∷ (7, 20) ∷ []) two_holders-Covers refl

-- A newcomer with 30 evicts the least of a full top of two.
update_top-Covers_example :
    (u : Updated) × (update_top two_holders 9
        (record { amount = 30; slot = 8; write_version = 2 })
        false
        false
        2
      ≡ some u)
    × Covers (write_ledger ledger 9 30) u.top
unfolding get
update_top-Covers_example =
    update_top-Covers ledger two_holders 9 (record { amount = 30; slot = 8; write_version = 2 })
      false 2 two_holders-Covers (omega arith) (λ e found. absurd (ground (arith, found)))

abbrev one_holder : Updated
one_holder = record {
  top = record {
    entries = (4, held 50) ∷ [];
    cached_min = some (4, 50);
    dropped_floor = 0;
    stale = false;
    last_record = [];
  };
  touched = true;
  evicted = none;
  joined = true;
}

abbrev both_holders : Updated
both_holders = record { top = two_holders; touched = true; evicted = none; joined = true }

abbrev nobody : ℕ → ℕ
nobody k = 0

-- Two holders come, and the greater one closes.
one_closes :
    Reaches 2
      (write_ledger (write_ledger (write_ledger nobody 4 50) 7 20) 4 0)
      (remove_top two_holders 4 8 2).0
unfolding get insert empty_top update_top admit
one_closes =
    closed _ two_holders 4 8 2
      (wrote _ one_holder.top 7 (held 20) false both_holders
        (wrote _ empty_top 4 (held 50) false one_holder start
          (λ e found. absurd (ground (arith, found))) refl)
        (λ e found. absurd (ground (arith, found))) refl)
      (λ e found. ground (arith, found))

compute_top-Reaches_example :
    IsTop (write_ledger (write_ledger (write_ledger nobody 4 50) 7 20) 4 0) ((7, 20) ∷ [])
unfolding compute_top sort_rows insert_row remove_top remove get
compute_top-Reaches_example =
    compute_top-Reaches 2 _ (remove_top two_holders 4 8 2).0 ((7, 20) ∷ []) (omega arith) one_closes
      refl
