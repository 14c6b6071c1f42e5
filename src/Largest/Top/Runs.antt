-- ===== src/Largest/Top/Runs.antt =====
-- A top over any sequence of live writes and closes.
use mathlib.Core.Path.{subst}
use mathlib.Core.Option.{some-injective}
use cloudbreak.Prelude.{ℕ, ◌<◌, ◌≡◌, refl, sym, ◌∙◌, true, false, Bool, some, List, arith}
use cloudbreak.OrdMap.{get}
use cloudbreak.Largest.Top.{
  Entry, Row, MintTop, sound, empty_top, is_newer, Updated, compute_top, update_top, remove_top,
}
use cloudbreak.Largest.Top.Sound.{IsTop, Covers, compute_top-IsTop}
use cloudbreak.Largest.Top.Update.{write_ledger, update_top-Covers, remove_top-Covers}

-- The stamp is newer than that of the member, if the holder is one.
abbrev pub IsNewer : MintTop → ℕ → ℕ → ℕ → Type 0
IsNewer top k slot write_version =
    (e : Entry)
    → get k top.entries ≡ some e
    → is_newer slot write_version e.slot e.write_version ≡ true

-- The tops that live blocks reach from the empty one, each with the ledger of what was written last.
pub data Reaches (size : ℕ) : (ℕ → ℕ) → MintTop → Type 0 where
  start : Reaches size (λ k. 0) empty_top
  wrote :
      (ledger : ℕ → ℕ) (top : MintTop) (k : ℕ) (new : Entry) (old_block : Bool) (u : Updated)
      → Reaches size ledger top
      → IsNewer top k new.slot new.write_version
      → update_top top k new false old_block size ≡ some u
      → Reaches size (write_ledger ledger k new.amount) u.top
  closed :
      (ledger : ℕ → ℕ) (top : MintTop) (k slot write_version : ℕ)
      → Reaches size ledger top
      → IsNewer top k slot write_version
      → Reaches size (write_ledger ledger k 0) (remove_top top k slot write_version).0

empty_top-Covers : Covers (λ k. 0) empty_top
unfolding empty_top get
empty_top-Covers = record {
  sorted = tt;
  members = λ k e found. absurd (ground (arith, found));
  others = λ k absent. omega arith;
  cached = λ r e. absurd (ground (arith, e));
  full = λ e. refl;
}

reach-Covers :
    (size : ℕ) (ledger : ℕ → ℕ) (top : MintTop)
    → 0 < size
    → Reaches size ledger top
    → Covers ledger top
reach-Covers size _ _ pos start = empty_top-Covers
reach-Covers size _ _ pos (wrote ledger top k new old_block u run newer e) =
    let (v, e', h) =
      update_top-Covers ledger top k new old_block size (reach-Covers size ledger top pos run) pos
        newer in
    subst (λ w. Covers (write_ledger ledger k new.amount) w.top) (some-injective v u (sym e' ∙ e)) h
reach-Covers size _ _ pos (closed ledger top k slot write_version run newer) =
    remove_top-Covers ledger top k slot write_version (reach-Covers size ledger top pos run) newer

-- Whatever live writes and closes a top of a reservoir with room has seen, each newer than what its
-- holder had, what is then served of it is a top of the ledger of all holders.
pub compute_top-Reaches :
    (size : ℕ) (ledger : ℕ → ℕ) (top : MintTop) (rows : List Row)
    → 0 < size
    → Reaches size ledger top
    → compute_top top ≡ sound rows
    → IsTop ledger rows
compute_top-Reaches size ledger top rows pos run e =
    compute_top-IsTop ledger top rows (reach-Covers size ledger top pos run) e
