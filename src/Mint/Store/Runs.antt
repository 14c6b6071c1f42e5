-- ===== src/Mint/Store/Runs.antt =====
-- What a client can read of a mint store over any sequence of writes.
use cloudbreak.Prelude.{
  ℕ, ◌≤◌, ◌<◌, ◌≡◌, refl, ap, ◌∙◌, false, Option, List, [], ◌∷◌, arith, ltb, ◌==◌, ==_refl,
  if◌then◌else◌, fun_ext,
}
use cloudbreak.OrdMap.{get}
use cloudbreak.Mint.{MintState, MintChange, live, state_eq, state_eq_refl}
use cloudbreak.Mint.Store.{
  MutableMint, StoredMint, mutable, missing, MintStore, presized, stored, apply, apply_row,
}
use cloudbreak.Mint.Store.View.{
  IsSplit, change_step, row_step, live_step, apply-Refines, apply_row-Refines, presized-IsSplit,
}

pub data Op : Type 0 where
  change : ℕ → ℕ → MintChange → Op
  row : ℕ → ℕ → Option MintState → Op

unfoldable pub run : List Op → MintStore → MintStore
unfolding apply apply_row
run [] s = s
run (change k slot c ∷ ops) s = run ops (apply s k slot c).0
run (row k slot state ∷ ops) s = run ops (apply_row s k slot state).0

-- The function with one value changed.
abbrev pub set : (ℕ → StoredMint) → ℕ → StoredMint → ℕ → StoredMint
set f k v q = if k == q then v else f q

-- The same writes on a function from keys to states.
unfoldable pub replay : List Op → (ℕ → StoredMint) → ℕ → StoredMint
unfolding change_step row_step
replay [] f = f
replay (change k slot c ∷ ops) f = replay ops (set f k (change_step (f k) slot c).0)
replay (row k slot state ∷ ops) f = replay ops (set f k (row_step (f k) slot state).0)

-- From a store whose maps are apart any run keeps them apart and reads as the replay.
run_refines :
    (ops : List Op) (s : MintStore)
    → IsSplit s
    → IsSplit (run ops s) × (stored (run ops s) ≡ replay ops (stored s))
unfolding run replay
run_refines [] s h = (h, refl)
run_refines (change k slot c ∷ ops) s h =
    let r = apply-Refines s k slot h c in
    let (split, reads) = run_refines ops (apply s k slot c).0 r.split in
    (split, reads ∙ ap (replay ops) (fun_ext r.reads))
run_refines (row k slot state ∷ ops) s h =
    let r = apply_row-Refines s k slot h state in
    let (split, reads) = run_refines ops (apply_row s k slot state).0 r.split in
    (split, reads ∙ ap (replay ops) (fun_ext r.reads))

-- Whatever block writes and table rows a store has taken, in any order, it reads at every key as the
-- steps of that key from a missing mint.
pub run-presized_refines : (ops : List Op) → stored (run ops presized) ≡ replay ops (λ k. missing)
unfolding stored presized get
run-presized_refines ops =
    (run_refines ops presized presized-IsSplit).1 ∙ ap (replay ops) (fun_ext (λ k. refl))

-- A mutable mint takes an older write after a newer one, when the newer one repeated its state: the
-- slot of a repeated state is not kept.
pub apply_older :
    (s : MintStore) (k : ℕ) (entry : MutableMint) (older newer : ℕ) (state : MintState)
    → IsSplit s
    → stored s k ≡ mutable entry
    → entry.slot ≤ older
    → older < newer
    → state.immutable ≡ false
    → state_eq entry.state state ≡ false
    → stored (apply (apply s k newer (live entry.state)).0 k older (live state)).0 k
      ≡ mutable (record { slot = older; state = state })
unfolding change_step live_step
apply_older s k entry older newer state h at first last fixed differs =
    let again = apply-Refines s k newer h (live entry.state) in
    let then_older =
      apply-Refines (apply s k newer (live entry.state)).0 k older again.split (live state) in
    let late : ltb newer entry.slot ≡ false = ground (arith, first, last) in
    let kept : stored (apply s k newer (live entry.state)).0 k ≡ mutable entry =
      again.reads k ∙ rw (==_refl k, at, late, state_eq_refl entry.state) refl in
    let on_time : ltb older entry.slot ≡ false = ground (arith, first) in
    then_older.reads k ∙ rw (==_refl k, kept, on_time, differs, fixed) refl
