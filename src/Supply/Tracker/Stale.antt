-- ===== src/Supply/Tracker/Stale.antt =====
-- A stale tracker stays stale until the process restarts.
use cloudbreak.Prelude.{
  ℕ, ◌≡◌, refl, ◌∙◌, true, false, Bool, Bool-cases, inl, inr, Option, none, some, List, [], ◌∷◌,
  leb,
}
use cloudbreak.Prelude.Int.{ℤ}
use cloudbreak.OrdMap.{OrdMap}
use cloudbreak.Supply.Cache.{PrevRow, pin_failed}
use cloudbreak.Supply.Tracker.{
  Pending, StakeBlock, SupplyState, SupplyStatus, SupplyCommit, BlockOutcome, idle, read_failed,
  changed, set_startup_total, mark_bootstrap_failed, finish_bootstrap, mark_gap, finish_gap,
  mark_stale, apply_block, probe_block, resolve, finish_block, commit_block, commit_counted,
  pin_block,
}

-- The operations of the tracker, with what the database answers.
pub data Op : Type 0 where
  startup_total : ℕ → ℕ → Op
  bootstrap_failed : Op
  bootstrap_done : OrdMap ℕ → Option ℕ → Op
  gap gap_done stale : Op
  block : ℕ → Bool → List Pending → StakeBlock → Option (ℕ → PrevRow) → Option (ℕ → PrevRow) → Op
  block_done : ℕ → BlockOutcome → Bool → Option ℕ → Op

module _ (stake_program : ℕ) where
  -- The state after an operation, and what it commits.
  unfoldable pub step : SupplyState → Op → SupplyState × Option SupplyCommit
  unfolding set_startup_total mark_bootstrap_failed finish_bootstrap mark_gap finish_gap mark_stale
      apply_block finish_block
  step s (startup_total slot capitalization) = (set_startup_total s slot capitalization, none)
  step s bootstrap_failed = ((mark_bootstrap_failed s).0, none)
  step s (bootstrap_done balances non_circulating) = finish_bootstrap s balances non_circulating
  step s gap = ((mark_gap s).0, none)
  step s gap_done = (finish_gap s, none)
  step s stale = ((mark_stale s).0, none)
  step s (block slot is_repaired pending stake first second) =
      ((apply_block stake_program s slot is_repaired pending stake first second).0, none)
  step s (block_done slot outcome writes_ok non_circulating) =
      finish_block s slot outcome writes_ok non_circulating

  -- The state after the operations, and whether any of them committed.
  unfoldable pub run : SupplyState → List Op → SupplyState × List SupplyCommit
  unfolding step
  run s [] = (s, [])
  run s (o ∷ ops) =
      let (s', c) = step s o in
      let (end, commits) = run s' ops in
      (end, elim c [ none ↦ commits | some commit ↦ commit ∷ commits ])

-- Stale, with the total that is not served any more.
abbrev pub Rests : ℕ → SupplyState × Option SupplyCommit → Type 0
Rests total r = (r.0.status ≡ SupplyStatus.stale) × (r.0.total ≡ total) × (r.1 ≡ none)

commit_block-Rests :
    (s : SupplyState) (slot : ℕ) (delta : ℤ) (n : Option ℕ)
    → s.status ≡ SupplyStatus.stale
    → Rests s.total (commit_block s slot delta n)
unfolding commit_block commit_counted
commit_block-Rests s slot delta n h = elim (Bool-cases (leb slot s.startup_slot)) [
  | inl early ↦ rw (early) (h, refl, refl)
  | inr late ↦ rw (late) (simp (h, commit_counted) (refl, refl, refl))
]

probe_block-idle :
    (p : ℕ) (s : SupplyState) (slot : ℕ) (r : Bool) (pending : List Pending) (stake : StakeBlock)
    → s.status ≡ SupplyStatus.stale
    → probe_block p s slot r pending stake ≡ (s, idle, [])
unfolding probe_block
probe_block-idle p s slot r pending stake h = simp (h, probe_block) refl

mark_stale-Rests :
    (s : SupplyState) → s.status ≡ SupplyStatus.stale → Rests s.total ((mark_stale s).0, none)
unfolding mark_stale
mark_stale-Rests s h = simp (h, mark_stale) (refl, refl, refl)

finish_block-Rests :
    (s : SupplyState) (slot : ℕ) (outcome : BlockOutcome) (ok : Bool) (n : Option ℕ)
    → s.status ≡ SupplyStatus.stale
    → Rests s.total (finish_block s slot outcome ok n)
unfolding finish_block pin_block mark_bootstrap_failed
finish_block-Rests s slot idle ok n h = (h, refl, refl)
finish_block-Rests s slot read_failed ok n h = (h, refl, refl)
finish_block-Rests s slot BlockOutcome.bootstrapping true n h = (h, refl, refl)
finish_block-Rests s slot BlockOutcome.bootstrapping false n h =
    simp (h, mark_bootstrap_failed) (refl, refl, refl)
finish_block-Rests s slot (changed delta touched) true n h = commit_block-Rests s slot delta n h
finish_block-Rests s slot (changed delta touched) false n h =
    let (cache, pinned) = pin_failed s.cache touched in
    let s' = record s { cache = cache } in
    elim (Bool-cases pinned) [
      | inl fits ↦ rw (fits) (commit_block-Rests s' slot delta n h)
      | inr full ↦ rw (full) (mark_stale-Rests s' h)
    ]

step-Rests :
    (stake_program : ℕ) (s : SupplyState) (o : Op)
    → s.status ≡ SupplyStatus.stale
    → Rests s.total (step stake_program s o)
unfolding step set_startup_total mark_bootstrap_failed finish_bootstrap mark_gap finish_gap
    mark_stale apply_block finish_block resolve
step-Rests p s (startup_total slot c) h = simp (h, set_startup_total) (refl, refl, refl)
step-Rests p s bootstrap_failed h = simp (h, mark_bootstrap_failed) (refl, refl, refl)
step-Rests p s (bootstrap_done balances n) h = simp (h, finish_bootstrap) (refl, refl, refl)
step-Rests p s gap h = simp (h, mark_gap) (refl, refl, refl)
step-Rests p s gap_done h = simp (h, finish_gap) (refl, refl, refl)
step-Rests p s stale h = simp (h, mark_stale) (refl, refl, refl)
step-Rests p s (block slot r pending stake first second) h =
    rw (probe_block-idle p s slot r pending stake h) (h, refl, refl)
step-Rests p s (block_done slot outcome ok n) h = finish_block-Rests s slot outcome ok n h

-- From a stale tracker no sequence of its operations, the sweep aside, commits a total, changes it, or
-- ends the staleness.
pub run-Rests :
    (stake_program : ℕ) (s : SupplyState) (ops : List Op)
    → s.status ≡ SupplyStatus.stale
    → ((run stake_program s ops).0.status ≡ SupplyStatus.stale)
      × ((run stake_program s ops).0.total ≡ s.total)
      × ((run stake_program s ops).1 ≡ [])
unfolding run
run-Rests p s [] h = (h, refl, refl)
run-Rests p s (o ∷ ops) h =
    let (rests, same, quiet) = step-Rests p s o h in
    let (end, total, none_later) = run-Rests p (step p s o).0 ops rests in
    rw (quiet, run) (end, total ∙ same, none_later)
