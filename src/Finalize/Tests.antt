-- ===== src/Finalize/Tests.antt =====
-- The finalizer on three blocks.
use cloudbreak.Prelude.{ℕ, ◌≡◌, refl, String, false, List, [], ◌∷◌}
use cloudbreak.Finalize.{BlockEntry, FinalizerInner}
use cloudbreak.Finalize.Runs.{
  Event, records, notified, works, System, step, run, IsHeld, run-IsHeld,
}

abbrev entry : String → ℕ → String → BlockEntry Unit
entry hash parent_slot parent_hash = record {
  accounts = tt;
  blockhash = hash;
  parent_slot = parent_slot;
  parent_blockhash = parent_hash;
}

-- Slot 6 builds on 4, whose notification was missed; 3 is of another fork.
abbrev three : FinalizerInner Unit
three = record {
  blocks = (3, entry "x" 2 "b") ∷ (4, entry "d" 3 "c") ∷ (6, entry "f" 4 "d") ∷ [];
  pending = (6, tt) ∷ [];
  paused = false;
  gap_unhealthy = false;
}

abbrev at_rest : System Unit
at_rest = record { inner = three; finalized = [] }

abbrev later : List (Event Unit)
later = notified 7 ∷ works ∷ works ∷ []

run-IsHeld_example :
    IsHeld 7
      (entry "g" 6 "f")
      (run tt 100 (step tt 100 at_rest (records 7 (entry "g" 6 "f"))) later).inner.blocks
      (run tt 100 (step tt 100 at_rest (records 7 (entry "g" 6 "f"))) later).finalized
run-IsHeld_example = run-IsHeld tt 100 at_rest later 7 (entry "g" 6 "f") (tt, (tt, (tt, tt)))

-- Slots 4 and 6 were finalized, and then 7.
finalizes :
    (run tt 100 (step tt 100 at_rest (records 7 (entry "g" 6 "f"))) later).finalized
    ≡ (7, entry "g" 6 "f") ∷ (4, entry "d" 3 "c") ∷ (6, entry "f" 4 "d") ∷ []
unfolding run step
finalizes = refl
