-- ===== src/Healing/Tests.antt =====
-- Gaps in short streams of blocks.
use cloudbreak.Prelude.{
  ℕ, ◌+◌, ◌≡◌, refl, inr, Bool, true, false, none, some, List, [], ◌∷◌, arith, All, contains,
}
use cloudbreak.Supply.Tracker.{SupplyState, new}
use cloudbreak.Finalize.{BlockEntry}
use cloudbreak.Healing.{SelfHealingState, waits, resuming, opens_gap}
use cloudbreak.Healing.Runs.{
  Event, block, look, repairs, ends, resumes, System, begins, run, InRange, IsAccounted,
  run-IsAccounted,
}
use cloudbreak.Healing.Resume.{IsPaused, run-IsPaused}
use cloudbreak.Healing.Races.{at_task, resumes_over_gap, late_block-gap_filling}

abbrev supply : SupplyState
unfolding new
supply = new 10 10

abbrev with_gaps : List ℕ → Bool → SelfHealingState Unit
with_gaps gaps paused = record {
  last_slot_received = 9;
  last_blockhash_received = "i";
  gaps_list = gaps;
  gap_boundaries = [];
  finalizer = record { blocks = []; pending = []; paused = paused; gap_unhealthy = paused };
  supply_tracker = supply;
}

abbrev fresh : System Unit
fresh = record {
  healing = record (with_gaps [] false) { last_slot_received = 0 };
  task = waits;
  snapshot = begins none [];
  settled = [];
}

abbrev no_chain : BlockEntry Unit
no_chain = record { accounts = tt; blockhash = ""; parent_slot = 0; parent_blockhash = "" }

-- Slots 6 to 8 are missing: 7 is repaired, 8 comes late, and 6 has nothing in the snapshot.
abbrev events : List (Event Unit)
events =
    block 5 "e" 4 "d"
    ∷ block 9 "i" 8 "h"
    ∷ look (some 2)
    ∷ repairs 7 no_chain
    ∷ block 8 "h" 7 "g"
    ∷ ends
    ∷ resumes
    ∷ []

events-InRange : All InRange events
events-InRange = (omega arith, (omega arith, (tt, (tt, (omega arith, (tt, (tt, tt)))))))

fresh-IsAccounted : IsAccounted fresh
fresh-IsAccounted q pos le = absurd (omega (arith, pos, le))

run-IsAccounted_example : IsAccounted (run fresh events)
run-IsAccounted_example = run-IsAccounted fresh events events-InRange tt fresh-IsAccounted

abbrev two_gaps : System Unit
two_gaps = at_task (with_gaps (6 ∷ 8 ∷ []) true) waits

two_gaps-IsPaused : IsPaused two_gaps.healing two_gaps.task
two_gaps-IsPaused = record { paused = inr refl; done = λ told e. absurd (ground (arith, e)) }

run-IsPaused_example :
    IsPaused
      (run two_gaps (look (some 7) ∷ repairs 8 no_chain ∷ ends ∷ [])).healing
      (run two_gaps (look (some 7) ∷ repairs 8 no_chain ∷ ends ∷ [])).task
run-IsPaused_example =
    run-IsPaused two_gaps (look (some 7) ∷ repairs 8 no_chain ∷ ends ∷ []) (tt, (tt, (tt, tt)))
      two_gaps-IsPaused

opens_12 : opens_gap (with_gaps [] false) 12 11 "k" ≡ true
unfolding opens_gap
opens_12 = refl

resumes_over_gap_example :
    ((run
        (at_task (with_gaps [] false) (resuming true))
        (block 12 "l" 11 "k" ∷ resumes ∷ [])).healing.finalizer.paused
      ≡ false)
    × (contains
          (run
            (at_task (with_gaps [] false) (resuming true))
            (block 12 "l" 11 "k" ∷ resumes ∷ [])).healing.gaps_list
          (9 + 1)
        ≡ true)
resumes_over_gap_example =
    resumes_over_gap (with_gaps [] false) true 12 "l" 11 "k" (omega arith) (omega arith) opens_12

late_block-gap_filling_example :
    ((run
        (at_task (with_gaps (8 ∷ []) true) waits)
        (block 8 "h" 7 "g" ∷ look none ∷ resumes ∷ [])).healing.finalizer.paused
      ≡ false)
    × ((run
          (at_task (with_gaps (8 ∷ []) true) waits)
          (block 8 "h" 7 "g" ∷ look none ∷ resumes ∷ [])).healing.supply_tracker
        ≡ supply)
late_block-gap_filling_example =
    late_block-gap_filling (with_gaps (8 ∷ []) true) 8 "h" 7 "g" none refl (omega arith)

-- The run of the events leaves no gap, and the task at rest.
heals : (run fresh events).healing.gaps_list ≡ []
unfolding run
heals = refl
