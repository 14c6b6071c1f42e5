-- ===== src/Healing/Races.antt =====
-- Blocks that come while the task of the repair is about to resume, or before it looks.
use cloudbreak.Prelude.{
  ℕ, ◌+◌, ◌-◌, ◌≤◌, ◌<◌, ◌≡◌, refl, String, Bool, true, false, Option, none, some, [], ◌∷◌, arith,
  leb, ==_refl, contains,
}
use cloudbreak.Prelude.Word.{u64_mod, add64}
use cloudbreak.Finalize.{resume}
use cloudbreak.Healing.{
  SelfHealingState, slots_from, is_empty, remove_slot_from_gaps_list, open_gap, opens_gap,
  check_slot_gap, Task, waits, resuming, start_iteration, resume_all,
}
use cloudbreak.Healing.Runs.{block, look, resumes, System, begins, resumed_in, step, run}
use cloudbreak.Healing.Slots.{contains-append, contains-slots_from}

module _ {A : Type 0} where
  opens_gap-lt :
      (s : SelfHealingState A) (slot parent_slot : ℕ) (parent_hash : String)
      → opens_gap s slot parent_slot parent_hash ≡ true
      → add64 s.last_slot_received 1 < slot
  unfolding opens_gap
  opens_gap-lt s slot parent_slot parent_hash e = ground (arith, e)

  start_iteration_empty :
      (s : SelfHealingState A) (base : Option ℕ)
      → is_empty s.gaps_list ≡ true
      → start_iteration s base ≡ resuming false
  unfolding start_iteration
  start_iteration_empty s none e = rw (e) refl
  start_iteration_empty s (some base_slot) e = rw (e) refl

  -- The state with its task and no slot settled yet.
  abbrev pub at_task : SelfHealingState A → Task → System A
  at_task s task = record { healing = s; task = task; snapshot = begins none []; settled = [] }

  -- A block that opens a gap after the task looked at the empty list and before it resumes: the task then
  -- resumes finalization over the open gap.
  pub resumes_over_gap :
      (s : SelfHealingState A) (told : Bool) (slot : ℕ) (hash : String) (parent_slot : ℕ)
      (parent_hash : String)
      → s.last_slot_received < slot
      → slot < u64_mod
      → opens_gap s slot parent_slot parent_hash ≡ true
      → ((run
            (at_task s (resuming told))
            (block slot hash parent_slot parent_hash ∷ resumes ∷ [])).healing.finalizer.paused
          ≡ false)
        × (contains
              (run
                (at_task s (resuming told))
                (block slot hash parent_slot parent_hash ∷ resumes ∷ [])).healing.gaps_list
              (s.last_slot_received + 1)
            ≡ true)
  unfolding run step resumed_in resume_all resume check_slot_gap open_gap
  resumes_over_gap s told slot hash parent_slot parent_hash up small opens =
      let newer : leb slot s.last_slot_received ≡ false = ground (arith, up) in
      let next = s.last_slot_received + 1 in
      let first = add64 s.last_slot_received 1 in
      let exact : first ≡ next = omega (arith, up, small) in
      (
        refl,
        simp (newer, opens)
            (ground (
              arith,
              exact,
              opens_gap-lt s slot parent_slot parent_hash opens,
              contains-append s.gaps_list (slots_from first (slot - first)) next,
              contains-slots_from first (slot - first) next,
            )),
      )

  -- A late block that fills the only gap, with the task at its start: the task then resumes finalization
  -- and leaves the supply tracker as it was, so one that was filling the gap still is.
  pub late_block-gap_filling :
      (s : SelfHealingState A) (slot : ℕ) (hash : String) (parent_slot : ℕ) (parent_hash : String)
      (base : Option ℕ)
      → s.gaps_list ≡ slot ∷ []
      → slot ≤ s.last_slot_received
      → ((run (at_task s waits) (
            block slot hash parent_slot parent_hash
            ∷ look base
            ∷ resumes
            ∷ [])).healing.finalizer.paused
          ≡ false)
        × ((run (at_task s waits) (
              block slot hash parent_slot parent_hash
              ∷ look base
              ∷ resumes
              ∷ [])).healing.supply_tracker
            ≡ s.supply_tracker)
  unfolding run step check_slot_gap
  late_block-gap_filling s slot hash parent_slot parent_hash base one late =
      let old : leb slot s.last_slot_received ≡ true = ground (arith, late) in
      let filled : is_empty (remove_slot_from_gaps_list s slot).gaps_list ≡ true =
        unfold remove_slot_from_gaps_list in simp (one, ==_refl slot) refl in
      simp (old, start_iteration_empty (remove_slot_from_gaps_list s slot) base filled)
        (unfold resumed_in resume_all resume remove_slot_from_gaps_list in (refl, refl))
