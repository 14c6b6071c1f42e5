-- ===== src/Healing/Resume.antt =====
-- When finalization is paused.
use cloudbreak.Prelude.{
  ℕ, ◌≡◌, refl, inl, inr, ◌⊎◌, String, Bool, true, false, not, Option, none, some, List, [], ◌∷◌,
  arith, ltb, leb, ◌==◌, if◌then◌else◌, keep, Bool-cases,
}
use cloudbreak.OrdMap.{OrdMap, remove}
use cloudbreak.Finalize.{BlockEntry, record_block, enqueue_unbounded, pause, resume}
use cloudbreak.Healing.{
  SelfHealingState, is_empty, remove_slot_from_gaps_list, open_gap, opens_gap, check_slot_gap,
  repair, remove_slots, enqueue_boundaries, Fill, Task, waits, filling, resuming, empty_slots,
  start_iteration, end_iteration, resume_all,
}
use cloudbreak.Healing.Runs.{
  Event, block, look, repairs, ends, resumes, System, looked, repaired_in, ended_in, resumed_in,
  step, run,
}

is_empty-keep : (p : ℕ → Bool) (xs : List ℕ) → is_empty xs ≡ true → is_empty (keep p xs) ≡ true
is_empty-keep p [] e = refl
is_empty-keep p (x ∷ xs) e = absurd (ground (arith, e))

-- While gaps wait for repair finalization is paused, and none wait when the task is about to resume it.
pub record IsPaused {A : Type 0} (s : SelfHealingState A) (task : Task) : Type 0 where
  pub paused : (is_empty s.gaps_list ≡ true) ⊎ (s.finalizer.paused ≡ true)
  pub done : (told : Bool) → task ≡ resuming told → is_empty s.gaps_list ≡ true

if_empty :
    (b : Bool) (told : Bool) (other : Task)
    → ((told' : Bool) → ¬ (other ≡ resuming told'))
    → (told' : Bool) → (if b then resuming told else other) ≡ resuming told'
    → b ≡ true
if_empty true told other differs told' e = refl
if_empty false told other differs told' e = absurd (differs told' e)

not_resuming : (told : Bool) → ¬ (waits ≡ resuming told)
not_resuming told e = absurd (ground (arith, e))

filling_not_resuming :
    (b : Bool) (fill : Fill) (told : Bool) → ¬ ((if b then waits else filling fill) ≡ resuming told)
filling_not_resuming true fill told e = absurd (ground (arith, e))
filling_not_resuming false fill told e = absurd (ground (arith, e))

module _ {A : Type 0} where
  without-IsPaused :
      (s : SelfHealingState A) (task : Task) (slot : ℕ)
      → IsPaused s task
      → IsPaused (remove_slot_from_gaps_list s slot) task
  unfolding remove_slot_from_gaps_list
  without-IsPaused s task slot h = record {
    paused = elim h.paused [
      | inl none_wait ↦ inl (is_empty-keep (λ g. not (g == slot)) s.gaps_list none_wait)
      | inr stopped ↦ inr stopped
    ];
    done = λ told e. is_empty-keep (λ g. not (g == slot)) s.gaps_list (h.done told e);
  }

  remove_slots-IsPaused :
      (s : SelfHealingState A) (task : Task) (slots : List ℕ)
      → IsPaused s task
      → IsPaused (remove_slots s slots) task
  unfolding remove_slots
  remove_slots-IsPaused s task [] h = h
  remove_slots-IsPaused s task (slot ∷ slots) h =
      remove_slots-IsPaused (remove_slot_from_gaps_list s slot) task slots
        (without-IsPaused s task slot h)

  enqueue_boundaries-IsPaused :
      (boundaries : OrdMap (Unit {0})) (s : SelfHealingState A) (task : Task)
      → IsPaused s task
      → IsPaused (enqueue_boundaries s boundaries) task
  unfolding enqueue_boundaries enqueue_unbounded
  enqueue_boundaries-IsPaused [] s task h = h
  enqueue_boundaries-IsPaused ((slot, u) ∷ boundaries) s task h =
      enqueue_boundaries-IsPaused boundaries
        (record s {
          finalizer = enqueue_unbounded s.finalizer slot;
          gap_boundaries = remove slot s.gap_boundaries;
        })
        task (record { paused = h.paused; done = h.done })

  -- A task that is not about to resume needs no empty list.
  retask :
      (s : SelfHealingState A) (old new : Task)
      → ((told : Bool) → new ≡ resuming told → is_empty s.gaps_list ≡ true)
      → IsPaused s old
      → IsPaused s new
  retask s old new done h = record { paused = h.paused; done = done }

  -- No block opens a gap between the task's look at an empty list and its resuming.
  abbrev pub Undisturbed : System A → Event A → Type 0
  Undisturbed sys (block slot hash parent_slot parent_hash) =
      (told : Bool)
      → sys.task ≡ resuming told
      → opens_gap sys.healing slot parent_slot parent_hash ≡ false
  Undisturbed sys _ = Unit

  block-IsPaused :
      (sys : System A) (slot : ℕ) (hash : String) (parent_slot : ℕ) (parent_hash : String)
      → ((told : Bool)
          → sys.task ≡ resuming told
          → opens_gap sys.healing slot parent_slot parent_hash ≡ false)
      → IsPaused sys.healing sys.task
      → IsPaused (check_slot_gap sys.healing slot hash parent_slot parent_hash) sys.task
  unfolding check_slot_gap open_gap pause
  block-IsPaused sys slot hash parent_slot parent_hash calm h =
      let s = sys.healing in
      elim (Bool-cases (leb slot s.last_slot_received)) [
        | inl late ↦ simp (late) (without-IsPaused s sys.task slot h)
        | inr newer ↦ elim (Bool-cases (opens_gap s slot parent_slot parent_hash)) [
          | inl opens ↦
              simp (newer, opens)
                (record {
                  paused = inr refl;
                  done = λ told e. absurd (ground (arith, opens, calm told e));
                })
          | inr builds ↦ simp (newer, builds) (record { paused = h.paused; done = h.done })
        ]
      ]

  start_iteration-done :
      (s : SelfHealingState A) (base : Option ℕ) (told : Bool)
      → start_iteration s base ≡ resuming told
      → is_empty s.gaps_list ≡ true
  unfolding start_iteration
  start_iteration-done s none told e =
      if_empty (is_empty s.gaps_list) false waits not_resuming told e
  start_iteration-done s (some base_slot) told e =
      let covered = keep (λ slot. ltb base_slot slot) s.gaps_list in
      let fill : Fill = record {
        covered = covered;
        boundaries = s.gap_boundaries;
        repaired = [];
      } in
      if_empty (is_empty s.gaps_list) false (if is_empty covered then waits else filling fill)
        (filling_not_resuming (is_empty covered) fill) told e

  looked-IsPaused :
      (sys : System A) (base : Option ℕ) (task : Task)
      → task ≡ sys.task
      → IsPaused sys.healing sys.task
      → IsPaused (looked sys base task).healing (looked sys base task).task
  unfolding looked
  looked-IsPaused sys base waits at h =
      retask sys.healing sys.task (start_iteration sys.healing base)
        (start_iteration-done sys.healing base) h
  looked-IsPaused sys base (filling fill) at h = h
  looked-IsPaused sys base (resuming told) at h = h

  repaired_in-IsPaused :
      (sys : System A) (slot : ℕ) (entry : BlockEntry A) (task : Task)
      → IsPaused sys.healing sys.task
      → IsPaused (repaired_in sys slot entry task).healing (repaired_in sys slot entry task).task
  unfolding repaired_in repair record_block enqueue_unbounded
  repaired_in-IsPaused sys slot entry waits h = h
  repaired_in-IsPaused sys slot entry (filling fill) h =
      let s = record sys.healing {
        finalizer = enqueue_unbounded (record_block sys.healing.finalizer slot entry) slot;
      } in
      without-IsPaused s (filling (record fill { repaired = slot ∷ fill.repaired })) slot
        (record { paused = h.paused; done = λ told e. absurd (ground (arith, e)) })
  repaired_in-IsPaused sys slot entry (resuming told) h = h

  ended_in-IsPaused :
      (sys : System A) (task : Task)
      → IsPaused sys.healing sys.task
      → IsPaused (ended_in sys task).healing (ended_in sys task).task
  unfolding ended_in end_iteration
  ended_in-IsPaused sys waits h = h
  ended_in-IsPaused sys (filling fill) h =
      let removed = remove_slots sys.healing (empty_slots fill) in
      let s = enqueue_boundaries removed fill.boundaries in
      retask s sys.task (if is_empty s.gaps_list then resuming true else waits)
        (if_empty (is_empty s.gaps_list) true waits not_resuming)
        (enqueue_boundaries-IsPaused fill.boundaries removed sys.task
          (remove_slots-IsPaused sys.healing sys.task (empty_slots fill) h))
  ended_in-IsPaused sys (resuming told) h = h

  resumed_in-IsPaused :
      (sys : System A) (task : Task)
      → sys.task ≡ task
      → IsPaused sys.healing sys.task
      → IsPaused (resumed_in sys task).healing (resumed_in sys task).task
  unfolding resumed_in resume_all resume
  resumed_in-IsPaused sys waits at h = h
  resumed_in-IsPaused sys (filling fill) at h = h
  resumed_in-IsPaused sys (resuming told) at h = record {
    paused = inl (h.done told at);
    done = λ told' e. absurd (ground (arith, e));
  }

  step-IsPaused :
      (sys : System A) (e : Event A)
      → Undisturbed sys e
      → IsPaused sys.healing sys.task
      → IsPaused (step sys e).healing (step sys e).task
  unfolding step
  step-IsPaused sys (block slot hash parent_slot parent_hash) calm h =
      block-IsPaused sys slot hash parent_slot parent_hash calm h
  step-IsPaused sys (look base) calm h = looked-IsPaused sys base sys.task refl h
  step-IsPaused sys (repairs slot entry) calm h = repaired_in-IsPaused sys slot entry sys.task h
  step-IsPaused sys ends calm h = ended_in-IsPaused sys sys.task h
  step-IsPaused sys resumes calm h = resumed_in-IsPaused sys sys.task refl h

  abbrev pub AllUndisturbed : System A → List (Event A) → Type 0
  AllUndisturbed sys [] = Unit
  AllUndisturbed sys (e ∷ events) = Undisturbed sys e × AllUndisturbed (step sys e) events

  -- Over any steps in which no block opens a gap between the task's look at an empty list and its
  -- resuming, finalization stays paused while any gap waits for repair.
  pub run-IsPaused :
      (sys : System A) (events : List (Event A))
      → AllUndisturbed sys events
      → IsPaused sys.healing sys.task
      → IsPaused (run sys events).healing (run sys events).task
  unfolding run
  run-IsPaused sys [] calm h = h
  run-IsPaused sys (e ∷ events) calm h =
      run-IsPaused (step sys e) events calm.1 (step-IsPaused sys e calm.0 h)
