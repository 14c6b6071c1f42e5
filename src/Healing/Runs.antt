-- ===== src/Healing/Runs.antt =====
-- The stream of blocks and the repairs together, and what became of each slot.
use cloudbreak.Prelude.{
  ℕ, ◌+◌, ◌-◌, ◌≤◌, ◌<◌, ◌≡◌, str_eq, Bool, true, false, refl, inl, inr, String, true, not, ◌&&◌,
  ◌||◌, Option, none, some, sym, ap, ◌∙◌, keep, contains, ltb, List, [], ◌∷◌, ◌++◌, arith, leb,
  ◌==◌, if◌then◌else◌, All, Bool-cases,
}
use mathlib.Core.Path.{subst}
use cloudbreak.Prelude.Word.{u64_mod, add64}
use cloudbreak.OrdMap.{OrdMap, remove}
use cloudbreak.Finalize.{BlockEntry, enqueue_unbounded}
use cloudbreak.Healing.{
  Fill, is_empty, SelfHealingState, slots_from, remove_slot_from_gaps_list, open_gap,
  builds_on_last, opens_gap, check_slot_gap, repair, remove_slots, enqueue_boundaries, Task, waits,
  filling, resuming, empty_slots, start_iteration, end_iteration, resume_all,
}
use cloudbreak.Healing.Slots.{
  contains-append, Accounted, without-Accounted, opened-Accounted, next-Accounted, passed-Accounted,
}

-- A repaired block, the end of a snapshot and the calls that resume come while the task is there.
pub data Event (A : Type 0) : Type 0 where
  block : ℕ → String → ℕ → String → Event A
  look : Option ℕ → Event A
  repairs : ℕ → BlockEntry A → Event A
  ends resumes : Event A

-- What is known of the snapshot that is processed: its base slot, the gaps when it began, and the slots that
-- it repaired.
pub record Snapshot : Type 0 where
  pub base : ℕ
  pub listed : List ℕ
  pub repaired : List ℕ

abbrev pub begins : Option ℕ → List ℕ → Snapshot
begins none listed = record { base = 0; listed = []; repaired = [] }
begins (some base) listed = record { base = base; listed = listed; repaired = [] }

-- The gaps above the base slot of which the snapshot has no block.
abbrev pub empty_in : Snapshot → List ℕ
empty_in n = keep (λ q. ltb n.base q && not (contains n.repaired q)) n.listed

-- `settled` are the slots received, repaired, found empty in a snapshot, or passed over by the first block
-- or by one whose parent is the last one received.
pub record System (A : Type 0) : Type 0 where
  pub healing : SelfHealingState A
  pub task : Task
  pub snapshot : Snapshot
  pub settled : List ℕ

module _ {A : Type 0} where
  -- Nothing is missing below the block: it is the first one, or its parent is the last one received.
  unfoldable pub passes : SelfHealingState A → ℕ → String → Bool
  passes s parent_slot parent_blockhash =
      s.last_slot_received == 0
      || parent_slot == s.last_slot_received && str_eq s.last_blockhash_received parent_blockhash

  -- The slots that a block settles.
  unfoldable pub settles : SelfHealingState A → ℕ → ℕ → String → List ℕ
  unfolding passes
  settles s slot parent_slot parent_blockhash =
      slot
      ∷ (if not (leb slot s.last_slot_received) && passes s parent_slot parent_blockhash
          then slots_from (s.last_slot_received + 1) (slot - (s.last_slot_received + 1))
          else [])

  unfoldable pub looked : System A → Option ℕ → Task → System A
  unfolding start_iteration
  looked sys base waits = record sys {
    task = start_iteration sys.healing base;
    snapshot = begins base sys.healing.gaps_list;
  }
  looked sys base (filling fill) = sys
  looked sys base (resuming told) = sys

  unfoldable pub repaired_in : System A → ℕ → BlockEntry A → Task → System A
  unfolding repair
  repaired_in sys slot entry waits = sys
  repaired_in sys slot entry (filling fill) = record {
    healing = repair sys.healing slot entry;
    task = filling (record fill { repaired = slot ∷ fill.repaired });
    snapshot = record sys.snapshot { repaired = slot ∷ sys.snapshot.repaired };
    settled = slot ∷ sys.settled;
  }
  repaired_in sys slot entry (resuming told) = sys

  unfoldable pub ended_in : System A → Task → System A
  unfolding end_iteration
  ended_in sys waits = sys
  ended_in sys (filling fill) =
      let (healing, task) = end_iteration sys.healing fill in
      record sys { healing = healing; task = task; settled = empty_in sys.snapshot ++ sys.settled }
  ended_in sys (resuming told) = sys

  unfoldable pub resumed_in : System A → Task → System A
  unfolding resume_all
  resumed_in sys waits = sys
  resumed_in sys (filling fill) = sys
  resumed_in sys (resuming told) = record sys {
    healing = resume_all sys.healing told;
    task = waits;
  }

  unfoldable pub step : System A → Event A → System A
  unfolding check_slot_gap settles looked repaired_in ended_in resumed_in
  step sys (block slot hash parent_slot parent_hash) = record sys {
    healing = check_slot_gap sys.healing slot hash parent_slot parent_hash;
    settled = settles sys.healing slot parent_slot parent_hash ++ sys.settled;
  }
  step sys (look base) = looked sys base sys.task
  step sys (repairs slot entry) = repaired_in sys slot entry sys.task
  step sys ends = ended_in sys sys.task
  step sys resumes = resumed_in sys sys.task

  unfoldable pub run : System A → List (Event A) → System A
  unfolding step
  run sys [] = sys
  run sys (e ∷ events) = run (step sys e) events

-- The repair task holds what the snapshot covers of the gaps.
abbrev pub Follows : Snapshot → Task → Type 0
Follows n waits = Unit
Follows n (filling fill) =
    (fill.covered ≡ keep (λ slot. ltb n.base slot) n.listed) × (fill.repaired ≡ n.repaired)
Follows n (resuming told) = Unit

keep-keep :
    (base : ℕ) (repaired listed : List ℕ)
    → keep (λ q. not (contains repaired q)) (keep (λ q. ltb base q) listed)
      ≡ keep (λ q. ltb base q && not (contains repaired q)) listed
keep-keep base repaired [] = refl
keep-keep base repaired (q ∷ listed) = ground (arith, keep-keep base repaired listed)

empty_slots-Follows :
    (n : Snapshot) (fill : Fill) → Follows n (filling fill) → empty_slots fill ≡ empty_in n
unfolding empty_slots
empty_slots-Follows n fill h =
    ap (λ c. keep (λ q. not (contains fill.repaired q)) c) h.0
    ∙ ap (λ r. keep (λ q. not (contains r q)) (keep (λ q. ltb n.base q) n.listed)) h.1
    ∙ keep-keep n.base n.repaired n.listed

if-Follows :
    (b : Bool) (n : Snapshot) (v w : Task)
    → Follows n v
    → Follows n w
    → Follows n (if b then v else w)
if-Follows true n v w hv hw = hv
if-Follows false n v w hv hw = hw

module _ {A : Type 0} where
  -- Every slot up to the last one received is accounted for.
  abbrev pub IsAccounted : System A → Type 0
  IsAccounted sys =
      (q : ℕ)
      → 0 < q
      → q ≤ sys.healing.last_slot_received
      → Accounted sys.healing.gaps_list sys.settled q

  remove_slots-Accounted :
      (s : SelfHealingState A) (slots settled : List ℕ) (q : ℕ)
      → Accounted s.gaps_list settled q
      → Accounted (remove_slots s slots).gaps_list (slots ++ settled) q
  unfolding remove_slots remove_slot_from_gaps_list
  remove_slots-Accounted s [] settled q h = h
  remove_slots-Accounted s (slot ∷ slots) settled q h =
      let once =
        remove_slots-Accounted (remove_slot_from_gaps_list s slot) slots (slot ∷ settled) q
          (without-Accounted slot s.gaps_list settled q h) in
      ground
        (arith, once, contains-append slots (slot ∷ settled) q, contains-append slots settled q)

  remove_slots-last :
      (s : SelfHealingState A) (slots : List ℕ)
      → (remove_slots s slots).last_slot_received ≡ s.last_slot_received
  unfolding remove_slots remove_slot_from_gaps_list
  remove_slots-last s [] = refl
  remove_slots-last s (slot ∷ slots) = remove_slots-last (remove_slot_from_gaps_list s slot) slots

  enqueue_boundaries-kept :
      (boundaries : OrdMap (Unit {0})) (s : SelfHealingState A)
      → ((enqueue_boundaries s boundaries).gaps_list ≡ s.gaps_list)
        × ((enqueue_boundaries s boundaries).last_slot_received ≡ s.last_slot_received)
  unfolding enqueue_boundaries
  enqueue_boundaries-kept [] s = (refl, refl)
  enqueue_boundaries-kept ((slot, u) ∷ boundaries) s =
      enqueue_boundaries-kept boundaries (record s {
        finalizer = enqueue_unbounded s.finalizer slot;
        gap_boundaries = remove slot s.gap_boundaries;
      })

  -- The slots of blocks are `u64` values.
  abbrev pub InRange : Event A → Type 0
  InRange (block slot hash parent_slot parent_hash) = slot < u64_mod
  InRange _ = Unit

  opens_gap-passes :
      (s : SelfHealingState A) (slot parent_slot : ℕ) (parent_hash : String)
      → opens_gap s slot parent_slot parent_hash ≡ true
      → passes s parent_slot parent_hash ≡ false
  unfolding opens_gap builds_on_last passes
  opens_gap-passes s slot parent_slot parent_hash e = ground (arith, e)

  opens_gap-next :
      (s : SelfHealingState A) (slot parent_slot : ℕ) (parent_hash : String)
      → opens_gap s slot parent_slot parent_hash ≡ false
      → passes s parent_slot parent_hash ≡ false
      → slot ≤ add64 s.last_slot_received 1
  unfolding opens_gap builds_on_last passes
  opens_gap-next s slot parent_slot parent_hash shut missing = ground (arith, shut, missing)

  block-IsAccounted :
      (sys : System A) (slot : ℕ) (hash : String) (parent_slot : ℕ) (parent_hash : String)
      → slot < u64_mod
      → IsAccounted sys
      → IsAccounted (step sys (block slot hash parent_slot parent_hash))
  unfolding step check_slot_gap settles open_gap remove_slot_from_gaps_list
  block-IsAccounted sys slot hash parent_slot parent_hash small h q pos =
      let s = sys.healing in
      let known = h q pos in
      let last = s.last_slot_received in
      elim (Bool-cases (leb slot s.last_slot_received)) [
        | inl late ↦ simp (late) (λ le. without-Accounted slot s.gaps_list sys.settled q (known le))
        | inr newer ↦
            let up : s.last_slot_received < slot = ground (arith, newer) in
            elim (Bool-cases (opens_gap s slot parent_slot parent_hash)) [
              | inl opens ↦
                  simp (newer, opens, opens_gap-passes s slot parent_slot parent_hash opens)
                    (λ le. opened-Accounted s.gaps_list sys.settled last slot q up small known le)
              | inr shut ↦ elim (Bool-cases (passes s parent_slot parent_hash)) [
                | inl below ↦
                    simp (newer, shut, below)
                      (λ le. passed-Accounted s.gaps_list sys.settled last slot q up known le)
                | inr other ↦
                    let next = opens_gap-next s slot parent_slot parent_hash shut other in
                    simp (newer, shut, other)
                      (λ le.
                        next-Accounted s.gaps_list sys.settled last slot q next up small known le)
              ]
            ]
      ]

  repaired_in-IsAccounted :
      (sys : System A) (slot : ℕ) (entry : BlockEntry A) (task : Task)
      → IsAccounted sys
      → IsAccounted (repaired_in sys slot entry task)
  unfolding repaired_in repair remove_slot_from_gaps_list
  repaired_in-IsAccounted sys slot entry waits h = h
  repaired_in-IsAccounted sys slot entry (filling fill) h =
      λ q pos le. without-Accounted slot sys.healing.gaps_list sys.settled q (h q pos le)
  repaired_in-IsAccounted sys slot entry (resuming told) h = h

  start_iteration-Follows :
      (s : SelfHealingState A) (base : Option ℕ)
      → Follows (begins base s.gaps_list) (start_iteration s base)
  unfolding start_iteration
  start_iteration-Follows s none =
      if-Follows (is_empty s.gaps_list) (begins none s.gaps_list) (resuming false) waits tt tt
  start_iteration-Follows s (some base) =
      let n = begins (some base) s.gaps_list in
      let covered = keep (λ slot. ltb base slot) s.gaps_list in
      let fill =
        filling (record { covered = covered; boundaries = s.gap_boundaries; repaired = [] }) in
      if-Follows (is_empty s.gaps_list) n (resuming false)
        (if is_empty covered then waits else fill) tt
        (if-Follows (is_empty covered) n waits fill tt (refl, refl))

  looked-Follows :
      (sys : System A) (base : Option ℕ) (task : Task)
      → sys.task ≡ task
      → Follows sys.snapshot task
      → Follows (looked sys base task).snapshot (looked sys base task).task
  unfolding looked
  looked-Follows sys base waits at h = start_iteration-Follows sys.healing base
  looked-Follows sys base (filling fill) at h = subst (Follows sys.snapshot) (sym at) h
  looked-Follows sys base (resuming told) at h = subst (Follows sys.snapshot) (sym at) tt

  repaired_in-Follows :
      (sys : System A) (slot : ℕ) (entry : BlockEntry A) (task : Task)
      → sys.task ≡ task
      → Follows sys.snapshot task
      → Follows (repaired_in sys slot entry task).snapshot (repaired_in sys slot entry task).task
  unfolding repaired_in
  repaired_in-Follows sys slot entry waits at h = subst (Follows sys.snapshot) (sym at) tt
  repaired_in-Follows sys slot entry (filling fill) at h = (h.0, ap (λ r. slot ∷ r) h.1)
  repaired_in-Follows sys slot entry (resuming told) at h = subst (Follows sys.snapshot) (sym at) tt

  ended_in-Follows :
      (sys : System A) (task : Task)
      → sys.task ≡ task
      → Follows (ended_in sys task).snapshot (ended_in sys task).task
  unfolding ended_in end_iteration
  ended_in-Follows sys waits at = subst (Follows sys.snapshot) (sym at) tt
  ended_in-Follows sys (filling fill) at =
      if-Follows (is_empty (end_iteration sys.healing fill).0.gaps_list) sys.snapshot
        (resuming true) waits tt tt
  ended_in-Follows sys (resuming told) at = subst (Follows sys.snapshot) (sym at) tt

  resumed_in-Follows :
      (sys : System A) (task : Task)
      → sys.task ≡ task
      → Follows sys.snapshot task
      → Follows (resumed_in sys task).snapshot (resumed_in sys task).task
  unfolding resumed_in
  resumed_in-Follows sys waits at h = subst (Follows sys.snapshot) (sym at) tt
  resumed_in-Follows sys (filling fill) at h = subst (Follows sys.snapshot) (sym at) h
  resumed_in-Follows sys (resuming told) at h = tt

  step-Follows :
      (sys : System A) (e : Event A)
      → Follows sys.snapshot sys.task
      → Follows (step sys e).snapshot (step sys e).task
  unfolding step
  step-Follows sys (block slot hash parent_slot parent_hash) h = h
  step-Follows sys (look base) h = looked-Follows sys base sys.task refl h
  step-Follows sys (repairs slot entry) h = repaired_in-Follows sys slot entry sys.task refl h
  step-Follows sys ends h = ended_in-Follows sys sys.task refl
  step-Follows sys resumes h = resumed_in-Follows sys sys.task refl h

  ended_in-IsAccounted :
      (sys : System A) (task : Task)
      → Follows sys.snapshot task
      → IsAccounted sys
      → IsAccounted (ended_in sys task)
  unfolding ended_in end_iteration
  ended_in-IsAccounted sys waits f h = h
  ended_in-IsAccounted sys (filling fill) f h =
      let removed = remove_slots sys.healing (empty_slots fill) in
      let (gaps, last) = enqueue_boundaries-kept fill.boundaries removed in
      simp (gaps, last, remove_slots-last sys.healing (empty_slots fill))
        (λ q pos le.
          subst (λ e. Accounted removed.gaps_list (e ++ sys.settled) q)
            (empty_slots-Follows sys.snapshot fill f)
            (remove_slots-Accounted sys.healing (empty_slots fill) sys.settled q (h q pos le)))
  ended_in-IsAccounted sys (resuming told) f h = h

  resumed_in-IsAccounted :
      (sys : System A) (task : Task) → IsAccounted sys → IsAccounted (resumed_in sys task)
  unfolding resumed_in resume_all
  resumed_in-IsAccounted sys waits h = h
  resumed_in-IsAccounted sys (filling fill) h = h
  resumed_in-IsAccounted sys (resuming told) h = h

  looked-IsAccounted :
      (sys : System A) (base : Option ℕ) (task : Task)
      → IsAccounted sys
      → IsAccounted (looked sys base task)
  unfolding looked
  looked-IsAccounted sys base waits h = h
  looked-IsAccounted sys base (filling fill) h = h
  looked-IsAccounted sys base (resuming told) h = h

  step-IsAccounted :
      (sys : System A) (e : Event A)
      → InRange e
      → Follows sys.snapshot sys.task
      → IsAccounted sys
      → IsAccounted (step sys e)
  unfolding step
  step-IsAccounted sys (block slot hash parent_slot parent_hash) small f h =
      block-IsAccounted sys slot hash parent_slot parent_hash small h
  step-IsAccounted sys (look base) small f h = looked-IsAccounted sys base sys.task h
  step-IsAccounted sys (repairs slot entry) small f h =
      repaired_in-IsAccounted sys slot entry sys.task h
  step-IsAccounted sys ends small f h = ended_in-IsAccounted sys sys.task f h
  step-IsAccounted sys resumes small f h = resumed_in-IsAccounted sys sys.task h

  -- From a state that accounts for every slot up to the last one received, whose repair task holds what
  -- the snapshot covers, any blocks with slots below 2^64 and any steps of the repair lead to one that
  -- does: each slot waits in the gaps list, or was received, repaired, found empty, or is below the first
  -- block or a block whose parent was the last one received. Found empty is a gap listed when a snapshot
  -- began, above its base slot, that is not repaired when the snapshot ends.
  pub run-IsAccounted :
      (sys : System A) (events : List (Event A))
      → All InRange events
      → Follows sys.snapshot sys.task
      → IsAccounted sys
      → IsAccounted (run sys events)
  unfolding run
  run-IsAccounted sys [] small f h = h
  run-IsAccounted sys (e ∷ events) small f h =
      run-IsAccounted (step sys e) events small.1 (step-Follows sys e f)
        (step-IsAccounted sys e small.0 f h)
