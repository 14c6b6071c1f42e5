-- ===== src/Finalize/Runs.antt =====
-- The finalizer over any sequence of its operations, with the blocks that were finalized, the latest first.
use mathlib.Core.Option.{some-injective}
use cloudbreak.Prelude.{
  ℕ, zero, suc, ◌≡◌, refl, sym, ap, ◌∙◌, inl, inr, ◌⊎◌, String, Bool, true, false, Option, none,
  some, List, [], ◌∷◌, ◌++◌, arith, ◌==◌, if◌then◌else◌, length, Bool-cases, Option-cases,
  unwrap_or, All, ltb, ==_iff, ==_refl,
}
use cloudbreak.OrdMap.{OrdMap, get, remove, get-insert, get-remove}
use cloudbreak.Finalize.Ancestors.{Ends, get_slot_ancestors-Ends}
use cloudbreak.Finalize.{
  BlockEntry, FinalizerInner, Walk, stuck, walked, empty_entry, parent_matches, walk,
  get_slot_ancestors, record_block, enqueue_unbounded, note_finalized, pause, resume, next_of,
  next_slot,
}

-- A notification that finds the queue full changes nothing and is tried again.
pub data Event (A : Type 0) : Type 0 where
  records : ℕ → BlockEntry A → Event A
  notified enqueued : ℕ → Event A
  paused resumed works : Event A

pub record System (A : Type 0) : Type 0 where
  pub inner : FinalizerInner A
  pub finalized : List (ℕ × BlockEntry A)

module _ {A : Type 0} where
  -- What the worker finalizes of a walk. A walk that is stuck would finalize nothing.
  abbrev finalize : System A → Walk A → System A
  finalize sys stuck = sys
  finalize sys (walked s chain) = record { inner = s; finalized = chain ++ sys.finalized }

  abbrev work : A → System A → Option (ℕ × FinalizerInner A) → System A
  unfolding get_slot_ancestors
  work no_accounts sys none = sys
  work no_accounts sys (some (slot, s)) =
      finalize (record sys { inner = s }) (get_slot_ancestors no_accounts s slot)

  unfoldable pub step : A → ℕ → System A → Event A → System A
  unfolding record_block note_finalized enqueue_unbounded pause resume work next_slot
  step no_accounts limit sys (records slot entry) = record sys {
    inner = record_block sys.inner slot entry;
  }
  step no_accounts limit sys (notified slot) = record sys {
    inner = unwrap_or (note_finalized limit sys.inner slot) sys.inner;
  }
  step no_accounts limit sys (enqueued slot) = record sys {
    inner = enqueue_unbounded sys.inner slot;
  }
  step no_accounts limit sys paused = record sys { inner = pause sys.inner }
  step no_accounts limit sys resumed = record sys { inner = resume sys.inner }
  step no_accounts limit sys works = work no_accounts sys (next_slot sys.inner)

  unfoldable pub run : A → ℕ → System A → List (Event A) → System A
  unfolding step
  run no_accounts limit sys [] = sys
  run no_accounts limit sys (e ∷ events) =
      run no_accounts limit (step no_accounts limit sys e) events

  abbrev pub Finalized : ℕ → BlockEntry A → List (ℕ × BlockEntry A) → Type 0
  Finalized slot entry [] = ⊥
  Finalized slot entry (e ∷ chain) = (e ≡ (slot, entry)) ⊎ Finalized slot entry chain

  -- The block is kept, or is finalized.
  abbrev pub IsHeld : ℕ → BlockEntry A → OrdMap (BlockEntry A) → List (ℕ × BlockEntry A) → Type 0
  IsHeld slot entry blocks chain = (get slot blocks ≡ some entry) ⊎ Finalized slot entry chain

  abbrev WalkHolds : ℕ → BlockEntry A → Walk A → Type 0
  WalkHolds slot entry stuck = Unit
  WalkHolds slot entry (walked s chain) = IsHeld slot entry s.blocks chain

  -- Moving the block of one slot from the map to the chain.
  moved-IsHeld :
      (slot at : ℕ) (entry other : BlockEntry A) (blocks : OrdMap (BlockEntry A))
      (chain : List (ℕ × BlockEntry A))
      → get at blocks ≡ some other
      → IsHeld slot entry blocks chain
      → IsHeld slot entry (remove at blocks) ((at, other) ∷ chain)
  moved-IsHeld slot at entry other blocks chain e (inr done) = inr (inr done)
  moved-IsHeld slot at entry other blocks chain e (inl kept) = elim (Bool-cases (at == slot)) [
    | inl same ↦
        let one : at ≡ slot = (==_iff at slot).0 same in
        let what : other ≡ entry =
          some-injective other entry (sym e ∙ ap (λ k. get k blocks) one ∙ kept) in
        inr (inl (ap (λ k. (k, other)) one ∙ ap (λ w. (slot, w)) what))
    | inr differs ↦ inl (get-remove at slot blocks ∙ rw (differs) kept)
  ]

  walk-Holds :
      (fuel : ℕ) (s : FinalizerInner A) (parent_slot : ℕ) (hash : String)
      (chain : List (ℕ × BlockEntry A)) (slot : ℕ) (entry : BlockEntry A)
      → IsHeld slot entry s.blocks chain
      → WalkHolds slot entry (walk fuel s parent_slot hash chain)
  unfolding walk
  walk-Holds zero s parent_slot hash chain slot entry h = tt
  walk-Holds (suc fuel) s parent_slot hash chain slot entry h =
      elim (Option-cases (get parent_slot s.blocks)) [
        | inl missing ↦ rw (missing, WalkHolds) h
        | inr (parent, e) ↦ elim (Bool-cases (parent_matches hash parent)) [
          | inl matches ↦
              let s' = record s {
                blocks = remove parent_slot s.blocks;
                pending = remove parent_slot s.pending;
              } in
              rw (e, matches, WalkHolds)
                (walk-Holds fuel s' parent.parent_slot parent.parent_blockhash
                  ((parent_slot, parent) ∷ chain) slot entry
                  (moved-IsHeld slot parent_slot entry parent s.blocks chain e h))
          | inr differs ↦ rw (e, differs, WalkHolds) h
        ]
      ]

  Finalized-append :
      (slot : ℕ) (entry : BlockEntry A) (xs ys : List (ℕ × BlockEntry A))
      → Finalized slot entry xs ⊎ Finalized slot entry ys
      → Finalized slot entry (xs ++ ys)
  Finalized-append slot entry [] ys (inl none_there) = absurd none_there
  Finalized-append slot entry [] ys (inr h) = h
  Finalized-append slot entry (x ∷ xs) ys (inl (inl here)) = inl here
  Finalized-append slot entry (x ∷ xs) ys (inl (inr later)) =
      inr (Finalized-append slot entry xs ys (inl later))
  Finalized-append slot entry (x ∷ xs) ys (inr h) = inr (Finalized-append slot entry xs ys (inr h))

  not_here :
      (at slot : ℕ) (entry : BlockEntry A) (blocks : OrdMap (BlockEntry A))
      → get at blocks ≡ none
      → get slot blocks ≡ some entry
      → (if at == slot then none else get slot blocks) ≡ some entry
  not_here at slot entry blocks missing kept = elim (Bool-cases (at == slot)) [
    | inl same ↦
        let gone = ap (λ k. get k blocks) (sym ((==_iff at slot).0 same)) ∙ missing in
        absurd (ground (arith, sym kept ∙ gone))
    | inr differs ↦ rw (differs) kept
  ]

  get_slot_ancestors-Holds :
      (no_accounts : A) (s : FinalizerInner A) (at slot : ℕ) (entry : BlockEntry A)
      → get slot s.blocks ≡ some entry
      → WalkHolds slot entry (get_slot_ancestors no_accounts s at)
  unfolding get_slot_ancestors
  get_slot_ancestors-Holds no_accounts s at slot entry kept =
      let top = unwrap_or (get at s.blocks) (empty_entry no_accounts) in
      let s' = record s { blocks = remove at s.blocks } in
      walk-Holds (suc (length s'.blocks)) s' top.parent_slot top.parent_blockhash ((at, top) ∷ [])
        slot entry
        (elim (Option-cases (get at s.blocks)) [
          | inl missing ↦
              inl (get-remove at slot s.blocks ∙ not_here at slot entry s.blocks missing kept)
          | inr (other, e) ↦ rw (e) (moved-IsHeld slot at entry other s.blocks [] e (inl kept))
        ])

  finalize-IsHeld :
      (sys : System A) (w : Walk A) (at slot : ℕ) (entry : BlockEntry A)
      → Ends at w
      → WalkHolds slot entry w ⊎ Finalized slot entry sys.finalized
      → IsHeld slot entry (finalize sys w).inner.blocks (finalize sys w).finalized
  finalize-IsHeld sys stuck at slot entry ends h = absurd ends
  finalize-IsHeld sys (walked s chain) at slot entry ends (inl (inl kept)) = inl kept
  finalize-IsHeld sys (walked s chain) at slot entry ends (inl (inr new)) =
      inr (Finalized-append slot entry chain sys.finalized (inl new))
  finalize-IsHeld sys (walked s chain) at slot entry ends (inr old) =
      inr (Finalized-append slot entry chain sys.finalized (inr old))

  -- The event does not record another block of the slot.
  abbrev pub Leaves : ℕ → Event A → Type 0
  Leaves slot (records at entry) = (at == slot) ≡ false
  Leaves slot _ = Unit

  work_if-IsHeld :
      (no_accounts : A) (sys : System A) (b : Bool) (next : ℕ × FinalizerInner A) (slot : ℕ)
      (entry : BlockEntry A)
      → IsHeld slot entry sys.inner.blocks sys.finalized
      → IsHeld slot entry
          (work no_accounts sys (some next)).inner.blocks
          (work no_accounts sys (some next)).finalized
      → IsHeld slot entry
          (work no_accounts sys (if b then none else some next)).inner.blocks
          (work no_accounts sys (if b then none else some next)).finalized
  unfolding work
  work_if-IsHeld no_accounts sys true next slot entry h worked = h
  work_if-IsHeld no_accounts sys false next slot entry h worked = worked

  work-IsHeld :
      (no_accounts : A) (sys : System A) (pending : OrdMap (Unit {0})) (slot : ℕ)
      (entry : BlockEntry A)
      → IsHeld slot entry sys.inner.blocks sys.finalized
      → IsHeld slot entry
          (work no_accounts sys (next_of sys.inner pending)).inner.blocks
          (work no_accounts sys (next_of sys.inner pending)).finalized
  unfolding work
  work-IsHeld no_accounts sys [] slot entry h = h
  work-IsHeld no_accounts sys ((at, u) ∷ rest) slot entry h =
      let s = record sys.inner { pending = rest } in
      let worked =
        finalize-IsHeld (record sys { inner = s }) (get_slot_ancestors no_accounts s at) at slot
          entry (get_slot_ancestors-Ends no_accounts s at)
          (elim h [
            | inl kept ↦ inl (get_slot_ancestors-Holds no_accounts s at slot entry kept)
            | inr done ↦ inr done
          ]) in
      work_if-IsHeld no_accounts sys sys.inner.paused (at, s) slot entry h worked

  step-IsHeld :
      (no_accounts : A) (limit : ℕ) (sys : System A) (e : Event A) (slot : ℕ) (entry : BlockEntry A)
      → Leaves slot e
      → IsHeld slot entry sys.inner.blocks sys.finalized
      → IsHeld slot entry
          (step no_accounts limit sys e).inner.blocks
          (step no_accounts limit sys e).finalized
  unfolding step record_block note_finalized enqueue_unbounded pause resume next_slot
  step-IsHeld no_accounts limit sys (records at new) slot entry differs (inl kept) =
      inl (get-insert at slot new sys.inner.blocks ∙ rw (differs) kept)
  step-IsHeld no_accounts limit sys (records at new) slot entry differs (inr done) = inr done
  step-IsHeld no_accounts limit sys (notified at) slot entry l h =
      elim (Bool-cases (ltb (length sys.inner.pending) limit)) [
        | inl space ↦ simp (space) h
        | inr full ↦ simp (full) h
      ]
  step-IsHeld no_accounts limit sys (enqueued at) slot entry l h = h
  step-IsHeld no_accounts limit sys paused slot entry l h = h
  step-IsHeld no_accounts limit sys resumed slot entry l h = h
  step-IsHeld no_accounts limit sys works slot entry l h =
      work-IsHeld no_accounts sys sys.inner.pending slot entry h

  run-IsHeld_from :
      (no_accounts : A) (limit : ℕ) (sys : System A) (events : List (Event A)) (slot : ℕ)
      (entry : BlockEntry A)
      → All (Leaves slot) events
      → IsHeld slot entry sys.inner.blocks sys.finalized
      → IsHeld slot entry
          (run no_accounts limit sys events).inner.blocks
          (run no_accounts limit sys events).finalized
  unfolding run
  run-IsHeld_from no_accounts limit sys [] slot entry l h = h
  run-IsHeld_from no_accounts limit sys (e ∷ events) slot entry l h =
      run-IsHeld_from no_accounts limit (step no_accounts limit sys e) events slot entry l.1
        (step-IsHeld no_accounts limit sys e slot entry l.0 h)

  -- A block that is recorded is still kept, or was finalized, after any operations of the finalizer that
  -- record no other block of its slot.
  pub run-IsHeld :
      (no_accounts : A) (limit : ℕ) (sys : System A) (events : List (Event A)) (slot : ℕ)
      (entry : BlockEntry A)
      → All (Leaves slot) events
      → IsHeld slot entry
          (run no_accounts limit
            (step no_accounts limit sys (records slot entry))
            events).inner.blocks
          (run no_accounts limit (step no_accounts limit sys (records slot entry)) events).finalized
  run-IsHeld no_accounts limit sys events slot entry l =
      run-IsHeld_from no_accounts limit (step no_accounts limit sys (records slot entry)) events
        slot entry l
        (inl (
          unfold step record_block in
          (get-insert slot slot entry sys.inner.blocks ∙ rw (==_refl slot) refl)))
