-- ===== src/Finalize/Ancestors.antt =====
-- The chain of ancestors that is finalized with a slot.
use cloudbreak.Prelude.{
  ℕ, zero, suc, ◌≤◌, ◌<◌, ◌≡◌, refl, inl, inr, true, some, List, [], ◌∷◌, arith, length, Bool-cases,
  Option-cases, unwrap_or,
}
use cloudbreak.OrdMap.{OrdMap, get, remove}
use cloudbreak.Finalize.{
  BlockEntry, FinalizerInner, Walk, stuck, walked, empty_entry, parent_matches, walk,
  get_slot_ancestors,
}

length-remove-le : {V : Type 0} (k : ℕ) (m : OrdMap V) → length (remove k m) ≤ length m
unfolding remove
length-remove-le k [] = omega arith
length-remove-le k ((j, v) ∷ m) = ground (arith, length-remove-le k m)

length-remove-lt :
    {V : Type 0} (k : ℕ) (v : V) (m : OrdMap V) → get k m ≡ some v → length (remove k m) < length m
unfolding get remove
length-remove-lt k v [] e = absurd (ground (arith, e))
length-remove-lt k v ((j, w) ∷ m) e =
    ground (arith, e, length-remove-lt k v m, length-remove-le k m)

module _ {A : Type 0} where
  -- Each block is the parent of the next one by slot and hash, and the last one is the slot's.
  abbrev pub IsLinked : ℕ → List (ℕ × BlockEntry A) → Type 0
  IsLinked slot [] = ⊥
  IsLinked slot ((at, entry) ∷ []) = at ≡ slot
  IsLinked slot ((at, entry) ∷ (child_at, child) ∷ chain) =
      (child.parent_slot ≡ at)
      × ((parent_matches child.parent_blockhash entry ≡ true)
          × IsLinked slot ((child_at, child) ∷ chain))

  -- The loop ended, in a chain down from the slot.
  abbrev pub Ends : ℕ → Walk A → Type 0
  Ends slot stuck = ⊥
  Ends slot (walked s chain) = IsLinked slot chain

  walk-Ends :
      (fuel : ℕ) (s : FinalizerInner A) (slot at : ℕ) (entry : BlockEntry A)
      (chain : List (ℕ × BlockEntry A))
      → length s.blocks < fuel
      → IsLinked slot ((at, entry) ∷ chain)
      → Ends slot (walk fuel s entry.parent_slot entry.parent_blockhash ((at, entry) ∷ chain))
  unfolding walk
  walk-Ends zero s slot at entry chain lt h = absurd (omega (arith, lt))
  walk-Ends (suc fuel) s slot at entry chain lt h =
      elim (Option-cases (get entry.parent_slot s.blocks)) [
        | inl missing ↦ rw (missing, Ends) h
        | inr (parent, e) ↦ elim (Bool-cases (parent_matches entry.parent_blockhash parent)) [
          | inl matches ↦
              let s' = record s {
                blocks = remove entry.parent_slot s.blocks;
                pending = remove entry.parent_slot s.pending;
              } in
              let smaller = length-remove-lt entry.parent_slot parent s.blocks e in
              rw (e, matches, Ends)
                (walk-Ends fuel s' slot entry.parent_slot parent ((at, entry) ∷ chain)
                  (omega (arith, smaller, lt)) (refl, (matches, h)))
          | inr differs ↦ rw (e, differs, Ends) h
        ]
      ]

  pub get_slot_ancestors-Ends :
      (no_accounts : A) (s : FinalizerInner A) (slot : ℕ)
      → Ends slot (get_slot_ancestors no_accounts s slot)
  unfolding get_slot_ancestors
  get_slot_ancestors-Ends no_accounts s slot =
      let entry = unwrap_or (get slot s.blocks) (empty_entry no_accounts) in
      let s' = record s { blocks = remove slot s.blocks } in
      walk-Ends (suc (length s'.blocks)) s' slot slot entry [] (omega arith) refl
