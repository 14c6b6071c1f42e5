-- ===== src/Processed/Store/Chain.antt =====
-- The walk of `latest_chained_blocks`, against the chain of stored ancestors of the head.
use mathlib.Core.Path.{subst}
use cloudbreak.Prelude.{
  ℕ, String, zero, suc, ◌<◌, ◌≡◌, refl, sym, ap, ◌∙◌, inl, inr, Bool, false, ◌&&◌, Option, none,
  some, List, [], ◌∷◌, ◌++◌, arith, str_eq, eq_iff, ltb, ◌==◌, if◌then◌else◌, Option-cases,
  Bool-cases, ◌>>=◌,
}
use cloudbreak.OrdMap.{get, IsSorted}
use cloudbreak.Processed.{Anchor, SlotBlock}
use cloudbreak.Processed.Store.{
  BlockStore, find, parent_of, successors, walk, at_anchor, chain_from,
}

-- A block stands under its own slot, and the slots ascend.
pub record IsValid (s : BlockStore) : Type 0 where
  pub sorted : IsSorted s.blocks
  pub keyed : (k : ℕ) (b : SlotBlock) → get k s.blocks ≡ some b → b.slot ≡ k

abbrev pub IsStored : BlockStore → SlotBlock → Type 0
IsStored s b = get b.slot s.blocks ≡ some b

-- A linked run of stored blocks, newest first, that stops where no parent is stored.
abbrev pub IsChain : BlockStore → List SlotBlock → Type 0
IsChain s [] = Unit
IsChain s (b ∷ []) = IsStored s b × (parent_of s b ≡ none)
IsChain s (b ∷ p ∷ rest) = IsStored s b × (parent_of s b ≡ some p) × IsChain s (p ∷ rest)

pub find-eq_some :
    (s : BlockStore) (slot : ℕ) (hash : String) (b : SlotBlock)
    → find s slot hash ≡ some b
    → (get slot s.blocks ≡ some b) × (b.blockhash ≡ hash)
unfolding find
find-eq_some s slot hash b h = elim (Option-cases (get slot s.blocks)) [
  | inl e ↦ absurd (ground arith)
  | inr (c, e) ↦ ground (arith, eq_iff c.blockhash hash)
]

-- A parent is stored, under a lower slot, with the blockhash that its child names.
pub parent_of-eq_some :
    (s : BlockStore)
    → IsValid s
    → (b p : SlotBlock) → parent_of s b ≡ some p
    → IsStored s p
      × (p.slot < b.slot)
      × (p.slot ≡ b.parent_slot)
      × (p.blockhash ≡ b.parent_blockhash)
unfolding parent_of
parent_of-eq_some s v b p h =
    let found : find s b.parent_slot b.parent_blockhash ≡ some p = ground arith in
    let (at, hash) = find-eq_some s b.parent_slot b.parent_blockhash p found in
    let e : p.slot ≡ b.parent_slot = v.keyed b.parent_slot p at in
    (subst (λ k. get k s.blocks ≡ some p) (sym e) at, ground arith, e, hash)

-- Enough fuel for the ancestors of an optional block.
abbrev Enough : ℕ → Option SlotBlock → Type 0
Enough f none = Unit
Enough f (some b) = b.slot < f

successors-none : (s : BlockStore) (f : ℕ) → successors f s none ≡ []
unfolding successors
successors-none s zero = refl
successors-none s (suc f) = refl

module _ (s : BlockStore) (v : IsValid s) where
  Enough-parent : (f : ℕ) (b : SlotBlock) → b.slot < suc f → Enough f (parent_of s b)
  Enough-parent f b lt = elim (Option-cases (parent_of s b)) [
    | inl e ↦ rw e tt
    | inr (p, e) ↦ rw e (omega (arith, (parent_of-eq_some s v b p e).1))
  ]

  successors_fuel :
      (f g : ℕ) (o : Option SlotBlock)
      → Enough f o
      → Enough g o
      → successors f s o ≡ successors g s o
  unfolding successors
  successors_fuel zero zero o hf hg = refl
  successors_fuel zero (suc g) none hf hg = refl
  successors_fuel zero (suc g) (some b) hf hg = absurd (omega arith)
  successors_fuel (suc f) zero none hf hg = refl
  successors_fuel (suc f) zero (some b) hf hg = absurd (omega arith)
  successors_fuel (suc f) (suc g) none hf hg = refl
  successors_fuel (suc f) (suc g) (some b) hf hg =
      ap (◌∷◌ b) (successors_fuel f g (parent_of s b) (Enough-parent f b hf) (Enough-parent g b hg))

  successors-IsChain :
      (f : ℕ) (b : SlotBlock) → IsStored s b → b.slot < f → IsChain s (successors f s (some b))
  unfolding successors
  successors-IsChain zero b st lt = absurd (omega arith)
  successors-IsChain (suc zero) b st lt = elim (Option-cases (parent_of s b)) [
    | inl e ↦ (st, e)
    | inr (p, e) ↦ absurd (omega (arith, (parent_of-eq_some s v b p e).1))
  ]
  successors-IsChain (suc (suc f)) b st lt = elim (Option-cases (parent_of s b)) [
    | inl e ↦ rw e (st, e)
    | inr (p, e) ↦
        let (stored, below, _, _) = parent_of-eq_some s v b p e in
        rw e (st, e, successors-IsChain (suc f) p stored (omega arith))
  ]

-- A block and its stored ancestors, newest first.
unfoldable pub ancestors : BlockStore → SlotBlock → List SlotBlock
unfolding successors
ancestors s b = successors (suc b.slot) s (some b)

-- Whether a chain meets the anchor: it has the confirmed block, or the block above it names the
-- confirmed blockhash as its parent's.
unfoldable pub meets : Anchor → List SlotBlock → Bool
meets anchor [] = false
meets anchor (b ∷ rest) =
    let later = meets anchor rest in
    if ltb anchor.confirmed_slot b.slot
    then if b.parent_slot == anchor.confirmed_slot
      then str_eq b.parent_blockhash anchor.confirmed_blockhash
      else later
    else b.slot == anchor.confirmed_slot && str_eq b.blockhash anchor.confirmed_blockhash

module _ (s : BlockStore) (v : IsValid s) (anchor : Anchor) where
  pub ancestors-IsChain : (b : SlotBlock) → IsStored s b → IsChain s (ancestors s b)
  unfolding ancestors
  ancestors-IsChain b st = successors-IsChain s v (suc b.slot) b st (omega arith)

  -- Below the walk the chain goes on with the ancestors of the block where it stops.
  below : ℕ → Option (List SlotBlock × SlotBlock) → Option (List SlotBlock)
  below g none = none
  below g (some (blocks, last)) = at_anchor s anchor last >>= λ o. some (blocks ++ successors g s o)

  abbrev checked : List SlotBlock → Option (List SlotBlock)
  checked l = if meets anchor l then some l else none

  push : SlotBlock → List SlotBlock × SlotBlock → Option (List SlotBlock × SlotBlock)
  push b (blocks, last) = some (b ∷ blocks, last)

  below-push :
      (g : ℕ) (b : SlotBlock) (w : Option (List SlotBlock × SlotBlock)) (l : List SlotBlock)
      → below g w ≡ checked l
      → below g (w >>= λ x. some (b ∷ x.0, x.1)) ≡ (if meets anchor l then some (b ∷ l) else none)
  unfolding below
  below-push g b none l h = ground arith
  below-push g b (some (blocks, last)) l h = elim (Option-cases (at_anchor s anchor last)) [
    | inl e ↦ rw (e) (ground arith)
    | inr (o, e) ↦ rw (e) (ground arith)
  ]

  walk-meets :
      (f g : ℕ) (b : SlotBlock)
      → IsStored s b
      → b.slot < f
      → b.slot < g
      → below g (walk f s anchor b) ≡ checked (successors f s (some b))
  unfolding walk meets successors
  walk-meets zero g b st lf lg = absurd (omega arith)
  walk-meets (suc f) g b st lf lg =
      let same =
        successors_fuel s v g f (parent_of s b) (Enough-parent s v g b (omega arith))
          (Enough-parent s v f b lf) in
      elim (Bool-cases (ltb anchor.confirmed_slot b.slot)) [
        | inl above ↦ elim (Bool-cases (b.parent_slot == anchor.confirmed_slot)) [
          | inl edge ↦ unfold below at_anchor in ground arith
          | inr inner ↦ elim (Option-cases (parent_of s b)) [
            | inl e ↦ unfold below in ground (arith, successors-none s f)
            | inr (p, e) ↦
                let (stored, lower, _, _) = parent_of-eq_some s v b p e in
                let ih = walk-meets f g p stored (omega arith) (omega arith) in
                ground (arith, below-push g b (walk f s anchor p) (successors f s (some p)) ih)
          ]
        ]
        | inr reached ↦
            unfold below at_anchor find in
            ground (
              arith,
              successors_fuel s v g (suc f) (some b) lg lf,
              eq_iff b.blockhash anchor.confirmed_blockhash,
            )
      ]

  -- The walk from a stored head serves all its stored ancestors when they meet the anchor, and
  -- nothing otherwise.
  pub chain_from-ancestors :
      (head : SlotBlock)
      → IsStored s head
      → chain_from s anchor head
        ≡ (if meets anchor (ancestors s head) then some (ancestors s head) else none)
  unfolding chain_from ancestors below
  chain_from-ancestors head st =
      let w = walk (suc head.slot) s anchor head in
      bridge w ∙ walk-meets (suc head.slot) (suc head.slot) head st (omega arith) (omega arith)
    where
      bridge :
          (w : Option (List SlotBlock × SlotBlock))
          → (w >>= λ x.
              at_anchor s anchor x.1 >>= λ o. some (x.0 ++ successors (suc head.slot) s o))
            ≡ below (suc head.slot) w
      bridge none = refl
      bridge (some (blocks, last)) = refl
