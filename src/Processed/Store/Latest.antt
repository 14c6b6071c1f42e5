-- ===== src/Processed/Store/Latest.antt =====
-- What `latest_chained_blocks` serves, in terms of the store.
use mathlib.Core.Path.{subst}
use cloudbreak.Prelude.{
  ℕ, ◌≤◌, ◌<◌, ◌≡◌, refl, sym, ap, ◌∙◌, ◌⊎◌, inl, inr, true, false, ◌&&◌, Option, none, some, List,
  [], ◌∷◌, arith, str_eq, eq_iff, ltb, leb, ◌==◌, if◌then◌else◌, is_some_and, Option-cases,
  Bool-cases, length,
}
use cloudbreak.Prelude.Int.{ℤ}
use cloudbreak.OrdMap.{get, last_value}
use cloudbreak.OrdMap.Range.{last_value-greatest, last_value-of_greatest}
use cloudbreak.Processed.{Anchor, SlotBlock, ProcessedBlocks}
use cloudbreak.Processed.Store.{
  BlockStore, latest_chained_blocks, chain_from, sum_heap_bytes, parent_of,
}
use cloudbreak.Processed.Store.Chain.{
  IsValid, IsStored, IsChain, ancestors, meets, ancestors-IsChain, chain_from-ancestors,
  parent_of-eq_some,
}

-- The block ties a chain to the anchor: it is the confirmed block, or the confirmed block is its
-- parent by slot and blockhash.
pub data Ties (anchor : Anchor) (b : SlotBlock) : Type 0 where
  at : b.slot ≡ anchor.confirmed_slot → b.blockhash ≡ anchor.confirmed_blockhash → Ties anchor b
  above :
      anchor.confirmed_slot < b.slot
      → b.parent_slot ≡ anchor.confirmed_slot
      → b.parent_blockhash ≡ anchor.confirmed_blockhash
      → Ties anchor b

abbrev pub Any : (SlotBlock → Type 0) → List SlotBlock → Type 0
Any P [] = ⊥
Any P (b ∷ rest) = P b ⊎ Any P rest

meets-step :
    (anchor : Anchor) (b : SlotBlock) (rest : List SlotBlock)
    → meets anchor (b ∷ rest) ≡ (
        if ltb anchor.confirmed_slot b.slot
        then if b.parent_slot == anchor.confirmed_slot
          then str_eq b.parent_blockhash anchor.confirmed_blockhash
          else meets anchor rest
        else b.slot == anchor.confirmed_slot && str_eq b.blockhash anchor.confirmed_blockhash)
unfolding meets
meets-step anchor b rest = refl

pub meets-Ties :
    (anchor : Anchor) (l : List SlotBlock) → meets anchor l ≡ true → Any (Ties anchor) l
unfolding meets
meets-Ties anchor [] h = cc
meets-Ties anchor (b ∷ rest) h = elim (Bool-cases (ltb anchor.confirmed_slot b.slot)) [
  | inl over ↦ elim (Bool-cases (b.parent_slot == anchor.confirmed_slot)) [
    | inl edge ↦ inl (
        above (ground arith) (ground arith)
          (ground (arith, eq_iff b.parent_blockhash anchor.confirmed_blockhash)))
    | inr inner ↦ inr (meets-Ties anchor rest (ground arith))
  ]
  | inr reached ↦
      inl (at (ground arith) (ground (arith, eq_iff b.blockhash anchor.confirmed_blockhash)))
]

module _ (s : BlockStore) (v : IsValid s) where
  pub IsChain-tail : (b : SlotBlock) (rest : List SlotBlock) → IsChain s (b ∷ rest) → IsChain s rest
  IsChain-tail b [] c = tt
  IsChain-tail b (p ∷ rest) c = c.2

module _ (s : BlockStore) (v : IsValid s) (anchor : Anchor) where
  -- No block of a chain stands above its first.
  chain-le :
      (b : SlotBlock) (rest : List SlotBlock)
      → IsChain s (b ∷ rest)
      → Any (λ c. anchor.confirmed_slot ≤ c.slot) rest
      → anchor.confirmed_slot < b.slot
  chain-le b [] c h = absurd h
  chain-le b (p ∷ rest) c (inl h) = omega (arith, (parent_of-eq_some s v b p c.1).1)
  chain-le b (p ∷ rest) c (inr h) =
      omega (arith, (parent_of-eq_some s v b p c.1).1, chain-le p rest c.2 h)

  Ties-le : (l : List SlotBlock) → Any (Ties anchor) l → Any (λ c. anchor.confirmed_slot ≤ c.slot) l
  Ties-le [] h = absurd h
  Ties-le (b ∷ l) (inl (at e h)) = inl (omega arith)
  Ties-le (b ∷ l) (inl (above lt e h)) = inl (omega arith)
  Ties-le (b ∷ l) (inr h) = inr (Ties-le l h)

  deeper :
      (b p : SlotBlock) (l : List SlotBlock)
      → parent_of s b ≡ some p
      → anchor.confirmed_slot < p.slot
      → meets anchor (p ∷ l) ≡ true
      → meets anchor (b ∷ p ∷ l) ≡ true
  deeper b p l link lt h =
      let (_, lower, slots, _) = parent_of-eq_some s v b p link in
      let over : ltb anchor.confirmed_slot b.slot ≡ true = ground arith in
      let inner : (b.parent_slot == anchor.confirmed_slot) ≡ false = ground arith in
      rw (meets-step anchor b (p ∷ l), over, inner) h

  Ties-meets : (l : List SlotBlock) → IsChain s l → Any (Ties anchor) l → meets anchor l ≡ true
  unfolding meets
  Ties-meets [] c h = absurd h
  Ties-meets (b ∷ []) c (inr h) = absurd h
  Ties-meets (b ∷ l) c (inl (at e h)) =
      ground (arith, eq_iff b.blockhash anchor.confirmed_blockhash)
  Ties-meets (b ∷ l) c (inl (above lt e h)) =
      ground (arith, eq_iff b.parent_blockhash anchor.confirmed_blockhash)
  Ties-meets (b ∷ p ∷ l) c (inr (inl (at e h))) =
      let (_, lower, slots, hashes) = parent_of-eq_some s v b p c.1 in
      let same : b.parent_blockhash ≡ anchor.confirmed_blockhash = cc in
      ground (arith, eq_iff b.parent_blockhash anchor.confirmed_blockhash)
  Ties-meets (b ∷ p ∷ l) c (inr (inl (above lt e h))) =
      let (_, lower, slots, _) = parent_of-eq_some s v b p c.1 in
      let rest = Ties-meets (p ∷ l) c.2 (inl (above lt e h)) in deeper b p l c.1 lt rest
  Ties-meets (b ∷ p ∷ l) c (inr (inr h)) =
      deeper b p l c.1 (chain-le p l c.2 (Ties-le l h)) (Ties-meets (p ∷ l) c.2 (inr h))

-- What a request is served: the stored ancestors of the highest stored block, tied to an anchor that
-- no conflict hides.
pub record Serves (s : BlockStore) (pb : ProcessedBlocks) : Type 0 where
  pub anchor : Anchor
  pub anchored : s.anchor ≡ some anchor
  pub settled : (until : ℕ) → s.conflict_until ≡ some until → until < anchor.confirmed_slot
  pub head : SlotBlock
  pub stored : IsStored s head
  pub highest : (q : ℕ) (b : SlotBlock) → get q s.blocks ≡ some b → q ≤ head.slot
  pub timed : head.block_time ≡ some pb.block_time
  pub slot : pb.slot ≡ head.slot
  pub anchor_slot : pb.anchor_slot ≡ anchor.confirmed_slot
  pub blocks : pb.blocks ≡ ancestors s head
  pub chained : IsChain s pb.blocks
  pub tied : Any (Ties anchor) pb.blocks

Serves-conflict :
    (c : Option ℕ) (a : ℕ)
    → is_some_and c (λ until. leb a until) ≡ false
    → (until : ℕ) → c ≡ some until
    → until < a
Serves-conflict c a h until e = ground arith

conflict_passed :
    (c : Option ℕ) (a : ℕ)
    → ((until : ℕ) → c ≡ some until → until < a)
    → is_some_and c (λ until. leb a until) ≡ false
conflict_passed none a h = refl
conflict_passed (some u) a h = ground (arith, h u refl)

module _ (s : BlockStore) (v : IsValid s) where
  last_value-IsStored :
      (head : SlotBlock)
      → last_value s.blocks ≡ some head
      → IsStored s head × ((q : ℕ) (b : SlotBlock) → get q s.blocks ≡ some b → q ≤ head.slot)
  last_value-IsStored head e =
      let (k, found, top) = last_value-greatest s.blocks head v.sorted e in
      let key = v.keyed k head found in
      (subst (λ j. get j s.blocks ≡ some head) (sym key) found, λ q b g. omega (arith, top q b g))

  chain_from-some :
      (anchor : Anchor) (head : SlotBlock) (blocks : List SlotBlock)
      → IsStored s head
      → chain_from s anchor head ≡ some blocks
      → (blocks ≡ ancestors s head) × (meets anchor (ancestors s head) ≡ true)
  chain_from-some anchor head blocks st e = ground (arith, chain_from-ancestors s v anchor head st)

  -- Whatever is served is proven: see `Serves`.
  pub latest_chained_blocks-Serves :
      (pb : ProcessedBlocks) → latest_chained_blocks s ≡ some pb → Serves s pb
  latest_chained_blocks-Serves pb h = elim (Option-cases s.anchor) [
    | inl e ↦ absurd (unfold latest_chained_blocks in ground arith)
    | inr (anchor, ea) ↦ elim (Option-cases (last_value s.blocks)) [
      | inl e ↦ absurd (unfold latest_chained_blocks in ground arith)
      | inr (head, eh) ↦ elim (Option-cases head.block_time) [
        | inl e ↦ absurd (unfold latest_chained_blocks in ground arith)
        | inr (t, et) ↦ elim (Option-cases (chain_from s anchor head)) [
          | inl e ↦ absurd (unfold latest_chained_blocks in ground arith)
          | inr (blocks, ec) ↦
              let (stored, highest) = last_value-IsStored head eh in
              let (all, met) = chain_from-some anchor head blocks stored ec in
              let fields : (is_some_and s.conflict_until (λ until. leb anchor.confirmed_slot until)
                    ≡ false)
                  × (pb.block_time ≡ t)
                  × (pb.slot ≡ head.slot)
                  × (pb.anchor_slot ≡ anchor.confirmed_slot)
                  × (pb.blocks ≡ blocks) =
                unfold latest_chained_blocks in ground arith in
              let served : pb.blocks ≡ ancestors s head = fields.4 ∙ all in
              record {
                anchor = anchor;
                anchored = ea;
                settled = Serves-conflict s.conflict_until anchor.confirmed_slot fields.0;
                head = head;
                stored = stored;
                highest = highest;
                timed = et ∙ ap some (sym fields.1);
                slot = fields.2;
                anchor_slot = fields.3;
                blocks = served;
                chained = rw served (ancestors-IsChain s v anchor head stored);
                tied = rw served (meets-Ties anchor (ancestors s head) met);
              }
        ]
      ]
    ]
  ]

  -- Whatever can be proven is served.
  pub latest_chained_blocks_complete :
      (anchor : Anchor) (head : SlotBlock) (t : ℤ)
      → s.anchor ≡ some anchor
      → ((until : ℕ) → s.conflict_until ≡ some until → until < anchor.confirmed_slot)
      → IsStored s head
      → ((q : ℕ) (b : SlotBlock) → get q s.blocks ≡ some b → q ≤ head.slot)
      → head.block_time ≡ some t
      → Any (Ties anchor) (ancestors s head)
      → (pb : ProcessedBlocks) × (latest_chained_blocks s ≡ some pb)
        × (pb.slot ≡ head.slot)
        × (pb.block_time ≡ t)
        × (pb.anchor_slot ≡ anchor.confirmed_slot)
        × (pb.blocks ≡ ancestors s head)
  unfolding latest_chained_blocks
  latest_chained_blocks_complete anchor head t ea settled st highest et ties =
      let eh = last_value-of_greatest s.blocks head.slot head v.sorted st highest in
      let met =
        Ties-meets s v anchor (ancestors s head) (ancestors-IsChain s v anchor head st) ties in
      let ec : chain_from s anchor head ≡ some (ancestors s head) =
        ground (arith, chain_from-ancestors s v anchor head st) in
      let open_ : is_some_and s.conflict_until (λ until. leb anchor.confirmed_slot until) ≡ false =
        conflict_passed s.conflict_until anchor.confirmed_slot settled in
      (
        record {
          slot = head.slot;
          block_time = t;
          anchor_slot = anchor.confirmed_slot;
          stored_blocks = length s.blocks;
          stored_bytes = sum_heap_bytes s.blocks;
          blocks = ancestors s head;
        },
        ground arith,
        refl,
        refl,
        refl,
        refl,
      )
