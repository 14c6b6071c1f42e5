-- ===== src/Processed/Store/Events.antt =====
-- `on_block` and `set_anchor`: what they keep of a store.
use cloudbreak.Prelude.{
  ℕ, ◌≤◌, ◌<◌, ◌≡◌, max, refl, inl, inr, true, false, not, ◌&&◌, Option, none, some, arith, str_eq,
  ltb, if◌then◌else◌, Bool-cases, Option-cases,
}
use cloudbreak.Prelude.Word.{u64_max}
use cloudbreak.OrdMap.{get, get-insert, insert-IsSorted}
use cloudbreak.Processed.{Anchor, SlotBlock}
use cloudbreak.Processed.Store.{
  BlockStore, new, confirmed, conflict, insert_block, on_new_slot, on_known_slot, on_block,
  set_anchor,
}
use cloudbreak.Processed.Store.Chain.{IsValid}
use cloudbreak.Processed.Store.Conflict.{conflict-IsCut, Descends-le}

-- `slot` is at or below the confirmed slot.
abbrev pub IsConfirmed : BlockStore → ℕ → Type 0
IsConfirmed s slot = confirmed s slot ≡ true

-- What a block event keeps: the anchor, all confirmed blocks, and the contents of each slot that stays.
pub record Keeps (s s' : BlockStore) : Type 0 where
  pub valid : IsValid s'
  pub anchor : s'.anchor ≡ s.anchor
  pub settled :
      (q : ℕ) (b : SlotBlock) → IsConfirmed s q → get q s.blocks ≡ some b → get q s'.blocks ≡ some b
  pub same : (q : ℕ) (b c : SlotBlock) → get q s.blocks ≡ some b → get q s'.blocks ≡ some c → b ≡ c
  -- a conflict that hides the chain goes on hiding it
  pub hidden :
      (until : ℕ)
      → s.conflict_until ≡ some until
      → (later : ℕ) × (s'.conflict_until ≡ some later) × (until ≤ later)

module _ (s : BlockStore) (v : IsValid s) where
  Keeps-refl : Keeps s s
  Keeps-refl = record {
    valid = v;
    anchor = refl;
    settled = λ q b c e. e;
    same = λ q b c e e'. ground arith;
    hidden = λ u e. (u, e, omega arith);
  }

  -- What is confirmed stays confirmed further down.
  IsConfirmed-le : (p q : ℕ) → IsConfirmed s q → p ≤ q → IsConfirmed s p
  unfolding confirmed
  IsConfirmed-le p q c le = ground arith

  conflict-Keeps :
      (slot : ℕ) → slot < u64_max → confirmed s slot ≡ false → Keeps s (conflict s slot)
  conflict-Keeps slot small open_slot =
      let cut = conflict-IsCut s v slot small in
      record {
        valid = cut.valid;
        anchor = cut.anchor;
        settled = λ q b c e.
            rw
              (cut.stays q (λ d. ground (arith, Descends-le s v slot q d, IsConfirmed-le slot q c)))
              e;
        same = λ q b c e e'. ground (arith, cut.kept q c e');
        hidden = λ u e. (max u slot, ground (arith, cut.hidden), omega arith);
      }

  insert-Keeps :
      (block : SlotBlock) → get block.slot s.blocks ≡ none → Keeps s (insert_block s block)
  insert-Keeps block out = record {
    valid = record {
      sorted = insert-IsSorted block.slot block s.blocks v.sorted;
      keyed = λ q b e. ground (arith, get-insert block.slot q block s.blocks, v.keyed q b);
    };
    anchor = refl;
    settled = λ q b c e. ground (arith, get-insert block.slot q block s.blocks);
    same = λ q b c e e'. ground (arith, get-insert block.slot q block s.blocks);
    hidden = λ u e. (u, e, omega arith);
  }

  new_slot :
      (block : SlotBlock)
      → get block.slot s.blocks ≡ none
      → block.parent_slot < u64_max
      → (parent : Option SlotBlock) → Keeps s (on_new_slot s block parent)
  new_slot block out small none = insert-Keeps block out
  new_slot block out small (some parent) =
      elim (Bool-cases (str_eq parent.blockhash block.parent_blockhash)) [
        | inl linked ↦ rw linked (insert-Keeps block out)
        | inr clash ↦ elim (Bool-cases (confirmed s block.parent_slot)) [
          | inl old ↦ rw (clash, old) Keeps-refl
          | inr open_slot ↦ rw (clash, open_slot) (conflict-Keeps block.parent_slot small open_slot)
        ]
      ]

  pub on_block-Keeps :
      (block : SlotBlock)
      → block.slot < u64_max
      → block.parent_slot < u64_max
      → Keeps s (on_block s block)
  unfolding on_block
  on_block-Keeps block small psmall = elim (Option-cases (get block.slot s.blocks)) [
    | inr (stored, e) ↦
        elim (Bool-cases
          (not (str_eq stored.blockhash block.blockhash) && not (confirmed s block.slot))) [
            | inl clash ↦
                rw (e, on_known_slot, clash) (conflict-Keeps block.slot small (ground arith))
            | inr replay ↦ rw (e, on_known_slot, replay) Keeps-refl
          ]
    | inl e ↦ rw (e, on_known_slot) (new_slot block e psmall (get block.parent_slot s.blocks))
  ]

  -- A new anchor keeps the blocks, and ends a conflict exactly when it passes it.
  pub set_anchor_lem :
      (anchor : Anchor) (now : ℕ)
      → IsValid (set_anchor s anchor now).0
        × ((set_anchor s anchor now).0.blocks ≡ s.blocks)
        × ((until : ℕ)
            → s.conflict_until ≡ some until
            → (set_anchor s anchor now).0.conflict_until
              ≡ (if ltb until anchor.confirmed_slot then none else some until))
  unfolding set_anchor
  set_anchor_lem anchor now =
      (record { sorted = v.sorted; keyed = v.keyed }, refl, λ u e. ground arith)

-- The empty store is valid.
pub new-IsValid : IsValid new
unfolding get
new-IsValid = record { sorted = tt; keyed = λ k b e. cc }
