-- ===== src/Processed/Store/Conflict.antt =====
-- A conflict deletes a slot with all that descends from it, and hides the chain until the confirmed
-- slot has passed it.
use cloudbreak.Prelude.{
  ℕ, ◌+◌, ◌<◌, ◌≡◌, refl, ◌⊎◌, inl, inr, true, ◌&&◌, none, some, List, [], ◌∷◌, arith, ◌==◌,
  if◌then◌else◌, is_some, Bool-cases, Option-cases, contains, map_or, max,
}
use cloudbreak.Prelude.Word.{u64_max, add64}
use cloudbreak.OrdMap.{OrdMap, get, range_from, IsSorted, Above, get-Above}
use cloudbreak.OrdMap.Range.{
  get-range_from, range_from-Above_of_lt, range_from-IsSorted, get-remove_all, remove_all-IsSorted,
  Above-get,
}
use cloudbreak.Processed.{SlotBlock}
use cloudbreak.Processed.Store.{BlockStore, parent_of, doomed_from, conflict}
use cloudbreak.Processed.Store.Chain.{IsValid, parent_of-eq_some}

-- The stored blocks that build on `slot`: itself, and each whose linked parent does.
pub data Descends (s : BlockStore) (slot : ℕ) : ℕ → Type 0 where
  self : {q : ℕ} → q ≡ slot → Descends s slot q
  child :
      {q : ℕ} (b p : SlotBlock)
      → get q s.blocks ≡ some b
      → parent_of s b ≡ some p
      → Descends s slot p.slot
      → Descends s slot q

module _ (s : BlockStore) (v : IsValid s) (slot : ℕ) where
  pub Descends-le : (q : ℕ) → Descends s slot q → (q ≡ slot) ⊎ (slot < q)
  Descends-le q (self e) = inl e
  Descends-le q (child b p at link d) =
      inr (omega (arith, Descends-le p.slot d, (parent_of-eq_some s v b p link).1, v.keyed q b at))

  -- The set after one round of the loop.
  abbrev joined : List ℕ → ℕ → SlotBlock → List ℕ
  joined doomed k c =
      if contains doomed c.parent_slot && is_some (parent_of s c) then k ∷ doomed else doomed

  joined-Descends :
      (doomed : List ℕ) (k : ℕ) (c : SlotBlock)
      → get k s.blocks ≡ some c
      → ((q : ℕ) → contains doomed q ≡ true → Descends s slot q)
      → (q : ℕ) → contains (joined doomed k c) q ≡ true
      → Descends s slot q
  joined-Descends doomed k c at inv q e = elim (Option-cases (parent_of s c)) [
    | inl absent ↦ inv q (ground arith)
    | inr (p, link) ↦ elim (Bool-cases (contains doomed c.parent_slot)) [
      | inr out ↦ inv q (ground arith)
      | inl hit ↦ elim (Bool-cases (k == q)) [
        | inr other ↦ inv q (ground arith)
        | inl here ↦
            let (_, _, slots, _) = parent_of-eq_some s v c p link in
            child c p (ground arith) link (inv p.slot (ground arith))
      ]
    ]
  ]

  -- Only descendants are doomed.
  doomed_from-Descends :
      (doomed : List ℕ) (m : OrdMap SlotBlock)
      → ((q : ℕ) → contains doomed q ≡ true → Descends s slot q)
      → ((q : ℕ) (b : SlotBlock) → get q m ≡ some b → get q s.blocks ≡ some b)
      → IsSorted m
      → (q : ℕ) → contains (doomed_from s doomed m) q ≡ true
      → Descends s slot q
  unfolding doomed_from
  doomed_from-Descends doomed [] inv sub h q e = inv q e
  doomed_from-Descends doomed ((k, c) ∷ m) inv sub h q e =
      doomed_from-Descends (joined doomed k c) m
        (joined-Descends doomed k c (sub k c (unfold get in ground arith)) inv)
        (λ r b g. sub r b (unfold get in ground (arith, Above-get k r m b h.0 g))) h.1 q e

  joined-all :
      (doomed : List ℕ) (k : ℕ) (c : SlotBlock) (m : OrdMap SlotBlock)
      → get k s.blocks ≡ some c
      → Above k m
      → slot < k
      → ((q : ℕ) → Descends s slot q → get q ((k, c) ∷ m) ≡ none → contains doomed q ≡ true)
      → (q : ℕ) → Descends s slot q
      → get q m ≡ none
      → contains (joined doomed k c) q ≡ true
  unfolding get
  joined-all doomed k c m at ab lt inv q (self e) out = ground (arith, inv q (self e))
  joined-all doomed k c m at ab lt inv q (child b p found link d) out = elim (Bool-cases (q == k)) [
    | inr other ↦ ground (arith, inv q (child b p found link d))
    | inl here ↦
        let (_, lower, slots, _) = parent_of-eq_some s v b p link in
        let same : some b ≡ some c = ground arith in
        let key = v.keyed k c at in ground (arith, inv p.slot d, get-Above k p.slot m ab)
  ]

  -- All descendants are doomed.
  doomed_from-all :
      (doomed : List ℕ) (m : OrdMap SlotBlock)
      → ((q : ℕ) → Descends s slot q → get q m ≡ none → contains doomed q ≡ true)
      → ((q : ℕ) (b : SlotBlock) → get q m ≡ some b → get q s.blocks ≡ some b)
      → IsSorted m
      → Above slot m
      → (q : ℕ) → Descends s slot q
      → contains (doomed_from s doomed m) q ≡ true
  unfolding doomed_from
  doomed_from-all doomed [] inv sub h a q d = inv q d (unfold get in refl)
  doomed_from-all doomed ((k, c) ∷ m) inv sub h a q d =
      doomed_from-all (joined doomed k c) m
        (joined-all doomed k c m (sub k c (unfold get in ground arith)) h.0 a.0 inv)
        (λ r b g. sub r b (unfold get in ground (arith, Above-get k r m b h.0 g))) h.1 a.1 q d

-- What a conflict at `slot` makes of a store.
pub record IsCut (s : BlockStore) (slot : ℕ) (s' : BlockStore) : Type 0 where
  pub valid : IsValid s'
  pub anchor : s'.anchor ≡ s.anchor
  pub hidden : s'.conflict_until ≡ some (map_or s.conflict_until slot (λ c. max c slot))
  pub kept : (q : ℕ) (b : SlotBlock) → get q s'.blocks ≡ some b → get q s.blocks ≡ some b
  pub gone : (q : ℕ) → Descends s slot q → get q s'.blocks ≡ none
  pub stays : (q : ℕ) → ((Descends s slot q → ⊥)) → get q s'.blocks ≡ get q s.blocks

module _ (s : BlockStore) (v : IsValid s) (slot : ℕ) (small : slot < u64_max) where
  doomed : List ℕ
  doomed = doomed_from s (slot ∷ []) (range_from (add64 slot 1) s.blocks)

  next_slot : add64 slot 1 ≡ slot + 1
  next_slot = omega arith

  in_range :
      (q : ℕ) (b : SlotBlock)
      → get q (range_from (add64 slot 1) s.blocks) ≡ some b
      → (get q s.blocks ≡ some b) × (slot < q)
  in_range q b e = ground (arith, get-range_from (add64 slot 1) q s.blocks, next_slot)

  doomed-Descends : (q : ℕ) → contains doomed q ≡ true → Descends s slot q
  unfolding doomed
  doomed-Descends =
      doomed_from-Descends s v slot (slot ∷ []) (range_from (add64 slot 1) s.blocks)
        (λ q e. self (ground arith)) (λ q b e. (in_range q b e).0)
        (range_from-IsSorted (add64 slot 1) s.blocks v.sorted)

  Descends-doomed : (q : ℕ) → Descends s slot q → contains doomed q ≡ true
  unfolding doomed
  Descends-doomed =
      doomed_from-all s v slot (slot ∷ []) (range_from (add64 slot 1) s.blocks) start
        (λ q b e. (in_range q b e).0) (range_from-IsSorted (add64 slot 1) s.blocks v.sorted)
        (range_from-Above_of_lt slot (add64 slot 1) s.blocks (omega (arith, next_slot)))
    where
      start :
          (q : ℕ)
          → Descends s slot q
          → get q (range_from (add64 slot 1) s.blocks) ≡ none
          → contains (slot ∷ []) q ≡ true
      start q (self e) out = ground arith
      start q (child b p found link d) out =
          let lt = Descends-le s v slot q (child b p found link d) in
          ground (arith, get-range_from (add64 slot 1) q s.blocks, next_slot)

  -- A conflict removes exactly the descendants of its slot, and leaves the rest as it was.
  pub conflict-IsCut : IsCut s slot (conflict s slot)
  unfolding conflict doomed
  conflict-IsCut = record {
    valid = record {
      sorted = remove_all-IsSorted doomed s.blocks v.sorted;
      keyed = λ q b e. ground (arith, get-remove_all doomed q s.blocks, v.keyed q b);
    };
    anchor = refl;
    hidden = refl;
    kept = λ q b e. ground (arith, get-remove_all doomed q s.blocks);
    gone = λ q d. rw (get-remove_all doomed q s.blocks, Descends-doomed q d) refl;
    stays = λ q out. elim (Bool-cases (contains doomed q)) [
      | inl hit ↦ absurd (out (doomed-Descends q hit))
      | inr miss ↦ rw (get-remove_all doomed q s.blocks, miss) refl
    ];
  }
