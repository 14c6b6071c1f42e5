-- ===== src/Processed/Store/Prune.antt =====
-- Retention: what `prune` keeps, and its bounds.
use cloudbreak.Prelude.{
  ℕ, zero, suc, ◌+◌, ◌-◌, ◌≤◌, ◌<◌, ◌≡◌, refl, ap, inl, inr, Option, none, some, [], ◌∷◌, arith,
  ltb, if◌then◌else◌, min, Bool-cases, length,
}
use cloudbreak.Prelude.Word.{u64_mod, add64}
use cloudbreak.OrdMap.{
  OrdMap, get, remove, range_from, pop_below, IsSorted, get-remove, remove-IsSorted,
}
use cloudbreak.OrdMap.Range.{
  get-pop_below, pop_below-IsSorted, range_from-head, range_from-lowest, range_from-remove,
  length-range_from-le, length-le-span,
}
use cloudbreak.Processed.{
  Anchor, SlotBlock, max_slots_above_confirmed, retained_slots_below_confirmed,
}
use cloudbreak.Processed.Store.{BlockStore, evict_above, prune, anchor_slot}
use cloudbreak.Processed.Store.Chain.{IsValid}

-- What an eviction at or above `above` leaves of `m`.
record Evicted (above : ℕ) (m m' : OrdMap SlotBlock) : Type 0 where
  sorted : IsSorted m'
  capped :
      length (range_from above m') ≡ min (length (range_from above m)) max_slots_above_confirmed
  below : (q : ℕ) → q < above → get q m' ≡ get q m
  kept : (q : ℕ) (b : SlotBlock) → get q m' ≡ some b → get q m ≡ some b
  lowest :
      (q r : ℕ) (b c : SlotBlock)
      → above ≤ r
      → r ≤ q
      → get r m' ≡ some b
      → get q m ≡ some c
      → get q m' ≡ some c

module _ (above : ℕ) (m : OrdMap SlotBlock) (h : IsSorted m) where
  Evicted-stop : length (range_from above m) ≤ max_slots_above_confirmed → Evicted above m m
  Evicted-stop le = record {
    sorted = h;
    capped = omega arith;
    below = λ q lt. refl;
    kept = λ q b e. e;
    lowest = λ q r b c ar rq e e'. e';
  }

  module _ {k : ℕ} {v : SlotBlock} {rest m' : OrdMap SlotBlock}
      (first : range_from above m ≡ (k, v) ∷ rest)
      (many : max_slots_above_confirmed < length (range_from above m))
      (ev : Evicted above (remove k m) m') where
    Evicted-step : Evicted above m m'
    Evicted-step =
        let at = range_from-head above m k v rest first in
        let left = range_from-remove above m k v rest h first in
        let long = ap length first in
        let short = ap length left in
        record {
          sorted = ev.sorted;
          capped = omega (arith, ev.capped);
          below = λ q lt. ground (arith, ev.below q lt, get-remove k q m);
          kept = λ q b e. ground (arith, ev.kept q b e, get-remove k q m);
          lowest = λ q r b c ar rq e e'.
              let in_rest = ev.kept r b e in
              ground (
                arith,
                get-remove k r m,
                get-remove k q m,
                range_from-lowest above m k r v b rest h first ar,
                ev.lowest q r b c ar rq e,
              );
        }

evict_above-Evicted :
    (f above : ℕ) (m : OrdMap SlotBlock)
    → IsSorted m
    → length (range_from above m) ≤ f
    → Evicted above m (evict_above f above m)
unfolding evict_above
evict_above-Evicted zero above m h le = Evicted-stop above m h (omega arith)
evict_above-Evicted (suc f) above m h le =
    elim (Bool-cases (ltb max_slots_above_confirmed (length (range_from above m)))) [
      | inr few ↦ rw (few, evict_above) (Evicted-stop above m h (ground arith))
      | inl many ↦
          rw (many, evict_above)
            (go (range_from above m) refl (ground arith) (evict_above-Evicted f above))
    ]
  where
    go :
        (r : OrdMap SlotBlock)
        → range_from above m ≡ r
        → max_slots_above_confirmed < length (range_from above m)
        → ((n : OrdMap SlotBlock)
            → IsSorted n
            → length (range_from above n) ≤ f
            → Evicted above n (evict_above f above n))
        → Evicted above m (elim r [ [] ↦ m | lowest ∷ _ ↦ evict_above f above (remove lowest.0 m) ])
    go [] e many ih = absurd (omega (arith, ap length e))
    go ((k, v) ∷ rest) e many ih =
        let left = range_from-remove above m k v rest h e in
        Evicted-step above m h e many
          (ih (remove k m) (remove-IsSorted k m h) (omega (arith, ap length left, ap length e)))

-- The first slot that `prune` may keep, and the first slot that the cap counts.
abbrev pub floor_of : Option ℕ → ℕ
floor_of none = 0
floor_of (some a) = a - retained_slots_below_confirmed

abbrev pub above_of : Option ℕ → ℕ
above_of none = 0
above_of (some a) = add64 a 1

-- What `prune` makes of a store.
pub record IsPruned (s s' : BlockStore) : Type 0 where
  pub valid : IsValid s'
  pub conflict_until : s'.conflict_until ≡ s.conflict_until
  pub anchor : s'.anchor ≡ s.anchor
  -- nothing is made up
  pub kept : (q : ℕ) (b : SlotBlock) → get q s'.blocks ≡ some b → get q s.blocks ≡ some b
  -- nothing below the retained window is left
  pub window : (q : ℕ) (b : SlotBlock) → get q s'.blocks ≡ some b → floor_of (anchor_slot s) ≤ q
  -- the retained window below the cap's range is left whole
  pub retained :
      (q : ℕ)
      → floor_of (anchor_slot s) ≤ q
      → q < above_of (anchor_slot s)
      → get q s'.blocks ≡ get q s.blocks
  -- above the confirmed slot the cap holds
  pub capped : length (range_from (above_of (anchor_slot s)) s'.blocks) ≤ max_slots_above_confirmed
  -- and only the lowest slots go: a stored slot above a kept one is kept
  pub lowest :
      (q r : ℕ) (b c : SlotBlock)
      → above_of (anchor_slot s) ≤ r
      → r ≤ q
      → get r s'.blocks ≡ some b
      → get q s.blocks ≡ some c
      → get q s'.blocks ≡ some c

module _ (s : BlockStore) (v : IsValid s) where
  popped : Option ℕ → OrdMap SlotBlock
  popped none = s.blocks
  popped (some n) = pop_below (n - retained_slots_below_confirmed) s.blocks

  get-popped :
      (a : Option ℕ) (q : ℕ)
      → get q (popped a) ≡ (if ltb q (floor_of a) then none else get q s.blocks)
  unfolding popped
  get-popped none q = ground arith
  get-popped (some n) q = get-pop_below (n - retained_slots_below_confirmed) q s.blocks v.sorted

  popped-IsSorted : (a : Option ℕ) → IsSorted (popped a)
  unfolding popped
  popped-IsSorted none = v.sorted
  popped-IsSorted (some n) =
      pop_below-IsSorted (n - retained_slots_below_confirmed) s.blocks v.sorted

  evicted :
      (a : Option ℕ)
      → Evicted (above_of a) (popped a) (evict_above (length (popped a)) (above_of a) (popped a))
  evicted a =
      evict_above-Evicted (length (popped a)) (above_of a) (popped a) (popped-IsSorted a)
        (length-range_from-le (above_of a) (popped a))

  prune-evict :
      (a : Option ℕ)
      → anchor_slot s ≡ a
      → prune s ≡ record s { blocks = evict_above (length (popped a)) (above_of a) (popped a) }
  unfolding prune popped anchor_slot
  prune-evict none e = rw (e, prune) refl
  prune-evict (some n) e = rw (e, prune) refl

  pub prune-IsPruned : IsPruned s (prune s)
  prune-IsPruned =
      let a = anchor_slot s in
      let ev = evicted a in
      rw (prune-evict a refl) (record {
        valid = record {
          sorted = ev.sorted;
          keyed = λ q b e. ground (arith, ev.kept q b e, get-popped a q, v.keyed q b);
        };
        conflict_until = refl;
        anchor = refl;
        kept = λ q b e. ground (arith, ev.kept q b e, get-popped a q);
        window = λ q b e. ground (arith, ev.kept q b e, get-popped a q);
        retained = λ q lo hi. ground (arith, ev.below q hi, get-popped a q);
        capped = omega (arith, ev.capped);
        lowest = λ q r b c ar rq e e'.
            ground
              (arith, ev.kept r b e, get-popped a r, get-popped a q, ev.lowest q r b c ar rq e);
      })

  -- A pruned store holds at most the cap, the retained window and the confirmed slot.
  pub length-prune :
      (a : Anchor)
      → s.anchor ≡ some a
      → a.confirmed_slot + 1 < u64_mod
      → length (prune s).blocks ≤ max_slots_above_confirmed + retained_slots_below_confirmed + 1
  unfolding anchor_slot
  length-prune a e small =
      let p = prune-IsPruned in
      let at : anchor_slot s ≡ some a.confirmed_slot = rw e refl in
      let lo = a.confirmed_slot - retained_slots_below_confirmed in
      let hi : add64 a.confirmed_slot 1 ≡ a.confirmed_slot + 1 = omega arith in
      let capped : length (range_from (a.confirmed_slot + 1) (prune s).blocks)
          ≤ max_slots_above_confirmed =
        ground (arith, p.capped) in
      let span =
        length-le-span lo (a.confirmed_slot + 1) (prune s).blocks p.valid.sorted
          (λ q b g. ground (arith, p.window q b g)) in
      omega arith

  -- Before the first anchor a pruned store holds at most the cap.
  pub length-prune_unanchored :
      s.anchor ≡ none → length (prune s).blocks ≤ max_slots_above_confirmed
  unfolding anchor_slot
  length-prune_unanchored e =
      let p = prune-IsPruned in
      let at : anchor_slot s ≡ none = rw e refl in
      let capped : length (range_from 0 (prune s).blocks) ≤ max_slots_above_confirmed =
        ground (arith, p.capped) in
      let span = length-le-span 0 0 (prune s).blocks p.valid.sorted (λ q b g. omega arith) in
      omega arith
