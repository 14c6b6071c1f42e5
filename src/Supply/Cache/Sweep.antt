-- ===== src/Supply/Cache/Sweep.antt =====
-- A sweep with a positive cap: it does not panic, and how much it keeps.
use cloudbreak.Prelude.{
  ℕ, zero, suc, ◌+◌, ◌-◌, ◌/◌, ◌≤◌, ◌<◌, ◌≡◌, refl, inl, inr, ◌||◌, some, List, [], ◌∷◌, arith, leb,
  if◌then◌else◌, Bool-cases, length, length-keep-le, All, min,
}
use cloudbreak.Prelude.Word.{u64_mod, sub64}
use cloudbreak.OrdMap.{OrdMap}
use cloudbreak.Supply.Cache.{
  Entry, HotAccounts, hot_len, unpinned_slots, insert_slot, sort_slots, nth_of, select_nth,
  retain_from, sweep,
}
use cloudbreak.Supply.Cache.Pins.{
  count_pinned, IsCounted, IsSwept, retain_from-IsSwept, idle-IsSwept,
}

count_ge : ℕ → List ℕ → ℕ
count_ge x [] = 0
count_ge x (s ∷ ss) = (if leb x s then 1 else 0) + count_ge x ss

abbrev Ascends : List ℕ → Type 0
Ascends [] = Unit
Ascends (s ∷ ss) = All (λ t. s ≤ t) ss × Ascends ss

count_ge-insert : (x s : ℕ) (ss : List ℕ) → count_ge x (insert_slot s ss) ≡ count_ge x (s ∷ ss)
unfolding count_ge insert_slot
count_ge-insert x s [] = refl
count_ge-insert x s (t ∷ ss) = ground (arith, count_ge-insert x s ss)

count_ge-sort : (x : ℕ) (ss : List ℕ) → count_ge x (sort_slots ss) ≡ count_ge x ss
unfolding count_ge sort_slots
count_ge-sort x [] = refl
count_ge-sort x (s ∷ ss) = ground (arith, count_ge-insert x s (sort_slots ss), count_ge-sort x ss)

length-insert : (s : ℕ) (ss : List ℕ) → length (insert_slot s ss) ≡ suc (length ss)
unfolding insert_slot
length-insert s [] = refl
length-insert s (t ∷ ss) = ground (arith, length-insert s ss)

length-sort : (ss : List ℕ) → length (sort_slots ss) ≡ length ss
unfolding sort_slots
length-sort [] = refl
length-sort (s ∷ ss) = omega (arith, length-insert s (sort_slots ss), length-sort ss)

All-le_trans : (a b : ℕ) (ss : List ℕ) → a ≤ b → All (λ t. b ≤ t) ss → All (λ t. a ≤ t) ss
All-le_trans a b [] le h = tt
All-le_trans a b (s ∷ ss) le h = (omega (arith, h.0), All-le_trans a b ss le h.1)

All-insert :
    (a s : ℕ) (ss : List ℕ) → a ≤ s → All (λ t. a ≤ t) ss → All (λ t. a ≤ t) (insert_slot s ss)
unfolding insert_slot
All-insert a s [] le h = (le, tt)
All-insert a s (t ∷ ss) le h = ground (arith, All-insert a s ss le h.1)

insert-Ascends : (s : ℕ) (ss : List ℕ) → Ascends ss → Ascends (insert_slot s ss)
unfolding insert_slot
insert-Ascends s [] h = (tt, tt)
insert-Ascends s (t ∷ ss) h = elim (Bool-cases (leb s t)) [
  | inl le ↦ rw (le) ((ground arith, All-le_trans s t ss (ground arith) h.0), h)
  | inr gt ↦ rw (gt) (All-insert t s ss (ground arith) h.0, insert-Ascends s ss h.1)
]

sort-Ascends : (ss : List ℕ) → Ascends (sort_slots ss)
unfolding sort_slots
sort-Ascends [] = tt
sort-Ascends (s ∷ ss) = insert-Ascends s (sort_slots ss) (sort-Ascends ss)

count_ge-All : (x : ℕ) (ss : List ℕ) → All (λ t. x ≤ t) ss → count_ge x ss ≡ length ss
unfolding count_ge
count_ge-All x [] h = refl
count_ge-All x (s ∷ ss) h = ground (arith, count_ge-All x ss h.1, h.0)

-- From its place on, the values of an ascending list are at least the one that stands there.
nth_of-count_ge :
    (ss : List ℕ) (i x : ℕ) → Ascends ss → nth_of ss i ≡ some x → length ss ≤ i + count_ge x ss
unfolding count_ge
nth_of-count_ge [] i x h e = omega arith
nth_of-count_ge (s ∷ ss) zero x h e = ground (arith, count_ge-All s ss h.0)
nth_of-count_ge (s ∷ ss) (suc i) x h e = ground (arith, nth_of-count_ge ss i x h.1 e)

nth_of-some : (ss : List ℕ) (i : ℕ) → i < length ss → (x : ℕ) × (nth_of ss i ≡ some x)
nth_of-some [] i lt = absurd (omega arith)
nth_of-some (s ∷ ss) zero lt = (s, refl)
nth_of-some (s ∷ ss) (suc i) lt = nth_of-some ss i (omega arith)

length-unpinned_slots : (m : OrdMap Entry) → length (unpinned_slots m) + count_pinned m ≡ length m
length-unpinned_slots [] = refl
length-unpinned_slots ((k, e) ∷ m) = ground (arith, length-unpinned_slots m)

unpinned_slots-retain :
    (cutoff : ℕ) (m : OrdMap Entry)
    → length (unpinned_slots (retain_from cutoff m)) ≡ count_ge cutoff (unpinned_slots m)
unfolding retain_from count_ge
unpinned_slots-retain cutoff [] = refl
unpinned_slots-retain cutoff ((k, e) ∷ m) = ground (arith, unpinned_slots-retain cutoff m)

sub64_exact : (a b : ℕ) → b ≤ a → a < u64_mod → sub64 a b ≡ a - b
sub64_exact a b le lt = ground arith

length-retain_from : (cutoff : ℕ) (m : OrdMap Entry) → length (retain_from cutoff m) ≤ length m
unfolding retain_from
length-retain_from cutoff m = length-keep-le (λ e. (e.1).pinned || leb cutoff (e.1).slot) m

-- With a positive cap and a true count of pins a sweep returns. It keeps every pinned entry and the
-- newest of the others, at least nine tenths of the cap of them if there were more.
pub sweep_total :
    (c : HotAccounts) (slot : ℕ)
    → IsCounted c
    → 0 < c.cap
    → length c.entries < u64_mod
    → (c' : HotAccounts) × (evicted : ℕ) × (sweep c slot ≡ some (c', evicted))
      × IsSwept c c'
      × (evicted + length c'.entries ≡ length c.entries)
      × (min (c.cap - c.cap / 10) (length (unpinned_slots c.entries))
          ≤ length (unpinned_slots c'.entries))
unfolding sweep select_nth
sweep_total c slot h pos small =
    let hot = length-unpinned_slots c.entries in
    let target = c.cap - c.cap / 10 in
    let slots = unpinned_slots c.entries in
    let counted = h.counted in
    let exact : hot_len c ≡ length slots =
      unfold hot_len in
      omega
        (arith, sub64_exact (length c.entries) c.pinned_count (omega arith) small, hot, counted) in
    elim (Bool-cases (leb (hot_len c) target)) [
      | inl few ↦ (
        record c { last_sweep_slot = slot },
        0,
        rw (few) refl,
        idle-IsSwept c h slot,
        omega arith,
        omega arith,
      )
      | inr many ↦
          let above : target < length slots = ground (arith, exact, many) in
          let place : sub64 (length slots) target ≡ length slots - target =
            sub64_exact (length slots) target (omega (arith, above)) (omega (arith, hot, small)) in
          let inside : sub64 (length slots) target < length (sort_slots slots) =
            omega (arith, length-sort slots, place, above, pos) in
          let (cutoff, found) =
            nth_of-some (sort_slots slots) (sub64 (length slots) target) inside in
          let kept = retain_from cutoff c.entries in
          (
            record c { entries = kept; last_sweep_slot = slot },
            length c.entries - length kept,
            rw (many, found) refl,
            retain_from-IsSwept c h slot cutoff,
            omega (arith, length-retain_from cutoff c.entries),
            omega (
              arith,
              unpinned_slots-retain cutoff c.entries,
              count_ge-sort cutoff slots,
              nth_of-count_ge (sort_slots slots) (sub64 (length slots) target) cutoff
                  (sort-Ascends slots) found,
              length-sort slots,
              place,
              above,
            ),
          )
    ]
