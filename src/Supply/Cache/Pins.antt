-- ===== src/Supply/Cache/Pins.antt =====
-- The count of pinned entries that the cache maintains, and what a sweep keeps.
use cloudbreak.Prelude.{
  ℕ, ◌+◌, ◌≤◌, ◌<◌, ◌≡◌, refl, sym, ◌∙◌, inl, inr, Bool, true, false, ◌||◌, Option, none, some,
  List, [], ◌∷◌, arith, ltb, leb, ◌==◌, if◌then◌else◌, Option-cases, Bool-cases, contains, length,
}
use cloudbreak.Prelude.Word.{u64_mod, add64}
use cloudbreak.OrdMap.{
  OrdMap, get, insert, remove, IsSorted, Above, get-Above, get-insert, insert-IsSorted,
  remove-IsSorted,
}
use cloudbreak.OrdMap.Range.{remove-Above_eq}
use cloudbreak.Supply.Cache.{
  Entry, HotAccounts, PrevRow, forget, store, write_back, probe_entry, probe, apply_miss,
  is_unpinned, count_unpinned, pin_entry, pin_all, pin_failed, retain_from,
}

abbrev pub weight : Bool → ℕ
weight true = 1
weight false = 0

abbrev pub count_pinned : OrdMap Entry → ℕ
count_pinned [] = 0
count_pinned ((_, e) ∷ m) = weight e.pinned + count_pinned m

abbrev weight_of : Option Entry → ℕ
weight_of none = 0
weight_of (some e) = weight e.pinned

count_pinned-insert :
    (k : ℕ) (e : Entry) (m : OrdMap Entry)
    → IsSorted m
    → count_pinned (insert k e m) + weight_of (get k m) ≡ count_pinned m + weight e.pinned
unfolding insert get
count_pinned-insert k e [] h = omega arith
count_pinned-insert k e ((j, d) ∷ m) h =
    ground (arith, count_pinned-insert k e m h.1, get-Above j k m h.0)

count_pinned-remove :
    (k : ℕ) (m : OrdMap Entry)
    → IsSorted m
    → count_pinned (remove k m) + weight_of (get k m) ≡ count_pinned m
unfolding remove get
count_pinned-remove k [] h = omega arith
count_pinned-remove k ((j, d) ∷ m) h =
    ground (arith, count_pinned-remove k m h.1, remove-Above_eq j m h.0, get-Above j k m h.0)

-- The map is sorted, and the maintained count is that of the pinned entries.
pub record IsCounted (c : HotAccounts) : Type 0 where
  pub sorted : IsSorted c.entries
  pub counted : c.pinned_count ≡ count_pinned c.entries
  pub small : c.pinned_count < u64_mod

module _ (stake_program : ℕ) {c : HotAccounts} (h : IsCounted c) (k lamports slot owner : ℕ) where
  store-IsCounted : IsCounted (store c k lamports slot)
  unfolding store
  store-IsCounted = elim (Option-cases (get k c.entries)) [
    | inl e ↦
        let n : Entry = record { lamports = lamports; slot = slot; pinned = false } in
        rw (e, store)
          (record {
            sorted = insert-IsSorted k n c.entries h.sorted;
            counted = ground (arith, count_pinned-insert k n c.entries h.sorted, h.counted);
            small = h.small;
          })
    | inr (d, e) ↦ elim (Bool-cases (leb d.slot slot)) [
      | inr older ↦ rw (e, store, older) h
      | inl newer ↦
          let n : Entry = record { lamports = lamports; slot = slot; pinned = d.pinned } in
          rw (e, store, newer)
            (record {
              sorted = insert-IsSorted k n c.entries h.sorted;
              counted = ground (arith, count_pinned-insert k n c.entries h.sorted, h.counted);
              small = h.small;
            })
    ]
  ]

  forget-IsCounted : IsCounted (forget c k)
  unfolding forget
  forget-IsCounted = elim (Option-cases (get k c.entries)) [
    | inl e ↦ rw (e, forget) h
    | inr (d, e) ↦ elim (Bool-cases d.pinned) [
      | inl pinned ↦
          rw (e, forget, pinned)
            (record {
              sorted = remove-IsSorted k c.entries h.sorted;
              counted =
                  ground (arith, count_pinned-remove k c.entries h.sorted, h.counted, h.small);
              small = ground (arith, h.small);
            })
      | inr loose ↦
          rw (e, forget, loose)
            (record {
              sorted = remove-IsSorted k c.entries h.sorted;
              counted = ground (arith, count_pinned-remove k c.entries h.sorted, h.counted);
              small = h.small;
            })
    ]
  ]

  write_back-IsCounted : IsCounted (write_back stake_program c k lamports slot owner)
  unfolding write_back
  write_back-IsCounted = elim (Bool-cases (owner == stake_program)) [
    | inl e ↦ rw e forget-IsCounted
    | inr e ↦ rw e store-IsCounted
  ]

module _ (stake_program : ℕ) {c : HotAccounts} (h : IsCounted c) (k lamports slot owner : ℕ) where
  -- A probe keeps the count.
  pub probe-IsCounted :
      (zero_prev : Bool) → IsCounted (probe stake_program c k lamports slot owner zero_prev).0
  unfolding probe probe_entry
  probe-IsCounted true = write_back-IsCounted stake_program h k lamports slot owner
  probe-IsCounted false = elim (Option-cases (get k c.entries)) [
    | inl e ↦ rw (e, probe_entry) h
    | inr (d, e) ↦ elim (Bool-cases (ltb d.slot slot)) [
      | inl newer ↦
          rw (e, probe_entry, newer) (write_back-IsCounted stake_program h k lamports slot owner)
      | inr older ↦ rw (e, probe_entry, older) h
    ]
  ]

  -- So does a miss that is resolved.
  pub apply_miss-IsCounted :
      (prev : PrevRow) → IsCounted (apply_miss stake_program c k lamports slot owner prev).0
  unfolding apply_miss
  apply_miss-IsCounted none = write_back-IsCounted stake_program h k lamports slot owner
  apply_miss-IsCounted (some (l, s)) = elim (Bool-cases (ltb s slot)) [
    | inl older ↦ rw older (write_back-IsCounted stake_program h k lamports slot owner)
    | inr newer ↦ rw newer (write_back-IsCounted stake_program h k l s owner)
  ]

retain_from-Above : (cutoff a : ℕ) (m : OrdMap Entry) → Above a m → Above a (retain_from cutoff m)
unfolding retain_from
retain_from-Above cutoff a [] h = tt
retain_from-Above cutoff a ((k, e) ∷ m) h = ground (arith, retain_from-Above cutoff a m h.1)

retain_from-IsSorted :
    (cutoff : ℕ) (m : OrdMap Entry) → IsSorted m → IsSorted (retain_from cutoff m)
unfolding retain_from
retain_from-IsSorted cutoff [] h = tt
retain_from-IsSorted cutoff ((k, e) ∷ m) h =
    ground (arith, retain_from-IsSorted cutoff m h.1, retain_from-Above cutoff k m h.0)

count_pinned-retain :
    (cutoff : ℕ) (m : OrdMap Entry) → count_pinned (retain_from cutoff m) ≡ count_pinned m
unfolding retain_from
count_pinned-retain cutoff [] = refl
count_pinned-retain cutoff ((k, e) ∷ m) = ground (arith, count_pinned-retain cutoff m)

-- The entry, if the sweep at the cutoff keeps it.
abbrev kept_of : ℕ → Option Entry → Option Entry
kept_of cutoff none = none
kept_of cutoff (some e) = if e.pinned || leb cutoff e.slot then some e else none

get-retain_from :
    (cutoff k : ℕ) (m : OrdMap Entry)
    → IsSorted m
    → get k (retain_from cutoff m) ≡ kept_of cutoff (get k m)
unfolding retain_from get
get-retain_from cutoff k [] h = refl
get-retain_from cutoff k ((j, e) ∷ m) h = ground (
  arith,
  get-retain_from cutoff k m h.1,
  get-Above j k m h.0,
  get-Above j k (retain_from cutoff m) (retain_from-Above cutoff j m h.0),
)

-- What a sweep leaves: the count is kept, no pinned entry goes, nothing changes, and no entry goes
-- while an unpinned one that is older stays.
pub record IsSwept (c c' : HotAccounts) : Type 0 where
  pub counted : IsCounted c'
  pub pinned :
      (k : ℕ) (e : Entry) → get k c.entries ≡ some e → e.pinned ≡ true → get k c'.entries ≡ some e
  pub same : (k : ℕ) (e : Entry) → get k c'.entries ≡ some e → get k c.entries ≡ some e
  pub oldest :
      (j k : ℕ) (d e : Entry)
      → get j c'.entries ≡ some d
      → d.pinned ≡ false
      → get k c.entries ≡ some e
      → d.slot ≤ e.slot
      → get k c'.entries ≡ some e

-- No account stands twice in the list.
abbrev pub Distinct : List ℕ → Type 0
Distinct [] = Unit
Distinct (k ∷ ks) = (contains ks k ≡ false) × Distinct ks

count_unpinned-le : (m : OrdMap Entry) (ks : List ℕ) → count_unpinned m ks ≤ length ks
unfolding count_unpinned
count_unpinned-le m [] = omega arith
count_unpinned-le m (k ∷ ks) = ground (arith, count_unpinned-le m ks)

pub pin_entry-get :
    (m : OrdMap Entry) (k j : ℕ) → (j == k) ≡ false → get j (pin_entry m k (get k m)) ≡ get j m
pin_entry-get m k j ne = elim (Option-cases (get k m)) [
  | inl e ↦ rw e refl
  | inr (d, e) ↦ rw e (ground (arith, get-insert k j (record d { pinned = true }) m))
]

count_unpinned-pin_entry :
    (m : OrdMap Entry) (k : ℕ) (ks : List ℕ)
    → contains ks k ≡ false
    → count_unpinned (pin_entry m k (get k m)) ks ≡ count_unpinned m ks
unfolding count_unpinned
count_unpinned-pin_entry m k [] out = refl
count_unpinned-pin_entry m k (j ∷ ks) out =
    ground (arith, count_unpinned-pin_entry m k ks, pin_entry-get m k j)

pub count_pinned-pin_entry :
    (m : OrdMap Entry) (k : ℕ)
    → IsSorted m
    → IsSorted (pin_entry m k (get k m))
      × (count_pinned (pin_entry m k (get k m))
          ≡ count_pinned m + (if is_unpinned m k then 1 else 0))
count_pinned-pin_entry m k h = elim (Option-cases (get k m)) [
  | inl e ↦ rw e (h, omega arith)
  | inr (d, e) ↦
      let n : Entry = record d { pinned = true } in
      let count = count_pinned-insert k n m h in rw e (insert-IsSorted k n m h, ground arith)
]

count_pinned-pin_all :
    (m : OrdMap Entry) (ks : List ℕ)
    → IsSorted m
    → Distinct ks
    → IsSorted (pin_all m ks) × (count_pinned (pin_all m ks) ≡ count_pinned m + count_unpinned m ks)
unfolding pin_all count_unpinned
count_pinned-pin_all m [] h d = (h, omega arith)
count_pinned-pin_all m (k ∷ ks) h d =
    let m' = pin_entry m k (get k m) in
    let (sorted, one) = count_pinned-pin_entry m k h in
    let (sorted', rest) = count_pinned-pin_all m' ks sorted d.1 in
    (sorted', omega (arith, count_unpinned-pin_entry m k ks d.0))

module _ (c : HotAccounts) (h : IsCounted c) (slot : ℕ) where
  pub retain_from-IsSwept :
      (cutoff : ℕ)
      → IsSwept c (record c { entries = retain_from cutoff c.entries; last_sweep_slot = slot })
  retain_from-IsSwept cutoff =
      let law = λ (k : ℕ). get-retain_from cutoff k c.entries h.sorted in
      record {
        counted = record {
          sorted = retain_from-IsSorted cutoff c.entries h.sorted;
          counted = h.counted ∙ sym (count_pinned-retain cutoff c.entries);
          small = h.small;
        };
        pinned = λ k e g p. ground (arith, law k);
        same = λ k e g. ground (arith, law k);
        oldest = λ j k d e g p g' le. ground (arith, law k, law j);
      }

  pub idle-IsSwept : IsSwept c (record c { last_sweep_slot = slot })
  idle-IsSwept = record {
    counted = record { sorted = h.sorted; counted = h.counted; small = h.small };
    pinned = λ k e g p. g;
    same = λ k e g. g;
    oldest = λ j k d e g p g' le. g';
  }

  -- Pinning accounts that are all different keeps the count, whether or not the cap refuses.
  pub pin_failed-IsCounted :
      (pubkeys : List ℕ)
      → Distinct pubkeys
      → c.pinned_count + length pubkeys < u64_mod
      → IsCounted (pin_failed c pubkeys).0
  unfolding pin_failed
  pin_failed-IsCounted pubkeys d small =
      let few = count_unpinned-le c.entries pubkeys in
      let count = count_pinned-pin_all c.entries pubkeys h.sorted d in
      let fits : add64 c.pinned_count (count_unpinned c.entries pubkeys)
          ≡ c.pinned_count + count_unpinned c.entries pubkeys =
        omega arith in
      elim (Bool-cases
        (ltb c.fail_pin_cap (add64 c.pinned_count (count_unpinned c.entries pubkeys)))) [
          | inl over ↦ rw (over, pin_failed) h
          | inr room ↦
              rw (room, pin_failed)
                (record {
                  sorted = count.0;
                  counted = fits ∙ omega (arith, h.counted, count.1);
                  small = rw fits (omega arith);
                })
        ]
