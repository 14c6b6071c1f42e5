-- ===== src/Cleanup/Pending/Owed.antt =====
-- No key is lost: the highest cutoff that the queue owes a key, over enqueues, drains and failures.
use cloudbreak.Prelude.{
  ℕ, max, ◌≡◌, refl, sym, ap, ◌∙◌, inl, inr, Bool, true, false, Option, none, some, List, [], ◌∷◌,
  ◌++◌, arith, if◌then◌else◌, Option-cases, Bool-cases, take,
}
use cloudbreak.OrdMap
use cloudbreak.OrdMap.{
  OrdMap, insert, remove, IsSorted, Above, insert-IsSorted, remove-IsSorted, get-Above,
}
use cloudbreak.OrdMap.Range.{remove-Above_eq}
use cloudbreak.Cleanup.{
  CleanupKey, KeyMap, upsert_all, omax, omax_assoc, omax_comm, omax-none, omax_left_comm,
  owed_items, owed_items-upsert_all, key_eq,
}
use cloudbreak.Cleanup.Pending
use cloudbreak.Cleanup.Pending.{
  Taken, is_empty, Bucket, Pending, new, bucket_at, merge_items, noted, Merged, merge_slot,
  merge_slots, split_routed, split_unrouted, insert_sorted, sort_by_key, keys_of, take_window,
  finish, reinsert, note_drain, begin_drain, end_drain,
}

-- The highest cutoff that the queued slots hold for a key.
abbrev pub owed_slots : CleanupKey → OrdMap Bucket → Option ℕ
owed_slots key [] = none
owed_slots key ((s, b) ∷ m) = omax (owed_items key b.keys) (owed_slots key m)

abbrev pub owed : CleanupKey → Pending → Option ℕ
owed key p = owed_slots key p.slots

abbrev pub owed_taken : CleanupKey → Taken → Option ℕ
owed_taken key t = omax (owed_items key t.routed) (owed_items key t.unrouted)

abbrev owed_bucket : CleanupKey → Option Bucket → Option ℕ
owed_bucket key none = none
owed_bucket key (some b) = owed_items key b.keys

module _ (key : CleanupKey) where
  -- A slot whose bucket gains `o` gains the queue `o`.
  owed_slots-insert :
      (slot : ℕ) (b : Bucket) (o : Option ℕ) (m : OrdMap Bucket)
      → IsSorted m
      → owed_items key b.keys ≡ omax (owed_bucket key (OrdMap.get slot m)) o
      → owed_slots key (insert slot b m) ≡ omax (owed_slots key m) o
  unfolding insert OrdMap.get
  owed_slots-insert slot b o [] h e = ground arith
  owed_slots-insert slot b o ((s, c) ∷ m) h e = ground (
    arith,
    owed_slots-insert slot b o m h.1,
    get-Above s slot m h.0,
    omax_assoc (owed_items key c.keys) (owed_slots key m) o,
    omax_assoc (owed_items key c.keys) o (owed_slots key m),
    omax_comm o (owed_slots key m),
    omax_comm o (omax (owed_items key c.keys) (owed_slots key m)),
  )

  owed_slots-remove :
      (slot : ℕ) (m : OrdMap Bucket)
      → IsSorted m
      → omax (owed_bucket key (OrdMap.get slot m)) (owed_slots key (remove slot m))
        ≡ owed_slots key m
  unfolding remove OrdMap.get
  owed_slots-remove slot [] h = refl
  owed_slots-remove slot ((s, c) ∷ m) h = ground (
    arith,
    owed_slots-remove slot m h.1,
    remove-Above_eq s m h.0,
    omax_left_comm (owed_bucket key (OrdMap.get slot m)) (owed_items key c.keys)
        (owed_slots key (remove slot m)),
  )

  owed_items-append :
      (xs ys : KeyMap) → owed_items key (xs ++ ys) ≡ omax (owed_items key xs) (owed_items key ys)
  unfolding owed_items
  owed_items-append [] ys = refl
  owed_items-append ((k, c) ∷ xs) ys = ground (
    arith,
    owed_items-append xs ys,
    omax_assoc (if key_eq k key then some c else none) (owed_items key xs) (owed_items key ys),
  )

  owed_items-insert_sorted :
      (item : CleanupKey × ℕ) (m : KeyMap)
      → owed_items key (insert_sorted item m) ≡ owed_items key (item ∷ m)
  unfolding owed_items insert_sorted
  owed_items-insert_sorted (k, c) [] = refl
  owed_items-insert_sorted (k, c) ((j, d) ∷ m) = ground (
    arith,
    owed_items-insert_sorted (k, c) m,
    omax_left_comm (if key_eq k key then some c else none) (if key_eq j key then some d else none)
        (owed_items key m),
  )

  owed_items-sort : (m : KeyMap) → owed_items key (sort_by_key m) ≡ owed_items key m
  unfolding owed_items sort_by_key
  owed_items-sort [] = refl
  owed_items-sort ((k, c) ∷ m) =
      ground (arith, owed_items-sort m, owed_items-insert_sorted (k, c) (sort_by_key m))

  owed_items-split :
      (m : KeyMap)
      → omax (owed_items key (split_routed m)) (owed_items key (split_unrouted m))
        ≡ owed_items key m
  unfolding owed_items split_routed split_unrouted
  owed_items-split [] = refl
  owed_items-split ((k, c) ∷ m) = ground (
    arith,
    owed_items-split m,
    omax_assoc (if key_eq k key then some c else none) (owed_items key (split_routed m))
        (owed_items key (split_unrouted m)),
    omax_left_comm (owed_items key (split_routed m)) (if key_eq k key then some c else none)
        (owed_items key (split_unrouted m)),
  )

  merge_slot-owed :
      (m : Merged) (slot : ℕ)
      → IsSorted m.slots
      → IsSorted (merge_slot m slot).slots
        × (omax
              (owed_items key (merge_slot m slot).merged)
              (owed_slots key (merge_slot m slot).slots)
            ≡ omax (owed_items key m.merged) (owed_slots key m.slots))
  unfolding merge_slot owed_items
  merge_slot-owed m slot h = elim (Option-cases (OrdMap.get slot m.slots)) [
    | inl e ↦ rw (e, merge_slot) (h, refl)
    | inr (b, e) ↦
        let add = owed_items-upsert_all key m.merged b.keys in
        let cut = owed_slots-remove slot m.slots h in
        let move =
          omax_assoc (owed_items key m.merged) (owed_items key b.keys)
            (owed_slots key (remove slot m.slots)) in
        rw (e, merge_slot) (remove-IsSorted slot m.slots h, ground arith)
  ]

  -- What the window has merged and what the queue still holds add up.
  merge_slots-owed :
      (m : Merged) (window : List ℕ)
      → IsSorted m.slots
      → IsSorted (merge_slots m window).slots
        × (omax
              (owed_items key (merge_slots m window).merged)
              (owed_slots key (merge_slots m window).slots)
            ≡ omax (owed_items key m.merged) (owed_slots key m.slots))
  unfolding merge_slots
  merge_slots-owed m [] h = (h, refl)
  merge_slots-owed m (slot ∷ window) h =
      let (sorted, same) = merge_slot-owed m slot h in
      let (s', same') = merge_slots-owed (merge_slot m slot) window sorted in (s', same' ∙ same)

is_empty-owed : (key : CleanupKey) (t : Taken) → is_empty t ≡ true → owed_taken key t ≡ none
unfolding owed_items
is_empty-owed key t e = ground arith

module _ (p : Pending) (h : IsSorted p.slots) (key : CleanupKey) where
  bucket_keys :
      (slot stamp : ℕ)
      → owed_items key (bucket_at slot stamp p.slots).keys
        ≡ owed_bucket key (OrdMap.get slot p.slots)
  unfolding bucket_at
  bucket_keys slot stamp = elim (Option-cases (OrdMap.get slot p.slots)) [
    | inl e ↦ rw (e, bucket_at) (unfold owed_items in refl)
    | inr (b, e) ↦ rw (e, bucket_at) refl
  ]

  -- Enqueueing raises what is owed by exactly the items.
  pub enqueue-owed :
      (slot : ℕ) (items : KeyMap)
      → IsSorted (Pending.enqueue p slot items).0.slots
        × (owed key (Pending.enqueue p slot items).0 ≡ omax (owed key p) (owed_items key items))
  unfolding Pending.enqueue
  enqueue-owed slot [] = (h, unfold owed_items in sym (omax-none (owed key p)))
  enqueue-owed slot (item ∷ items) =
      let stamp = max p.high_water slot in
      let bucket = bucket_at slot stamp p.slots in
      let b : Bucket = record bucket { keys = upsert_all bucket.keys (item ∷ items) } in
      let before = bucket_keys slot stamp in
      let add = owed_items-upsert_all key bucket.keys (item ∷ items) in
      (
        insert-IsSorted slot b p.slots h,
        owed_slots-insert key slot b (owed_items key (item ∷ items)) p.slots h (ground arith),
      )

  -- A window takes out exactly what the queue no longer owes.
  pub take_window-owed :
      IsSorted (take_window p).1.slots
      × (omax (owed_taken key (take_window p).0) (owed key (take_window p).1) ≡ owed key p)
  unfolding take_window
  take_window-owed =
      let start : Merged = record {
        slots = p.slots;
        merged = [];
        stamp = none;
        oldest_slot = none;
      } in
      let window = take p.interval_slots (keys_of p.slots) in
      let (sorted, same) = merge_slots-owed key start window h in
      let m = merge_slots start window in
      let sort = owed_items-sort key (split_routed m.merged) in
      let split = owed_items-split key m.merged in (sorted, unfold owed_items in ground arith)

  -- A failed window goes back into the queue.
  pub reinsert-owed :
      (taken : Taken)
      → IsSorted (reinsert p taken).slots
        × (owed key (reinsert p taken) ≡ omax (owed key p) (owed_taken key taken))
  unfolding reinsert
  reinsert-owed taken =
      let items = taken.routed ++ taken.unrouted in
      let bucket = bucket_at taken.oldest_slot taken.oldest_stamp p.slots in
      let b : Bucket = record bucket { keys = upsert_all bucket.keys items } in
      let before = bucket_keys taken.oldest_slot taken.oldest_stamp in
      let add = owed_items-upsert_all key bucket.keys items in
      let both = owed_items-append key taken.routed taken.unrouted in
      let added =
        owed_slots-insert key taken.oldest_slot b (owed_taken key taken) p.slots h (ground arith) in
      elim (Bool-cases (is_empty taken)) [
        | inl none_taken ↦
            let owes = is_empty-owed key taken none_taken in
            rw none_taken (h, sym (ap (omax (owed key p)) owes ∙ omax-none (owed key p)))
        | inr some_taken ↦ rw some_taken (insert-IsSorted taken.oldest_slot b p.slots h, added)
      ]

-- An enqueue may come at any time, also while a drain waits.
pub data Op : Type 0 where
  enqueue : ℕ → KeyMap → Op
  begins : Op
  ends : Bool → Op

-- The queue, and the window that a drain holds.
pub record Draining : Type 0 where
  pub queue : Pending
  pub held : Option Taken

abbrev pub begun : Pending × Option Taken → Draining
begun (queue, held) = record { queue = queue; held = held }

-- The drainer takes its next window once the one it holds is done.
unfoldable pub step : Draining → Op → Draining
unfolding Pending.enqueue begin_drain end_drain
step s (Op.enqueue slot items) = record s { queue = (Pending.enqueue s.queue slot items).0 }
step s begins = elim s.held [ none ↦ begun (begin_drain s.queue) | some taken ↦ s ]
step s (ends drained) = elim s.held [
  | none ↦ s
  | some taken ↦ record { queue = (end_drain drained s.queue taken).0; held = none }
]

unfoldable pub run : Draining → List Op → Draining
unfolding step
run s [] = s
run s (op ∷ ops) = run (step s op) ops

abbrev pub owed_held : CleanupKey → Option Taken → Option ℕ
owed_held key none = none
owed_held key (some taken) = owed_taken key taken

-- What a step has deleted of a key: the whole window of a drain that succeeds.
abbrev pub deleted_by : CleanupKey → Option Taken → Op → Option ℕ
deleted_by key held (ends true) = owed_held key held
deleted_by key held _ = none

-- The highest cutoff below which a run has deleted a key's rows.
pub deleted : CleanupKey → Draining → List Op → Option ℕ
deleted key s [] = none
deleted key s (op ∷ ops) = omax (deleted_by key s.held op) (deleted key (step s op) ops)

-- What a step hands in for a key.
abbrev pub handed_by : CleanupKey → Op → Option ℕ
handed_by key (Op.enqueue slot items) = owed_items key items
handed_by key _ = none

-- The highest cutoff that a run has been handed for a key.
pub handed : CleanupKey → List Op → Option ℕ
handed key [] = none
handed key (op ∷ ops) = omax (handed_by key op) (handed key ops)

-- What the queue and the drain hold of a key.
abbrev pub waiting : CleanupKey → Draining → Option ℕ
waiting key s = omax (owed_held key s.held) (owed key s.queue)

module _ (key : CleanupKey) where
  begin_drain-owed :
      (p : Pending)
      → IsSorted p.slots
      → IsSorted (begin_drain p).0.slots × (waiting key (begun (begin_drain p)) ≡ owed key p)
  begin_drain-owed p h =
      let p' = note_drain p in
      let taken = (take_window p').0 in
      let (sorted, same) = take_window-owed p' (unfold note_drain in h) key in
      let noted_same : owed key p' ≡ owed key p = unfold note_drain in refl in
      let nothing = is_empty-owed key taken in
      elim (Bool-cases (is_empty taken)) [
        | inl e ↦ unfold begin_drain finish in ground (arith, nothing e)
        | inr e ↦ unfold begin_drain finish in ground arith
      ]

  end_drain-owed :
      (drained : Bool) (p : Pending) (taken : Taken)
      → IsSorted p.slots
      → IsSorted (end_drain drained p taken).0.slots
        × (omax
              (deleted_by key (some taken) (ends drained))
              (owed key (end_drain drained p taken).0)
            ≡ omax (owed_taken key taken) (owed key p))
  unfolding end_drain finish
  end_drain-owed true p taken h = (h, refl)
  end_drain-owed false p taken h =
      let (sorted, back) = reinsert-owed p h key taken in
      (sorted, back ∙ omax_comm (owed key p) (owed_taken key taken))

  step-owed :
      (p : Pending) (held : Option Taken) (op : Op)
      → IsSorted p.slots
      → IsSorted (step (record { queue = p; held = held }) op).queue.slots
        × (omax (deleted_by key held op) (waiting key (step (record { queue = p; held = held }) op))
            ≡ omax (omax (owed_held key held) (owed key p)) (handed_by key op))
  unfolding step
  step-owed p held (Op.enqueue slot items) h =
      let (sorted, same) = enqueue-owed p h key slot items in
      (
        sorted,
        ap (omax (owed_held key held)) same
            ∙ sym (omax_assoc (owed_held key held) (owed key p) (owed_items key items)),
      )
  step-owed p none begins h =
      let (sorted, same) = begin_drain-owed p h in (sorted, same ∙ sym (omax-none (owed key p)))
  step-owed p (some taken) begins h =
      (h, sym (omax-none (omax (owed_taken key taken) (owed key p))))
  step-owed p none (ends true) h = (h, sym (omax-none (owed key p)))
  step-owed p none (ends false) h = (h, sym (omax-none (owed key p)))
  step-owed p (some taken) (ends drained) h =
      let (sorted, same) = end_drain-owed drained p taken h in
      (sorted, same ∙ sym (omax-none (omax (owed_taken key taken) (owed key p))))

  run-owed-from :
      (s : Draining) (ops : List Op)
      → IsSorted s.queue.slots
      → omax (deleted key s ops) (waiting key (run s ops)) ≡ omax (waiting key s) (handed key ops)
  unfolding run deleted handed
  run-owed-from s [] h = sym (omax-none (waiting key s))
  run-owed-from s (op ∷ ops) h =
      let (sorted, same) = step-owed s.queue s.held op h in
      omax_assoc (deleted_by key s.held op) (deleted key (step s op) ops)
        (waiting key (run (step s op) ops))
      ∙ ap (omax (deleted_by key s.held op)) (run-owed-from (step s op) ops sorted)
      ∙ sym (omax_assoc (deleted_by key s.held op) (waiting key (step s op)) (handed key ops))
      ∙ ap (λ o. omax o (handed key ops)) same
      ∙ omax_assoc (waiting key s) (handed_by key op) (handed key ops)

  -- Over any run of a new queue, with enqueues also while a drain waits and with drains that succeed or
  -- fail, what was deleted of a key, what a drain holds of it and what is still queued make up exactly what
  -- was handed in: no key is lost and no cutoff exceeded.
  pub run-owed :
      (interval_slots : ℕ) (ops : List Op)
      → omax
          (deleted key (record { queue = Pending.handle interval_slots; held = none }) ops)
          (waiting key (run (record { queue = Pending.handle interval_slots; held = none }) ops))
        ≡ handed key ops
  run-owed interval_slots ops =
      unfold Pending.handle in
      run-owed-from (record { queue = Pending.handle interval_slots; held = none }) ops tt
