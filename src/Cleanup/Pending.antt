-- ===== src/Cleanup/Pending.antt =====
-- crates/index/src/modules/cleanup/pending.rs: the keys that wait, for each finalized slot, and the
-- rounds of the drainer in drain.rs.
pub mod Owed
pub mod Progress
use cloudbreak.Prelude.{
  ℕ, zero, suc, ◌+◌, ◌-◌, max, min, Bool, true, false, not, ◌&&◌, ◌||◌, Option, none, some, List,
  [], ◌∷◌, ◌++◌, map, ltb, leb, ◌==◌, if◌then◌else◌, is_some, map_or, unwrap_or, length, take,
}
use cloudbreak.Prelude.Word.{saturating_add}
use cloudbreak.OrdMap
use cloudbreak.OrdMap.{OrdMap, insert, remove}
use cloudbreak.Cleanup.{CleanupKey, KeyMap, get, upsert, upsert_all, omax}

pub record Taken : Type 0 where
  pub routed : KeyMap
  pub unrouted : KeyMap
  pub oldest_stamp : ℕ
  pub oldest_slot : ℕ

abbrev pub is_empty : Taken → Bool
is_empty t = elim t.routed [ [] ↦ elim t.unrouted [ [] ↦ true | _ ∷ _ ↦ false ] | _ ∷ _ ↦ false ]

pub record Bucket : Type 0 where
  pub keys : KeyMap
  pub stamp : ℕ

pub record Pending : Type 0 where
  pub slots : OrdMap Bucket
  pub in_flight_stamp : Option ℕ
  pub high_water : ℕ
  pub enqueued_since_drain : ℕ
  pub last_drain_slot : Option ℕ
  pub interval_slots : ℕ

unfoldable pub new : ℕ → Pending
new interval_slots = record {
  slots = [];
  in_flight_stamp = none;
  high_water = 0;
  enqueued_since_drain = 0;
  last_drain_slot = none;
  interval_slots = interval_slots;
}

-- `entry(slot).or_insert_with(..)`, then the lower of the stamps.
unfoldable pub bucket_at : ℕ → ℕ → OrdMap Bucket → Bucket
bucket_at slot stamp slots =
    map_or (OrdMap.get slot slots) (record { keys = []; stamp = stamp })
      (λ b. record { keys = b.keys; stamp = min b.stamp stamp })

-- The keys of `items` that were in the bucket, or came before among the items.
unfoldable pub count_coalesced : KeyMap → KeyMap → ℕ
unfolding get upsert
count_coalesced m [] = 0
count_coalesced m ((key, cutoff) ∷ items) =
    (if is_some (get key m) then 1 else 0) + count_coalesced (upsert key cutoff m) items

-- The part of `enqueue` past the check for no items.
unfoldable pub merge_items : Pending → ℕ → KeyMap → Pending × ℕ
unfolding bucket_at count_coalesced upsert_all
merge_items p slot items =
    let bucket = bucket_at slot p.high_water p.slots in
    (
      record p {
        slots = insert slot (record bucket { keys = upsert_all bucket.keys items }) p.slots;
      },
      count_coalesced bucket.keys items,
    )

abbrev pub noted : Pending → ℕ → Pending
noted p slot = record p {
  high_water = max p.high_water slot;
  enqueued_since_drain = saturating_add p.enqueued_since_drain 1;
}

unfoldable pub enqueue : Pending → ℕ → KeyMap → Pending × ℕ
unfolding merge_items
enqueue p slot [] = (noted p slot, 0)
enqueue p slot (item ∷ items) = merge_items (noted p slot) slot (item ∷ items)

-- What the loop of `take_window` has merged so far.
pub record Merged : Type 0 where
  pub slots : OrdMap Bucket
  pub merged : KeyMap
  pub stamp : Option ℕ
  pub oldest_slot : Option ℕ

-- One round of that loop.
unfoldable pub merge_slot : Merged → ℕ → Merged
unfolding upsert_all
merge_slot m slot = elim (OrdMap.get slot m.slots) [
  | none ↦ m
  | some bucket ↦ record {
    slots = remove slot m.slots;
    merged = upsert_all m.merged bucket.keys;
    stamp = some (map_or m.stamp bucket.stamp (λ held. min held bucket.stamp));
    oldest_slot = some (unwrap_or m.oldest_slot slot);
  }
]

unfoldable pub merge_slots : Merged → List ℕ → Merged
unfolding merge_slot
merge_slots m [] = m
merge_slots m (slot ∷ window) = merge_slots (merge_slot m slot) window

-- The two SQL forms of the merged keys.
unfoldable pub split_routed : KeyMap → KeyMap
split_routed [] = []
split_routed ((key, cutoff) ∷ m) =
    let rest = split_routed m in if is_some key.owner then (key, cutoff) ∷ rest else rest

unfoldable pub split_unrouted : KeyMap → KeyMap
split_unrouted [] = []
split_unrouted ((key, cutoff) ∷ m) =
    let rest = split_unrouted m in if is_some key.owner then rest else (key, cutoff) ∷ rest

-- The order of `(key.owner, key.pubkey)`: no owner comes first.
abbrev pub owner_ltb : Option ℕ → Option ℕ → Bool
owner_ltb none none = false
owner_ltb none (some b) = true
owner_ltb (some a) none = false
owner_ltb (some a) (some b) = ltb a b

abbrev pub key_leb : CleanupKey → CleanupKey → Bool
key_leb a b =
    owner_ltb a.owner b.owner || (not (owner_ltb b.owner a.owner) && leb a.pubkey b.pubkey)

unfoldable pub insert_sorted : CleanupKey × ℕ → KeyMap → KeyMap
insert_sorted (key, cutoff) [] = (key, cutoff) ∷ []
insert_sorted (key, cutoff) ((k, c) ∷ m) =
    let rest = insert_sorted (key, cutoff) m in
    if key_leb key k then (key, cutoff) ∷ (k, c) ∷ m else (k, c) ∷ rest

-- `sort_unstable_by_key`
unfoldable pub sort_by_key : KeyMap → KeyMap
unfolding insert_sorted
sort_by_key [] = []
sort_by_key (item ∷ m) = insert_sorted item (sort_by_key m)

abbrev pub keys_of : OrdMap Bucket → List ℕ
keys_of slots = map (λ e. e.0) slots

unfoldable pub take_window : Pending → Taken × Pending
unfolding merge_slots split_routed split_unrouted sort_by_key
take_window p =
    let m =
      merge_slots (record { slots = p.slots; merged = []; stamp = none; oldest_slot = none })
        (take p.interval_slots (keys_of p.slots)) in
    let taken : Taken = record {
      routed = sort_by_key (split_routed m.merged);
      unrouted = split_unrouted m.merged;
      oldest_stamp = unwrap_or m.stamp p.high_water;
      oldest_slot = unwrap_or m.oldest_slot p.high_water;
    } in
    (
      taken,
      record p {
        slots = m.slots;
        in_flight_stamp = if is_empty taken then none else some taken.oldest_stamp;
      },
    )

unfoldable pub finish : Pending → Pending
finish p = record p { in_flight_stamp = none }

unfoldable pub reinsert : Pending → Taken → Pending
unfolding bucket_at upsert_all
reinsert p taken =
    let bucket = bucket_at taken.oldest_slot taken.oldest_stamp p.slots in
    let slots =
      insert taken.oldest_slot
        (record bucket { keys = upsert_all bucket.keys (taken.routed ++ taken.unrouted) })
        p.slots in
    record p { slots = if is_empty taken then p.slots else slots; in_flight_stamp = none }

unfoldable pub should_drain : Pending → Bool
should_drain p =
    let span = p.high_water - unwrap_or p.last_drain_slot p.high_water in
    leb p.interval_slots (length p.slots)
    || leb p.interval_slots p.enqueued_since_drain
    || leb p.interval_slots span

unfoldable pub has_backlog : Pending → Bool
has_backlog p = leb p.interval_slots (length p.slots)

unfoldable pub note_drain : Pending → Pending
note_drain p = record p { enqueued_since_drain = 0; last_drain_slot = some p.high_water }

abbrev pub min_stamp : OrdMap Bucket → Option ℕ
min_stamp [] = none
min_stamp ((s, b) ∷ m) = some (map_or (min_stamp m) b.stamp (λ t. min b.stamp t))

abbrev pub oldest_of : Option ℕ → Option ℕ → Option ℕ
oldest_of (some a) (some b) = some (min a b)
oldest_of (some a) none = some a
oldest_of none b = b

unfoldable pub lag_slots : Pending → ℕ
lag_slots p =
    map_or (oldest_of (min_stamp p.slots) p.in_flight_stamp) 0 (λ stamp. p.high_water - stamp)

unfoldable pub is_quiescent : Pending → Bool
is_quiescent p = elim p.slots [ [] ↦ not (is_some p.in_flight_stamp) | _ ∷ _ ↦ false ]

-- `CleanupHandle::new`: a zero interval is read as one.
unfoldable pub handle : ℕ → Pending
unfolding new
handle interval_slots = new (max interval_slots 1)

-- A round of the drainer's loop in drain.rs, up to its wait for `drain_all`: the queue, and the window
-- that the drain holds, unless it is empty. Each call locks the queue on its own; only this task takes
-- windows, and an enqueue between the calls is one before the window is taken or after it.
unfoldable pub begin_drain : Pending → Pending × Option Taken
unfolding note_drain take_window finish
begin_drain p =
    let (taken, q) = take_window (note_drain p) in
    if is_empty taken then (finish q, none) else (q, some taken)

-- The rest of the round, with whether `drain_all` succeeded: the queue and `drain_again`.
unfoldable pub end_drain : Bool → Pending → Taken → Pending × Bool
unfolding finish reinsert has_backlog
end_drain drained p taken =
    if drained then (finish p, has_backlog (finish p)) else (reinsert p taken, false)

-- A round in which nothing is enqueued while it waits, with the result of `drain_all` as a parameter.
unfoldable pub drain_round : (Taken → Bool) → Pending → Pending × Bool
unfolding begin_drain end_drain
drain_round drain_all p =
    let (q, held) = begin_drain p in
    elim held [ none ↦ (q, false) | some taken ↦ end_drain (drain_all taken) q taken ]
