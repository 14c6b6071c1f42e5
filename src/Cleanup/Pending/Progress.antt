-- ===== src/Cleanup/Pending/Progress.antt =====
-- Drains that succeed empty the queue, a window at a time.
use mathlib.Core.Path.{subst}
use cloudbreak.Prelude.{
  ℕ, zero, suc, ◌-◌, ◌*◌, ◌≤◌, ◌≡◌, refl, sym, ap, ◌∙◌, inl, inr, Bool, true, Option, none, some,
  [], ◌∷◌, arith, Bool-cases, map_or, unwrap_or, min, take, drop, length, length-drop,
}
use cloudbreak.OrdMap
use cloudbreak.OrdMap.{OrdMap, remove, IsSorted}
use cloudbreak.OrdMap.Range.{remove-Above_eq}
use cloudbreak.Cleanup.{KeyMap, upsert_all}
use cloudbreak.Cleanup.Pending.{
  Taken, is_empty, Bucket, Pending, merge_slot, merge_slots, keys_of, take_window, finish,
  note_drain, drain_round, is_quiescent,
}

merge_slot-first :
    (s : ℕ) (b : Bucket) (m : OrdMap Bucket) (merged : KeyMap) (stamp oldest : Option ℕ)
    → IsSorted ((s, b) ∷ m)
    → merge_slot
        (record { slots = (s, b) ∷ m; merged = merged; stamp = stamp; oldest_slot = oldest })
        s
      ≡ record {
        slots = m;
        merged = upsert_all merged b.keys;
        stamp = some (map_or stamp b.stamp (λ held. min held b.stamp));
        oldest_slot = some (unwrap_or oldest s);
      }
unfolding merge_slot OrdMap.get remove
merge_slot-first s b m merged stamp oldest h = ground (arith, remove-Above_eq s m h.0)

-- The window leaves all but the oldest slots.
merge_slots-drop :
    (m : OrdMap Bucket) (merged : KeyMap) (stamp oldest : Option ℕ) (n : ℕ)
    → IsSorted m
    → (merge_slots
        (record { slots = m; merged = merged; stamp = stamp; oldest_slot = oldest })
        (take n (keys_of m))).slots
      ≡ drop n m
unfolding merge_slots
merge_slots-drop m merged stamp oldest zero h = refl
merge_slots-drop [] merged stamp oldest (suc n) h = refl
merge_slots-drop ((s, b) ∷ m) merged stamp oldest (suc n) h =
    ap (λ x. (merge_slots x (take n (keys_of m))).slots)
      (merge_slot-first s b m merged stamp oldest h)
    ∙ merge_slots-drop m (upsert_all merged b.keys)
        (some (map_or stamp b.stamp (λ held. min held b.stamp))) (some (unwrap_or oldest s)) n h.1

take_window-drop :
    (p : Pending) → IsSorted p.slots → (take_window p).1.slots ≡ drop p.interval_slots p.slots
unfolding take_window
take_window-drop p h = merge_slots-drop p.slots [] none none p.interval_slots h

drop-IsSorted : (n : ℕ) (m : OrdMap Bucket) → IsSorted m → IsSorted (drop n m)
drop-IsSorted zero m h = h
drop-IsSorted (suc n) [] h = h
drop-IsSorted (suc n) (e ∷ m) h = drop-IsSorted n m h.1

-- Rounds of the drainer, one after the other.
unfoldable pub rounds : ℕ → (Taken → Bool) → Pending → Pending
unfolding drain_round
rounds zero drain_all p = p
rounds (suc n) drain_all p = rounds n drain_all (drain_round drain_all p).0

module _ (drain_all : Taken → Bool) (works : (t : Taken) → drain_all t ≡ true) where
  drain_round-drop :
      (p : Pending)
      → IsSorted p.slots
      → ((drain_round drain_all p).0.slots ≡ drop p.interval_slots p.slots)
        × ((drain_round drain_all p).0.interval_slots ≡ p.interval_slots)
        × ((drain_round drain_all p).0.in_flight_stamp ≡ none)
  drain_round-drop p h =
      let p' = note_drain p in
      let rest = take_window-drop p' (unfold note_drain in h) in
      elim (Bool-cases (is_empty (take_window p').0)) [
        | inl e ↦ unfold drain_round note_drain finish take_window in ground arith
        | inr e ↦
            unfold drain_round note_drain finish take_window in
            ground (arith, works (take_window p').0)
      ]

  -- When every drain succeeds, a round for each window of the queue leaves nothing queued and
  -- nothing in flight.
  pub rounds-is_quiescent :
      (n : ℕ) (p : Pending)
      → IsSorted p.slots
      → p.in_flight_stamp ≡ none
      → length p.slots ≤ n * p.interval_slots
      → is_quiescent (rounds n drain_all p) ≡ true
  unfolding rounds
  rounds-is_quiescent zero p h idle le = unfold is_quiescent in ground arith
  rounds-is_quiescent (suc n) p h idle le =
      let (rest, same, idle') = drain_round-drop p h in
      let q = (drain_round drain_all p).0 in
      let short : length q.slots ≡ length p.slots - p.interval_slots =
        ap length rest ∙ length-drop p.interval_slots p.slots in
      rounds-is_quiescent n q
        (subst (λ m. IsSorted m) (sym rest) (drop-IsSorted p.interval_slots p.slots h)) idle'
        (rw same (omega arith))
