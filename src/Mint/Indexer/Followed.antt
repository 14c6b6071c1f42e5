-- ===== src/Mint/Indexer/Followed.antt =====
-- What the indexer holds of one mint, against the changes of this mint alone, one after the other.
use mathlib.Core.Path.{subst}
use cloudbreak.Prelude.{
  ℕ, ◌≡◌, refl, sym, ap, ◌∙◌, inl, inr, Bool, true, false, ◌&&◌, Option, none, some, List, [], ◌∷◌,
  max, arith, ◌==◌, if◌then◌else◌, is_some, Bool-cases, unwrap_or,
}
use cloudbreak.OrdMap.{OrdMap, get, IsSorted, get-insert, insert-IsSorted, get-Above}
use cloudbreak.Mint.{MintChange, live, closed}
use cloudbreak.Mint.Store.{ChangeKind, StoredMint, MintStore, MintRow, stored, apply}
use cloudbreak.Mint.Store.View.{IsSplit, Refines, change_step, live_step, close_step, apply-Refines}
use cloudbreak.Mint.Indexer.{
  Inner, Write, mark, mark_pending, after_apply, apply_to_store, is_missing, apply_close,
  apply_change, apply_changes, apply_closes, start_write, take_pending_rows, start_write_if_needed,
  write_due, start_bootstrap_write, mark_rows, end_write, complete_through,
}

-- The state of one mint, the close that waits for it, and whether the bootstrap still runs.
pub record Held : Type 0 where
  pub value : StoredMint
  pub waits : Option ℕ
  pub booting : Bool

-- A close of a mint that is not known waits while the bootstrap runs; any other change is made.
unfoldable pub changed : Held → ℕ → MintChange → Held
unfolding live_step close_step
changed h slot (live state) = record h { value = (live_step h.value slot state).0 }
changed h slot closed =
    if h.booting && is_missing h.value
    then record h { waits = some (max (unwrap_or h.waits slot) slot) }
    else record h { value = (close_step h.value slot true).0 }

unfoldable pub changed_in : ℕ → Held → ℕ → List (ℕ × MintChange) → Held
unfolding changed
changed_in k h slot [] = h
changed_in k h slot ((j, change) ∷ changes) =
    changed_in k (if j == k then changed h slot change else h) slot changes

abbrev pub close_waiting : StoredMint → Option ℕ → StoredMint
close_waiting v none = v
close_waiting v (some slot) = (close_step v slot true).0

-- The end of the bootstrap: the close that waits is made.
unfoldable pub settled : Held → Held
settled h = record { value = close_waiting h.value h.waits; waits = none; booting = false }

abbrev pub waiting : Option (OrdMap ℕ) → ℕ → Option ℕ
waiting none k = none
waiting (some closes) k = get k closes

abbrev pub SortedCloses : Option (OrdMap ℕ) → Type 0
SortedCloses none = Unit
SortedCloses (some closes) = IsSorted closes

pub record Tracks (k : ℕ) (s : Inner) (h : Held) : Type 0 where
  pub split : IsSplit s.store
  pub sorted : SortedCloses s.closed_pending
  pub reads : stored s.store k ≡ h.value
  pub waits : waiting s.closed_pending k ≡ h.waits
  pub booting : is_some s.closed_pending ≡ h.booting

-- A change of the store alone.
record Applied (s t : Inner) (j slot : ℕ) (c : MintChange) : Type 0 where
  split : IsSplit t.store
  reads :
      (k : ℕ)
      → stored t.store k
        ≡ (if j == k then (change_step (stored s.store j) slot c).0 else stored s.store k)
  closes : t.closed_pending ≡ s.closed_pending

apply_to_store-Applied :
    (s : Inner) (j slot : ℕ) (c : MintChange)
    → IsSplit s.store
    → Applied s (apply_to_store s j slot c) j slot c
unfolding apply_to_store mark_pending
apply_to_store-Applied s j slot c h = go (apply s.store j slot c) (apply-Refines s.store j slot h c)
  where
    go :
        (r : MintStore × Option ChangeKind)
        → Refines s.store j r (change_step (stored s.store j) slot c)
        → Applied s (after_apply s j slot r) j slot c
    go (store, none) f = record { split = f.split; reads = f.reads; closes = refl }
    go (store, some kind) f = record { split = f.split; reads = f.reads; closes = refl }

Applied-Tracks :
    (k : ℕ) (s t : Inner) (j slot : ℕ) (c : MintChange) (h : Held)
    → Applied s t j slot c
    → Tracks k s h
    → Tracks k t (if j == k then record h { value = (change_step h.value slot c).0 } else h)
Applied-Tracks k s t j slot c h a tracks = elim (Bool-cases (j == k)) [
  | inl here ↦
      let one : j ≡ k = ground (arith, here) in
      rw (here) (record {
        split = a.split;
        sorted = subst SortedCloses (sym a.closes) tracks.sorted;
        reads =
            a.reads k
            ∙ rw (here) (
                ap (λ q. (change_step (stored s.store q) slot c).0) one
                ∙ ap (λ v. (change_step v slot c).0) tracks.reads);
        waits = ap (λ o. waiting o k) a.closes ∙ tracks.waits;
        booting = ap is_some a.closes ∙ tracks.booting;
      })
  | inr other ↦ rw (other) (record {
    split = a.split;
    sorted = subst SortedCloses (sym a.closes) tracks.sorted;
    reads = a.reads k ∙ rw (other) tracks.reads;
    waits = ap (λ o. waiting o k) a.closes ∙ tracks.waits;
    booting = ap is_some a.closes ∙ tracks.booting;
  })
]

apply_close-Tracks :
    (k : ℕ) (s : Inner) (j slot : ℕ) (h : Held) (o : Option (OrdMap ℕ))
    → s.closed_pending ≡ o
    → Tracks k s h
    → Tracks k (apply_close s j slot o) (if j == k then changed h slot closed else h)
unfolding apply_close changed change_step mark
apply_close-Tracks k s j slot h none at tracks =
    let late : h.booting ≡ false = sym tracks.booting ∙ ap is_some at in
    subst
      (λ b. Tracks k (apply_to_store s j slot closed) (
        if j == k
        then (if b && is_missing h.value
            then record h { waits = some (max (unwrap_or h.waits slot) slot) }
            else record h { value = (close_step h.value slot true).0 })
        else h))
      (sym late)
      (Applied-Tracks k s (apply_to_store s j slot closed) j slot closed h
        (apply_to_store-Applied s j slot closed tracks.split) tracks)
apply_close-Tracks k s j slot h (some closes) at tracks =
    let early : h.booting ≡ true = sym tracks.booting ∙ ap is_some at in
    let sorted : IsSorted closes = subst SortedCloses at tracks.sorted in
    let waits : get k closes ≡ h.waits = ap (λ o. waiting o k) (sym at) ∙ tracks.waits in
    let made =
      Applied-Tracks k s (apply_to_store s j slot closed) j slot closed h
        (apply_to_store-Applied s j slot closed tracks.split) tracks in
    let t : Inner = apply_to_store s j slot closed in
    let kept : Inner = record s { closed_pending = some (mark closes j slot) } in
    let later : Held = record h { waits = some (max (unwrap_or h.waits slot) slot) } in
    let now : Held = record h { value = (close_step h.value slot true).0 } in
    let marked : IsSorted (mark closes j slot) =
      insert-IsSorted j (max (unwrap_or (get j closes) slot) slot) closes sorted in
    elim (Bool-cases (j == k)) [
      | inl here ↦
          let one : j ≡ k = ground (arith, here) in
          let same : is_missing (stored s.store j) ≡ is_missing h.value =
            ap (λ q. is_missing (stored s.store q)) one ∙ ap is_missing tracks.reads in
          elim (Bool-cases (is_missing (stored s.store j))) [
            | inl gone ↦
                let b : (h.booting && is_missing h.value) ≡ true =
                  ground (arith, early, same, gone) in
                rw (gone) (
                  subst (λ b. Tracks k kept (if j == k then (if b then later else now) else h))
                    (sym b)
                    (subst (λ e. Tracks k kept (if e then later else h)) (sym here)
                      (record {
                        split = tracks.split;
                        sorted = marked;
                        reads = tracks.reads;
                        waits =
                            get-insert j k (max (unwrap_or (get j closes) slot) slot) closes
                            ∙ rw (here) (
                                ap (λ o. some (max (unwrap_or o slot) slot))
                                  (ap (λ q. get q closes) one ∙ waits));
                        booting = sym early;
                      })))
            | inr known ↦
                let b : (h.booting && is_missing h.value) ≡ false = ground (arith, same, known) in
                rw (known) (
                  subst (λ b. Tracks k t (if j == k then (if b then later else now) else h)) (sym b)
                    made)
          ]
      | inr other ↦
          let made' : Tracks k t h = subst (λ e. Tracks k t (if e then now else h)) other made in
          elim (Bool-cases (is_missing (stored s.store j))) [
            | inl gone ↦
                rw (gone, other)
                  (record {
                    split = tracks.split;
                    sorted = marked;
                    reads = tracks.reads;
                    waits =
                        get-insert j k (max (unwrap_or (get j closes) slot) slot) closes
                        ∙ rw (other) waits;
                    booting = sym early;
                  })
            | inr known ↦ rw (known, other) made'
          ]
    ]

pub apply_change-Tracks :
    (k : ℕ) (s : Inner) (j slot : ℕ) (c : MintChange) (h : Held)
    → Tracks k s h
    → Tracks k (apply_change s j slot c) (if j == k then changed h slot c else h)
unfolding apply_change changed change_step
apply_change-Tracks k s j slot (live state) h tracks =
    Applied-Tracks k s (apply_to_store s j slot (live state)) j slot (live state) h
      (apply_to_store-Applied s j slot (live state) tracks.split) tracks
apply_change-Tracks k s j slot closed h tracks =
    apply_close-Tracks k s j slot h s.closed_pending refl tracks

pub apply_changes-Tracks :
    (k : ℕ) (s : Inner) (slot : ℕ) (changes : List (ℕ × MintChange)) (h : Held)
    → Tracks k s h
    → Tracks k (apply_changes s slot changes) (changed_in k h slot changes)
unfolding apply_changes changed_in
apply_changes-Tracks k s slot [] h tracks = tracks
apply_changes-Tracks k s slot ((j, c) ∷ changes) h tracks =
    apply_changes-Tracks k (apply_change s j slot c) slot changes
      (if j == k then changed h slot c else h) (apply_change-Tracks k s j slot c h tracks)

-- The closes that waited, each made once.
record Closed (k : ℕ) (v : StoredMint) (o : Option ℕ) (t : Inner) : Type 0 where
  split : IsSplit t.store
  reads : stored t.store k ≡ close_waiting v o
  closes : t.closed_pending ≡ none

apply_closes-Closed :
    (k : ℕ) (s : Inner) (closes : OrdMap ℕ) (v : StoredMint)
    → IsSplit s.store
    → s.closed_pending ≡ none
    → stored s.store k ≡ v
    → IsSorted closes
    → Closed k v (get k closes) (apply_closes s closes)
unfolding apply_closes get apply_change apply_close change_step close_step
apply_closes-Closed k s [] v split at reads sorted = record {
  split = split;
  reads = reads;
  closes = at;
}
apply_closes-Closed k s ((j, slot) ∷ closes) v split at reads sorted =
    let t : Inner = apply_to_store s j slot closed in
    let a : Applied s t j slot closed = apply_to_store-Applied s j slot closed split in
    subst
      (λ o.
        Closed k v (if j == k then some slot else get k closes)
          (apply_closes (apply_close s j slot o) closes))
      (sym at)
      (elim (Bool-cases (j == k)) [
        | inl here ↦
            let one : j ≡ k = ground (arith, here) in
            let rest : Closed k (close_step v slot true).0 (get k closes) (apply_closes t closes) =
              apply_closes-Closed k t closes (close_step v slot true).0 a.split (a.closes ∙ at)
                (a.reads k
                  ∙ rw (here) (
                      ap (λ q. (close_step (stored s.store q) slot true).0) one
                      ∙ ap (λ v. (close_step v slot true).0) reads))
                sorted.1 in
            let last : get k closes ≡ none = get-Above j k closes sorted.0 (omega (arith, one)) in
            rw (here) (record {
              split = rest.split;
              reads = rest.reads ∙ ap (close_waiting (close_step v slot true).0) last;
              closes = rest.closes;
            })
        | inr other ↦ rw (other) (
            apply_closes-Closed k t closes v a.split (a.closes ∙ at) (a.reads k ∙ rw (other) reads)
              sorted.1)
      ])

-- A step that leaves the store and the closes that wait.
record Same (s t : Inner) : Type 0 where
  store : t.store ≡ s.store
  closes : t.closed_pending ≡ s.closed_pending

Same-Tracks : (k : ℕ) (s t : Inner) (h : Held) → Same s t → Tracks k s h → Tracks k t h
Same-Tracks k s t h same tracks = record {
  split = subst IsSplit (sym same.store) tracks.split;
  sorted = subst SortedCloses (sym same.closes) tracks.sorted;
  reads = ap (λ x. stored x k) same.store ∙ tracks.reads;
  waits = ap (λ o. waiting o k) same.closes ∙ tracks.waits;
  booting = ap is_some same.closes ∙ tracks.booting;
}

start_write-Same : (s : Inner) (n : Option ℕ) → Same s (start_write s n).0
unfolding start_write take_pending_rows
start_write-Same s n = record { store = refl; closes = refl }

abbrev pub turn_of : Inner → Bool → Option (Option ℕ) → Inner × Option Write
turn_of s busy due =
    if busy then (s, none) else elim due [ none ↦ (s, none) | some n ↦ start_write s n ]

turn_of-Tracks :
    (k : ℕ) (s : Inner) (busy : Bool) (due : Option (Option ℕ)) (h : Held)
    → Tracks k s h
    → Tracks k (turn_of s busy due).0 h
turn_of-Tracks k s true due h tracks = tracks
turn_of-Tracks k s false none h tracks = tracks
turn_of-Tracks k s false (some n) h tracks =
    Same-Tracks k s (start_write s n).0 h (start_write-Same s n) tracks

pub start_write_if_needed-Tracks :
    (k : ℕ) (s : Inner) (h : Held) → Tracks k s h → Tracks k (start_write_if_needed s).0 h
unfolding start_write_if_needed
start_write_if_needed-Tracks k s h tracks =
    turn_of-Tracks k s s.db_write_running (write_due s s.last_db_slot) h tracks

mark_rows-Same : (s : Inner) (rows : List MintRow) → Same s (mark_rows s rows)
unfolding mark_rows mark_pending
mark_rows-Same s [] = record { store = refl; closes = refl }
mark_rows-Same s (r ∷ rows) =
    let rest : Same (mark_pending s r.pubkey r.slot)
        (mark_rows (mark_pending s r.pubkey r.slot) rows) =
      mark_rows-Same (mark_pending s r.pubkey r.slot) rows in
    record { store = rest.store; closes = rest.closes }

end_write-Same : (s : Inner) (w : Write) (ok : Bool) → Same s (end_write s w ok)
unfolding end_write
end_write-Same s w true = record { store = refl; closes = refl }
end_write-Same s w false =
    let rest : Same (record s { db_write_running = false })
        (mark_rows (record s { db_write_running = false }) w.rows) =
      mark_rows-Same (record s { db_write_running = false }) w.rows in
    record { store = rest.store; closes = rest.closes }

pub end_write-Tracks :
    (k : ℕ) (s : Inner) (w : Write) (ok : Bool) (h : Held)
    → Tracks k s h
    → Tracks k (end_write s w ok) h
end_write-Tracks k s w ok h tracks =
    Same-Tracks k s (end_write s w ok) h (end_write-Same s w ok) tracks

Closed-Tracks :
    (k : ℕ) (h : Held) (o : Option ℕ) (t : Inner)
    → o ≡ h.waits
    → Closed k h.value o t
    → Tracks k t (settled h)
unfolding settled
Closed-Tracks k h o t same c = record {
  split = c.split;
  sorted = subst SortedCloses (sym c.closes) tt;
  reads = c.reads ∙ ap (close_waiting h.value) same;
  waits = ap (λ o. waiting o k) c.closes;
  booting = ap is_some c.closes;
}

pub start_bootstrap_write-Tracks :
    (k : ℕ) (s : Inner) (h : Held) → Tracks k s h → Tracks k (start_bootstrap_write s).0 (settled h)
unfolding start_bootstrap_write
start_bootstrap_write-Tracks k s h tracks =
    let closes = unwrap_or s.closed_pending [] in
    let s' : Inner = apply_closes (record s { closed_pending = none }) closes in
    let facts : IsSorted closes × (get k closes ≡ waiting s.closed_pending k) =
      open_closes s.closed_pending tracks.sorted in
    let done : Tracks k s' (settled h) =
      Closed-Tracks k h (get k closes) s' (facts.1 ∙ tracks.waits) (
        apply_closes-Closed k (record s { closed_pending = none }) closes h.value tracks.split refl
          tracks.reads facts.0) in
    Same-Tracks k s' (start_write s' (some (complete_through s'))).0 (settled h)
      (start_write-Same s' (some (complete_through s'))) done
  where
    open_closes :
        (o : Option (OrdMap ℕ))
        → SortedCloses o
        → IsSorted (unwrap_or o []) × (get k (unwrap_or o []) ≡ waiting o k)
    open_closes none h = (tt, unfold get in refl)
    open_closes (some closes) h = (h, refl)
