-- ===== src/Mint/Indexer/Runs.antt =====
-- The indexer with its background write, and what its writes sent, over any sequence of events.
use mathlib.Core.Path.{subst}
use cloudbreak.Prelude.{
  ℕ, min, ◌-◌, ◌≤◌, ◌<◌, ◌≡◌, ◌⊎◌, refl, sym, ◌∙◌, ap, inl, inr, Bool, true, false, Option, none,
  some, List, [], ◌∷◌, max, arith, ◌==◌, if◌then◌else◌, is_some, Bool-cases, unwrap_or,
}
use mathlib.Core.Option.{some-injective}
use cloudbreak.OrdMap.{OrdMap, get}
use cloudbreak.Mint.{MintChange, live, closed}
use cloudbreak.Mint.Store.{ChangeKind, missing, MintStore, MintRow, presized, stored, apply}
use cloudbreak.Mint.Store.View.{IsSplit, presized-IsSplit}
use cloudbreak.Mint.Indexer.{
  Inner, Write, from_config, mark_pending, after_apply, apply_to_store, is_missing, apply_close,
  apply_change, take_pending_rows, start_write, write_due, start_write_if_needed,
  on_snapshot_account, apply_changes, on_block, apply_closes, start_bootstrap_write,
  complete_through, mark_rows, end_write,
}
use cloudbreak.Mint.Indexer.Followed.{turn_of}
use cloudbreak.Mint.Indexer.Covered.{
  Sent, row_state, written, Covers, IsCovered, mark-some, mark-Covers, apply_change-IsCovered,
  apply_changes-IsCovered, apply_closes-IsCovered, rows_of-pending, rows_of-others,
}

pub record System : Type 0 where
  pub inner : Inner
  pub running : Option Write
  pub sent : Sent

-- The end of the bootstrap waits for a running write. `write_ends` says whether it succeeded.
pub data Event : Type 0 where
  snapshot_account : ℕ → ℕ → MintChange → Event
  block : ℕ → List (ℕ × MintChange) → Option ℕ → Event
  bootstrap_ends : Event
  write_ends : Bool → Event

abbrev pub or_running : Option Write → Option Write → Option Write
or_running none old = old
or_running (some w) old = some w

abbrev pub launched : Inner × Option Write → Option Write → Sent → System
launched (inner, w) old sent = record { inner = inner; running = or_running w old; sent = sent }

unfoldable pub ended : System → Option Write → Bool → System
unfolding end_write
ended sys none ok = sys
ended sys (some w) ok = record {
  inner = end_write sys.inner w ok;
  running = none;
  sent = if ok then written w.rows sys.sent else sys.sent;
}

unfoldable pub step : System → Event → System
unfolding on_snapshot_account on_block start_bootstrap_write ended
step sys (snapshot_account slot pubkey change) =
    launched (on_snapshot_account sys.inner slot pubkey change) sys.running sys.sent
step sys (block slot changes gap) =
    launched (on_block sys.inner slot changes gap) sys.running sys.sent
step sys bootstrap_ends =
    if sys.inner.db_write_running
    then sys
    else launched (start_bootstrap_write sys.inner) sys.running sys.sent
step sys (write_ends ok) = ended sys sys.running ok

unfoldable pub run : System → List Event → System
unfolding step
run sys [] = sys
run sys (e ∷ events) = run (step sys e) events

abbrev pub rows_in : Option Write → List MintRow
rows_in none = []
rows_in (some w) = w.rows

-- The flag says whether a write runs, and what the store holds is on its way.
pub record IsKept (sys : System) : Type 0 where
  pub flag : sys.inner.db_write_running ≡ is_some sys.running
  pub covered : IsCovered sys.inner (rows_in sys.running) sys.sent

start_write-IsCovered :
    (s : Inner) (n : Option ℕ) (t : Sent) (old : Option Write)
    → IsCovered s [] t
    → IsKept (launched (start_write s n) old t)
unfolding start_write take_pending_rows
start_write-IsCovered s n t old h = record {
  flag = refl;
  covered = record {
    split = h.split;
    covers = λ k. elim (Bool-cases (is_some (get k s.pending_to_db))) [
      | inl waits ↦ inr (rows_of-pending s.store s.pending_to_db t k waits)
      | inr free ↦ inr (elim (h.covers k) [
        | inl waits ↦ absurd (ground (arith, waits, free))
        | inr (inl gone) ↦ inl gone
        | inr (inr there) ↦ inr (rows_of-others s.store s.pending_to_db t k free ∙ there)
      ])
    ];
  };
}

start_write_if_needed-IsKept :
    (s : Inner) (running : Option Write) (t : Sent)
    → s.db_write_running ≡ is_some running
    → IsCovered s (rows_in running) t
    → IsKept (launched (start_write_if_needed s) running t)
unfolding start_write_if_needed
start_write_if_needed-IsKept s (some w) t flag h = simp (flag) (record { flag = flag; covered = h })
start_write_if_needed-IsKept s none t flag h = simp (flag) (go (write_due s s.last_db_slot))
  where
    go :
        (due : Option (Option ℕ))
        → IsKept (launched (elim due [ none ↦ (s, none) | some n ↦ start_write s n ]) none t)
    go none = record { flag = flag; covered = h }
    go (some n) = start_write-IsCovered s n t none h

after_apply-flag :
    (s : Inner) (k slot : ℕ) (r : MintStore × Option ChangeKind)
    → (after_apply s k slot r).db_write_running ≡ s.db_write_running
unfolding after_apply mark_pending
after_apply-flag s k slot (store, none) = refl
after_apply-flag s k slot (store, some kind) = refl

apply_to_store-flag :
    (s : Inner) (k slot : ℕ) (c : MintChange)
    → (apply_to_store s k slot c).db_write_running ≡ s.db_write_running
unfolding apply_to_store
apply_to_store-flag s k slot c = after_apply-flag s k slot (apply s.store k slot c)

apply_close-flag :
    (s : Inner) (k slot : ℕ) (o : Option (OrdMap ℕ))
    → (apply_close s k slot o).db_write_running ≡ s.db_write_running
unfolding apply_close
apply_close-flag s k slot none = apply_to_store-flag s k slot closed
apply_close-flag s k slot (some waiting) = elim (Bool-cases (is_missing (stored s.store k))) [
  | inl gone ↦ rw (gone) refl
  | inr here ↦ rw (here) (apply_to_store-flag s k slot closed)
]

apply_change-flag :
    (s : Inner) (k slot : ℕ) (c : MintChange)
    → (apply_change s k slot c).db_write_running ≡ s.db_write_running
unfolding apply_change
apply_change-flag s k slot (live state) = apply_to_store-flag s k slot (live state)
apply_change-flag s k slot closed = apply_close-flag s k slot s.closed_pending

apply_changes-flag :
    (s : Inner) (slot : ℕ) (changes : List (ℕ × MintChange))
    → (apply_changes s slot changes).db_write_running ≡ s.db_write_running
unfolding apply_changes
apply_changes-flag s slot [] = refl
apply_changes-flag s slot ((k, c) ∷ changes) =
    apply_changes-flag (apply_change s k slot c) slot changes ∙ apply_change-flag s k slot c

mark_rows-flag :
    (s : Inner) (rows : List MintRow) → (mark_rows s rows).db_write_running ≡ s.db_write_running
unfolding mark_rows mark_pending
mark_rows-flag s [] = refl
mark_rows-flag s (r ∷ rows) = mark_rows-flag (mark_pending s r.pubkey r.slot) rows

mark_rows-Covers :
    (s : Inner) (rows : List MintRow) (t : Sent)
    → ((k : ℕ) → Covers s.store s.pending_to_db rows t k)
    → (k : ℕ) → Covers (mark_rows s rows).store (mark_rows s rows).pending_to_db [] t k
unfolding mark_rows mark_pending
mark_rows-Covers s [] t h k = h k
mark_rows-Covers s (r ∷ rows) t h k =
    mark_rows-Covers (mark_pending s r.pubkey r.slot) rows t
      (λ q. elim (Bool-cases (r.pubkey == q)) [
        | inl here ↦ inl (mark-some s.pending_to_db r.pubkey r.slot q ∙ rw (here) refl)
        | inr other ↦
            let same : written (r ∷ rows) t q ≡ written rows t q = rw (other) refl in
            mark-Covers s.store s.pending_to_db rows t r.pubkey r.slot q (
              subst
                (λ w.
                  (is_some (get q s.pending_to_db) ≡ true)
                  ⊎ ((stored s.store q ≡ missing) ⊎ (w ≡ row_state (stored s.store q))))
                same (h q))
      ])
      k

mark_rows-store : (s : Inner) (rows : List MintRow) → (mark_rows s rows).store ≡ s.store
unfolding mark_rows mark_pending
mark_rows-store s [] = refl
mark_rows-store s (r ∷ rows) = mark_rows-store (mark_pending s r.pubkey r.slot) rows

ended-some-IsKept :
    (sys : System) (w : Write) (ok : Bool)
    → IsCovered sys.inner w.rows sys.sent
    → IsKept (ended sys (some w) ok)
unfolding ended end_write
ended-some-IsKept sys w true h = record {
  flag = refl;
  covered = record { split = h.split; covers = h.covers };
}
ended-some-IsKept sys w false h =
    let s = record sys.inner { db_write_running = false } in
    record {
      flag = mark_rows-flag s w.rows;
      covered = record {
        split = subst IsSplit (sym (mark_rows-store s w.rows)) h.split;
        covers = mark_rows-Covers s w.rows sys.sent h.covers;
      };
    }

bootstrap-IsKept :
    (s : Inner) (running : Option Write) (t : Sent)
    → is_some running ≡ false
    → IsCovered s (rows_in running) t
    → IsKept (launched (start_bootstrap_write s) running t)
unfolding start_bootstrap_write
bootstrap-IsKept s (some w) t idle h = absurd (ground (arith, idle))
bootstrap-IsKept s none t idle h =
    let closes = unwrap_or s.closed_pending [] in
    let s' = apply_closes (record s { closed_pending = none }) closes in
    start_write-IsCovered s' (some (complete_through s')) t none (
      apply_closes-IsCovered (record s { closed_pending = none }) [] t closes
        (record { split = h.split; covers = h.covers }))

ended-IsKept : (sys : System) (ok : Bool) → IsKept sys → IsKept (ended sys sys.running ok)
unfolding ended
ended-IsKept sys ok h = go sys.running h.flag h.covered
  where
    go :
        (running : Option Write)
        → sys.inner.db_write_running ≡ is_some running
        → IsCovered sys.inner (rows_in running) sys.sent
        → IsKept (ended sys running ok)
    go none flag covered = h
    go (some w) flag covered = ended-some-IsKept sys w ok covered

IsKept-if :
    (b : Bool) (x y : System)
    → (b ≡ true → IsKept x)
    → (b ≡ false → IsKept y)
    → IsKept (if b then x else y)
IsKept-if true x y f g = f refl
IsKept-if false x y f g = g refl

step-IsKept : (sys : System) (e : Event) → IsKept sys → IsKept (step sys e)
unfolding step on_snapshot_account on_block start_bootstrap_write
step-IsKept sys (snapshot_account slot k c) h =
    let s = record sys.inner { last_slot = max sys.inner.last_slot slot } in
    start_write_if_needed-IsKept (apply_change s k slot c) sys.running sys.sent
      (apply_change-flag s k slot c ∙ h.flag)
      (apply_change-IsCovered s (rows_in sys.running) sys.sent k slot c
        (record { split = h.covered.split; covers = h.covered.covers }))
step-IsKept sys (block slot changes gap) h =
    let s = record sys.inner { lowest_gap = gap; last_slot = max sys.inner.last_slot slot } in
    start_write_if_needed-IsKept (apply_changes s slot changes) sys.running sys.sent
      (apply_changes-flag s slot changes ∙ h.flag)
      (apply_changes-IsCovered s (rows_in sys.running) sys.sent slot changes
        (record { split = h.covered.split; covers = h.covered.covers }))
step-IsKept sys bootstrap_ends h =
    IsKept-if sys.inner.db_write_running sys
      (launched (start_bootstrap_write sys.inner) sys.running sys.sent) (λ busy. h)
      (λ idle. bootstrap-IsKept sys.inner sys.running sys.sent (sym h.flag ∙ idle) h.covered)
step-IsKept sys (write_ends ok) h = ended-IsKept sys ok h

run-IsKept : (sys : System) (events : List Event) → IsKept sys → IsKept (run sys events)
unfolding run
run-IsKept sys [] h = h
run-IsKept sys (e ∷ events) h = run-IsKept (step sys e) events (step-IsKept sys e h)

-- The indexer at its start, after anything was sent.
unfoldable pub fresh_system : ℕ → Sent → System
unfolding from_config
fresh_system interval sent = record { inner = from_config interval; running = none; sent = sent }

fresh_system-IsKept : (interval : ℕ) (sent : Sent) → IsKept (fresh_system interval sent)
unfolding fresh_system from_config presized stored get
fresh_system-IsKept interval sent = record {
  flag = refl;
  covered = record { split = presized-IsSplit; covers = λ k. inr (inl refl) };
}

-- From its start, whatever snapshot accounts and blocks the indexer takes, and whichever of its writes
-- fail, each mint of the store waits for the next write, or has its state in the rows sent last for it,
-- those of the running write included.
pub run-Covers :
    (interval : ℕ) (sent : Sent) (events : List Event) (k : ℕ)
    → Covers
        (run (fresh_system interval sent) events).inner.store
        (run (fresh_system interval sent) events).inner.pending_to_db
        (rows_in (run (fresh_system interval sent) events).running)
        (run (fresh_system interval sent) events).sent
        k
run-Covers interval sent events k =
    (run-IsKept (fresh_system interval sent) events
        (fresh_system-IsKept interval sent)).covered.covers
      k

due_complete :
    (s : Inner) (o : Option ℕ) (slot : ℕ)
    → write_due s o ≡ some (some slot)
    → complete_through s ≡ slot
unfolding write_due
due_complete s none slot h = absurd (ground (arith, h))
due_complete s (some last) slot h = ground (arith, h)

-- What a change leaves of the gap and of the last slot.
record SameSlots (s t : Inner) : Type 0 where
  gap : t.lowest_gap ≡ s.lowest_gap
  last : t.last_slot ≡ s.last_slot

after_apply-SameSlots :
    (s : Inner) (k slot : ℕ) (r : MintStore × Option ChangeKind)
    → SameSlots s (after_apply s k slot r)
unfolding after_apply mark_pending
after_apply-SameSlots s k slot (store, none) = record { gap = refl; last = refl }
after_apply-SameSlots s k slot (store, some kind) = record { gap = refl; last = refl }

apply_close-SameSlots :
    (s : Inner) (k slot : ℕ) (o : Option (OrdMap ℕ)) → SameSlots s (apply_close s k slot o)
unfolding apply_close apply_to_store
apply_close-SameSlots s k slot none = after_apply-SameSlots s k slot (apply s.store k slot closed)
apply_close-SameSlots s k slot (some waiting) = elim (Bool-cases (is_missing (stored s.store k))) [
  | inl gone ↦ rw (gone) (record { gap = refl; last = refl })
  | inr here ↦ rw (here) (after_apply-SameSlots s k slot (apply s.store k slot closed))
]

apply_closes-SameSlots : (s : Inner) (closes : OrdMap ℕ) → SameSlots s (apply_closes s closes)
unfolding apply_closes apply_change
apply_closes-SameSlots s [] = record { gap = refl; last = refl }
apply_closes-SameSlots s ((k, slot) ∷ closes) =
    let first : SameSlots s (apply_close s k slot s.closed_pending) =
      apply_close-SameSlots s k slot s.closed_pending in
    let rest : SameSlots (apply_change s k slot closed)
        (apply_closes (apply_change s k slot closed) closes) =
      apply_closes-SameSlots (apply_change s k slot closed) closes in
    record { gap = rest.gap ∙ first.gap; last = rest.last ∙ first.last }

complete_through-lt :
    (s : Inner) (gap : ℕ)
    → s.lowest_gap ≡ some gap
    → 0 < gap
    → (complete_through s ≤ s.last_slot) × (complete_through s < gap)
complete_through-lt s gap open_gap pos =
    let through : complete_through s ≡ min s.last_slot (gap - 1) =
      unfold complete_through in rw (open_gap) refl in
    (omega (arith, through), omega (arith, through, pos))

-- What a write declares, where it declares a slot.
abbrev pub declares : Option Write → Option ℕ
declares none = none
declares (some w) = w.new_last_db_slot

turn_due :
    (s : Inner) (busy : Bool) (due : Option (Option ℕ)) (slot : ℕ)
    → declares (turn_of s busy due).1 ≡ some slot
    → due ≡ some (some slot)
unfolding start_write take_pending_rows
turn_due s true due slot h = absurd (ground (arith, h))
turn_due s false none slot h = absurd (ground (arith, h))
turn_due s false (some n) slot h = ap some h

turn_declares :
    (s : Inner) (slot : ℕ)
    → declares (start_write_if_needed s).1 ≡ some slot
    → complete_through s ≡ slot
unfolding start_write_if_needed
turn_declares s slot turn =
    due_complete s s.last_db_slot slot
      (turn_due s s.db_write_running (write_due s s.last_db_slot) slot turn)

-- While a gap is open above slot 0, each write that the indexer starts, in its turn or at the end of the
-- bootstrap, declares the table complete through a slot that is below the gap and not above the last one
-- applied, if it declares one.
pub declares-lt :
    (s : Inner) (slot gap : ℕ)
    → (declares (start_write_if_needed s).1 ≡ some slot)
      ⊎ (declares (start_bootstrap_write s).1 ≡ some slot)
    → s.lowest_gap ≡ some gap
    → 0 < gap
    → (slot ≤ s.last_slot) × (slot < gap)
unfolding start_write_if_needed start_bootstrap_write start_write take_pending_rows
declares-lt s slot gap (inl turn) open_gap pos =
    let (le, lt) = complete_through-lt s gap open_gap pos in
    let through : complete_through s ≡ slot = turn_declares s slot turn in
    (omega (arith, le, through), omega (arith, lt, through))
declares-lt s slot gap (inr last) open_gap pos =
    let s' : Inner =
      apply_closes (record s { closed_pending = none }) (unwrap_or s.closed_pending []) in
    let same : SameSlots (record s { closed_pending = none }) s' =
      apply_closes-SameSlots (record s { closed_pending = none }) (unwrap_or s.closed_pending []) in
    let (le, lt) = complete_through-lt s' gap (same.gap ∙ open_gap) pos in
    let through : complete_through s' ≡ slot = some-injective (complete_through s') slot last in
    (omega (arith, le, through, same.last), omega (arith, lt, through))
