-- ===== src/Mint/Indexer/Lossless.antt =====
-- No change of a mint is lost: over any events the indexer holds of each mint what its own changes make of
-- it, and what it holds is on its way to the table.
use cloudbreak.Prelude.{
  ℕ, ◌≡◌, refl, Bool, true, false, Option, none, some, List, [], ◌∷◌, max, ◌==◌, if◌then◌else◌,
}
use cloudbreak.OrdMap.{get}
use cloudbreak.Mint.Store.{missing, presized, stored}
use cloudbreak.Mint.Store.View.{presized-IsSplit}
use cloudbreak.Mint.Indexer.{
  Inner, Write, from_config, on_snapshot_account, on_block, start_bootstrap_write, apply_change,
  apply_changes,
}
use cloudbreak.Mint.Indexer.Covered.{Sent, Covers}
use cloudbreak.Mint.Indexer.Followed.{
  Held, changed, changed_in, settled, waiting, Tracks, apply_change-Tracks, apply_changes-Tracks,
  start_write_if_needed-Tracks, end_write-Tracks, start_bootstrap_write-Tracks,
}
use cloudbreak.Mint.Indexer.Runs.{
  System, Event, snapshot_account, block, bootstrap_ends, write_ends, ended, launched, step, run,
  rows_in, fresh_system, run-Covers,
}

-- What an event makes of one mint. The bootstrap does not end while a write runs.
unfoldable pub follow_event : ℕ → Bool → Held → Event → Held
unfolding changed changed_in settled
follow_event k writes h (snapshot_account slot j change) =
    if j == k then changed h slot change else h
follow_event k writes h (block slot changes gap) = changed_in k h slot changes
follow_event k writes h bootstrap_ends = if writes then h else settled h
follow_event k writes h (write_ends ok) = h

unfoldable pub follow : ℕ → System → Held → List Event → Held
unfolding follow_event step
follow k sys h [] = h
follow k sys h (e ∷ events) =
    follow k (step sys e) (follow_event k sys.inner.db_write_running h e) events

-- A mint of which nothing is known while the bootstrap runs.
abbrev pub unknown : Held
unknown = record { value = missing; waits = none; booting = true }

ended-Tracks :
    (k : ℕ) (sys : System) (running : Option Write) (ok : Bool) (h : Held)
    → Tracks k sys.inner h
    → Tracks k (ended sys running ok).inner h
unfolding ended
ended-Tracks k sys none ok h tracks = tracks
ended-Tracks k sys (some w) ok h tracks = end_write-Tracks k sys.inner w ok h tracks

if-Tracks :
    (k : ℕ) (b : Bool) (x y : System) (h h' : Held)
    → Tracks k x.inner h
    → Tracks k y.inner h'
    → Tracks k (if b then x else y).inner (if b then h else h')
if-Tracks k true x y h h' tx ty = tx
if-Tracks k false x y h h' tx ty = ty

step-Tracks :
    (k : ℕ) (sys : System) (h : Held) (e : Event)
    → Tracks k sys.inner h
    → Tracks k (step sys e).inner (follow_event k sys.inner.db_write_running h e)
unfolding step follow_event on_snapshot_account on_block
step-Tracks k sys h (snapshot_account slot j c) t =
    let s : Inner = record sys.inner { last_slot = max sys.inner.last_slot slot } in
    start_write_if_needed-Tracks k (apply_change s j slot c)
      (if j == k then changed h slot c else h)
      (apply_change-Tracks k s j slot c h (record {
        split = t.split;
        sorted = t.sorted;
        reads = t.reads;
        waits = t.waits;
        booting = t.booting;
      }))
step-Tracks k sys h (block slot changes gap) t =
    let s : Inner = record sys.inner {
      lowest_gap = gap;
      last_slot = max sys.inner.last_slot slot;
    } in
    start_write_if_needed-Tracks k (apply_changes s slot changes) (changed_in k h slot changes) (
      apply_changes-Tracks k s slot changes h (record {
        split = t.split;
        sorted = t.sorted;
        reads = t.reads;
        waits = t.waits;
        booting = t.booting;
      }))
step-Tracks k sys h bootstrap_ends t =
    if-Tracks k sys.inner.db_write_running sys
      (launched (start_bootstrap_write sys.inner) sys.running sys.sent) h (settled h) t
      (start_bootstrap_write-Tracks k sys.inner h t)
step-Tracks k sys h (write_ends ok) t = ended-Tracks k sys sys.running ok h t

run-Tracks :
    (k : ℕ) (sys : System) (h : Held) (events : List Event)
    → Tracks k sys.inner h
    → Tracks k (run sys events).inner (follow k sys h events)
unfolding run follow
run-Tracks k sys h [] t = t
run-Tracks k sys h (e ∷ events) t =
    run-Tracks k (step sys e) (follow_event k sys.inner.db_write_running h e) events
      (step-Tracks k sys h e t)

fresh_system-Tracks :
    (k interval : ℕ) (sent : Sent) → Tracks k (fresh_system interval sent).inner unknown
unfolding fresh_system from_config presized stored get
fresh_system-Tracks k interval sent = record {
  split = presized-IsSplit;
  sorted = tt;
  reads = refl;
  waits = refl;
  booting = refl;
}

-- From its start, whatever snapshot accounts and blocks the indexer takes, wherever the bootstrap ends, and
-- whichever of its writes fail: the store and the closes that wait hold of each mint what its own changes
-- make of it, one after the other, with the closes of unknown mints kept through the bootstrap; and a mint
-- of the store waits for the next write, or has its state in the last rows sent for it, those of the
-- running write included.
pub run-lossless :
    (interval : ℕ) (sent : Sent) (events : List Event) (k : ℕ)
    → (stored (run (fresh_system interval sent) events).inner.store k
        ≡ (follow k (fresh_system interval sent) unknown events).value)
      × (waiting (run (fresh_system interval sent) events).inner.closed_pending k
          ≡ (follow k (fresh_system interval sent) unknown events).waits)
      × Covers
          (run (fresh_system interval sent) events).inner.store
          (run (fresh_system interval sent) events).inner.pending_to_db
          (rows_in (run (fresh_system interval sent) events).running)
          (run (fresh_system interval sent) events).sent
          k
run-lossless interval sent events k =
    let t : Tracks k (run (fresh_system interval sent) events).inner
        (follow k (fresh_system interval sent) unknown events) =
      run-Tracks k (fresh_system interval sent) unknown events
        (fresh_system-Tracks k interval sent) in
    (t.reads, t.waits, run-Covers interval sent events k)
