-- ===== src/Mint/Indexer.antt =====
-- crates/core/src/modules/mint_cache/indexer.rs: every mint in memory, and the writes of the changed
-- ones to the table. A background write is two steps: its start, and its end with success or failure.
-- The parse of an account into a change is the caller's. Counters and the debug record are left out.
pub mod Covered
pub mod Followed
pub mod Runs
pub mod Lossless
use cloudbreak.Prelude.{
  ℕ, ◌+◌, ◌-◌, min, max, Bool, true, false, not, ◌&&◌, Option, none, some, List, [], ◌∷◌, ◌++◌, leb,
  if◌then◌else◌, length, map_or, unwrap_or, ◌>>=◌,
}
use cloudbreak.Prelude.Word.{add64}
use cloudbreak.OrdMap.{OrdMap, get, insert}
use cloudbreak.Mint.{MintChange, live, closed}
use cloudbreak.Mint.Store.{
  ChangeKind, StoredMint, missing, immutable, mutable, tombstone, MintStore, MintRow, presized,
  stored, row, apply,
}

abbrev pub upsert_chunk : ℕ
upsert_chunk = 50_000

pub record Inner : Type 0 where
  pub store : MintStore
  pub closed_pending : Option (OrdMap ℕ)
  pub pending_to_db : OrdMap ℕ
  pub last_slot : ℕ
  pub lowest_gap : Option ℕ
  pub last_db_slot : Option ℕ
  pub db_write_running : Bool
  pub db_write_interval_slots : ℕ

-- `MintCacheIndexer::from_config` of an enabled section.
unfoldable pub from_config : ℕ → Inner
unfolding presized
from_config db_write_interval_slots = record {
  store = presized;
  closed_pending = some [];
  pending_to_db = [];
  last_slot = 0;
  lowest_gap = none;
  last_db_slot = none;
  db_write_running = false;
  db_write_interval_slots = db_write_interval_slots;
}

-- `entry(pubkey).or_insert(slot)` and the maximum of both.
unfoldable pub mark : OrdMap ℕ → ℕ → ℕ → OrdMap ℕ
unfolding get insert
mark m pubkey slot = insert pubkey (max (unwrap_or (get pubkey m) slot) slot) m

unfoldable pub mark_pending : Inner → ℕ → ℕ → Inner
unfolding mark
mark_pending s pubkey slot = record s { pending_to_db = mark s.pending_to_db pubkey slot }

-- The end of `Inner::apply`.
abbrev pub after_apply : Inner → ℕ → ℕ → MintStore × Option ChangeKind → Inner
unfolding mark_pending
after_apply s pubkey slot (store, none) = record s { store = store }
after_apply s pubkey slot (store, some kind) = mark_pending (record s { store = store }) pubkey slot

unfoldable pub apply_to_store : Inner → ℕ → ℕ → MintChange → Inner
unfolding apply after_apply
apply_to_store s pubkey slot change = after_apply s pubkey slot (apply s.store pubkey slot change)

abbrev pub is_missing : StoredMint → Bool
is_missing missing = true
is_missing _ = false

-- A close while bootstrapping, with what waits already.
unfoldable pub apply_close : Inner → ℕ → ℕ → Option (OrdMap ℕ) → Inner
unfolding apply_to_store mark stored
apply_close s pubkey slot none = apply_to_store s pubkey slot closed
apply_close s pubkey slot (some waiting) =
    if is_missing (stored s.store pubkey)
    then record s { closed_pending = some (mark waiting pubkey slot) }
    else apply_to_store s pubkey slot closed

unfoldable pub apply_change : Inner → ℕ → ℕ → MintChange → Inner
unfolding apply_to_store apply_close
apply_change s pubkey slot (live state) = apply_to_store s pubkey slot (live state)
apply_change s pubkey slot closed = apply_close s pubkey slot s.closed_pending

abbrev pub push_row : Option MintRow → List MintRow → List MintRow
push_row none rows = rows
push_row (some r) rows = r ∷ rows

unfoldable pub rows_of : MintStore → OrdMap ℕ → List MintRow
unfolding row
rows_of store [] = []
rows_of store ((pubkey, slot) ∷ pending) = push_row (row store pubkey slot) (rows_of store pending)

unfoldable pub take_pending_rows : Inner → Inner × List MintRow
unfolding rows_of
take_pending_rows s = (record s { pending_to_db = [] }, rows_of s.store s.pending_to_db)

unfoldable pub complete_through : Inner → ℕ
complete_through s = map_or s.lowest_gap s.last_slot (λ gap. min s.last_slot (gap - 1))

-- A background write: its rows and the `last_db_slot` to set.
pub record Write : Type 0 where
  pub rows : List MintRow
  pub new_last_db_slot : Option ℕ

unfoldable pub start_write : Inner → Option ℕ → Inner × Option Write
unfolding take_pending_rows
start_write s new_last_db_slot =
    let (s', rows) = take_pending_rows (record s { db_write_running = true }) in
    (s', some (record { rows = rows; new_last_db_slot = new_last_db_slot }))

-- Whether a write is due, and the `last_db_slot` that it sets: `none` is no write.
unfoldable pub write_due : Inner → Option ℕ → Option (Option ℕ)
unfolding complete_through
write_due s none = if leb upsert_chunk (length s.pending_to_db) then some none else none
write_due s (some last_db_slot) =
    if leb (add64 last_db_slot s.db_write_interval_slots) (complete_through s)
    then some (some (complete_through s))
    else none

unfoldable pub start_write_if_needed : Inner → Inner × Option Write
unfolding write_due start_write
start_write_if_needed s =
    if s.db_write_running then (s, none) else elim (write_due s s.last_db_slot) [
      | none ↦ (s, none)
      | some new_last_db_slot ↦ start_write s new_last_db_slot
    ]

-- `on_snapshot_account` of an account that is a mint or a close.
unfoldable pub on_snapshot_account : Inner → ℕ → ℕ → MintChange → Inner × Option Write
unfolding apply_change start_write_if_needed
on_snapshot_account s slot pubkey change =
    start_write_if_needed
      (apply_change (record s { last_slot = max s.last_slot slot }) pubkey slot change)

unfoldable pub apply_changes : Inner → ℕ → List (ℕ × MintChange) → Inner
unfolding apply_change
apply_changes s slot [] = s
apply_changes s slot ((pubkey, change) ∷ changes) =
    apply_changes (apply_change s pubkey slot change) slot changes

unfoldable pub on_block : Inner → ℕ → List (ℕ × MintChange) → Option ℕ → Inner × Option Write
unfolding apply_changes start_write_if_needed
on_block s slot changes lowest_gap = start_write_if_needed (
    apply_changes (record s { lowest_gap = lowest_gap; last_slot = max s.last_slot slot }) slot
      changes)

unfoldable pub apply_closes : Inner → OrdMap ℕ → Inner
unfolding apply_change
apply_closes s [] = s
apply_closes s ((pubkey, slot) ∷ closes) = apply_closes (apply_change s pubkey slot closed) closes

-- The part of `finish_bootstrap` up to its write, once no other write runs.
unfoldable pub start_bootstrap_write : Inner → Inner × Option Write
unfolding apply_closes start_write complete_through
start_bootstrap_write s =
    let s' = apply_closes (record s { closed_pending = none }) (unwrap_or s.closed_pending []) in
    start_write s' (some (complete_through s'))

unfoldable pub mark_rows : Inner → List MintRow → Inner
unfolding mark_pending
mark_rows s [] = s
mark_rows s (r ∷ rows) = mark_rows (mark_pending s r.pubkey r.slot) rows

abbrev pub or_else : Option ℕ → Option ℕ → Option ℕ
or_else none b = b
or_else (some a) b = some a

-- The end of `spawn_write`, with whether the write succeeded.
unfoldable pub end_write : Inner → Write → Bool → Inner
unfolding mark_rows
end_write s w ok =
    let s' = record s { db_write_running = false } in
    if ok
    then record s' { last_db_slot = or_else w.new_last_db_slot s.last_db_slot }
    else mark_rows s' w.rows
