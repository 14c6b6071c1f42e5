-- ===== src/Mint/Api.antt =====
-- crates/core/src/modules/mint_cache/api.rs: the mints as requests read them. Blocks wait in a buffer
-- until their slot is confirmed. The parse of a block into changes, the rows and slots that the
-- database returns and the wakes of the background task are the caller's.
pub mod Reads
pub mod Chain
pub mod Buffer
pub mod Confirmed
use cloudbreak.Prelude.{
  ℕ, zero, suc, ◌+◌, min, max, String, str_eq, Bool, true, false, not, ◌&&◌, ◌||◌, Option, none,
  some, List, [], ◌∷◌, ◌++◌, ltb, leb, ◌==◌, if◌then◌else◌, length, keep, unwrap_or, is_some, ◌>>=◌,
  ◌>>◌, reject_if,
}
use cloudbreak.Prelude.Word.{add64}
use cloudbreak.OrdMap.{OrdMap, get, insert, range_from}
use cloudbreak.Mint.{MintState, MintChange}
use cloudbreak.Mint.Store.{
  StoredMint, immutable, mutable, tombstone, missing, MintStore, MintRow, presized, stored, apply,
  apply_row,
}

abbrev pub max_buffered_blocks : ℕ
max_buffered_blocks = 20_000

pub data PostgresReason : Type 0 where
  loading newer_than_request behind missing_mint : PostgresReason

pub data MintLookup : Type 0 where
  found : MintState → MintLookup
  closed_mint : MintLookup
  postgres : PostgresReason → MintLookup

pub data ReloadReason : Type 0 where
  block_missing health_restored : ReloadReason

pub record Reload : Type 0 where
  pub after : ℕ
  pub target : ℕ
  pub reason : ReloadReason

pub data Status : Type 0 where
  loading_table live_table : Status

pub record Applied : Type 0 where
  pub slot : ℕ
  pub blockhash : String

pub record BufferedBlock : Type 0 where
  pub blockhash : String
  pub parent_slot : ℕ
  pub parent_blockhash : String
  pub changes : List (ℕ × MintChange)

abbrev pub Buffer : Type 0
Buffer = OrdMap (List BufferedBlock)

-- The state, the buffer and the reloads that `Inner` guards.
pub record Cache : Type 0 where
  pub status : Status
  pub store : MintStore
  pub applied : Applied
  pub buffer : Buffer
  pub unhealthy_since : Option ℕ
  pub pending : Option Reload

-- `MintCacheApi::from_config` of an enabled section.
unfoldable pub from_config : Cache
unfolding presized
from_config = record {
  status = loading_table;
  store = presized;
  applied = record { slot = 0; blockhash = "" };
  buffer = [];
  unhealthy_since = none;
  pending = none;
}

-- `pop_first` while more slots are buffered than the cap, with fuel.
unfoldable pub cap_buffer : ℕ → Buffer → Buffer
cap_buffer fuel [] = []
cap_buffer zero (e ∷ buffer) = e ∷ buffer
cap_buffer (suc fuel) (e ∷ buffer) =
    let rest = cap_buffer fuel buffer in
    if ltb max_buffered_blocks (length (e ∷ buffer)) then rest else e ∷ buffer

unfoldable pub on_block : Cache → ℕ → BufferedBlock → Cache
unfolding get insert cap_buffer
on_block c slot buffered =
    let others =
      keep (λ b. not (str_eq b.blockhash buffered.blockhash)) (unwrap_or (get slot c.buffer) []) in
    let buffer = insert slot (others ++ buffered ∷ []) c.buffer in
    record c { buffer = cap_buffer (length buffer) buffer }

unfoldable pub prune_buffer : Cache → ℕ → Cache
unfolding range_from
prune_buffer c slot = record c { buffer = range_from (add64 slot 1) c.buffer }

-- The first block of the slot with the hash, or the first at all when no hash is known.
unfoldable pub first_with : String → List BufferedBlock → Option BufferedBlock
first_with hash [] = none
first_with hash (b ∷ blocks) =
    if str_eq hash "" || str_eq b.blockhash hash then some b else first_with hash blocks

unfoldable pub find_block : Buffer → ℕ → String → Option BufferedBlock
unfolding get first_with
find_block buffer slot hash = do blocks ← get slot buffer; first_with hash blocks

-- How the loop of `apply_chain` ends: `stuck` is no end of the code's, the fuel ran out.
pub data Walk : Type 0 where
  stuck broken : Walk
  chain : List (ℕ × String) → Walk

abbrev pub push_link : ℕ × String → Walk → Walk
push_link link stuck = stuck
push_link link broken = broken
push_link link (chain links) = chain (link ∷ links)

unfoldable pub is_linked : Applied → BufferedBlock → Bool
is_linked applied block =
    str_eq applied.blockhash ""
    || str_eq block.parent_blockhash ""
    || str_eq block.parent_blockhash applied.blockhash

-- The loop of `apply_chain` from a slot and a hash back to the applied block, with fuel.
unfoldable pub walk : ℕ → Buffer → Applied → ℕ → String → Walk
unfolding find_block is_linked
walk zero buffer applied slot hash = stuck
walk (suc fuel) buffer applied slot hash = elim (find_block buffer slot hash) [
  | none ↦ broken
  | some block ↦
      let link : ℕ × String = (slot, block.blockhash) in
      let rest =
        push_link link (walk fuel buffer applied block.parent_slot block.parent_blockhash) in
      if block.parent_slot == applied.slot
      then (if is_linked applied block then chain (link ∷ []) else broken)
      else if ltb block.parent_slot applied.slot
      then broken
      else rest
]

abbrev pub last_of : BufferedBlock → List BufferedBlock → BufferedBlock
last_of b [] = b
last_of b (c ∷ blocks) = last_of c blocks

abbrev pub without_last : BufferedBlock → List BufferedBlock → List BufferedBlock
without_last b [] = []
without_last b (c ∷ blocks) = b ∷ without_last c blocks

-- `swap_remove` of the first element: the last one takes its place.
abbrev pub fill_gap : List BufferedBlock → List BufferedBlock
fill_gap [] = []
fill_gap (b ∷ blocks) = last_of b blocks ∷ without_last b blocks

-- `swap_remove` of the first block with the hash.
unfoldable pub take_block :
    String → List BufferedBlock → Option (BufferedBlock × List BufferedBlock)
take_block hash [] = none
take_block hash (b ∷ blocks) =
    let later = (do (taken, rest) ← take_block hash blocks; some (taken, b ∷ rest)) in
    if str_eq b.blockhash hash then some (b, fill_gap blocks) else later

unfoldable pub apply_changes : MintStore → ℕ → List (ℕ × MintChange) → MintStore
unfolding apply
apply_changes s slot [] = s
apply_changes s slot ((pubkey, change) ∷ changes) =
    apply_changes (apply s pubkey slot change).0 slot changes

-- The second loop of `apply_chain`, over the links from the newest: the oldest block is applied first.
-- `none` is the panic of `expect`.
unfoldable pub apply_links : Buffer → MintStore → List (ℕ × String) → Option (Buffer × MintStore)
unfolding get insert take_block apply_changes
apply_links buffer s [] = some (buffer, s)
apply_links buffer s ((slot, hash) ∷ links) = do
  (buffer', s') ← apply_links buffer s links
  blocks ← get slot buffer'
  (block, rest) ← take_block hash blocks
  some (insert slot rest buffer', apply_changes s' slot block.changes)

-- The result of `apply_chain`: whether it applied, and the cache. `none` is a panic, or no end.
abbrev pub applied_walk : Cache → Applied → Walk → Option (Bool × Cache)
unfolding apply_links prune_buffer
applied_walk c confirmed stuck = none
applied_walk c confirmed broken = some (false, c)
applied_walk c confirmed (chain links) = do
  (buffer, s) ← apply_links c.buffer c.store links
  some (
    true,
    prune_buffer (record c { buffer = buffer; store = s; applied = confirmed }) confirmed.slot,
  )

unfoldable pub apply_chain : Cache → Applied → Applied → Option (Bool × Cache)
unfolding walk applied_walk
apply_chain c confirmed applied =
    applied_walk c confirmed
      (walk (suc confirmed.slot) c.buffer applied confirmed.slot confirmed.blockhash)

abbrev pub widened : Option Reload → Reload → Reload
widened none request = request
widened (some p) request = record p {
  after = min p.after request.after;
  target = max p.target request.target;
}

unfoldable pub request_reload : Cache → Reload → Cache
request_reload c request = record c { pending = some (widened c.pending request) }

abbrev pub is_loading : Status → Bool
is_loading loading_table = true
is_loading live_table = false

-- What a notification makes of the health: the new start of an outage, and the one that ended.
abbrev pub health : Bool → Option ℕ → ℕ → Option ℕ × Option ℕ
health false none applied = (some applied, none)
health true (some since) applied = (none, some since)
health false (some since) applied = (some since, none)
health true none applied = (none, none)

abbrev pub restored : Cache → ℕ → Option ℕ → Cache
unfolding request_reload
restored c slot none = c
restored c slot (some since) =
    request_reload c (record { after = since; target = slot; reason = health_restored })

-- The cache after the chain was tried, with a reload asked for if it is broken.
abbrev pub chained : Applied → ℕ → Bool × Cache → Cache
unfolding request_reload
chained applied slot (true, c) = c
chained applied slot (false, c) =
    request_reload c (record { after = applied.slot; target = slot; reason = block_missing })

unfoldable pub on_confirmed : Cache → ℕ → String → Bool → Option Cache
unfolding apply_chain restored chained
on_confirmed c slot blockhash healthy =
    let (unhealthy_since, since) = health healthy c.unhealthy_since c.applied.slot in
    let c' = record c { unhealthy_since = unhealthy_since } in
    let tried = (do
      r ← apply_chain c' (record { slot = slot; blockhash = blockhash }) c.applied
      some (restored (chained c.applied slot r) slot since)) in
    if is_loading c.status
    then some c
    else if ltb c.applied.slot slot && not (is_some c.pending)
    then tried
    else some (restored c' slot since)

unfoldable pub apply_rows : MintStore → List MintRow → MintStore
unfolding apply_row
apply_rows s [] = s
apply_rows s (r ∷ rows) = apply_rows (apply_row s r.pubkey r.slot r.state).0 rows

abbrev pub reason_eq : ReloadReason → ReloadReason → Bool
reason_eq block_missing block_missing = true
reason_eq block_missing health_restored = false
reason_eq health_restored block_missing = false
reason_eq health_restored health_restored = true

-- The derived `==` of `pending` and of the request that ran.
abbrev pub is_pending : Option Reload → Reload → Bool
is_pending none request = false
is_pending (some p) request =
    p.after == request.after && p.target == request.target && reason_eq p.reason request.reason

-- The start of `run_reload`: the request to run, once the slot of the database reaches its target.
unfoldable pub due_reload : Cache → ℕ → Option Reload
due_reload c last_db_slot = do
  request ← c.pending
  reject_if (ltb last_db_slot request.target)
  some request

-- The rest of `run_reload`, with the rows read; a request added since it started stays pending.
unfoldable pub run_reload : Cache → Reload → ℕ → List MintRow → Cache
unfolding apply_rows prune_buffer
run_reload c request last_db_slot rows =
    let applied =
      if ltb c.applied.slot last_db_slot
      then record { slot = last_db_slot; blockhash = "" }
      else c.applied in
    let c' =
      prune_buffer (record c { store = apply_rows c.store rows; applied = applied }) applied.slot in
    record c' { pending = if is_pending c.pending request then none else c.pending }

-- The startup load, once it has read the slot and all the rows: an empty table is an error.
unfoldable pub load : Cache → ℕ → List MintRow → Option Cache
unfolding apply_rows prune_buffer presized
load c start [] = none
load c start (r ∷ rows) = some (
    prune_buffer
      (record c {
        store = apply_rows presized (r ∷ rows);
        applied = record { slot = start; blockhash = "" };
        status = live_table;
      })
      start)

unfoldable pub lookup_stored : StoredMint → ℕ → ℕ → MintLookup
lookup_stored (immutable decimals) applied request_slot =
    found (record { decimals = decimals; configs = none; immutable = true })
lookup_stored (mutable entry) applied request_slot =
    if ltb request_slot entry.slot
    then postgres newer_than_request
    else if ltb applied request_slot
    then postgres behind
    else found entry.state
lookup_stored (tombstone slot) applied request_slot =
    if ltb request_slot slot
    then postgres newer_than_request
    else if ltb applied request_slot
    then postgres behind
    else closed_mint
lookup_stored missing applied request_slot =
    if ltb applied request_slot then postgres behind else postgres missing_mint

unfoldable pub lookup_one : Cache → ℕ → ℕ → MintLookup
unfolding lookup_stored stored
lookup_one c key request_slot =
    if is_loading c.status
    then postgres loading
    else lookup_stored (stored c.store key) c.applied.slot request_slot

-- The mints found, and the keys that are left to read from Postgres.
unfoldable pub resolve : Cache → List ℕ → ℕ → OrdMap MintState → OrdMap MintState × List ℕ
unfolding lookup_one insert
resolve c [] request_slot known = (known, [])
resolve c (key ∷ keys) request_slot known = elim (lookup_one c key request_slot) [
  | found state ↦ resolve c keys request_slot (insert key state known)
  | closed_mint ↦ resolve c keys request_slot known
  | postgres reason ↦ let (known', left) = resolve c keys request_slot known in (known', key ∷ left)
]
