-- ===== src/Mint/Store.antt =====
-- crates/core/src/modules/mint_cache/store.rs: the mints known, and the writes that change them.
pub mod View
pub mod Runs
use cloudbreak.Prelude.{
  ℕ, Bool, true, false, not, ◌&&◌, ◌||◌, Option, none, some, [], ltb, ◌==◌, if◌then◌else◌, is_some,
}
use cloudbreak.OrdMap.{OrdMap, get, insert, remove}
use cloudbreak.Mint.{MintState, MintChange, live, closed, state_eq}

pub record MutableMint : Type 0 where
  pub slot : ℕ
  pub state : MintState

pub data ChangeKind : Type 0 where
  create update close reinit : ChangeKind

pub data StoredMint : Type 0 where
  immutable : ℕ → StoredMint
  mutable : MutableMint → StoredMint
  tombstone : ℕ → StoredMint
  missing : StoredMint

pub record MintStore : Type 0 where
  pub immutables : OrdMap ℕ
  pub mutables : OrdMap MutableMint
  pub tombstones : OrdMap ℕ

pub record MintRow : Type 0 where
  pub pubkey : ℕ
  pub slot : ℕ
  pub state : Option MintState

-- `MintStore::presized`
unfoldable pub presized : MintStore
presized = record { immutables = []; mutables = []; tombstones = [] }

abbrev pub stored_or_missing : Option ℕ → StoredMint
stored_or_missing none = missing
stored_or_missing (some decimals) = immutable decimals

abbrev pub closed_or : Option ℕ → StoredMint → StoredMint
closed_or none rest = rest
closed_or (some slot) rest = tombstone slot

abbrev pub mutable_or : Option MutableMint → StoredMint → StoredMint
mutable_or none rest = rest
mutable_or (some entry) rest = mutable entry

unfoldable pub stored : MintStore → ℕ → StoredMint
unfolding get
stored s pubkey =
    mutable_or (get pubkey s.mutables)
      (closed_or (get pubkey s.tombstones) (stored_or_missing (get pubkey s.immutables)))

abbrev pub row_of : ℕ → ℕ → StoredMint → Option MintRow
row_of pubkey slot (immutable decimals) = some (record {
  pubkey = pubkey;
  slot = slot;
  state = some (record { decimals = decimals; configs = none; immutable = true });
})
row_of pubkey slot (mutable entry) =
    some (record { pubkey = pubkey; slot = entry.slot; state = some entry.state })
row_of pubkey slot (tombstone at) = some (record { pubkey = pubkey; slot = at; state = none })
row_of pubkey slot missing = none

unfoldable pub row : MintStore → ℕ → ℕ → Option MintRow
unfolding stored
row s pubkey slot = row_of pubkey slot (stored s pubkey)

-- The kind of a live write to a key that is not immutable: `none` is the early return.
unfoldable pub live_kind : Option ℕ → Option MutableMint → ℕ → MintState → Option ChangeKind
unfolding state_eq
live_kind (some at) entry slot state = if ltb slot at then none else some reinit
live_kind none (some entry) slot state =
    if ltb slot entry.slot || state_eq entry.state state then none else some update
live_kind none none slot state = some create

-- The end of `apply_live`, which writes the state.
unfoldable pub put_live : MintStore → ℕ → ℕ → MintState → MintStore
unfolding insert remove
put_live s pubkey slot state =
    if state.immutable
    then record {
      immutables = insert pubkey state.decimals s.immutables;
      mutables = remove pubkey s.mutables;
      tombstones = remove pubkey s.tombstones;
    }
    else record {
      immutables = s.immutables;
      mutables = insert pubkey (record { slot = slot; state = state }) s.mutables;
      tombstones = remove pubkey s.tombstones;
    }

unfoldable pub apply_live : MintStore → ℕ → ℕ → MintState → MintStore × Option ChangeKind
unfolding get live_kind put_live
apply_live s pubkey slot state =
    if is_some (get pubkey s.immutables)
    then (s, none)
    else elim (live_kind (get pubkey s.tombstones) (get pubkey s.mutables) slot state) [
      | none ↦ (s, none)
      | some kind ↦ (put_live s pubkey slot state, some kind)
    ]

-- Whether the close of a key with this entry is ignored.
unfoldable pub close_ignored : Option MutableMint → ℕ → Bool → Bool
close_ignored none slot known_only = known_only
close_ignored (some entry) slot known_only = ltb slot entry.slot

unfoldable pub close_mint : MintStore → ℕ → ℕ → Bool → MintStore × Option ChangeKind
unfolding get insert remove close_ignored
close_mint s pubkey slot known_only =
    if is_some (get pubkey s.immutables)
      || is_some (get pubkey s.tombstones)
      || close_ignored (get pubkey s.mutables) slot known_only
    then (s, none)
    else (
      record s {
        mutables = remove pubkey s.mutables;
        tombstones = insert pubkey slot s.tombstones;
      },
      some close,
    )

unfoldable pub apply : MintStore → ℕ → ℕ → MintChange → MintStore × Option ChangeKind
unfolding apply_live close_mint
apply s pubkey slot (live state) = apply_live s pubkey slot state
apply s pubkey slot closed = close_mint s pubkey slot true

unfoldable pub apply_row : MintStore → ℕ → ℕ → Option MintState → MintStore × Option ChangeKind
unfolding apply_live close_mint
apply_row s pubkey slot (some state) = apply_live s pubkey slot state
apply_row s pubkey slot none = close_mint s pubkey slot false
