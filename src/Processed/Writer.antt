-- ===== src/Processed/Writer.antt =====
-- crates/core/src/modules/processed/writer.rs and mod.rs: the handle of the requests, and the single
-- writer that owns the store. The writer and the handle share `Shared`; the model keeps it in the
-- writer's state, from which `blocks` reads.
pub mod Runs
pub mod Quarantine
use cloudbreak.Prelude.{ℕ, Bool, Option, none, some, List, [], ◌∷◌, if◌then◌else◌, is_some, ◌>>=◌}
use cloudbreak.Processed.{Anchor, SlotBlock, ProcessedBlocks}
use cloudbreak.Processed.Ingest.{AccountSelectorConfig, BlockUpdate, from_update}
use cloudbreak.Processed.Store.{BlockStore, prune, latest_chained_blocks}
use cloudbreak.Processed.Store

pub record Shared : Type 0 where
  pub program_filter : AccountSelectorConfig
  pub latest : Option ProcessedBlocks

-- The handle: `none` is the disabled one.
abbrev pub ProcessedAccounts : Type 0
ProcessedAccounts = Option Shared

-- `enabled` is that of the section, when there is one.
unfoldable pub from_config : Option Bool → AccountSelectorConfig → ProcessedAccounts
from_config none program_filter = none
from_config (some enabled) program_filter =
    if enabled then some (record { program_filter = program_filter; latest = none }) else none

pub record Inner : Type 0 where
  pub shared : Shared
  pub store : BlockStore

-- The writer: `none` is the disabled one.
abbrev pub ProcessedWriter : Type 0
ProcessedWriter = Option Inner

abbrev pub set_latest : Shared → Option ProcessedBlocks → Shared
set_latest shared next = record shared { latest = next }

unfoldable pub writer : ProcessedAccounts → ProcessedWriter
writer none = none
writer (some shared) = some (record { shared = shared; store = Store.new })

-- What a request reads through the handle of this writer.
unfoldable pub blocks : ProcessedWriter → Option ProcessedBlocks
blocks w = w >>= λ inner. inner.shared.latest

unfoldable pub publish_latest : Inner → Inner
publish_latest inner =
    let store = prune inner.store in
    record { shared = set_latest inner.shared (latest_chained_blocks store); store = store }

unfoldable pub on_sealed : Inner → SlotBlock → Inner
unfolding publish_latest
on_sealed inner block = publish_latest (record inner { store = Store.on_block inner.store block })

module _ (pubkey_of : List ℕ → Option ℕ) (map_bytes : ℕ → ℕ) where
  unfoldable pub on_block : ProcessedWriter → BlockUpdate → ℕ → ProcessedWriter
  unfolding on_sealed
  on_block none block now = none
  on_block (some inner) block now =
      some (on_sealed inner (from_update pubkey_of map_bytes inner.shared.program_filter block now))

unfoldable pub anchor_inner : Inner → Anchor → ℕ → Inner
unfolding publish_latest
anchor_inner inner anchor now =
    publish_latest (record inner { store = (Store.set_anchor inner.store anchor now).0 })

unfoldable pub set_anchor : ProcessedWriter → Anchor → ℕ → ProcessedWriter
unfolding anchor_inner
set_anchor none anchor now = none
set_anchor (some inner) anchor now = some (anchor_inner inner anchor now)
