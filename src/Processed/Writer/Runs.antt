-- ===== src/Processed/Writer/Runs.antt =====
-- Runs of the writer: what holds after any sequence of blocks and anchors.
use cloudbreak.Prelude.{
  ℕ, ◌+◌, ◌<◌, ◌≤◌, ◌≡◌, refl, sym, ◌∙◌, Bool, true, false, Option, none, some, List, [], ◌∷◌,
  arith, length, All,
}
use cloudbreak.Prelude.Word.{u64_max}
use cloudbreak.Processed.{
  Anchor, SlotBlock, ProcessedBlocks, max_slots_above_confirmed, retained_slots_below_confirmed,
}
use cloudbreak.Processed.Ingest.{AccountSelectorConfig, BlockUpdate, from_update}
use cloudbreak.Processed.Store
use cloudbreak.Processed.Store.{BlockStore, prune, latest_chained_blocks}
use cloudbreak.Processed.Store.Chain.{IsValid}
use cloudbreak.Processed.Store.Prune.{prune-IsPruned, length-prune, length-prune_unanchored}
use cloudbreak.Processed.Store.Events.{on_block-Keeps, set_anchor_lem, new-IsValid}
use cloudbreak.Processed.Store.Latest.{Serves, latest_chained_blocks-Serves}
use cloudbreak.Processed.Writer.{
  Inner, ProcessedWriter, from_config, writer, blocks, publish_latest, on_sealed, anchor_inner,
  on_block, set_anchor,
}

-- What the writer is handed, with the time of the monotonic clock.
pub data Event : Type 0 where
  block : BlockUpdate → ℕ → Event
  anchor : Anchor → ℕ → Event

-- Slots are `u64`, and `u64::MAX` is not among them.
abbrev pub InRange : Event → Type 0
InRange (block b now) = (b.slot < u64_max) × (b.parent_slot < u64_max)
InRange (anchor a now) = a.confirmed_slot < u64_max

-- The writer's state is sound: a valid store within its bounds, all of whose latest chain is published.
pub record IsSound (i : Inner) : Type 0 where
  pub valid : IsValid i.store
  pub published : i.shared.latest ≡ latest_chained_blocks i.store
  pub anchored : (a : Anchor) → i.store.anchor ≡ some a → a.confirmed_slot < u64_max
  pub bounded :
      (a : Anchor)
      → i.store.anchor ≡ some a
      → length i.store.blocks ≤ max_slots_above_confirmed + retained_slots_below_confirmed + 1
  pub capped : i.store.anchor ≡ none → length i.store.blocks ≤ max_slots_above_confirmed

publish_latest-IsSound :
    (i : Inner)
    → IsValid i.store
    → ((a : Anchor) → i.store.anchor ≡ some a → a.confirmed_slot < u64_max)
    → IsSound (publish_latest i)
unfolding publish_latest
publish_latest-IsSound i v small =
    let p = prune-IsPruned i.store v in
    record {
      valid = p.valid;
      published = refl;
      anchored = λ a e. small a (ground (arith, p.anchor));
      bounded = λ a e.
          let before : i.store.anchor ≡ some a = sym p.anchor ∙ e in
          length-prune i.store v a before (omega (arith, small a before));
      capped = λ e. length-prune_unanchored i.store v (sym p.anchor ∙ e);
    }

-- The writer, if it is enabled, is sound.
abbrev pub IsSoundWriter : ProcessedWriter → Type 0
IsSoundWriter none = Unit
IsSoundWriter (some i) = IsSound i

on_sealed-IsSound :
    (i : Inner) (b : SlotBlock)
    → IsSound i
    → b.slot < u64_max
    → b.parent_slot < u64_max
    → IsSound (on_sealed i b)
unfolding on_sealed
on_sealed-IsSound i b h small psmall =
    let k = on_block-Keeps i.store h.valid b small psmall in
    publish_latest-IsSound (record i { store = Store.on_block i.store b }) k.valid
      (λ a e. h.anchored a (sym k.anchor ∙ e))

anchor_inner-IsSound :
    (i : Inner) (a : Anchor) (now : ℕ)
    → IsSound i
    → a.confirmed_slot < u64_max
    → IsSound (anchor_inner i a now)
unfolding anchor_inner
anchor_inner-IsSound i a now h small =
    publish_latest-IsSound (record i { store = (Store.set_anchor i.store a now).0 })
      (set_anchor_lem i.store h.valid a now).0 (λ b e. unfold Store.set_anchor in ground arith)

module _ (pubkey_of : List ℕ → Option ℕ) (map_bytes : ℕ → ℕ) where
  unfoldable pub handle : ProcessedWriter → Event → ProcessedWriter
  handle w (block b now) = on_block pubkey_of map_bytes w b now
  handle w (anchor a now) = set_anchor w a now

  unfoldable pub run : ProcessedWriter → List Event → ProcessedWriter
  unfolding handle
  run w [] = w
  run w (e ∷ rest) = run (handle w e) rest

  pub handle-IsSound :
      (w : ProcessedWriter) (e : Event) → InRange e → IsSoundWriter w → IsSoundWriter (handle w e)
  unfolding handle on_block set_anchor
  handle-IsSound none (block b now) r h = tt
  handle-IsSound none (anchor a now) r h = tt
  handle-IsSound (some i) (block b now) r h =
      on_sealed-IsSound i (from_update pubkey_of map_bytes i.shared.program_filter b now) h
        (unfold from_update in r.0) (unfold from_update in r.1)
  handle-IsSound (some i) (anchor a now) r h = anchor_inner-IsSound i a now h r

  run-IsSound :
      (w : ProcessedWriter) (events : List Event)
      → All InRange events
      → IsSoundWriter w
      → IsSoundWriter (run w events)
  unfolding run
  run-IsSound w [] r h = h
  run-IsSound w (e ∷ rest) r h = run-IsSound (handle w e) rest r.1 (handle-IsSound w e r.0 h)

  -- A writer that has handled nothing is sound.
  pub writer-IsSound :
      (enabled : Option Bool) (filter : AccountSelectorConfig)
      → IsSoundWriter (writer (from_config enabled filter))
  unfolding writer from_config
  writer-IsSound none filter = tt
  writer-IsSound (some false) filter = tt
  writer-IsSound (some true) filter = record {
    valid = new-IsValid;
    published = unfold latest_chained_blocks in refl;
    anchored = λ a e. cc;
    bounded = λ a e. cc;
    capped = λ e. omega arith;
  }

  -- After any blocks and anchors a request is served only proven chains, and the store is bounded.
  pub run-Serves :
      (enabled : Option Bool) (filter : AccountSelectorConfig) (events : List Event)
      (pb : ProcessedBlocks)
      → All InRange events
      → blocks (run (writer (from_config enabled filter)) events) ≡ some pb
      → (i : Inner) × (run (writer (from_config enabled filter)) events ≡ some i)
        × Serves i.store pb
        × (length i.store.blocks ≤ max_slots_above_confirmed + retained_slots_below_confirmed + 1)
  unfolding blocks
  run-Serves enabled filter events pb r served =
      go (run (writer (from_config enabled filter)) events)
        (run-IsSound (writer (from_config enabled filter)) events r (writer-IsSound enabled filter))
        served
    where
      go :
          (w : ProcessedWriter)
          → IsSoundWriter w
          → blocks w ≡ some pb
          → (i : Inner) × (w ≡ some i)
            × Serves i.store pb
            × (length i.store.blocks
                ≤ max_slots_above_confirmed + retained_slots_below_confirmed + 1)
      go none h e = cc
      go (some i) h e =
          let s = latest_chained_blocks-Serves i.store h.valid pb (sym h.published ∙ e) in
          (i, refl, s, h.bounded s.anchor s.anchored)
