-- ===== src/Processed/Writer/Quarantine.antt =====
-- After a conflict nothing is served until the confirmed slot has passed it.
use cloudbreak.Prelude.{
  ℕ, ◌<◌, ◌≤◌, ◌≡◌, refl, sym, ◌∙◌, Option, none, some, List, [], ◌∷◌, arith, Option-cases, inl,
  inr, All,
}
use cloudbreak.Prelude.Word.{u64_max}
use cloudbreak.Processed.{Anchor, SlotBlock}
use cloudbreak.Processed.Ingest.{from_update}
use cloudbreak.Processed.Store
use cloudbreak.Processed.Store.{BlockStore, prune, latest_chained_blocks}
use cloudbreak.Processed.Store.Chain.{IsValid}
use cloudbreak.Processed.Store.Prune.{prune-IsPruned}
use cloudbreak.Processed.Store.Events.{on_block-Keeps, set_anchor_lem}
use cloudbreak.Processed.Writer.{
  Inner, ProcessedWriter, blocks, publish_latest, on_sealed, anchor_inner, on_block, set_anchor,
}
use cloudbreak.Processed.Writer.Runs.{
  Event, block, anchor, InRange, IsSound, handle, run, handle-IsSound, IsSoundWriter,
}

-- A conflict at `c` or later hides the chain, and the anchor has not passed `c`.
pub record IsHidden (c : ℕ) (s : BlockStore) : Type 0 where
  pub until : ℕ
  pub pending : s.conflict_until ≡ some until
  pub later : c ≤ until
  pub behind : (a : Anchor) → s.anchor ≡ some a → a.confirmed_slot ≤ c

-- An anchor that does not pass `c`.
abbrev pub StaysAt : ℕ → Event → Type 0
StaysAt c (block b now) = Unit
StaysAt c (anchor a now) = a.confirmed_slot ≤ c

module _ (c : ℕ) where
  IsHidden-none : (s : BlockStore) → IsHidden c s → latest_chained_blocks s ≡ none
  unfolding latest_chained_blocks
  IsHidden-none s h = elim (Option-cases s.anchor) [
    | inl e ↦ ground arith
    | inr (a, e) ↦
        let pending = h.pending in let le = h.behind a e in let later = h.later in ground arith
  ]

  prune-IsHidden : (s : BlockStore) → IsValid s → IsHidden c s → IsHidden c (prune s)
  prune-IsHidden s v h =
      let p = prune-IsPruned s v in
      record {
        until = h.until;
        pending = p.conflict_until ∙ h.pending;
        later = h.later;
        behind = λ a e. h.behind a (sym p.anchor ∙ e);
      }

  on_block-IsHidden :
      (s : BlockStore) (b : SlotBlock)
      → IsValid s
      → b.slot < u64_max
      → b.parent_slot < u64_max
      → IsHidden c s
      → IsHidden c (Store.on_block s b)
  on_block-IsHidden s b v small psmall h =
      let k = on_block-Keeps s v b small psmall in
      let (later, pending, le) = k.hidden h.until h.pending in
      record {
        until = later;
        pending = pending;
        later = omega (arith, h.later);
        behind = λ a e. h.behind a (sym k.anchor ∙ e);
      }

  set_anchor-IsHidden :
      (s : BlockStore) (a : Anchor) (now : ℕ)
      → IsValid s
      → a.confirmed_slot ≤ c
      → IsHidden c s
      → IsHidden c (Store.set_anchor s a now).0
  set_anchor-IsHidden s a now v le h =
      let (_, _, ends) = set_anchor_lem s v a now in
      record {
        until = h.until;
        pending = ground (arith, ends h.until h.pending, h.later);
        later = h.later;
        behind = λ b e. unfold Store.set_anchor in ground arith;
      }

  IsHiddenWriter : ProcessedWriter → Type 0
  IsHiddenWriter none = Unit
  IsHiddenWriter (some i) = IsHidden c i.store

  module _ (pubkey_of : List ℕ → Option ℕ) (map_bytes : ℕ → ℕ) where
    handle-IsHidden :
        (w : ProcessedWriter) (e : Event)
        → InRange e
        → StaysAt c e
        → IsSoundWriter w
        → IsHiddenWriter w
        → IsHiddenWriter (handle pubkey_of map_bytes w e)
    unfolding handle on_block set_anchor on_sealed anchor_inner publish_latest IsHiddenWriter
    handle-IsHidden none (block b now) r st v h = tt
    handle-IsHidden none (anchor a now) r st v h = tt
    handle-IsHidden (some i) (block b now) r st v h =
        let sealed = from_update pubkey_of map_bytes i.shared.program_filter b now in
        let k =
          on_block-Keeps i.store v.valid sealed (unfold from_update in r.0)
            (unfold from_update in r.1) in
        prune-IsHidden (Store.on_block i.store sealed) k.valid (
          on_block-IsHidden i.store sealed v.valid (unfold from_update in r.0)
            (unfold from_update in r.1) h)
    handle-IsHidden (some i) (anchor a now) r st v h =
        prune-IsHidden (Store.set_anchor i.store a now).0 (set_anchor_lem i.store v.valid a now).0
          (set_anchor-IsHidden i.store a now v.valid st h)

    run-IsHidden :
        (w : ProcessedWriter) (events : List Event)
        → All InRange events
        → All (StaysAt c) events
        → IsSoundWriter w
        → IsHiddenWriter w
        → blocks (run pubkey_of map_bytes w events) ≡ none
    unfolding run IsHiddenWriter
    run-IsHidden none [] r st v h = unfold blocks in refl
    run-IsHidden (some i) [] r st v h = unfold blocks in (v.published ∙ IsHidden-none i.store h)
    run-IsHidden w (e ∷ rest) r st v h =
        run-IsHidden (handle pubkey_of map_bytes w e) rest r.1 st.1
          (handle-IsSound pubkey_of map_bytes w e r.0 v) (handle-IsHidden w e r.0 st.0 v h)

    -- While a conflict at `c` is pending and no anchor passes `c`, no run serves anything.
    pub run-quarantined :
        (i : Inner) (events : List Event)
        → IsSound i
        → IsHidden c i.store
        → All InRange events
        → All (StaysAt c) events
        → blocks (run pubkey_of map_bytes (some i) events) ≡ none
    unfolding IsHiddenWriter
    run-quarantined i events v h r st = run-IsHidden (some i) events r st v h
