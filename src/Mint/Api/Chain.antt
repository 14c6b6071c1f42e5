-- ===== src/Mint/Api/Chain.antt =====
-- The chain of buffered blocks that a confirmed slot applies.
use mathlib.Core.Path.{subst}
use cloudbreak.Prelude.{
  ℕ, zero, ◌⊎◌, inl, inr, suc, ◌≤◌, ◌<◌, ◌≡◌, refl, sym, ◌∙◌, String, str_eq, eq_iff, Bool, true,
  false, ◌||◌, some, List, [], ◌∷◌, arith, ltb, ◌==◌, if◌then◌else◌, unwrap_or, All, Bool-cases,
  Option-cases, ◌>>=◌,
}
use cloudbreak.OrdMap.{get, insert, get-insert}
use cloudbreak.Mint.{MintChange}
use cloudbreak.Mint.Store.{MintStore}
use cloudbreak.Mint.Api.{
  Applied, BufferedBlock, Buffer, Cache, first_with, find_block, Walk, stuck, broken, chain,
  push_link, is_linked, walk, fill_gap, take_block, apply_changes, apply_links, applied_walk,
  apply_chain, prune_buffer,
}
use cloudbreak.Mint.Api.Buffer.{IsBackward, taken_branch, get-IsBackward}

first_with-All :
    (P : BufferedBlock → Type 0) (hash : String) (blocks : List BufferedBlock) (b : BufferedBlock)
    → All P blocks
    → first_with hash blocks ≡ some b
    → P b
unfolding first_with
first_with-All P hash [] b h e = absurd (ground (arith, e))
first_with-All P hash (c ∷ blocks) b h e =
    elim (taken_branch (str_eq hash "" || str_eq c.blockhash hash) c (first_with hash blocks) b e) [
      | inl (_, at) ↦ subst P at h.0
      | inr later ↦ first_with-All P hash blocks b h.1 later
    ]

-- The blocks of the slot a block was found in.
find_block-cases :
    (buffer : Buffer) (slot : ℕ) (hash : String) (b : BufferedBlock)
    → find_block buffer slot hash ≡ some b
    → (blocks : List BufferedBlock) × (get slot buffer ≡ some blocks)
      × (first_with hash blocks ≡ some b)
unfolding find_block
find_block-cases buffer slot hash b e = elim (Option-cases (get slot buffer)) [
  | inl missing ↦ absurd (ground (arith, e, missing))
  | inr (blocks, at) ↦ (blocks, at, sym (rw (at) refl) ∙ e)
]

find_block-lt :
    (buffer : Buffer) (slot : ℕ) (hash : String) (b : BufferedBlock)
    → IsBackward buffer
    → find_block buffer slot hash ≡ some b
    → b.parent_slot < slot
find_block-lt buffer slot hash b h e =
    let (blocks, at, first) = find_block-cases buffer slot hash b e in
    first_with-All (λ c. c.parent_slot < slot) hash blocks b
      (get-IsBackward buffer slot blocks h at) first

-- The block that was found can be taken out of its slot by its hash.
take_block-first_with :
    (hash : String) (blocks : List BufferedBlock) (b : BufferedBlock)
    → first_with hash blocks ≡ some b
    → (r : BufferedBlock × List BufferedBlock) × (take_block b.blockhash blocks ≡ some r)
unfolding first_with take_block
take_block-first_with hash [] b e = absurd (ground (arith, e))
take_block-first_with hash (c ∷ blocks) b e = elim (Bool-cases (str_eq c.blockhash b.blockhash)) [
  | inl here ↦ ((c, fill_gap blocks), rw (here) refl)
  | inr there ↦
      elim (taken_branch (str_eq hash "" || str_eq c.blockhash hash) c (first_with hash blocks) b
        e) [
          | inl (_, at) ↦ absurd (ground (arith, there, at, eq_iff c.blockhash b.blockhash))
          | inr later ↦
              let (r, taken) = take_block-first_with hash blocks b later in
              ((r.0, c ∷ r.1), rw (there, taken) refl)
        ]
]

-- The changes of the block with the hash, as it stands in the buffer.
abbrev pub changes_at : Buffer → ℕ → String → List (ℕ × MintChange)
changes_at buffer slot hash =
    unwrap_or
      (do blocks ← get slot buffer; (block, rest) ← take_block hash blocks; some block.changes) []

-- The changes of the linked blocks, from the oldest.
abbrev pub replay_links : Buffer → MintStore → List (ℕ × String) → MintStore
unfolding apply_changes
replay_links buffer s [] = s
replay_links buffer s ((slot, hash) ∷ links) =
    apply_changes (replay_links buffer s links) slot (changes_at buffer slot hash)

-- Applying the links succeeds, as their replay, and leaves the slots above alone.
pub record Applies (buffer : Buffer) (s : MintStore) (slot : ℕ) (links : List (ℕ × String))
    : Type 0 where
  pub after : Buffer
  pub succeeds : apply_links buffer s links ≡ some (after, replay_links buffer s links)
  pub kept : (k : ℕ) → slot < k → get k after ≡ get k buffer

module _ (buffer : Buffer) (s : MintStore) where
  -- One more link, to a block that is still where it was.
  link-Applies :
      (slot : ℕ) (hash : String) (b : BufferedBlock) (links : List (ℕ × String)) (after : Buffer)
      → find_block buffer slot hash ≡ some b
      → apply_links buffer s links ≡ some (after, replay_links buffer s links)
      → ((k : ℕ) → slot ≤ k → get k after ≡ get k buffer)
      → Applies buffer s slot ((slot, b.blockhash) ∷ links)
  unfolding apply_links
  link-Applies slot hash b links after e applied kept =
      let (blocks, at, first) = find_block-cases buffer slot hash b e in
      let (r, taken) = take_block-first_with hash blocks b first in
      let there : get slot after ≡ some blocks = kept slot (omega arith) ∙ at in
      record {
        after = insert slot r.1 after;
        succeeds = rw (applied, there, at, taken) refl;
        kept = λ k lt. ground (arith, lt, get-insert slot k r.1 after, kept k);
      }

  -- A walk with enough fuel ends, in links that apply if in any.
  abbrev Settles : ℕ → Walk → Type 0
  Settles slot stuck = ⊥
  Settles slot broken = Unit
  Settles slot (chain links) = Applies buffer s slot links

  push_link-Settles :
      (slot : ℕ) (hash : String) (b : BufferedBlock) (w : Walk)
      → find_block buffer slot hash ≡ some b
      → b.parent_slot < slot
      → Settles b.parent_slot w
      → Settles slot (push_link (slot, b.blockhash) w)
  push_link-Settles slot hash b stuck e lt h = h
  push_link-Settles slot hash b broken e lt h = tt
  push_link-Settles slot hash b (chain links) e lt h =
      link-Applies slot hash b links h.after e h.succeeds (λ k le. h.kept k (omega arith))

  if-Settles :
      (slot : ℕ) (b : Bool) (v w : Walk)
      → Settles slot v
      → Settles slot w
      → Settles slot (if b then v else w)
  if-Settles slot true v w hv hw = hv
  if-Settles slot false v w hv hw = hw

  walk-Settles :
      (fuel : ℕ) (applied : Applied) (slot : ℕ) (hash : String)
      → IsBackward buffer
      → slot < fuel
      → Settles slot (walk fuel buffer applied slot hash)
  unfolding walk apply_links
  walk-Settles zero applied slot hash h lt = absurd (omega arith)
  walk-Settles (suc fuel) applied slot hash h lt =
      elim (Option-cases (find_block buffer slot hash)) [
        | inl missing ↦ rw (missing, Settles) tt
        | inr (b, e) ↦
            let down = find_block-lt buffer slot hash b h e in
            let alone : Applies buffer s slot ((slot, b.blockhash) ∷ []) =
              link-Applies slot hash b [] buffer e refl (λ k le. refl) in
            let longer =
              push_link-Settles slot hash b
                (walk fuel buffer applied b.parent_slot b.parent_blockhash) e down
                (walk-Settles fuel applied b.parent_slot b.parent_blockhash h (omega arith)) in
            rw (e, Settles)
              (if-Settles slot (b.parent_slot == applied.slot) _ _
                (if-Settles slot (is_linked applied b) _ _ alone tt)
                (if-Settles slot (ltb b.parent_slot applied.slot) _ _ tt longer))
      ]

-- What trying the chain of a confirmed block comes to.
pub record Advances (c : Cache) (confirmed : Applied) (links : List (ℕ × String)) : Type 0 where
  pub after : Cache
  pub advanced : apply_chain c confirmed c.applied ≡ some (true, after)
  pub store : after.store ≡ replay_links c.buffer c.store links
  pub applied : after.applied ≡ confirmed

settled_chain :
    (c : Cache) (confirmed : Applied) (w : Walk)
    → walk (suc confirmed.slot) c.buffer c.applied confirmed.slot confirmed.blockhash ≡ w
    → Settles c.buffer c.store confirmed.slot w
    → (apply_chain c confirmed c.applied ≡ some (false, c))
      ⊎ ((links : List (ℕ × String)) × (walk
              (suc confirmed.slot)
              c.buffer
              c.applied
              confirmed.slot
              confirmed.blockhash
            ≡ chain links)
          × Advances c confirmed links)
unfolding apply_chain applied_walk prune_buffer
settled_chain c confirmed stuck e h = absurd h
settled_chain c confirmed broken e h = inl (rw (e) refl)
settled_chain c confirmed (chain links) e h = inr (
  links,
  e,
  record {
    after =
        prune_buffer
          (record c {
            buffer = h.after;
            store = replay_links c.buffer c.store links;
            applied = confirmed;
          })
          confirmed.slot;
    advanced = rw (e, h.succeeds) refl;
    store = refl;
    applied = refl;
  },
)

-- When every buffered block is above its parent, trying the chain of a confirmed block ends and does not
-- panic: the cache is left as it is, or the walk found links from the confirmed block and the store then
-- has the changes of their blocks, from the oldest, as they stood in the buffer, up to the confirmed block.
pub apply_chain_total :
    (c : Cache) (confirmed : Applied)
    → IsBackward c.buffer
    → (apply_chain c confirmed c.applied ≡ some (false, c))
      ⊎ ((links : List (ℕ × String)) × (walk
              (suc confirmed.slot)
              c.buffer
              c.applied
              confirmed.slot
              confirmed.blockhash
            ≡ chain links)
          × Advances c confirmed links)
apply_chain_total c confirmed h = settled_chain c confirmed _ refl (
    walk-Settles c.buffer c.store (suc confirmed.slot) c.applied confirmed.slot confirmed.blockhash
      h (omega arith))
