-- ===== src/Mint/Api/Buffer.antt =====
-- The blocks that wait in the buffer: how many, and that each is above its parent.
use mathlib.Core.Option.{some-injective}
use mathlib.Core.Path.{subst}
use cloudbreak.Prelude.{
  ℕ, zero, ◌⊎◌, inl, inr, ==_iff, suc, ◌≤◌, ◌<◌, ◌≡◌, refl, str_eq, Bool, true, false, not, Option,
  some, List, [], ◌∷◌, ◌++◌, arith, ltb, ◌==◌, if◌then◌else◌, length, keep, unwrap_or, All,
  All-append, All-keep, Option-cases,
}
use cloudbreak.OrdMap.{get, insert}
use cloudbreak.Mint.Api.{max_buffered_blocks, BufferedBlock, Buffer, Cache, cap_buffer, on_block}

length-cap_buffer :
    (fuel : ℕ) (m : Buffer) → length m ≤ fuel → length (cap_buffer fuel m) ≤ max_buffered_blocks
unfolding cap_buffer
length-cap_buffer fuel [] h = ground arith
length-cap_buffer zero (e ∷ m) h = absurd (ground (arith, h))
length-cap_buffer (suc fuel) (e ∷ m) h = ground (arith, h, length-cap_buffer fuel m)

-- Whatever block the feed brings, the buffer then holds at most 20,000 slots.
length-on_block :
    (c : Cache) (slot : ℕ) (block : BufferedBlock)
    → length (on_block c slot block).buffer ≤ max_buffered_blocks
unfolding on_block
length-on_block c slot block =
    let others =
      keep (λ b. not (str_eq b.blockhash block.blockhash)) (unwrap_or (get slot c.buffer) []) in
    let buffer = insert slot (others ++ block ∷ []) c.buffer in
    length-cap_buffer (length buffer) buffer (omega arith)

-- Every block is above its parent.
abbrev pub IsBackward : Buffer → Type 0
IsBackward [] = Unit
IsBackward ((slot, blocks) ∷ buffer) = All (λ b. b.parent_slot < slot) blocks × IsBackward buffer

-- Which branch of a test gave the value.
pub taken_branch :
    {A : Type 0} (b : Bool) (v : A) (rest : Option A) (w : A)
    → (if b then some v else rest) ≡ some w
    → ((b ≡ true) × (v ≡ w)) ⊎ (rest ≡ some w)
taken_branch true v rest w e = inl (refl, some-injective v w e)
taken_branch false v rest w e = inr e

pub get-IsBackward :
    (buffer : Buffer) (slot : ℕ) (blocks : List BufferedBlock)
    → IsBackward buffer
    → get slot buffer ≡ some blocks
    → All (λ b. b.parent_slot < slot) blocks
unfolding get
get-IsBackward [] slot blocks h e = absurd (ground (arith, e))
get-IsBackward ((k, bs) ∷ buffer) slot blocks h e =
    elim (taken_branch (k == slot) bs (get slot buffer) blocks e) [
      | inl (same, at) ↦
          subst (λ v. All (λ b. b.parent_slot < slot) v) at
            (subst (λ q. All (λ b. b.parent_slot < q) bs) ((==_iff k slot).0 same) h.0)
      | inr later ↦ get-IsBackward buffer slot blocks h.1 later
    ]

if-IsBackward :
    (b : Bool) (v w : Buffer) → IsBackward v → IsBackward w → IsBackward (if b then v else w)
if-IsBackward true v w hv hw = hv
if-IsBackward false v w hv hw = hw

insert-IsBackward :
    (slot : ℕ) (blocks : List BufferedBlock) (buffer : Buffer)
    → All (λ b. b.parent_slot < slot) blocks
    → IsBackward buffer
    → IsBackward (insert slot blocks buffer)
unfolding insert
insert-IsBackward slot blocks [] hb h = (hb, tt)
insert-IsBackward slot blocks ((k, bs) ∷ buffer) hb h =
    let rest = insert-IsBackward slot blocks buffer hb h.1 in
    if-IsBackward (slot == k) _ _ (hb, h.1) (if-IsBackward (ltb slot k) _ _ (hb, h) (h.0, rest))

cap_buffer-IsBackward :
    (fuel : ℕ) (buffer : Buffer) → IsBackward buffer → IsBackward (cap_buffer fuel buffer)
unfolding cap_buffer
cap_buffer-IsBackward fuel [] h = h
cap_buffer-IsBackward zero (e ∷ buffer) h = h
cap_buffer-IsBackward (suc fuel) (e ∷ buffer) h =
    if-IsBackward (ltb max_buffered_blocks (length (e ∷ buffer))) _ _
      (cap_buffer-IsBackward fuel buffer h.1) h

here-IsBackward :
    (buffer : Buffer) (slot : ℕ)
    → IsBackward buffer
    → All (λ b. b.parent_slot < slot) (unwrap_or (get slot buffer) [])
here-IsBackward buffer slot h = elim (Option-cases (get slot buffer)) [
  | inl missing ↦ rw (missing) tt
  | inr (blocks, at) ↦ rw (at) (get-IsBackward buffer slot blocks h at)
]

-- A block above its parent leaves the buffer with every block above its parent.
on_block-IsBackward :
    (c : Cache) (slot : ℕ) (block : BufferedBlock)
    → block.parent_slot < slot
    → IsBackward c.buffer
    → IsBackward (on_block c slot block).buffer
unfolding on_block
on_block-IsBackward c slot block lt h =
    let here = unwrap_or (get slot c.buffer) [] in
    let others = keep (λ b. not (str_eq b.blockhash block.blockhash)) here in
    let buffer = insert slot (others ++ block ∷ []) c.buffer in
    cap_buffer-IsBackward (length buffer) buffer (
      insert-IsBackward slot (others ++ block ∷ []) c.buffer
        (All-append (λ b. b.parent_slot < slot) others (block ∷ [])
          (All-keep (λ b. b.parent_slot < slot) (λ b. not (str_eq b.blockhash block.blockhash)) here
            (here-IsBackward c.buffer slot h))
          (lt, tt))
        h)
