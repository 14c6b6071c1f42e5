-- ===== src/Mint/Api/Reads.antt =====
-- What a lookup answers, against the history of the mint over the blocks that the cache applied.
use mathlib.Core.Path.{subst}
use cloudbreak.Prelude.{
  ℕ, ◌≤◌, ◌≡◌, refl, sym, ap, ◌∙◌, inl, inr, ◌⊎◌, Bool, true, false, ◌&&◌, Option, none, some, List,
  [], ◌∷◌, arith, ltb, leb, ◌==◌, if◌then◌else◌, Bool-cases, ==_iff,
}
use cloudbreak.Mint.{MintState, MintChange, live, closed, state_eq}
use cloudbreak.Mint.Store.{
  StoredMint, immutable, mutable, tombstone, missing, MintStore, presized, stored, apply,
}
use cloudbreak.OrdMap.{get}
use cloudbreak.Mint.Store.View.{
  IsSplit, change_step, live_step, close_step, fresh, apply-Refines, presized-IsSplit,
}
use cloudbreak.Mint.Api.{
  Cache, is_loading, MintLookup, found, closed_mint, postgres, apply_changes, lookup_stored,
  lookup_one,
}
use cloudbreak.Mint.Same.{state_eq_sound}

-- The state of a mint after a change.
abbrev pub state_of : MintChange → Option MintState
state_of (live state) = some state
state_of closed = none

module _ (q : ℕ) (r : ℕ) where
  -- The last change of the mint in a block, where the block is not after the request.
  unfoldable pub state_in : ℕ → Option MintState → List (ℕ × MintChange) → Option MintState
  state_in slot before [] = before
  state_in slot before ((k, change) ∷ changes) =
      state_in slot (if k == q && leb slot r then state_of change else before) changes

  -- The last change of the mint over the blocks that are not after the request.
  unfoldable pub state_at : Option MintState → List (ℕ × List (ℕ × MintChange)) → Option MintState
  unfolding state_in
  state_at before [] = before
  state_at before ((slot, changes) ∷ blocks) = state_at (state_in slot before changes) blocks

-- The decimals of the first immutable state of a mint.
abbrev pub fixes : Option ℕ → MintChange → Option ℕ
fixes (some d) change = some d
fixes none (live state) = if state.immutable then some state.decimals else none
fixes none closed = none

module _ (q : ℕ) where
  unfoldable pub fixed_in : Option ℕ → List (ℕ × MintChange) → Option ℕ
  fixed_in fixed [] = fixed
  fixed_in fixed ((k, change) ∷ changes) =
      fixed_in (if k == q then fixes fixed change else fixed) changes

  unfoldable pub fixed_at : Option ℕ → List (ℕ × List (ℕ × MintChange)) → Option ℕ
  unfolding fixed_in
  fixed_at fixed [] = fixed
  fixed_at fixed ((slot, changes) ∷ blocks) = fixed_at (fixed_in fixed changes) blocks

-- What is stored of a mint tells its state from the stored slot on. `last` is the last applied slot.
abbrev pub Tells : StoredMint → (ℕ → Option MintState) → ℕ → Option ℕ → Type 0
Tells (immutable decimals) history last fixed = fixed ≡ some decimals
Tells (mutable entry) history last fixed =
    (entry.slot ≤ last)
    × ((r : ℕ) → entry.slot ≤ r → history r ≡ some entry.state)
    × (fixed ≡ none)
    × (entry.state.immutable ≡ false)
Tells (tombstone slot) history last fixed =
    (slot ≤ last) × ((r : ℕ) → slot ≤ r → history r ≡ none) × (fixed ≡ none)
Tells missing history last fixed = ((r : ℕ) → history r ≡ none) × (fixed ≡ none)

abbrev pub changed_from : ℕ → MintChange → (ℕ → Option MintState) → ℕ → Option MintState
changed_from slot change history r = if leb slot r then state_of change else history r

fresh-Tells :
    (slot : ℕ) (state : MintState) (history : ℕ → Option MintState) (fixed : Option ℕ)
    → fixed ≡ none
    → Tells
        (fresh slot state)
        (changed_from slot (live state) history)
        slot
        (fixes fixed (live state))
fresh-Tells slot state history fixed free_so_far =
    subst
      (λ f.
        Tells (fresh slot state) (changed_from slot (live state) history) slot
          (fixes f (live state)))
      (sym free_so_far)
      (elim (Bool-cases (state.immutable)) [
        | inl fixed ↦ simp (fixed, Tells) refl
        | inr free ↦ simp (free, Tells) (omega arith, λ r le. ground (arith, le), refl, refl)
      ])

not_before : (slot at : ℕ) → at ≤ slot → ltb slot at ≡ false
not_before slot at le = ground (arith, le)

live-Tells :
    (v : StoredMint) (history : ℕ → Option MintState) (last slot : ℕ) (fixed : Option ℕ)
    (state : MintState)
    → last ≤ slot
    → Tells v history last fixed
    → Tells
        (live_step v slot state).0
        (changed_from slot (live state) history)
        slot
        (fixes fixed (live state))
unfolding live_step
live-Tells (immutable d) history last slot fixed state le h = ap (λ f. fixes f (live state)) h
live-Tells (tombstone at) history last slot fixed state le h =
    rw (not_before slot at (omega (arith, le, h.0)), Tells)
      (fresh-Tells slot state history fixed h.2)
live-Tells (mutable entry) history last slot fixed state le h =
    let on_time : ltb slot entry.slot ≡ false =
      not_before slot entry.slot (omega (arith, le, h.0)) in
    elim (Bool-cases (state_eq entry.state state)) [
      | inl same ↦
          let stays : entry.state ≡ state = state_eq_sound entry.state state same in
          let free : state.immutable ≡ false =
            ap (λ (x : MintState). x.immutable) (sym stays) ∙ h.3 in
          simp (on_time, same, Tells)
            (
              (omega (arith, le, h.0)),
              λ r ge. ground (arith, h.1 r ge, ap some stays),
              ap (λ f. fixes f (live state)) h.2 ∙ ground (arith, free),
              h.3,
            )
      | inr differs ↦ simp (on_time, differs, Tells) (fresh-Tells slot state history fixed h.2)
    ]
live-Tells missing history last slot fixed state le h = fresh-Tells slot state history fixed h.1

close-Tells :
    (v : StoredMint) (history : ℕ → Option MintState) (last slot : ℕ) (fixed : Option ℕ)
    → last ≤ slot
    → Tells v history last fixed
    → Tells (close_step v slot true).0 (changed_from slot closed history) slot (fixes fixed closed)
unfolding close_step
close-Tells (immutable d) history last slot fixed le h = ap (λ f. fixes f closed) h
close-Tells (tombstone at) history last slot fixed le h =
    (omega (arith, le, h.0), λ r ge. ground (arith, h.1 r ge), ap (λ f. fixes f closed) h.2)
close-Tells (mutable entry) history last slot fixed le h =
    let on_time : ltb slot entry.slot ≡ false =
      not_before slot entry.slot (omega (arith, le, h.0)) in
    simp (on_time, Tells) (omega arith, λ r ge. ground (arith, ge), ap (λ f. fixes f closed) h.2)
close-Tells missing history last slot fixed le h =
    (λ r. ground (arith, h.0 r), ap (λ f. fixes f closed) h.1)

change-Tells :
    (v : StoredMint) (history : ℕ → Option MintState) (last slot : ℕ) (fixed : Option ℕ)
    (change : MintChange)
    → last ≤ slot
    → Tells v history last fixed
    → Tells
        (change_step v slot change).0
        (changed_from slot change history)
        slot
        (fixes fixed change)
unfolding change_step
change-Tells v history last slot fixed (live state) le h =
    live-Tells v history last slot fixed state le h
change-Tells v history last slot fixed closed le h = close-Tells v history last slot fixed le h

-- The store after the blocks, applied in their order.
unfoldable pub apply_blocks : MintStore → List (ℕ × List (ℕ × MintChange)) → MintStore
unfolding apply_changes
apply_blocks s [] = s
apply_blocks s ((slot, changes) ∷ blocks) = apply_blocks (apply_changes s slot changes) blocks

-- The slots of the blocks ascend from `last` to `final` at most.
abbrev pub Ascends : ℕ → List (ℕ × List (ℕ × MintChange)) → ℕ → Type 0
Ascends last [] final = last ≤ final
Ascends last ((slot, changes) ∷ blocks) final = (last ≤ slot) × Ascends slot blocks final

Tells-mono :
    (v : StoredMint) (history : ℕ → Option MintState) (last later : ℕ) (fixed : Option ℕ)
    → last ≤ later
    → Tells v history last fixed
    → Tells v history later fixed
Tells-mono (immutable d) history last later fixed le h = h
Tells-mono (mutable entry) history last later fixed le h = (omega (arith, le, h.0), h.1, h.2, h.3)
Tells-mono (tombstone at) history last later fixed le h = (omega (arith, le, h.0), h.1, h.2)
Tells-mono missing history last later fixed le h = h

module _ (q : ℕ) where
  -- One change of a block, to this mint or another.
  key-Tells :
      (k slot last : ℕ) (fixed : Option ℕ) (change : MintChange) (read : ℕ → StoredMint)
      (history : ℕ → Option MintState)
      → last ≤ slot
      → Tells (read q) history last fixed
      → Tells
          (if k == q then (change_step (read k) slot change).0 else read q)
          (λ r. if k == q && leb slot r then state_of change else history r)
          slot
          (if k == q then fixes fixed change else fixed)
  key-Tells k slot last fixed change read history le h = elim (Bool-cases (k == q)) [
    | inl same ↦
        simp (same, Tells)
          (change-Tells (read k) history last slot fixed change le
            (subst (λ j. Tells (read j) history last fixed) (sym ((==_iff k q).0 same)) h))
    | inr other ↦ simp (other, Tells) (Tells-mono (read q) history last slot fixed le h)
  ]

  changes-Tells :
      (changes : List (ℕ × MintChange)) (s : MintStore) (last slot : ℕ)
      (history : ℕ → Option MintState) (fixed : Option ℕ)
      → IsSplit s
      → last ≤ slot
      → Tells (stored s q) history last fixed
      → IsSplit (apply_changes s slot changes)
        × Tells
            (stored (apply_changes s slot changes) q)
            (λ r. state_in q r slot (history r) changes)
            slot
            (fixed_in q fixed changes)
  unfolding apply_changes state_in fixed_in
  changes-Tells [] s last slot history fixed split le h =
      (split, Tells-mono (stored s q) history last slot fixed le h)
  changes-Tells ((k, change) ∷ changes) s last slot history fixed split le h =
      let r = apply-Refines s k slot split change in
      let fixed' = if k == q then fixes fixed change else fixed in
      changes-Tells changes (apply s k slot change).0 slot slot
        (λ r. if k == q && leb slot r then state_of change else history r) fixed' r.split
        (omega arith)
        (subst
          (λ v.
            Tells v (λ r. if k == q && leb slot r then state_of change else history r) slot fixed')
          (sym (r.reads q)) (key-Tells k slot last fixed change (stored s) history le h))

  blocks-Tells :
      (blocks : List (ℕ × List (ℕ × MintChange))) (s : MintStore) (last final : ℕ)
      (history : ℕ → Option MintState) (fixed : Option ℕ)
      → IsSplit s
      → Ascends last blocks final
      → Tells (stored s q) history last fixed
      → Tells
          (stored (apply_blocks s blocks) q)
          (λ r. state_at q r (history r) blocks)
          final
          (fixed_at q fixed blocks)
  unfolding apply_blocks state_at fixed_at
  blocks-Tells [] s last final history fixed split up h =
      Tells-mono (stored s q) history last final fixed up h
  blocks-Tells ((slot, changes) ∷ blocks) s last final history fixed split up h =
      let (split', h') = changes-Tells changes s last slot history fixed split up.0 h in
      blocks-Tells blocks (apply_changes s slot changes) slot final
        (λ r. state_in q r slot (history r) changes) (fixed_in q fixed changes) split' up.1 h'

-- An answer of the cache is one of the history, and any other leaves the mint to the database.
abbrev pub Answers : MintLookup → Option MintState → Option ℕ → Type 0
Answers (found state) history fixed =
    ((fixed ≡ some state.decimals) × (state.configs ≡ none) × (state.immutable ≡ true))
    ⊎ (history ≡ some state)
Answers closed_mint history fixed = history ≡ none
Answers (postgres reason) history fixed = Unit

lookup_stored-Answers :
    (v : StoredMint) (history : ℕ → Option MintState) (applied request : ℕ) (fixed : Option ℕ)
    → Tells v history applied fixed
    → Answers (lookup_stored v applied request) (history request) fixed
unfolding lookup_stored
lookup_stored-Answers (immutable d) history applied request fixed h = inl (h, refl, refl)
lookup_stored-Answers (mutable entry) history applied request fixed h =
    elim (Bool-cases (ltb request entry.slot)) [
      | inl newer ↦ rw (newer, Answers) tt
      | inr older ↦ elim (Bool-cases (ltb applied request)) [
        | inl behind ↦ simp (older, behind, Answers) tt
        | inr current ↦ simp (older, current, Answers) (inr (h.1 request (ground (arith, older))))
      ]
    ]
lookup_stored-Answers (tombstone at) history applied request fixed h =
    elim (Bool-cases (ltb request at)) [
      | inl newer ↦ rw (newer, Answers) tt
      | inr older ↦ elim (Bool-cases (ltb applied request)) [
        | inl behind ↦ simp (older, behind, Answers) tt
        | inr current ↦ simp (older, current, Answers) (h.1 request (ground (arith, older)))
      ]
    ]
lookup_stored-Answers missing history applied request fixed h =
    elim (Bool-cases (ltb applied request)) [
      | inl behind ↦ rw (behind, Answers) tt
      | inr current ↦ rw (current, Answers) tt
    ]

if-Answers :
    (b : Bool) (v w : MintLookup) (history : Option MintState) (fixed : Option ℕ)
    → Answers v history fixed
    → Answers w history fixed
    → Answers (if b then v else w) history fixed
if-Answers true v w history fixed hv hw = hv
if-Answers false v w history fixed hv hw = hw

-- With the blocks of ascending slots applied to an empty store, up to the applied slot at most, and no rows
-- of the table loaded: a state that a lookup finds is the last one written in a block that is not after the
-- request, or has the decimals of the first immutable state of the mint and no configs, and for a mint that
-- it calls closed the last change not after the request is a close, or there is none.
pub lookup_one-exact :
    (c : Cache) (blocks : List (ℕ × List (ℕ × MintChange))) (key request : ℕ)
    → Ascends 0 blocks c.applied.slot
    → c.store ≡ apply_blocks presized blocks
    → Answers
        (lookup_one c key request)
        (state_at key request none blocks)
        (fixed_at key none blocks)
unfolding lookup_one
lookup_one-exact c blocks key request up e =
    let told =
      blocks-Tells key blocks presized 0 c.applied.slot (λ r. none) none presized-IsSplit up
        (unfold stored get presized in (λ r. refl, refl)) in
    let told' =
      subst
        (λ s.
          Tells (stored s key) (λ r. state_at key r none blocks) c.applied.slot
            (fixed_at key none blocks))
        (sym e) told in
    if-Answers (is_loading c.status) _ _ _ _ tt (
      lookup_stored-Answers (stored c.store key) (λ r. state_at key r none blocks) c.applied.slot
        request (fixed_at key none blocks) told')
