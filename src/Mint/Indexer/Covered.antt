-- ===== src/Mint/Indexer/Covered.antt =====
-- What the indexer holds is on its way to the table: each mint of the store waits for the next write, is in
-- the running one, or was sent last with its state. The table itself is not modelled: its upsert keeps a row
-- of a higher slot (core/src/modules/mint_cache/db.rs).
use mathlib.Core.Path.{subst}
use cloudbreak.Prelude.{
  ℕ, ◌≡◌, ◌⊎◌, refl, sym, ap, ◌∙◌, inl, inr, true, false, Option, none, some, List, [], ◌∷◌, max,
  arith, ◌==◌, if◌then◌else◌, is_some, Bool-cases, unwrap_or,
}
use cloudbreak.OrdMap.{OrdMap, get, get-insert}
use cloudbreak.Mint.{MintState, MintChange, live, closed}
use cloudbreak.Mint.Store.{
  ChangeKind, StoredMint, immutable, mutable, tombstone, missing, MintStore, MintRow, stored,
  row_of, row, apply,
}
use cloudbreak.Mint.Store.View.{IsSplit, Refines, change_step, live_step, close_step, apply-Refines}
use cloudbreak.Mint.Indexer.{
  Inner, mark, mark_pending, after_apply, apply_to_store, is_missing, apply_close, apply_change,
  push_row, rows_of, apply_changes, apply_closes,
}

-- The state last sent for a mint by a write that succeeded: `none` is nothing, `some none` a tombstone.
abbrev pub Sent : Type 0
Sent = ℕ → Option (Option MintState)

-- The row that the state of a mint calls for.
abbrev pub row_state : StoredMint → Option (Option MintState)
row_state (immutable d) = some (some (record { decimals = d; configs = none; immutable = true }))
row_state (mutable e) = some (some e.state)
row_state (tombstone at) = some none
row_state missing = none

-- What is sent last after these rows, of which each mint has one at most.
abbrev pub written : List MintRow → Sent → Sent
written [] t k = t k
written (r ∷ rows) t k = if r.pubkey == k then some r.state else written rows t k

-- A key waits for the next write, needs no row, or its state is sent once the running write is done.
abbrev pub Covers : MintStore → OrdMap ℕ → List MintRow → Sent → ℕ → Type 0
Covers store pending rows t k =
    (is_some (get k pending) ≡ true)
    ⊎ ((stored store k ≡ missing) ⊎ (written rows t k ≡ row_state (stored store k)))

pub record IsCovered (s : Inner) (rows : List MintRow) (t : Sent) : Type 0 where
  pub split : IsSplit s.store
  pub covers : (k : ℕ) → Covers s.store s.pending_to_db rows t k

change_step-none :
    (v : StoredMint) (slot : ℕ) (c : MintChange)
    → (change_step v slot c).1 ≡ none
    → (change_step v slot c).0 ≡ v
unfolding change_step live_step close_step
change_step-none (immutable d) slot (live state) h = refl
change_step-none (immutable d) slot closed h = refl
change_step-none (tombstone at) slot (live state) h = ground (arith, h)
change_step-none (tombstone at) slot closed h = refl
change_step-none (mutable e) slot (live state) h = ground (arith, h)
change_step-none (mutable e) slot closed h = ground (arith, h)
change_step-none missing slot (live state) h = absurd (ground (arith, h))
change_step-none missing slot closed h = refl

pub mark-some :
    (m : OrdMap ℕ) (k slot q : ℕ)
    → is_some (get q (mark m k slot)) ≡ (if k == q then true else is_some (get q m))
unfolding mark
mark-some m k slot q = ground (arith, get-insert k q (max (unwrap_or (get k m) slot) slot) m)

pub mark-Covers :
    (store : MintStore) (pending : OrdMap ℕ) (rows : List MintRow) (t : Sent) (k slot q : ℕ)
    → Covers store pending rows t q
    → Covers store (mark pending k slot) rows t q
mark-Covers store pending rows t k slot q (inl waits) = inl (
    mark-some pending k slot q
    ∙ (elim (Bool-cases (k == q)) [ inl here ↦ rw (here) refl | inr other ↦ rw (other) waits ]))
mark-Covers store pending rows t k slot q (inr rest) = inr rest

kept_read :
    (store : MintStore) (k slot : ℕ) (c : MintChange) (q : ℕ)
    → (change_step (stored store k) slot c).1 ≡ none
    → (if k == q then (change_step (stored store k) slot c).0 else stored store q) ≡ stored store q
kept_read store k slot c q e = elim (Bool-cases (k == q)) [
  | inl here ↦
      let one : k ≡ q = ground (arith, here) in
      rw (here) (change_step-none (stored store k) slot c e ∙ ap (stored store) one)
  | inr other ↦ rw (other) refl
]

apply_to_store-IsCovered :
    (s : Inner) (rows : List MintRow) (t : Sent) (k slot : ℕ) (c : MintChange)
    → IsCovered s rows t
    → IsCovered (apply_to_store s k slot c) rows t
unfolding apply_to_store mark_pending
apply_to_store-IsCovered s rows t k slot c h =
    go (apply s.store k slot c) (apply-Refines s.store k slot h.split c)
  where
    go :
        (r : MintStore × Option ChangeKind)
        → Refines s.store k r (change_step (stored s.store k) slot c)
        → IsCovered (after_apply s k slot r) rows t
    go (store, none) f = record {
      split = f.split;
      covers = λ q.
          let same : stored store q ≡ stored s.store q =
            f.reads q ∙ kept_read s.store k slot c q (sym f.kind) in
          rw (same) (h.covers q);
    }
    go (store, some kind) f = record {
      split = f.split;
      covers = λ q. elim (Bool-cases (k == q)) [
        | inl here ↦ inl (mark-some s.pending_to_db k slot q ∙ rw (here) refl)
        | inr other ↦
            let same : stored store q ≡ stored s.store q = f.reads q ∙ rw (other) refl in
            mark-Covers store s.pending_to_db rows t k slot q (rw (same) (h.covers q))
      ];
    }

pub apply_change-IsCovered :
    (s : Inner) (rows : List MintRow) (t : Sent) (k slot : ℕ) (c : MintChange)
    → IsCovered s rows t
    → IsCovered (apply_change s k slot c) rows t
unfolding apply_change apply_close
apply_change-IsCovered s rows t k slot (live state) h =
    apply_to_store-IsCovered s rows t k slot (live state) h
apply_change-IsCovered s rows t k slot closed h = go s.closed_pending
  where
    go : (o : Option (OrdMap ℕ)) → IsCovered (apply_close s k slot o) rows t
    go none = apply_to_store-IsCovered s rows t k slot closed h
    go (some waiting) = elim (Bool-cases (is_missing (stored s.store k))) [
      | inl gone ↦ rw (gone) (record { split = h.split; covers = h.covers })
      | inr here ↦ rw (here) (apply_to_store-IsCovered s rows t k slot closed h)
    ]

pub apply_changes-IsCovered :
    (s : Inner) (rows : List MintRow) (t : Sent) (slot : ℕ) (changes : List (ℕ × MintChange))
    → IsCovered s rows t
    → IsCovered (apply_changes s slot changes) rows t
unfolding apply_changes
apply_changes-IsCovered s rows t slot [] h = h
apply_changes-IsCovered s rows t slot ((k, c) ∷ changes) h =
    apply_changes-IsCovered (apply_change s k slot c) rows t slot changes
      (apply_change-IsCovered s rows t k slot c h)

pub apply_closes-IsCovered :
    (s : Inner) (rows : List MintRow) (t : Sent) (closes : OrdMap ℕ)
    → IsCovered s rows t
    → IsCovered (apply_closes s closes) rows t
unfolding apply_closes
apply_closes-IsCovered s rows t [] h = h
apply_closes-IsCovered s rows t ((k, slot) ∷ closes) h =
    apply_closes-IsCovered (apply_change s k slot closed) rows t closes
      (apply_change-IsCovered s rows t k slot closed h)

push-other :
    (j slot : ℕ) (v : StoredMint) (rows : List MintRow) (t : Sent) (k : ℕ)
    → (j == k) ≡ false
    → written (push_row (row_of j slot v) rows) t k ≡ written rows t k
push-other j slot (immutable d) rows t k other = rw (other) refl
push-other j slot (mutable e) rows t k other = rw (other) refl
push-other j slot (tombstone at) rows t k other = rw (other) refl
push-other j slot missing rows t k other = refl

push-here :
    (j slot : ℕ) (v : StoredMint) (rows : List MintRow) (t : Sent) (k : ℕ)
    → (j == k) ≡ true
    → (v ≡ missing) ⊎ (written (push_row (row_of j slot v) rows) t k ≡ row_state v)
push-here j slot (immutable d) rows t k here = inr (rw (here) refl)
push-here j slot (mutable e) rows t k here = inr (rw (here) refl)
push-here j slot (tombstone at) rows t k here = inr (rw (here) refl)
push-here j slot missing rows t k here = inl refl

-- The rows of the pending keys send what those keys call for.
pub rows_of-pending :
    (store : MintStore) (pending : OrdMap ℕ) (t : Sent) (k : ℕ)
    → is_some (get k pending) ≡ true
    → (stored store k ≡ missing)
      ⊎ (written (rows_of store pending) t k ≡ row_state (stored store k))
unfolding rows_of row get
rows_of-pending store [] t k waits = absurd (ground (arith, waits))
rows_of-pending store ((j, slot) ∷ pending) t k waits = elim (Bool-cases (j == k)) [
  | inl here ↦
      let one : j ≡ k = ground (arith, here) in
      subst
        (λ q.
          (stored store q ≡ missing)
          ⊎ (written (push_row (row store j slot) (rows_of store pending)) t k
              ≡ row_state (stored store q)))
        one (push-here j slot (stored store j) (rows_of store pending) t k here)
  | inr other ↦
      let rest = rows_of-pending store pending t k (ground (arith, other, waits)) in
      rw (push-other j slot (stored store j) (rows_of store pending) t k other) rest
]

pub rows_of-others :
    (store : MintStore) (pending : OrdMap ℕ) (t : Sent) (k : ℕ)
    → is_some (get k pending) ≡ false
    → written (rows_of store pending) t k ≡ t k
unfolding rows_of row get
rows_of-others store [] t k free = refl
rows_of-others store ((j, slot) ∷ pending) t k free = elim (Bool-cases (j == k)) [
  | inl here ↦ absurd (ground (arith, here, free))
  | inr other ↦
      push-other j slot (stored store j) (rows_of store pending) t k other
      ∙ rows_of-others store pending t k (ground (arith, other, free))
]
