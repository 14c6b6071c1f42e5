-- ===== src/Mint/Store/View.antt =====
-- The three maps of a mint store, read as one state for each key: the specification of the writes.
use cloudbreak.Prelude.{
  ℕ, ◌≡◌, refl, sym, ap, ◌∙◌, inl, inr, Bool, true, false, ◌||◌, Option, none, some, arith, ltb,
  ◌==◌, if◌then◌else◌, Option-cases, Bool-cases,
}
use cloudbreak.OrdMap.{get, insert, remove, get-insert, get-remove}
use cloudbreak.Mint.{MintState, MintChange, live, closed, state_eq}
use cloudbreak.Mint.Store.{
  MutableMint, ChangeKind, create, update, close, reinit, StoredMint, immutable, mutable, tombstone,
  missing, MintStore, presized, stored, live_kind, put_live, apply_live, close_ignored, close_mint,
  apply, apply_row,
}

-- A key stands in one of the three maps at most.
pub record IsSplit (s : MintStore) : Type 0 where
  pub immutable_only :
      (k d : ℕ)
      → get k s.immutables ≡ some d
      → (get k s.mutables ≡ none) × (get k s.tombstones ≡ none)
  pub closed_only : (k at : ℕ) → get k s.tombstones ≡ some at → get k s.mutables ≡ none

-- The state that a live write leaves.
abbrev pub fresh : ℕ → MintState → StoredMint
fresh slot state =
    if state.immutable
    then immutable state.decimals
    else mutable (record { slot = slot; state = state })

-- A live write to one key: an immutable mint never changes, a closed one comes back with a write that
-- is not older than the close, and a mutable one changes with a different state that is not older.
unfoldable pub live_step : StoredMint → ℕ → MintState → StoredMint × Option ChangeKind
live_step (immutable d) slot state = (immutable d, none)
live_step (tombstone at) slot state =
    if ltb slot at then (tombstone at, none) else (fresh slot state, some reinit)
live_step (mutable entry) slot state =
    if ltb slot entry.slot || state_eq entry.state state
    then (mutable entry, none)
    else (fresh slot state, some update)
live_step missing slot state = (fresh slot state, some create)

-- A close of one key. `known_only` leaves a key alone that is not known.
unfoldable pub close_step : StoredMint → ℕ → Bool → StoredMint × Option ChangeKind
close_step (immutable d) slot known_only = (immutable d, none)
close_step (tombstone at) slot known_only = (tombstone at, none)
close_step (mutable entry) slot known_only =
    if ltb slot entry.slot then (mutable entry, none) else (tombstone slot, some close)
close_step missing slot known_only =
    if known_only then (missing, none) else (tombstone slot, some close)

unfoldable pub change_step : StoredMint → ℕ → MintChange → StoredMint × Option ChangeKind
unfolding live_step close_step
change_step v slot (live state) = live_step v slot state
change_step v slot closed = close_step v slot true

unfoldable pub row_step : StoredMint → ℕ → Option MintState → StoredMint × Option ChangeKind
unfolding live_step close_step
row_step v slot (some state) = live_step v slot state
row_step v slot none = close_step v slot false

-- The store after a write reads as the step of the written key, and as before at the others.
pub record Refines (s : MintStore) (k : ℕ) (r : MintStore × Option ChangeKind)
    (v : StoredMint × Option ChangeKind) : Type 0 where
  pub split : IsSplit r.0
  pub reads : (q : ℕ) → stored r.0 q ≡ (if k == q then v.0 else stored s q)
  pub kind : r.1 ≡ v.1

same_key : (k q : ℕ) → (k == q) ≡ true → k ≡ q
same_key k q e = ground (arith, e)

-- No change refines a step that leaves the key as it is.
unchanged-Refines :
    (s : MintStore) (k : ℕ) (v : StoredMint)
    → IsSplit s
    → stored s k ≡ v
    → Refines s k (s, none) (v, none)
unchanged-Refines s k v h at = record {
  split = h;
  reads = λ q. elim (Bool-cases (k == q)) [
    | inl here ↦ rw (here) (ap (stored s) (sym (same_key k q here)) ∙ at)
    | inr other ↦ rw (other) refl
  ];
  kind = refl;
}

module _ (s : MintStore) (k slot : ℕ) (h : IsSplit s) where
  put_live-reads :
      (state : MintState) (q : ℕ)
      → stored (put_live s k slot state) q ≡ (if k == q then fresh slot state else stored s q)
  unfolding put_live stored
  put_live-reads state q = ground (
    arith,
    get-insert k q state.decimals s.immutables,
    get-remove k q s.mutables,
    get-remove k q s.tombstones,
    get-insert k q (record { slot = slot; state = state }) s.mutables,
  )

  put_live-IsSplit :
      (state : MintState) → get k s.immutables ≡ none → IsSplit (put_live s k slot state)
  unfolding put_live
  put_live-IsSplit state none_k = elim (Bool-cases state.immutable) [
    | inl fixed ↦ rw (fixed) (record {
      immutable_only = λ q d e. ground (
        arith,
        sym (get-insert k q state.decimals s.immutables) ∙ e,
        get-remove k q s.mutables,
        get-remove k q s.tombstones,
        h.immutable_only q d,
      );
      closed_only = λ q d e. ground (
        arith,
        sym (get-remove k q s.tombstones) ∙ e,
        get-remove k q s.mutables,
        h.closed_only q d,
      );
    })
    | inr varies ↦
        let new : MutableMint = record { slot = slot; state = state } in
        rw (varies) (record {
          immutable_only = λ q d e. elim (Bool-cases (k == q)) [
            | inl here ↦
                absurd (ground (arith, e, none_k, ap (λ j. get j s.immutables) (same_key k q here)))
            | inr other ↦ ground (
              arith,
              other,
              get-insert k q new s.mutables,
              get-remove k q s.tombstones,
              h.immutable_only q d e,
            )
          ];
          closed_only = λ q d e. ground (
            arith,
            sym (get-remove k q s.tombstones) ∙ e,
            get-insert k q new s.mutables,
            h.closed_only q d,
          );
        })
  ]

  put_live-Refines :
      (state : MintState) (kind : ChangeKind)
      → get k s.immutables ≡ none
      → Refines s k (put_live s k slot state, some kind) (fresh slot state, some kind)
  put_live-Refines state kind none_k = record {
    split = put_live-IsSplit state none_k;
    reads = put_live-reads state;
    kind = refl;
  }

  apply_live-Refines :
      (state : MintState)
      → Refines s k (apply_live s k slot state) (live_step (stored s k) slot state)
  unfolding apply_live live_step live_kind
  apply_live-Refines state = elim (Option-cases (get k s.immutables)) [
    | inr (d, e) ↦
        let at : stored s k ≡ immutable d =
          (let (m, t) = h.immutable_only k d e in unfold stored in rw (m, t, e) refl) in
        rw (e, at) (unchanged-Refines s k (immutable d) h at)
    | inl none_k ↦ elim (Option-cases (get k s.tombstones)) [
      | inr (c, t) ↦
          let at : stored s k ≡ tombstone c = unfold stored in rw (h.closed_only k c t, t) refl in
          elim (Bool-cases (ltb slot c)) [
            | inl older ↦
                rw (none_k, t, at, older, live_kind) (unchanged-Refines s k (tombstone c) h at)
            | inr newer ↦
                rw (none_k, t, at, newer, live_kind) (put_live-Refines state reinit none_k)
          ]
      | inl none_t ↦ elim (Option-cases (get k s.mutables)) [
        | inr (d, m) ↦
            let at : stored s k ≡ mutable d = unfold stored in rw (m) refl in
            elim (Bool-cases (ltb slot d.slot || state_eq d.state state)) [
              | inl same ↦
                  rw (none_k, none_t, m, at, same, live_kind)
                    (unchanged-Refines s k (mutable d) h at)
              | inr news ↦
                  rw (none_k, none_t, m, at, news, live_kind) (put_live-Refines state update none_k)
            ]
        | inl m_none ↦
            let at : stored s k ≡ missing = unfold stored in rw (m_none, none_t, none_k) refl in
            rw (none_k, none_t, m_none, at, live_kind) (put_live-Refines state create none_k)
      ]
    ]
  ]

  closed-IsSplit :
      get k s.immutables ≡ none
      → IsSplit
          (record s { mutables = remove k s.mutables; tombstones = insert k slot s.tombstones })
  closed-IsSplit none_k = record {
    immutable_only = λ q d e. elim (Bool-cases (k == q)) [
      | inl here ↦
          absurd (ground (arith, e, none_k, ap (λ j. get j s.immutables) (same_key k q here)))
      | inr other ↦ ground (
        arith,
        other,
        get-remove k q s.mutables,
        get-insert k q slot s.tombstones,
        h.immutable_only q d e,
      )
    ];
    closed_only = λ q d e. ground (
      arith,
      sym (get-insert k q slot s.tombstones) ∙ e,
      get-remove k q s.mutables,
      h.closed_only q d,
    );
  }

  closed-Refines :
      get k s.immutables ≡ none
      → Refines s k
          (
            record s { mutables = remove k s.mutables; tombstones = insert k slot s.tombstones },
            some close,
          )
          (tombstone slot, some close)
  closed-Refines none_k = record {
    split = closed-IsSplit none_k;
    reads = λ q.
        unfold stored in
        ground (arith, get-remove k q s.mutables, get-insert k q slot s.tombstones);
    kind = refl;
  }

  close_mint-Refines :
      (known_only : Bool)
      → Refines s k (close_mint s k slot known_only) (close_step (stored s k) slot known_only)
  unfolding close_mint close_step close_ignored
  close_mint-Refines known_only = elim (Option-cases (get k s.immutables)) [
    | inr (d, e) ↦
        let at : stored s k ≡ immutable d =
          (let (m, t) = h.immutable_only k d e in unfold stored in rw (m, t, e) refl) in
        rw (e, at) (unchanged-Refines s k (immutable d) h at)
    | inl none_k ↦ elim (Option-cases (get k s.tombstones)) [
      | inr (c, t) ↦
          let at : stored s k ≡ tombstone c = unfold stored in rw (h.closed_only k c t, t) refl in
          rw (none_k, t, at) (unchanged-Refines s k (tombstone c) h at)
      | inl none_t ↦ elim (Option-cases (get k s.mutables)) [
        | inr (d, m) ↦
            let at : stored s k ≡ mutable d = unfold stored in rw (m) refl in
            elim (Bool-cases (ltb slot d.slot)) [
              | inl older ↦
                  rw (none_k, none_t, m, at, older, close_ignored)
                    (unchanged-Refines s k (mutable d) h at)
              | inr newer ↦ rw (none_k, none_t, m, at, newer, close_ignored) (closed-Refines none_k)
            ]
        | inl m_none ↦
            let at : stored s k ≡ missing = unfold stored in rw (m_none, none_t, none_k) refl in
            elim (Bool-cases known_only) [
              | inl known ↦
                  rw (none_k, none_t, m_none, at, known, close_ignored)
                    (unchanged-Refines s k missing h at)
              | inr unknown ↦
                  rw (none_k, none_t, m_none, at, unknown, close_ignored) (closed-Refines none_k)
            ]
      ]
    ]
  ]

  -- A block's write to a store whose maps are apart keeps them apart, steps the key it writes, and
  -- leaves every other key as it reads.
  pub apply-Refines :
      (change : MintChange)
      → Refines s k (apply s k slot change) (change_step (stored s k) slot change)
  unfolding apply change_step live_step close_step
  apply-Refines (live state) = apply_live-Refines state
  apply-Refines closed = close_mint-Refines true

  -- The same of a row of the table.
  pub apply_row-Refines :
      (state : Option MintState)
      → Refines s k (apply_row s k slot state) (row_step (stored s k) slot state)
  unfolding apply_row row_step live_step close_step
  apply_row-Refines (some state) = apply_live-Refines state
  apply_row-Refines none = close_mint-Refines false

pub presized-IsSplit : IsSplit presized
unfolding presized get
presized-IsSplit = record {
  immutable_only = λ k d e. absurd (ground (arith, e));
  closed_only = λ k d e. absurd (ground (arith, e));
}
