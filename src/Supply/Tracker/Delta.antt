-- ===== src/Supply/Tracker/Delta.antt =====
-- What a counted block adds to the running total, against a ledger of all balances before it.
use cloudbreak.Prelude.{
  ℕ, ◌<◌, ◌≡◌, refl, sym, ap, ◌∙◌, inl, inr, Bool, true, false, Option, none, some, List, [], not,
  ◌&&◌, ◌||◌, ◌∷◌, ◌++◌, arith, ltb, leb, if◌then◌else◌, contains, Option-cases, Bool-cases, All,
  ◌==◌, ◌⊎◌,
}
use cloudbreak.Prelude.Int.{ℤ, pos, sub_ℕ, ◌+ℤ◌, +ℤ_comm, +ℤ_assoc}
use cloudbreak.OrdMap.{OrdMap, get, get-insert, get-remove}
use cloudbreak.Supply.Cache.{
  Entry, HotAccounts, Probe, hit, miss, PrevRow, probe, probe_entry, write_back, store, forget,
  apply_miss,
}
use cloudbreak.Supply.Tracker.{
  Pending, StakeBlock, SupplyState, BlockOutcome, changed, Probing, counted, without, probe_step,
  probe_loop, note_closes, probe_counting, probe_block, miss_loop, resolve, either_read,
  apply_block, is_live, is_gap_filling, SupplyStatus,
}

-- The sum of the changes that the pending accounts make to the ledger, but for those handled already.
unfoldable pub ledger_delta : (ℕ → ℕ) → List ℕ → List Pending → ℤ
ledger_delta ledger handled [] = pos 0
ledger_delta ledger handled (p ∷ rest) =
    (if contains handled p.pubkey then pos 0 else sub_ℕ p.lamports (ledger p.pubkey))
    +ℤ ledger_delta ledger handled rest

-- No account is pending twice.
abbrev pub Once : List Pending → Type 0
Once [] = Unit
Once (p ∷ rest) = All (λ q. (p.pubkey == q.pubkey) ≡ false) rest × Once rest

-- What the tracker holds of an account before the block agrees with the ledger.
pub record Agrees (ledger : ℕ → ℕ) (slot : ℕ) (cache : HotAccounts) (zero_prev : List ℕ) (k : ℕ)
    : Type 0 where
  pub cached :
      (e : Entry) → get k cache.entries ≡ some e → (e.lamports ≡ ledger k) × (e.slot < slot)
  pub zero : contains zero_prev k ≡ true → ledger k ≡ 0

-- The row that the database gives for an account agrees with the ledger.
unfoldable pub RowAgrees : (ℕ → ℕ) → ℕ → ℕ → PrevRow → Type 0
RowAgrees ledger slot k none = ledger k ≡ 0
RowAgrees ledger slot k (some (lamports, row_slot)) = (lamports ≡ ledger k) × (row_slot < slot)

module _ (stake_program : ℕ) where
  store-other :
      (c : HotAccounts) (k n slot q : ℕ)
      → (k == q) ≡ false
      → get q (store c k n slot).entries ≡ get q c.entries
  unfolding store
  store-other c k n slot q other = elim (Option-cases (get k c.entries)) [
    | inl e ↦
        let new : Entry = record { lamports = n; slot = slot; pinned = false } in
        rw (e, store) (get-insert k q new c.entries ∙ rw (other) refl)
    | inr (d, e) ↦
        let new : Entry = record { lamports = n; slot = slot; pinned = d.pinned } in
        rw (e, store)
          (elim (Bool-cases (leb d.slot slot)) [
            | inl le ↦ rw (le) (get-insert k q new c.entries ∙ rw (other) refl)
            | inr gt ↦ rw (gt) refl
          ])
  ]

  write_back-other :
      (c : HotAccounts) (k n slot owner q : ℕ)
      → (k == q) ≡ false
      → get q (write_back stake_program c k n slot owner).entries ≡ get q c.entries
  unfolding write_back forget
  write_back-other c k n slot owner q other = elim (Bool-cases (owner == stake_program)) [
    | inl stake ↦ rw (stake) (elim (Option-cases (get k c.entries)) [
      | inl e ↦ rw (e, forget) refl
      | inr (d, e) ↦ rw (e, forget) (get-remove k q c.entries ∙ rw (other) refl)
    ])
    | inr plain ↦ rw (plain) (store-other c k n slot q other)
  ]

  probe-other :
      (c : HotAccounts) (k n slot owner : ℕ) (z : Bool) (q : ℕ)
      → (k == q) ≡ false
      → get q (probe stake_program c k n slot owner z).0.entries ≡ get q c.entries
  unfolding probe probe_entry
  probe-other c k n slot owner z q other =
      let same = write_back-other c k n slot owner q other in
      elim (Bool-cases z) [
        | inl zero ↦ rw (zero) same
        | inr live ↦ rw (live) (elim (Option-cases (get k c.entries)) [
          | inl e ↦ rw (e, probe_entry) refl
          | inr (d, e) ↦ elim (Bool-cases (ltb d.slot slot)) [
            | inl older ↦ rw (e, older, probe_entry) same
            | inr newer ↦ rw (e, newer, probe_entry) refl
          ]
        ])
      ]

  -- A probe of an account that agrees with the ledger counts its change or misses.
  probe-Agrees :
      (ledger : ℕ → ℕ) (c : HotAccounts) (zs : List ℕ) (k n slot owner : ℕ)
      → Agrees ledger slot c zs k
      → ((probe stake_program c k n slot owner (contains zs k)).1 ≡ hit (sub_ℕ n (ledger k)))
        ⊎ ((probe stake_program c k n slot owner (contains zs k)).1 ≡ miss)
  unfolding probe probe_entry
  probe-Agrees ledger c zs k n slot owner h = elim (Bool-cases (contains zs k)) [
    | inl zero ↦ rw (zero) (inl (ap hit (rw (h.zero zero) (ground arith))))
    | inr live ↦ rw (live) (elim (Option-cases (get k c.entries)) [
      | inl absent ↦ rw (absent, probe_entry) (inr refl)
      | inr (e, found) ↦
          let (same, older) = h.cached e found in
          let before : ltb e.slot slot ≡ true = ground (arith, older) in
          rw (found, before, probe_entry) (inl (ap (λ a. hit (sub_ℕ n a)) same))
    ])
  ]

+ℤ_zero : (a : ℤ) → a +ℤ pos 0 ≡ a
unfolding ◌+ℤ◌
+ℤ_zero a = ground arith

contains-without :
    (set : List ℕ) (k q : ℕ) → contains (without set k) q ≡ true → contains set q ≡ true
contains-without [] k q h = h
contains-without (j ∷ set) k q h = ground (arith, contains-without set k q)

ledger_delta-append :
    (ledger : ℕ → ℕ) (xs : List Pending) (p : Pending)
    → ledger_delta ledger [] (xs ++ p ∷ [])
      ≡ ledger_delta ledger [] xs +ℤ sub_ℕ p.lamports (ledger p.pubkey)
unfolding ledger_delta
ledger_delta-append ledger [] p = +ℤ_comm (sub_ℕ p.lamports (ledger p.pubkey)) (pos 0)
ledger_delta-append ledger (x ∷ xs) p =
    let first = sub_ℕ x.lamports (ledger x.pubkey) in
    let last = sub_ℕ p.lamports (ledger p.pubkey) in
    ap (λ z. first +ℤ z) (ledger_delta-append ledger xs p)
    ∙ sym (+ℤ_assoc first (ledger_delta ledger [] xs) last)

module _ (stake_program : ℕ) (ledger : ℕ → ℕ) (slot : ℕ) (closes : OrdMap ℕ)
    (handled : List ℕ) where
  apply_miss-delta :
      (cache : HotAccounts) (p : Pending) (row : PrevRow)
      → RowAgrees ledger slot p.pubkey row
      → (apply_miss stake_program cache p.pubkey p.lamports slot p.owner row).1
        ≡ sub_ℕ p.lamports (ledger p.pubkey)
  unfolding apply_miss RowAgrees
  apply_miss-delta cache p none h = let zero : ledger p.pubkey ≡ 0 = h in rw (zero) (ground arith)
  apply_miss-delta cache p (some (lamports, row_slot)) (same, older) =
      let before : ltb row_slot slot ≡ true = ground (arith, older) in
      rw (before) (ap (λ a. sub_ℕ p.lamports a) same)

  -- The change counted so far, with what the misses still owe.
  abbrev counted_delta : Probing → ℤ
  counted_delta st = st.delta +ℤ ledger_delta ledger [] st.misses

  abbrev change_of : Pending → ℤ
  change_of p = if contains handled p.pubkey then pos 0 else sub_ℕ p.lamports (ledger p.pubkey)

  counted-delta :
      (st : Probing) (p : Pending) (r : HotAccounts × Probe)
      → (r.1 ≡ hit (sub_ℕ p.lamports (ledger p.pubkey))) ⊎ (r.1 ≡ miss)
      → counted_delta (counted st p r) ≡ counted_delta st +ℤ sub_ℕ p.lamports (ledger p.pubkey)
  counted-delta st p (cache, r) (inl e) =
      let d = sub_ℕ p.lamports (ledger p.pubkey) in
      let owed = ledger_delta ledger [] st.misses in
      rw (e) (
        +ℤ_assoc st.delta d owed
        ∙ ap (λ z. st.delta +ℤ z) (+ℤ_comm d owed)
        ∙ sym (+ℤ_assoc st.delta owed d))
  counted-delta st p (cache, r) (inr e) =
      let d = sub_ℕ p.lamports (ledger p.pubkey) in
      let owed = ledger_delta ledger [] st.misses in
      rw (e) (
        ap (λ z. st.delta +ℤ z) (ledger_delta-append ledger st.misses p)
        ∙ sym (+ℤ_assoc st.delta owed d))

  probe_step-delta :
      (st : Probing) (p : Pending)
      → Agrees ledger slot st.cache st.zero_prev p.pubkey
      → counted_delta (probe_step stake_program slot false closes handled st p)
        ≡ counted_delta st +ℤ change_of p
  unfolding probe_step
  probe_step-delta st p h = elim (Bool-cases (contains handled p.pubkey)) [
    | inl done ↦ rw (done) (sym (+ℤ_zero (counted_delta st)))
    | inr todo ↦ rw (todo) (
        counted-delta (record st { zero_prev = without st.zero_prev p.pubkey }) p
          (probe stake_program st.cache p.pubkey p.lamports slot p.owner
            (contains st.zero_prev p.pubkey))
          (probe-Agrees stake_program ledger st.cache st.zero_prev p.pubkey p.lamports slot p.owner
            h))
  ]

  counted-Agrees :
      (st : Probing) (p : Pending) (r : HotAccounts × Probe) (k : ℕ)
      → Agrees ledger slot r.0 st.zero_prev k
      → Agrees ledger slot (counted st p r).cache (counted st p r).zero_prev k
  counted-Agrees st p (cache, hit d) k h = h
  counted-Agrees st p (cache, miss) k h = h

  probe_step-Agrees :
      (st : Probing) (p : Pending) (k : ℕ)
      → (p.pubkey == k) ≡ false
      → Agrees ledger slot st.cache st.zero_prev k
      → Agrees ledger slot
          (probe_step stake_program slot false closes handled st p).cache
          (probe_step stake_program slot false closes handled st p).zero_prev
          k
  unfolding probe_step
  probe_step-Agrees st p k other h = elim (Bool-cases (contains handled p.pubkey)) [
    | inl done ↦ rw (done) h
    | inr todo ↦
        let z = contains st.zero_prev p.pubkey in
        let r = probe stake_program st.cache p.pubkey p.lamports slot p.owner z in
        let st' = record st { zero_prev = without st.zero_prev p.pubkey } in
        rw (todo) (
          counted-Agrees st' p r k (record {
            cached = λ e g. h.cached e (
                sym (probe-other stake_program st.cache p.pubkey p.lamports slot p.owner z k other)
                ∙ g);
            zero = λ c. h.zero (contains-without st.zero_prev p.pubkey k c);
          }))
  ]

  All-Agrees :
      (st : Probing) (p : Pending) (rest : List Pending)
      → All (λ q. (p.pubkey == q.pubkey) ≡ false) rest
      → All (λ q. Agrees ledger slot st.cache st.zero_prev q.pubkey) rest
      → All
          (λ q.
            Agrees ledger slot
              (probe_step stake_program slot false closes handled st p).cache
              (probe_step stake_program slot false closes handled st p).zero_prev
              q.pubkey)
          rest
  All-Agrees st p [] once h = tt
  All-Agrees st p (q ∷ rest) once h =
      (probe_step-Agrees st p q.pubkey once.0 h.0, All-Agrees st p rest once.1 h.1)

  probe_loop-delta :
      (st : Probing) (pending : List Pending)
      → Once pending
      → All (λ q. Agrees ledger slot st.cache st.zero_prev q.pubkey) pending
      → counted_delta (probe_loop stake_program slot false closes handled st pending)
        ≡ counted_delta st +ℤ ledger_delta ledger handled pending
  unfolding probe_loop ledger_delta
  probe_loop-delta st [] once h = sym (+ℤ_zero (counted_delta st))
  probe_loop-delta st (p ∷ rest) once h =
      let st' = probe_step stake_program slot false closes handled st p in
      let owed = ledger_delta ledger handled rest in
      probe_loop-delta st' rest once.1 (All-Agrees st p rest once.0 h.1)
      ∙ ap (λ z. z +ℤ owed) (probe_step-delta st p h.0)
      ∙ +ℤ_assoc (counted_delta st) (change_of p) owed

  miss_loop-delta :
      (prev : ℕ → PrevRow) (cache : HotAccounts) (delta : ℤ) (touched : List ℕ)
      (misses : List Pending)
      → ((k : ℕ) → RowAgrees ledger slot k (prev k))
      → (miss_loop stake_program slot prev cache delta touched misses).1
        ≡ delta +ℤ ledger_delta ledger [] misses
  unfolding miss_loop ledger_delta
  miss_loop-delta prev cache delta touched [] rows = sym (+ℤ_zero delta)
  miss_loop-delta prev cache delta touched (p ∷ rest) rows =
      let r = apply_miss stake_program cache p.pubkey p.lamports slot p.owner (prev p.pubkey) in
      let d = sub_ℕ p.lamports (ledger p.pubkey) in
      miss_loop-delta prev r.0 (delta +ℤ r.1) (touched ++ p.pubkey ∷ []) rest rows
      ∙ ap (λ z. delta +ℤ z +ℤ ledger_delta ledger [] rest)
          (apply_miss-delta cache p (prev p.pubkey) (rows p.pubkey))
      ∙ +ℤ_assoc delta d (ledger_delta ledger [] rest)

-- The change that a result counts, if it counts one.
abbrev pub delta_of : BlockOutcome → Option ℤ
delta_of (changed delta touched) = some delta
delta_of _ = none

-- Whether the tracker counts a streamed block at the slot.
abbrev pub counts : SupplyState → ℕ → Bool
counts s slot = (is_live s.status || is_gap_filling s.status) && not (leb slot s.slot)

status-cases :
    (s : SupplyState)
    → (is_live s.status || is_gap_filling s.status) ≡ true
    → (s.status ≡ SupplyStatus.live) ⊎ (s.status ≡ SupplyStatus.gap_filling)
status-cases s on = ground arith

probe_block-counting :
    (stake_program : ℕ) (s : SupplyState) (slot : ℕ) (is_repaired : Bool) (pending : List Pending)
    (stake : StakeBlock)
    → (s.status ≡ SupplyStatus.live) ⊎ (s.status ≡ SupplyStatus.gap_filling)
    → probe_block stake_program s slot is_repaired pending stake
      ≡ probe_counting stake_program s slot is_repaired pending stake
unfolding probe_block
probe_block-counting stake_program s slot is_repaired pending stake (inl live) =
    simp (live, probe_block) refl
probe_block-counting stake_program s slot is_repaired pending stake (inr filling) =
    simp (filling, probe_block) refl

module _ (stake_program : ℕ) (ledger : ℕ → ℕ) (slot : ℕ) (prev : ℕ → PrevRow)
    (rows : (k : ℕ) → RowAgrees ledger slot k (prev k)) where
  resolve-delta :
      (s : SupplyState) (st : Probing)
      → delta_of
          (resolve stake_program s slot (changed st.delta st.touched) st.misses (some prev)).1
        ≡ some (st.delta +ℤ ledger_delta ledger [] st.misses)
  unfolding resolve ledger_delta
  resolve-delta s st = owes s st.delta st.touched st.misses
    where
      owes :
          (s : SupplyState) (delta : ℤ) (touched : List ℕ) (misses : List Pending)
          → delta_of (resolve stake_program s slot (changed delta touched) misses (some prev)).1
            ≡ some (delta +ℤ ledger_delta ledger [] misses)
      owes s delta touched [] = ap some (sym (+ℤ_zero delta))
      owes s delta touched (p ∷ misses) = ap some (
          miss_loop-delta stake_program ledger slot [] [] prev s.cache delta touched (p ∷ misses)
            rows)

  probe_counting-delta :
      (s : SupplyState) (pending : List Pending) (stake : StakeBlock)
      → leb slot s.slot ≡ false
      → Once pending
      → All (λ q. Agrees ledger slot s.cache s.startup_zero_prev q.pubkey) pending
      → delta_of
          (resolve stake_program
            (probe_counting stake_program s slot false pending stake).0
            slot
            (probe_counting stake_program s slot false pending stake).1
            (probe_counting stake_program s slot false pending stake).2
            (some prev)).1
        ≡ some (stake.delta +ℤ ledger_delta ledger stake.handled pending)
  unfolding probe_counting ledger_delta
  probe_counting-delta s pending stake above once agree =
      let closes =
        if is_gap_filling s.status then note_closes slot s.gap_closes pending else s.gap_closes in
      let st : Probing = record {
        cache = s.cache;
        zero_prev = s.startup_zero_prev;
        delta = stake.delta;
        touched = [];
        misses = [];
      } in
      let end = probe_loop stake_program slot false closes stake.handled st pending in
      rw (above) (
        resolve-delta
          (record s { gap_closes = closes; cache = end.cache; startup_zero_prev = end.zero_prev })
          end
        ∙ ap some (
            probe_loop-delta stake_program ledger slot closes stake.handled st pending once agree
            ∙ ap (λ z. z +ℤ ledger_delta ledger stake.handled pending) (+ℤ_zero stake.delta)))

-- A streamed block of a counting tracker above its slot adds to the total exactly the sum of the
-- changes its accounts make to the ledger, with the stake map's own delta for those it handled. The
-- accounts are distinct, what is cached of them is older and agrees with the ledger, those marked as
-- closed have nothing in it, and one of the two reads of rows succeeds with rows that agree with it.
pub apply_block-ledger_delta :
    (stake_program : ℕ) (ledger : ℕ → ℕ) (s : SupplyState) (slot : ℕ) (pending : List Pending)
    (stake : StakeBlock) (first second : Option (ℕ → PrevRow)) (prev : ℕ → PrevRow)
    → counts s slot ≡ true
    → Once pending
    → All (λ q. Agrees ledger slot s.cache s.startup_zero_prev q.pubkey) pending
    → either_read first second ≡ some prev
    → ((k : ℕ) → RowAgrees ledger slot k (prev k))
    → delta_of (apply_block stake_program s slot false pending stake first second).1
      ≡ some (stake.delta +ℤ ledger_delta ledger stake.handled pending)
unfolding apply_block
apply_block-ledger_delta stake_program ledger s slot pending stake first second prev on once agree
      read rows =
    let above : leb slot s.slot ≡ false = ground arith in
    let counted =
      probe_counting-delta stake_program ledger slot prev rows s pending stake above once agree in
    rw
      (
        read,
        probe_block-counting stake_program s slot false pending stake
            (status-cases s (ground arith)),
      )
      counted
