-- ===== src/Largest/Top/Sound.antt =====
-- What is served as a top is a top: of a ledger of all holders, the rows are the greatest.
use cloudbreak.Prelude.{
  ℕ, zero, suc, ◌≤◌, ◌<◌, ◌≡◌, refl, ap, ◌∙◌, inl, inr, Bool, true, false, ◌&&◌, ◌||◌, none, some,
  List, [], ◌∷◌, arith, ◌==◌, length, take, All, Option-cases, Bool-cases, ==_refl,
}
use cloudbreak.OrdMap.{OrdMap, get, IsSorted, get-Above}
use cloudbreak.Largest.Top.{
  Entry, Row, MintTop, sound, row_ltb, rows_of, insert_row, sort_rows, last_below, compute_top,
  persisted_top_n,
}

-- Whether a row is of the holder.
abbrev pub has_key : ℕ → List Row → Bool
has_key k [] = false
has_key k (r ∷ rows) = k == r.0 || has_key k rows

-- The rows are true, and no other holder has more than any of them; when there are fewer than are
-- persisted, no other holder has anything.
pub record IsTop (ledger : ℕ → ℕ) (rows : List Row) : Type 0 where
  pub exact : All (λ r. r.1 ≡ ledger r.0) rows
  pub most : (k : ℕ) → has_key k rows ≡ false → All (λ r. ledger k ≤ r.1) rows
  pub all : (k : ℕ) → has_key k rows ≡ false → length rows < persisted_top_n → ledger k ≡ 0

-- The members hold what the ledger says, and nobody else holds more than the floor.
pub record Covers (ledger : ℕ → ℕ) (top : MintTop) : Type 0 where
  pub sorted : IsSorted top.entries
  pub members : (k : ℕ) (e : Entry) → get k top.entries ≡ some e → e.amount ≡ ledger k
  pub others : (k : ℕ) → get k top.entries ≡ none → ledger k ≤ top.dropped_floor
  pub cached :
      (r : Row)
      → top.cached_min ≡ some r
      → (e : Entry) × (get r.0 top.entries ≡ some e) × (e.amount ≡ r.1)
  pub full : top.cached_min ≡ none → length top.entries ≡ 0

abbrev has_row : ℕ → ℕ → List Row → Bool
has_row k a [] = false
has_row k a (r ∷ rows) = k == r.0 && a == r.1 || has_row k a rows

abbrev Descends : List Row → Type 0
Descends [] = Unit
Descends (r ∷ rows) = All (λ s. s.1 ≤ r.1) rows × Descends rows

module _ (P : Row → Type 0) where
  All-insert_row : (r : Row) (rows : List Row) → P r → All P rows → All P (insert_row r rows)
  unfolding insert_row
  All-insert_row r [] p h = (p, tt)
  All-insert_row r (s ∷ rows) p h = elim (Bool-cases (row_ltb r s)) [
    | inl lt ↦ rw (lt) (h.0, All-insert_row r rows p h.1)
    | inr ge ↦ rw (ge) (p, h)
  ]

  All-sort_rows : (rows : List Row) → All P rows → All P (sort_rows rows)
  unfolding sort_rows
  All-sort_rows [] h = tt
  All-sort_rows (r ∷ rows) h = All-insert_row r (sort_rows rows) h.0 (All-sort_rows rows h.1)

  All-take : (n : ℕ) (rows : List Row) → All P rows → All P (take n rows)
  All-take zero rows h = tt
  All-take (suc n) [] h = tt
  All-take (suc n) (r ∷ rows) h = (h.0, All-take n rows h.1)

All-weaken : (a b : ℕ) (rows : List Row) → a ≤ b → All (λ s. s.1 ≤ a) rows → All (λ s. s.1 ≤ b) rows
All-weaken a b [] le h = tt
All-weaken a b (s ∷ rows) le h = (omega (arith, h.0), All-weaken a b rows le h.1)

insert_row-Descends : (r : Row) (rows : List Row) → Descends rows → Descends (insert_row r rows)
unfolding insert_row
insert_row-Descends r [] h = (tt, tt)
insert_row-Descends r (s ∷ rows) h = elim (Bool-cases (row_ltb r s)) [
  | inl lt ↦
      rw (lt)
        (All-insert_row (λ t. t.1 ≤ s.1) r rows (ground arith) h.0, insert_row-Descends r rows h.1)
  | inr ge ↦
      let above : s.1 ≤ r.1 = ground arith in
      rw (ge) ((above, All-weaken s.1 r.1 rows above h.0), h)
]

sort_rows-Descends : (rows : List Row) → Descends (sort_rows rows)
unfolding sort_rows
sort_rows-Descends [] = tt
sort_rows-Descends (r ∷ rows) = insert_row-Descends r (sort_rows rows) (sort_rows-Descends rows)

take-Descends : (n : ℕ) (rows : List Row) → Descends rows → Descends (take n rows)
take-Descends zero rows h = tt
take-Descends (suc n) [] h = tt
take-Descends (suc n) (r ∷ rows) h =
    (All-take (λ s. s.1 ≤ r.1) n rows h.0, take-Descends n rows h.1)

has_row-insert_row :
    (k a : ℕ) (r : Row) (rows : List Row) → has_row k a (insert_row r rows) ≡ has_row k a (r ∷ rows)
unfolding insert_row
has_row-insert_row k a r [] = refl
has_row-insert_row k a r (s ∷ rows) = ground (arith, has_row-insert_row k a r rows)

has_row-sort_rows : (k a : ℕ) (rows : List Row) → has_row k a (sort_rows rows) ≡ has_row k a rows
unfolding sort_rows
has_row-sort_rows k a [] = refl
has_row-sort_rows k a (r ∷ rows) =
    has_row-insert_row k a r (sort_rows rows)
    ∙ ap (λ b. k == r.0 && a == r.1 || b) (has_row-sort_rows k a rows)

has_row-All-le :
    (k a b : ℕ) (rows : List Row) → All (λ s. s.1 ≤ b) rows → has_row k a rows ≡ true → a ≤ b
has_row-All-le k a b [] h has = absurd (ground (arith, has))
has_row-All-le k a b (s ∷ rows) h has = ground (arith, has_row-All-le k a b rows h.1, h.0)

-- A row that is not among the first `n` is no greater than any of them, and they are `n` rows.
left_out :
    (k a n : ℕ) (rows : List Row)
    → Descends rows
    → has_row k a rows ≡ true
    → has_key k (take n rows) ≡ false
    → All (λ r. a ≤ r.1) (take n rows) × (length (take n rows) ≡ n)
left_out k a zero rows h has out = (tt, refl)
left_out k a (suc n) [] h has out = absurd (ground (arith, has))
left_out k a (suc n) (r ∷ rows) h has out =
    let later : has_row k a rows ≡ true = ground (arith, has, out) in
    let (least, many) = left_out k a n rows h.1 later (ground (arith, out)) in
    ((has_row-All-le k a r.1 rows h.0 later, least), omega (arith, many))

last_below-All :
    (floor : ℕ) (rows : List Row)
    → Descends rows
    → last_below floor rows ≡ false
    → All (λ r. floor ≤ r.1) rows
last_below-All floor [] h e = tt
last_below-All floor (r ∷ []) h e = (ground arith, tt)
last_below-All floor (r ∷ s ∷ rows) h e =
    let rest = last_below-All floor (s ∷ rows) h.1 e in (omega (arith, rest.0, h.0.0), rest)

All-trans : (a b : ℕ) (rows : List Row) → a ≤ b → All (λ r. b ≤ r.1) rows → All (λ r. a ≤ r.1) rows
All-trans a b [] le h = tt
All-trans a b (s ∷ rows) le h = (omega (arith, h.0), All-trans a b rows le h.1)

rows_of-All :
    (P : ℕ → ℕ → Type 0) (m : OrdMap Entry)
    → IsSorted m
    → ((k : ℕ) (e : Entry) → get k m ≡ some e → P k e.amount)
    → All (λ r. P r.0 r.1) (rows_of m)
unfolding get
rows_of-All P [] h law = tt
rows_of-All P ((k, e) ∷ m) h law = (
  law k e (rw (==_refl k) refl),
  rows_of-All P m h.1 (λ q d found. elim (Bool-cases (k == q)) [
    | inl same ↦ absurd (ground (arith, found, get-Above k q m h.0 (ground (arith, same))))
    | inr other ↦ law q d (rw (other) found)
  ]),
)

has_row-rows_of :
    (k : ℕ) (e : Entry) (m : OrdMap Entry)
    → get k m ≡ some e
    → has_row k e.amount (rows_of m) ≡ true
unfolding get
has_row-rows_of k e [] found = absurd (ground (arith, found))
has_row-rows_of k e ((j, d) ∷ m) found = ground (arith, found, has_row-rows_of k e m)

top_rows : MintTop → List Row
top_rows top = take persisted_top_n (sort_rows (rows_of top.entries))

served :
    (top : MintTop) (rows : List Row)
    → compute_top top ≡ sound rows
    → (top_rows top ≡ rows)
      × (last_below top.dropped_floor (top_rows top) ≡ false)
      × (length (top_rows top) < persisted_top_n → top.dropped_floor ≡ 0)
unfolding compute_top top_rows
served top rows e = ground (arith, e)

-- What `compute_top` serves is a top of the ledger that the entries and the floor cover.
pub compute_top-IsTop :
    (ledger : ℕ → ℕ) (top : MintTop) (rows : List Row)
    → Covers ledger top
    → compute_top top ≡ sound rows
    → IsTop ledger rows
unfolding top_rows
compute_top-IsTop ledger top rows h e =
    let (same, floor, few) = served top rows e in
    let sorted = sort_rows-Descends (rows_of top.entries) in
    let least =
      last_below-All top.dropped_floor (top_rows top) (take-Descends persisted_top_n _ sorted)
        floor in
    let out : (k : ℕ)
        → has_key k (top_rows top) ≡ false
        → All (λ r. ledger k ≤ r.1) (top_rows top)
          × (length (top_rows top) < persisted_top_n → ledger k ≡ 0) =
      λ k missing. elim (Option-cases (get k top.entries)) [
        | inl absent ↦
            let low = h.others k absent in
            (
              All-trans (ledger k) top.dropped_floor (top_rows top) low least,
              λ short. omega (arith, few short, low),
            )
        | inr (d, found) ↦
            let held =
              has_row-sort_rows k d.amount (rows_of top.entries)
              ∙ has_row-rows_of k d top.entries found in
            let (most, many) = left_out k d.amount persisted_top_n _ sorted held missing in
            (rw⁻¹ (h.members k d found) most, λ short. absurd (omega (arith, short, many)))
      ] in
    rw⁻¹ (same) (record {
      exact =
          All-take (λ r. r.1 ≡ ledger r.0) persisted_top_n _
            (All-sort_rows (λ r. r.1 ≡ ledger r.0) (rows_of top.entries)
              (rows_of-All (λ k a. a ≡ ledger k) top.entries h.sorted h.members));
      most = λ k missing. (out k missing).0;
      all = λ k missing short. (out k missing).1 short;
    })
