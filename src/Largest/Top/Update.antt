-- ===== src/Largest/Top/Update.antt =====
-- Updates and removals keep a top in step with the ledger of all holders.
use cloudbreak.Prelude.{
  ℕ, ◌≤◌, ◌<◌, ◌≡◌, ◌⊎◌, refl, sym, ap, ◌∙◌, inl, inr, max, Bool, true, false, Option, none, some,
  [], ◌∷◌, arith, ltb, leb, ◌==◌, if◌then◌else◌, length, is_some_and, Option-cases, Bool-cases,
  ==_refl,
}
use cloudbreak.OrdMap.{
  OrdMap, get, insert, remove, IsSorted, get-Above, get-insert, get-remove, insert-IsSorted,
  remove-IsSorted,
}
use cloudbreak.Largest.Top.{
  Entry, Row, MintTop, lesser_row, min_entry, refresh_cached_min, note_min, is_newer, Updated,
  update_member, raise_floor, evict_for, admit, update_top, remove_top,
}
use cloudbreak.Largest.Top.Sound.{Covers}

-- The ledger after a write.
abbrev pub write_ledger : (ℕ → ℕ) → ℕ → ℕ → ℕ → ℕ
write_ledger ledger k amount q = if k == q then amount else ledger q

-- The row is a member with its amount.
abbrev Holds : OrdMap Entry → Row → Type 0
Holds m r = (e : Entry) × (get r.0 m ≡ some e) × (e.amount ≡ r.1)

lesser_row-cases :
    (r : Row) (o : Option Row) (s : Row) → lesser_row r o ≡ some s → (r ≡ s) ⊎ (o ≡ some s)
lesser_row-cases r none s e = inl (ground (arith, e))
lesser_row-cases r (some t) s e = ground (arith, e)

min_entry-Holds : (m : OrdMap Entry) (r : Row) → IsSorted m → min_entry m ≡ some r → Holds m r
unfolding min_entry get
min_entry-Holds [] r h e = absurd (ground (arith, e))
min_entry-Holds ((k, d) ∷ m) r h e = elim (lesser_row-cases (k, d.amount) (min_entry m) r e) [
  | inl first ↦ (d, rw⁻¹ (first) (rw (==_refl k) refl), ap (λ s. s.1) first)
  | inr later ↦
      let (b, found, amount) = min_entry-Holds m r h.1 later in
      elim (Bool-cases (k == r.0)) [
        | inl same ↦ absurd (ground (arith, found, get-Above k r.0 m h.0 (ground (arith, same))))
        | inr other ↦ (b, rw (other) found, amount)
      ]
]

min_entry-none : (m : OrdMap Entry) → min_entry m ≡ none → length m ≡ 0
unfolding min_entry
min_entry-none [] e = refl
min_entry-none ((k, d) ∷ m) e = ground (arith, e)

length-insert : (k : ℕ) (e : Entry) (m : OrdMap Entry) → 0 < length (insert k e m)
unfolding insert
length-insert k e [] = omega arith
length-insert k e ((j, d) ∷ m) = ground arith

-- Writing a member into entries that, but for it, cover the ledger down to a floor.
written-Covers :
    (ledger : ℕ → ℕ) (m : OrdMap Entry) (top : MintTop) (k : ℕ) (new : Entry)
    → IsSorted m
    → top.entries ≡ insert k new m
    → ((q : ℕ) (e : Entry) → (k == q) ≡ false → get q m ≡ some e → e.amount ≡ ledger q)
    → ((q : ℕ) → (k == q) ≡ false → get q m ≡ none → ledger q ≤ top.dropped_floor)
    → ((r : Row) → top.cached_min ≡ some r → Holds (insert k new m) r)
    → (top.cached_min ≡ none → length (insert k new m) ≡ 0)
    → Covers (write_ledger ledger k new.amount) top
written-Covers ledger m top k new h same members others cached full = record {
  sorted = rw (same) (insert-IsSorted k new m h);
  members = λ q e found.
      let law = sym (get-insert k q new m) ∙ ap (λ xs. get q xs) (sym same) ∙ found in
      elim (Bool-cases (k == q)) [
        | inl here ↦ ground (arith, law, here)
        | inr other ↦ rw (other) (members q e other (ground (arith, law, other)))
      ];
  others = λ q absent.
      let law = sym (get-insert k q new m) ∙ ap (λ xs. get q xs) (sym same) ∙ absent in
      elim (Bool-cases (k == q)) [
        | inl here ↦ absurd (ground (arith, law, here))
        | inr other ↦ rw (other) (others q other (ground (arith, law, other)))
      ];
  cached = λ r e. rw (same) (cached r e);
  full = λ e. rw (same) (full e);
}

-- The cached minimum after a write next to which it stays a member.
note_min-Holds :
    (o : Option Row) (k : ℕ) (new : Entry) (m : OrdMap Entry) (r : Row)
    → ((s : Row) → o ≡ some s → (k == s.0) ≡ false × Holds m s)
    → note_min o (k, new.amount) ≡ some r
    → Holds (insert k new m) r
note_min-Holds o k new m r law e = elim (note_min-cases o (k, new.amount) r e) [
  | inl first ↦
      (new, rw⁻¹ (first) (get-insert k k new m ∙ rw (==_refl k) refl), ap (λ s. s.1) first)
  | inr kept ↦
      let (other, (d, found, amount)) = law r kept in
      (d, get-insert k r.0 new m ∙ rw (other) found, amount)
]
  where
    note_min-cases : (o : Option Row) (s r : Row) → note_min o s ≡ some r → (s ≡ r) ⊎ (o ≡ some r)
    note_min-cases none s r e = inl (ground (arith, e))
    note_min-cases (some t) s r e = ground (arith, e)

note_min-some : (o : Option Row) (r : Row) → ¬ (note_min o r ≡ none)
note_min-some none r e = ground (arith, e)
note_min-some (some s) r e = ground (arith, e)

member_other :
    (k q : ℕ) (e : Entry) (m : OrdMap Entry) → get k m ≡ none → get q m ≡ some e → (k == q) ≡ false
member_other k q e m absent found = elim (Bool-cases (k == q)) [
  | inl same ↦
      let one : k ≡ q = ground (arith, same) in
      absurd (ground (arith, sym absent ∙ ap (λ j. get j m) one ∙ found))
  | inr other ↦ other
]

raise_floor-Covers :
    (ledger : ℕ → ℕ) (top : MintTop) (k : ℕ) (amount : ℕ)
    → Covers ledger top
    → get k top.entries ≡ none
    → Covers (write_ledger ledger k amount) (raise_floor top amount).top
unfolding raise_floor
raise_floor-Covers ledger top k amount h absent = elim (Bool-cases (ltb top.dropped_floor amount)) [
  | inl above ↦ rw (above) (record {
    sorted = h.sorted;
    members = λ q e found. rw (member_other k q e top.entries absent found) (h.members q e found);
    others = λ q out. ground (arith, h.others q out, above);
    cached = h.cached;
    full = h.full;
  })
  | inr low ↦ rw (low) (record {
    sorted = h.sorted;
    members = λ q e found. rw (member_other k q e top.entries absent found) (h.members q e found);
    others = λ q out. ground (arith, h.others q out, low);
    cached = h.cached;
    full = h.full;
  })
]

-- A member's newer write.
update_member-Covers :
    (ledger : ℕ → ℕ) (top : MintTop) (k : ℕ) (entry new : Entry)
    → Covers ledger top
    → get k top.entries ≡ some entry
    → is_newer new.slot new.write_version entry.slot entry.write_version ≡ true
    → Covers (write_ledger ledger k new.amount) (update_member top k entry new).top
unfolding update_member refresh_cached_min
update_member-Covers ledger top k entry new h found newer =
    elim (Bool-cases (is_some_and top.cached_min (λ r. r.0 == k))) [
      | inl was ↦
          rw (newer, was)
            (written-Covers ledger top.entries _ k new h.sorted refl
              (λ q e other g. h.members q e g) (λ q other g. h.others q g)
              (λ r e.
                min_entry-Holds (insert k new top.entries) r
                  (insert-IsSorted k new top.entries h.sorted) e)
              (λ e. min_entry-none (insert k new top.entries) e))
      | inr is_not ↦
          rw (newer, is_not)
            (written-Covers ledger top.entries _ k new h.sorted refl
              (λ q e other g. h.members q e g) (λ q other g. h.others q g)
              (λ r e.
                note_min-Holds top.cached_min k new top.entries r
                  (λ s g. (ground (arith, is_not, g), h.cached s g)) e)
              (λ e. absurd (note_min-some top.cached_min (k, new.amount) e)))
    ]

get_kept : (k q : ℕ) (e : Entry) (m : OrdMap Entry) → get q (remove k m) ≡ some e → get q m ≡ some e
get_kept k q e m g =
    let law = sym (get-remove k q m) ∙ g in
    elim (Bool-cases (k == q)) [
      | inl same ↦ absurd (ground (arith, law, same))
      | inr other ↦ ground (arith, law, other)
    ]

module _ (ledger : ℕ → ℕ) (top : MintTop) (k : ℕ) (new : Entry) (h : Covers ledger top)
    (absent : get k top.entries ≡ none) where
  join-Covers : Covers (write_ledger ledger k new.amount) (record top {
    entries = insert k new top.entries;
    cached_min = note_min top.cached_min (k, new.amount);
  })
  join-Covers =
      written-Covers ledger top.entries _ k new h.sorted refl (λ q e other g. h.members q e g)
        (λ q other g. h.others q g)
        (λ r e.
          note_min-Holds top.cached_min k new top.entries r
            (λ s g.
              let held = h.cached s g in
              (member_other k s.0 held.0 top.entries absent held.1, held))
            e)
        (λ e. absurd (note_min-some top.cached_min (k, new.amount) e))

  -- The evicted member falls under the floor.
  evicted-Covers :
      (r : Row)
      → top.cached_min ≡ some r
      → Covers (write_ledger ledger k new.amount) (
          refresh_cached_min (record top {
            entries = insert k new (remove r.0 top.entries);
            dropped_floor = max top.dropped_floor r.1;
          }))
  unfolding refresh_cached_min
  evicted-Covers r least =
      let held = h.cached r least in
      let m = remove r.0 top.entries in
      let sorted = remove-IsSorted r.0 top.entries h.sorted in
      written-Covers ledger m _ k new sorted refl
        (λ q e other g. h.members q e (get_kept r.0 q e top.entries g))
        (λ q other g. elim (Bool-cases (r.0 == q)) [
          | inl same ↦
              let one : r.0 ≡ q = ground (arith, same) in
              let owed : ledger q ≡ r.1 =
                sym (ap ledger one) ∙ sym (h.members r.0 held.0 held.1) ∙ held.2 in
              omega (arith, owed)
          | inr far ↦
              let low = h.others q (sym (get-remove r.0 q top.entries ∙ rw (far) refl) ∙ g) in
              omega (arith, low)
        ])
        (λ s e. min_entry-Holds (insert k new m) s (insert-IsSorted k new m sorted) e)
        (λ e. min_entry-none (insert k new m) e)

  evict_for-Covers :
      (o : Option Row)
      → top.cached_min ≡ o
      → 0 < length top.entries
      → (u : Updated) × (evict_for top k new o ≡ some u)
        × Covers (write_ledger ledger k new.amount) u.top
  unfolding evict_for
  evict_for-Covers none e pos = absurd (omega (arith, h.full e, pos))
  evict_for-Covers (some (min_pubkey, min_amount)) e pos =
      elim (Bool-cases (leb new.amount min_amount)) [
        | inl low ↦
            rw (low) (
              raise_floor top new.amount,
              refl,
              raise_floor-Covers ledger top k new.amount h absent,
            )
        | inr high ↦ rw (high) (_, refl, evicted-Covers (min_pubkey, min_amount) e)
      ]

  admit-Covers :
      (old_block : Bool) (size : ℕ)
      → 0 < size
      → (u : Updated) × (admit top k new false old_block size ≡ some u)
        × Covers (write_ledger ledger k new.amount) u.top
  unfolding admit
  admit-Covers true size pos =
      (raise_floor top new.amount, refl, raise_floor-Covers ledger top k new.amount h absent)
  admit-Covers false size pos = elim (Bool-cases (leb size (length top.entries))) [
    | inr room ↦ rw (room) (_, refl, join-Covers)
    | inl crowded ↦
        rw (crowded) (evict_for-Covers top.cached_min refl (ground (arith, crowded, pos)))
  ]

-- With room for a member at least, a write of a live block that is newer than what its holder has, if
-- it is a member, keeps the cover of all holders: the holder is or becomes a member, is turned away, or
-- comes with an old block. Nothing panics.
pub update_top-Covers :
    (ledger : ℕ → ℕ) (top : MintTop) (k : ℕ) (new : Entry) (old_block : Bool) (size : ℕ)
    → Covers ledger top
    → 0 < size
    → ((e : Entry)
        → get k top.entries ≡ some e
        → is_newer new.slot new.write_version e.slot e.write_version ≡ true)
    → (u : Updated) × (update_top top k new false old_block size ≡ some u)
      × Covers (write_ledger ledger k new.amount) u.top
unfolding update_top
update_top-Covers ledger top k new old_block size h pos newer =
    elim (Option-cases (get k top.entries)) [
      | inl absent ↦
          rw (absent, update_top) (admit-Covers ledger top k new h absent old_block size pos)
      | inr (e, found) ↦
          rw (found, update_top)
            (
              update_member top k e new,
              refl,
              update_member-Covers ledger top k e new h found (newer e found),
            )
    ]

get-length : (k : ℕ) (e : Entry) (m : OrdMap Entry) → get k m ≡ some e → 0 < length m
unfolding get
get-length k e [] found = absurd (ground (arith, found))
get-length k e ((j, d) ∷ m) found = omega arith

closed-Covers :
    (ledger : ℕ → ℕ) (top : MintTop) (k : ℕ)
    → Covers ledger top
    → get k top.entries ≡ none
    → Covers (write_ledger ledger k 0) top
closed-Covers ledger top k h absent = record {
  sorted = h.sorted;
  members = λ q e found. rw (member_other k q e top.entries absent found) (h.members q e found);
  others = λ q gone. ground (arith, h.others q gone);
  cached = h.cached;
  full = h.full;
}

removed-Covers :
    (ledger : ℕ → ℕ) (top : MintTop) (k : ℕ) (o : Option Row)
    → Covers ledger top
    → ((r : Row) → o ≡ some r → Holds (remove k top.entries) r)
    → (o ≡ none → length (remove k top.entries) ≡ 0)
    → Covers
        (write_ledger ledger k 0)
        (record top { entries = remove k top.entries; cached_min = o })
removed-Covers ledger top k o h cached full = record {
  sorted = remove-IsSorted k top.entries h.sorted;
  members = λ q e found.
      let law = sym (get-remove k q top.entries) ∙ found in
      elim (Bool-cases (k == q)) [
        | inl here ↦ absurd (ground (arith, law, here))
        | inr other ↦ rw (other) (h.members q e (get_kept k q e top.entries found))
      ];
  others = λ q gone. elim (Bool-cases (k == q)) [
    | inl here ↦ rw (here) (omega arith)
    | inr other ↦
        rw (other) (h.others q (sym (get-remove k q top.entries ∙ rw (other) refl) ∙ gone))
  ];
  cached = cached;
  full = full;
}

-- The close of a holder keeps the cover of all holders, if it is newer than what a member has.
pub remove_top-Covers :
    (ledger : ℕ → ℕ) (top : MintTop) (k slot write_version : ℕ)
    → Covers ledger top
    → ((e : Entry)
        → get k top.entries ≡ some e
        → is_newer slot write_version e.slot e.write_version ≡ true)
    → Covers (write_ledger ledger k 0) (remove_top top k slot write_version).0
unfolding remove_top refresh_cached_min
remove_top-Covers ledger top k slot write_version h newer =
    elim (Option-cases (get k top.entries)) [
      | inl absent ↦ rw (absent, remove_top) (closed-Covers ledger top k h absent)
      | inr (d, found) ↦
          let m = remove k top.entries in
          let before = newer d found in
          rw (found, before, remove_top)
            (elim (Bool-cases (is_some_and top.cached_min (λ r. r.0 == k))) [
              | inl was ↦ rw (was) (
                  removed-Covers ledger top k (min_entry m) h
                    (λ r e. min_entry-Holds m r (remove-IsSorted k top.entries h.sorted) e)
                    (λ e. min_entry-none m e))
              | inr is_not ↦ rw (is_not) (
                  removed-Covers ledger top k top.cached_min h
                    (λ r e.
                      let held = h.cached r e in
                      let far : (k == r.0) ≡ false = ground (arith, is_not, e) in
                      (held.0, get-remove k r.0 top.entries ∙ rw (far) held.1, held.2))
                    (λ e. absurd (omega (arith, h.full e, get-length k d top.entries found))))
            ])
    ]
