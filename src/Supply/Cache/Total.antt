-- ===== src/Supply/Cache/Total.antt =====
-- The lamports in the cache, against the deltas that it counts.
use cloudbreak.Prelude.{
  ℕ, ◌+◌, ◌≡◌, inl, inr, false, Option, none, some, [], ◌∷◌, arith, Option-cases,
}
use cloudbreak.OrdMap.{OrdMap, get, insert, IsSorted, get-Above, get-insert}
use cloudbreak.Supply.Cache.{Entry, HotAccounts, store}

abbrev pub total_of : OrdMap Entry → ℕ
total_of [] = 0
total_of ((_, e) ∷ m) = e.lamports + total_of m

abbrev pub lamports_of : Option Entry → ℕ
lamports_of none = 0
lamports_of (some e) = e.lamports

total_of-insert :
    (k : ℕ) (e : Entry) (m : OrdMap Entry)
    → IsSorted m
    → total_of (insert k e m) + lamports_of (get k m) ≡ total_of m + e.lamports
unfolding insert get
total_of-insert k e [] h = omega arith
total_of-insert k e ((j, d) ∷ m) h = ground (arith, total_of-insert k e m h.1, get-Above j k m h.0)

-- A store moves the total by the change of the one entry.
store-total :
    (c : HotAccounts) (k lamports slot : ℕ)
    → IsSorted c.entries
    → total_of (store c k lamports slot).entries + lamports_of (get k c.entries)
      ≡ total_of c.entries + lamports_of (get k (store c k lamports slot).entries)
unfolding store
store-total c k lamports slot h = elim (Option-cases (get k c.entries)) [
  | inl e ↦
      let n : Entry = record { lamports = lamports; slot = slot; pinned = false } in
      ground (arith, total_of-insert k n c.entries h, get-insert k k n c.entries)
  | inr (d, e) ↦
      let n : Entry = record { lamports = lamports; slot = slot; pinned = d.pinned } in
      ground (arith, total_of-insert k n c.entries h, get-insert k k n c.entries)
]
