-- ===== src/Supply/Cache/Repeated.antt =====
-- What pinning does to the count when the touched accounts repeat.
use cloudbreak.Prelude.{
  ℕ, ◌+◌, ◌≤◌, ◌<◌, ◌≡◌, refl, inl, inr, Option-cases, true, false, [], ◌∷◌, arith, ltb,
}
use cloudbreak.Prelude.Word.{u64_mod, add64}
use cloudbreak.OrdMap.{OrdMap, get, get-insert}
use cloudbreak.Supply.Cache.{
  Entry, HotAccounts, is_unpinned, count_unpinned, pin_entry, pin_all, pin_failed,
}
use cloudbreak.Supply.Cache.Pins.{count_pinned, IsCounted, count_pinned-pin_entry}

pin_entry-pinned :
    (m : OrdMap Entry) (k : ℕ)
    → is_unpinned m k ≡ true
    → is_unpinned (pin_entry m k (get k m)) k ≡ false
pin_entry-pinned m k fresh = elim (Option-cases (get k m)) [
  | inl e ↦ absurd (ground (arith, e))
  | inr (d, e) ↦ rw e (ground (arith, get-insert k k (record d { pinned = true }) m))
]

-- An unpinned entry that the touched accounts name twice is counted as two pins while one entry is
-- pinned: from a true count the count then is one too high, provided that the pins fit.
pub pin_failed-repeated :
    (c : HotAccounts) (k : ℕ)
    → IsCounted c
    → is_unpinned c.entries k ≡ true
    → c.pinned_count + 2 ≤ c.fail_pin_cap
    → c.fail_pin_cap < u64_mod
    → ((pin_failed c (k ∷ k ∷ [])).0.pinned_count
        ≡ count_pinned (pin_failed c (k ∷ k ∷ [])).0.entries + 1)
      × ((pin_failed c (k ∷ k ∷ [])).1 ≡ true)
unfolding pin_failed pin_all count_unpinned
pin_failed-repeated c k h fresh fits small =
    let m = pin_entry c.entries k (get k c.entries) in
    let once = count_pinned-pin_entry c.entries k h.sorted in
    let again = count_pinned-pin_entry m k once.0 in
    let pinned = pin_entry-pinned c.entries k fresh in
    let total : count_pinned (pin_all c.entries (k ∷ k ∷ [])) ≡ count_pinned c.entries + 1 =
      ground (arith, once.1, again.1, fresh, pinned) in
    let counted : c.pinned_count ≡ count_pinned c.entries = h.counted in
    let room : ltb c.fail_pin_cap (add64 c.pinned_count 2) ≡ false = ground arith in
    rw (fresh, room) (omega (arith, total, counted, fits, small), refl)
