-- ===== src/Supply/Cache.antt =====
-- crates/core/src/modules/supply/cache.rs: the bounded map of recently touched accounts.
pub mod Total
pub mod Pins
pub mod Sweep
pub mod Repeated
use cloudbreak.Prelude.{
  ℕ, zero, suc, ◌+◌, ◌-◌, ◌/◌, Bool, true, false, not, ◌&&◌, ◌||◌, Option, none, some, List, [],
  ◌∷◌, ltb, leb, ◌==◌, if◌then◌else◌, is_some_and, length, keep, unwrap_or,
}
use cloudbreak.Prelude.Int.{ℤ, pos, sub_ℕ}
use cloudbreak.Prelude.Word.{add64, sub64}
use cloudbreak.OrdMap.{OrdMap, get, insert, remove}

pub record Entry : Type 0 where
  pub lamports : ℕ
  pub slot : ℕ
  pub pinned : Bool

pub data Probe : Type 0 where
  hit : ℤ → Probe
  miss : Probe

-- The lamports and the slot of a row, if there is one.
abbrev pub PrevRow : Type 0
PrevRow = Option (ℕ × ℕ)

pub record HotAccounts : Type 0 where
  pub entries : OrdMap Entry
  pub cap : ℕ
  pub fail_pin_cap : ℕ
  pub pinned_count : ℕ
  pub last_sweep_slot : ℕ

abbrev pub sweep_slot_floor : ℕ
sweep_slot_floor = 3_000

unfoldable pub with_capacity : ℕ → ℕ → HotAccounts
with_capacity cap fail_pin_cap = record {
  entries = [];
  cap = cap;
  fail_pin_cap = fail_pin_cap;
  pinned_count = 0;
  last_sweep_slot = 0;
}

unfoldable pub hot_len : HotAccounts → ℕ
hot_len c = sub64 (length c.entries) c.pinned_count

unfoldable pub forget : HotAccounts → ℕ → HotAccounts
forget c pubkey = elim (get pubkey c.entries) [
  | none ↦ c
  | some entry ↦ record c {
    entries = remove pubkey c.entries;
    pinned_count = if entry.pinned then sub64 c.pinned_count 1 else c.pinned_count;
  }
]

-- The part of `write_back` for an owner other than the stake program.
unfoldable pub store : HotAccounts → ℕ → ℕ → ℕ → HotAccounts
store c pubkey lamports slot = elim (get pubkey c.entries) [
  | none ↦ record c {
    entries = insert pubkey (record { lamports = lamports; slot = slot; pinned = false }) c.entries;
  }
  | some entry ↦
      if leb entry.slot slot
      then record c {
        entries =
            insert pubkey (record { lamports = lamports; slot = slot; pinned = entry.pinned })
              c.entries;
      }
      else c
]

-- `stake_program` is the stake program's public key.
module _ (stake_program : ℕ) where
  unfoldable pub write_back : HotAccounts → ℕ → ℕ → ℕ → ℕ → HotAccounts
  unfolding forget store
  write_back c pubkey lamports slot owner =
      if owner == stake_program then forget c pubkey else store c pubkey lamports slot

  -- The part of `probe` past the check of `zero_prev`.
  unfoldable pub probe_entry : HotAccounts → ℕ → ℕ → ℕ → ℕ → HotAccounts × Probe
  unfolding write_back
  probe_entry c pubkey lamports slot owner = elim (get pubkey c.entries) [
    | none ↦ (c, miss)
    | some entry ↦
        if ltb entry.slot slot
        then (write_back c pubkey lamports slot owner, hit (sub_ℕ lamports entry.lamports))
        else (c, hit (pos 0))
  ]

  unfoldable pub probe : HotAccounts → ℕ → ℕ → ℕ → ℕ → Bool → HotAccounts × Probe
  unfolding probe_entry
  probe c pubkey lamports slot owner zero_prev =
      if zero_prev
      then (write_back c pubkey lamports slot owner, hit (pos lamports))
      else probe_entry c pubkey lamports slot owner

  unfoldable pub apply_miss : HotAccounts → ℕ → ℕ → ℕ → ℕ → PrevRow → HotAccounts × ℤ
  unfolding write_back
  apply_miss c pubkey lamports slot owner none =
      (write_back c pubkey lamports slot owner, pos lamports)
  apply_miss c pubkey lamports slot owner (some (prev_lamports, prev_slot)) =
      if ltb prev_slot slot
      then (write_back c pubkey lamports slot owner, sub_ℕ lamports prev_lamports)
      else (write_back c pubkey prev_lamports prev_slot owner, pos 0)

unfoldable pub sweep_due : HotAccounts → ℕ → Bool
unfolding hot_len
sweep_due c slot =
    ltb (add64 c.cap (c.cap / 10)) (hot_len c) || leb sweep_slot_floor (slot - c.last_sweep_slot)

abbrev pub unpinned_slots : OrdMap Entry → List ℕ
unpinned_slots [] = []
unpinned_slots ((_, e) ∷ m) = if e.pinned then unpinned_slots m else e.slot ∷ unpinned_slots m

unfoldable pub insert_slot : ℕ → List ℕ → List ℕ
insert_slot s [] = s ∷ []
insert_slot s (t ∷ ts) = let rest = insert_slot s ts in if leb s t then s ∷ t ∷ ts else t ∷ rest

unfoldable pub sort_slots : List ℕ → List ℕ
unfolding insert_slot
sort_slots [] = []
sort_slots (s ∷ ss) = insert_slot s (sort_slots ss)

abbrev pub nth_of : List ℕ → ℕ → Option ℕ
nth_of [] i = none
nth_of (s ∷ ss) zero = some s
nth_of (s ∷ ss) (suc i) = nth_of ss i

-- `select_nth_unstable`: the value that stands at the place when sorted. Out of bounds it panics.
unfoldable pub select_nth : List ℕ → ℕ → Option ℕ
unfolding sort_slots
select_nth slots nth = nth_of (sort_slots slots) nth

unfoldable pub retain_from : ℕ → OrdMap Entry → OrdMap Entry
retain_from cutoff m = keep (λ e. (e.1).pinned || leb cutoff (e.1).slot) m

abbrev pub swept : HotAccounts → ℕ → Option ℕ → Option (HotAccounts × ℕ)
swept c slot none = none
swept c slot (some cutoff) =
    let kept = retain_from cutoff c.entries in
    some (record c { entries = kept; last_sweep_slot = slot }, length c.entries - length kept)

-- The new cache and the number evicted; `none` is the panic of `select_nth_unstable`.
unfoldable pub sweep : HotAccounts → ℕ → Option (HotAccounts × ℕ)
unfolding hot_len select_nth retain_from
sweep c slot =
    let target = c.cap - c.cap / 10 in
    if leb (hot_len c) target
    then some (record c { last_sweep_slot = slot }, 0)
    else (let slots = unpinned_slots c.entries in
        swept c slot (select_nth slots (sub64 (length slots) target)))

abbrev pub is_unpinned : OrdMap Entry → ℕ → Bool
is_unpinned m pubkey = is_some_and (get pubkey m) (λ e. not e.pinned)

unfoldable pub count_unpinned : OrdMap Entry → List ℕ → ℕ
count_unpinned m [] = 0
count_unpinned m (k ∷ ks) = (if is_unpinned m k then 1 else 0) + count_unpinned m ks

abbrev pub pin_entry : OrdMap Entry → ℕ → Option Entry → OrdMap Entry
pin_entry m pubkey none = m
pin_entry m pubkey (some e) = insert pubkey (record e { pinned = true }) m

unfoldable pub pin_all : OrdMap Entry → List ℕ → OrdMap Entry
pin_all m [] = m
pin_all m (k ∷ ks) = pin_all (pin_entry m k (get k m)) ks

unfoldable pub pin_failed : HotAccounts → List ℕ → HotAccounts × Bool
unfolding count_unpinned pin_all
pin_failed c pubkeys =
    let newly = count_unpinned c.entries pubkeys in
    if ltb c.fail_pin_cap (add64 c.pinned_count newly) then (c, false) else (
      record c { pinned_count = add64 c.pinned_count newly; entries = pin_all c.entries pubkeys },
      true,
    )
