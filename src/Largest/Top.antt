-- ===== src/Largest/Top.antt =====
-- crates/core/src/modules/largest_accounts/tracker.rs: the top of one mint. A `HashMap` is a map in
-- the order of its keys; where the code could see the order it breaks ties by the key itself.
pub mod Sound
pub mod Update
pub mod Runs
use cloudbreak.Prelude.{
  ℕ, ◌-◌, max, Bool, true, false, not, ◌&&◌, ◌||◌, Option, none, some, List, [], ◌∷◌, ltb, leb,
  ◌==◌, if◌then◌else◌, length, take, is_some_and,
}
use cloudbreak.OrdMap.{OrdMap, get, insert, remove}

abbrev pub persisted_top_n : ℕ
persisted_top_n = 20

pub record Entry : Type 0 where
  pub amount : ℕ
  pub slot : ℕ
  pub write_version : ℕ

-- A holder and its amount.
abbrev pub Row : Type 0
Row = ℕ × ℕ

pub record MintTop : Type 0 where
  pub entries : OrdMap Entry
  pub cached_min : Option Row
  pub dropped_floor : ℕ
  pub stale : Bool
  pub last_record : List Row

pub data ComputedTop : Type 0 where
  sound : List Row → ComputedTop
  unsound : ComputedTop

-- `MintTop::default`
unfoldable pub empty_top : MintTop
empty_top = record {
  entries = [];
  cached_min = none;
  dropped_floor = 0;
  stale = false;
  last_record = [];
}

-- `(a.1, a.0) < (b.1, b.0)`: by amount, then by key.
abbrev pub row_ltb : Row → Row → Bool
row_ltb a b = ltb a.1 b.1 || (a.1 == b.1 && ltb a.0 b.0)

-- `(slot, write_version) > (entry.slot, entry.write_version)`
abbrev pub is_newer : ℕ → ℕ → ℕ → ℕ → Bool
is_newer slot write_version old_slot old_version =
    ltb old_slot slot || (old_slot == slot && ltb old_version write_version)

abbrev pub lesser_row : Row → Option Row → Option Row
lesser_row r none = some r
lesser_row r (some s) = some (if row_ltb s r then s else r)

unfoldable pub min_entry : OrdMap Entry → Option Row
min_entry [] = none
min_entry ((k, e) ∷ m) = lesser_row (k, e.amount) (min_entry m)

unfoldable pub refresh_cached_min : MintTop → MintTop
unfolding min_entry
refresh_cached_min top = record top { cached_min = min_entry top.entries }

abbrev pub rows_of : OrdMap Entry → List Row
rows_of [] = []
rows_of ((k, e) ∷ m) = (k, e.amount) ∷ rows_of m

-- Into a list from the greatest amount to the least.
unfoldable pub insert_row : Row → List Row → List Row
insert_row r [] = r ∷ []
insert_row r (s ∷ rows) =
    let rest = insert_row r rows in if row_ltb r s then s ∷ rest else r ∷ s ∷ rows

unfoldable pub sort_rows : List Row → List Row
unfolding insert_row
sort_rows [] = []
sort_rows (r ∷ rows) = insert_row r (sort_rows rows)

-- Whether the last row is below the floor.
abbrev pub last_below : ℕ → List Row → Bool
last_below floor [] = false
last_below floor (r ∷ []) = ltb r.1 floor
last_below floor (r ∷ s ∷ rows) = last_below floor (s ∷ rows)

unfoldable pub compute_top : MintTop → ComputedTop
unfolding sort_rows
compute_top top =
    let rows = take persisted_top_n (sort_rows (rows_of top.entries)) in
    if ltb (length rows) persisted_top_n && ltb 0 top.dropped_floor
    then unsound
    else if last_below top.dropped_floor rows
    then unsound
    else sound rows

unfoldable pub latch_stale : MintTop → MintTop × Bool
latch_stale top =
    if top.stale then (top, false) else (record top { stale = true; last_record = [] }, true)

-- The minimum after a write of a row into entries whose minimum was cached.
abbrev pub note_min : Option Row → Row → Option Row
note_min none r = some r
note_min (some s) r = some (if row_ltb r s then r else s)

-- What an update does to a top: the top, whether it was touched, the member that was evicted, and
-- whether the account is a new member.
pub record Updated : Type 0 where
  pub top : MintTop
  pub touched : Bool
  pub evicted : Option ℕ
  pub joined : Bool

abbrev pub unchanged : MintTop → Updated
unchanged top = record { top = top; touched = false; evicted = none; joined = false }

-- The part of `apply_update` for an account that is a member.
unfoldable pub update_member : MintTop → ℕ → Entry → Entry → Updated
unfolding refresh_cached_min insert
update_member top pubkey entry new =
    if is_newer new.slot new.write_version entry.slot entry.write_version
    then (let written = record top { entries = insert pubkey new top.entries } in
        record {
          top =
              if is_some_and top.cached_min (λ r. r.0 == pubkey)
              then refresh_cached_min written
              else record written { cached_min = note_min top.cached_min (pubkey, new.amount) };
          touched = true;
          evicted = none;
          joined = false;
        })
    else unchanged top

-- `if amount > top.dropped_floor { … }`
unfoldable pub raise_floor : MintTop → ℕ → Updated
raise_floor top amount =
    if ltb top.dropped_floor amount
    then record {
      top = record top { dropped_floor = amount };
      touched = true;
      evicted = none;
      joined = false;
    }
    else unchanged top

-- The part of `apply_update` that makes room by evicting the cached minimum. `none` is the panic of
-- `expect`, when no minimum is cached.
unfoldable pub evict_for : MintTop → ℕ → Entry → Option Row → Option Updated
unfolding raise_floor insert remove refresh_cached_min
evict_for top pubkey new none = none
evict_for top pubkey new (some (min_pubkey, min_amount)) =
    if leb new.amount min_amount
    then some (raise_floor top new.amount)
    else some (record {
      top = refresh_cached_min (record top {
        entries = insert pubkey new (remove min_pubkey top.entries);
        dropped_floor = max top.dropped_floor min_amount;
      });
      touched = true;
      evicted = some min_pubkey;
      joined = true;
    })

-- The part of `apply_update` past the look for a member.
unfoldable pub admit : MintTop → ℕ → Entry → Bool → Bool → ℕ → Option Updated
unfolding evict_for raise_floor insert
admit top pubkey new bootstrapping old_block k =
    if old_block
    then some (raise_floor top new.amount)
    else if not bootstrapping && leb k (length top.entries)
    then evict_for top pubkey new top.cached_min
    else some (record {
      top = record top {
        entries = insert pubkey new top.entries;
        cached_min = note_min top.cached_min (pubkey, new.amount);
      };
      touched = true;
      evicted = none;
      joined = true;
    })

-- `apply_update` on the top of the mint, past the tombstones.
unfoldable pub update_top : MintTop → ℕ → Entry → Bool → Bool → ℕ → Option Updated
unfolding update_member admit get
update_top top pubkey new bootstrapping old_block k = elim (get pubkey top.entries) [
  | some entry ↦ some (update_member top pubkey entry new)
  | none ↦ admit top pubkey new bootstrapping old_block k
]

-- The part of `remove_member` on the top of the mint: the top and whether the member went.
unfoldable pub remove_top : MintTop → ℕ → ℕ → ℕ → MintTop × Bool
unfolding get remove refresh_cached_min
remove_top top pubkey slot write_version = elim (get pubkey top.entries) [
  | none ↦ (top, false)
  | some entry ↦
      let removed = record top { entries = remove pubkey top.entries } in
      if is_newer slot write_version entry.slot entry.write_version
      then (
        if is_some_and top.cached_min (λ r. r.0 == pubkey)
            then refresh_cached_min removed
            else removed,
        true,
      )
      else (top, false)
]
