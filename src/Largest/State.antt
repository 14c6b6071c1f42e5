-- ===== src/Largest/State.antt =====
-- crates/core/src/modules/largest_accounts/tracker.rs and mod.rs: the state of the tracker. Sets of
-- mints are lists without repetition. `none` stands for the panic of `apply_update`.
use cloudbreak.Prelude.{
  ℕ, ◌-◌, max, Bool, true, false, not, ◌&&◌, ◌||◌, Option, none, some, List, [], ◌∷◌, ◌++◌, leb,
  ◌==◌, if◌then◌else◌, length, take, contains, is_some_and, ◌>>=◌, keep,
}
use cloudbreak.OrdMap.{OrdMap, get, insert, remove}
use cloudbreak.Largest.Top.{
  Entry, Row, MintTop, ComputedTop, sound, unsound, row_ltb, is_newer, refresh_cached_min, rows_of,
  compute_top, latch_stale, Updated, update_top, remove_top,
}

-- `[0u8; 32]`, `[1u8; 32]` and `[2u8; 32]` as big-endian numbers.
abbrev pub sol_sentinel_mint : ℕ
sol_sentinel_mint = 0

abbrev pub circulating_sentinel_mint : ℕ
circulating_sentinel_mint =
    454_086_624_460_063_511_464_984_254_936_031_011_189_294_057_512_315_937_409_637_584_344_757_371_137

abbrev pub non_circulating_sentinel_mint : ℕ
non_circulating_sentinel_mint =
    908_173_248_920_127_022_929_968_509_872_062_022_378_588_115_024_631_874_819_275_168_689_514_742_274

unfoldable pub is_sentinel : ℕ → Bool
is_sentinel mint =
    mint == sol_sentinel_mint
    || mint == circulating_sentinel_mint
    || mint == non_circulating_sentinel_mint

pub record MintRecord : Type 0 where
  pub mint : ℕ
  pub slot : ℕ
  pub rows : List Row

pub record BlockOutcome : Type 0 where
  pub records : List MintRecord
  pub newly_stale : List ℕ
  pub cleared : List ℕ

abbrev pub empty_outcome : BlockOutcome
empty_outcome = record { records = []; newly_stale = []; cleared = [] }

pub data Status : Type 0 where
  bootstrapping live : Status

pub record SeedAccount : Type 0 where
  pub pubkey : ℕ
  pub amount : ℕ
  pub slot : ℕ
  pub write_version : ℕ

pub record TrackerState : Type 0 where
  pub status : Status
  pub max_applied_slot : ℕ
  pub mints : OrdMap MintTop
  pub member_index : OrdMap ℕ
  pub tombstones : OrdMap (ℕ × ℕ)
  pub seed_reservoir : OrdMap (List SeedAccount)

abbrev pub touch : ℕ → List ℕ → List ℕ
touch mint touched = if contains touched mint then touched else mint ∷ touched

-- The state together with the mints touched so far.
abbrev pub Touched : Type 0
Touched = TrackerState × List ℕ

unfoldable pub record_tombstone : TrackerState → ℕ → ℕ → ℕ → TrackerState
unfolding get insert
record_tombstone s pubkey slot write_version = elim (get pubkey s.tombstones) [
  | none ↦ record s { tombstones = insert pubkey (slot, write_version) s.tombstones }
  | some old ↦
      if is_newer slot write_version old.0 old.1
      then record s { tombstones = insert pubkey (slot, write_version) s.tombstones }
      else s
]

unfoldable pub remove_member : Touched → ℕ → ℕ → ℕ → ℕ → Touched
unfolding get insert remove remove_top is_sentinel
remove_member (s, touched) mint pubkey slot write_version = elim (get mint s.mints) [
  | none ↦ (s, touched)
  | some top ↦
      let (top', went) = remove_top top pubkey slot write_version in
      if went
      then (
        record s {
          mints = insert mint top' s.mints;
          member_index = if is_sentinel mint then s.member_index else remove pubkey s.member_index;
        },
        touch mint touched,
      )
      else (s, touched)
]

abbrev pub drop_evicted : Option ℕ → OrdMap ℕ → OrdMap ℕ
drop_evicted none index = index
drop_evicted (some pubkey) index = remove pubkey index

-- What an update of the top of a mint does to the state.
abbrev pub after_update : Touched → ℕ → ℕ → Updated → Touched
after_update (s, touched) mint pubkey u = (
  record s {
    mints = insert mint u.top s.mints;
    member_index =
        if is_sentinel mint
        then s.member_index
        else (let index = drop_evicted u.evicted s.member_index in
            if u.joined then insert pubkey mint index else index);
  },
  if u.touched then touch mint touched else touched,
)

-- Whether a close that was seen while bootstrapping is at least as new as the write.
unfoldable pub is_buried : TrackerState → ℕ → Entry → Bool
unfolding get
is_buried s pubkey new =
    is_some_and (get pubkey s.tombstones) (λ t. not (is_newer new.slot new.write_version t.0 t.1))

unfoldable pub apply_update : Touched → ℕ → ℕ → Entry → Bool → Bool → ℕ → Option Touched
unfolding get update_top is_buried
apply_update (s, touched) mint pubkey new is_bootstrapping old_block k =
    if is_bootstrapping && is_buried s pubkey new
    then some (s, touched)
    else elim (get mint s.mints) [
      | none ↦ some (s, touched)
      | some top ↦ (do
        u ← update_top top pubkey new is_bootstrapping old_block k
        some (after_update (s, touched) mint pubkey u))
    ]

unfoldable pub insert_victim : Row → List Row → List Row
insert_victim r [] = r ∷ []
insert_victim r (s ∷ rows) =
    let rest = insert_victim r rows in if row_ltb s r then s ∷ rest else r ∷ s ∷ rows

-- From the least to the greatest.
unfoldable pub sort_victims : List Row → List Row
unfolding insert_victim
sort_victims [] = []
sort_victims (r ∷ rows) = insert_victim r (sort_victims rows)

unfoldable pub drop_victims : Bool → List Row → MintTop × OrdMap ℕ → MintTop × OrdMap ℕ
unfolding remove
drop_victims sentinel [] (top, index) = (top, index)
drop_victims sentinel ((pubkey, amount) ∷ victims) (top, index) = drop_victims sentinel victims (
  record top { entries = remove pubkey top.entries; dropped_floor = max top.dropped_floor amount },
  if sentinel then index else remove pubkey index,
)

unfoldable pub trim : TrackerState → ℕ → ℕ → TrackerState
unfolding get insert sort_victims drop_victims refresh_cached_min is_sentinel
trim s mint k = elim (get mint s.mints) [
  | none ↦ s
  | some top ↦
      if leb (length top.entries) k
      then s
      else (let victims = take (length top.entries - k) (sort_victims (rows_of top.entries)) in
          let (top', index) = drop_victims (is_sentinel mint) victims (top, s.member_index) in
          record s { mints = insert mint (refresh_cached_min top') s.mints; member_index = index })
]

abbrev pub row_eqb : Row → Row → Bool
row_eqb a b = a.0 == b.0 && a.1 == b.1

unfoldable pub rows_eqb : List Row → List Row → Bool
rows_eqb [] [] = true
rows_eqb [] (b ∷ others) = false
rows_eqb (a ∷ rows) [] = false
rows_eqb (a ∷ rows) (b ∷ others) = row_eqb a b && rows_eqb rows others

abbrev pub note_rows : BlockOutcome → ℕ → ℕ → List Row → BlockOutcome
note_rows outcome mint slot [] = record outcome { cleared = outcome.cleared ++ mint ∷ [] }
note_rows outcome mint slot (r ∷ rows) = record outcome {
  records = outcome.records ++ record { mint = mint; slot = slot; rows = r ∷ rows } ∷ [];
}

-- The part of `emit` on the top of the mint.
unfoldable pub emit_top : MintTop → ComputedTop → ℕ → ℕ → BlockOutcome → MintTop × BlockOutcome
unfolding latch_stale rows_eqb
emit_top top unsound mint slot outcome =
    let (top', latched) = latch_stale top in
    (
      top',
      if latched
          then record outcome { newly_stale = outcome.newly_stale ++ mint ∷ [] }
          else outcome,
    )
emit_top top (sound rows) mint slot outcome =
    if rows_eqb rows top.last_record
    then (record top { stale = false }, outcome)
    else (record top { stale = false; last_record = rows }, note_rows outcome mint slot rows)

unfoldable pub emit : TrackerState → ℕ → ℕ → BlockOutcome → TrackerState × BlockOutcome
unfolding get insert compute_top emit_top
emit s mint slot outcome = elim (get mint s.mints) [
  | none ↦ (s, outcome)
  | some top ↦
      let (top', outcome') = emit_top top (compute_top top) mint slot outcome in
      (record s { mints = insert mint top' s.mints }, outcome')
]

unfoldable pub emit_all : TrackerState → List ℕ → ℕ → BlockOutcome → TrackerState × BlockOutcome
unfolding emit
emit_all s [] slot outcome = (s, outcome)
emit_all s (mint ∷ mints) slot outcome =
    let (s', outcome') = emit s mint slot outcome in emit_all s' mints slot outcome'

unfoldable pub mark_mint_stale : TrackerState → ℕ → TrackerState × Bool
unfolding get insert latch_stale
mark_mint_stale s mint = elim (get mint s.mints) [
  | none ↦ (s, false)
  | some top ↦
      let (top', latched) = latch_stale top in
      (record s { mints = insert mint top' s.mints }, latched)
]

unfoldable pub stale_count : TrackerState → ℕ
stale_count s = length (keep (λ e. (e.1).stale) s.mints)
