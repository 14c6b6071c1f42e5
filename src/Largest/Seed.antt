-- ===== src/Largest/Seed.antt =====
-- crates/core/src/modules/largest_accounts/tracker.rs: the candidates gathered from a snapshot file and
-- their merge. A public key is the big-endian number of its bytes.
use cloudbreak.Prelude.{
  ℕ, ◌+◌, ◌*◌, max, Bool, ◌&&◌, ◌||◌, Option, none, some, List, [], ◌∷◌, ◌++◌, ltb, leb, ◌==◌,
  if◌then◌else◌, length, take, drop, contains, unwrap_or,
}
use cloudbreak.OrdMap.{OrdMap, get, insert}
use cloudbreak.Largest.Top.{is_newer}
use cloudbreak.Largest.State.{
  SeedAccount, TrackerState, Touched, bootstrapping, live, is_sentinel, sol_sentinel_mint,
  circulating_sentinel_mint, non_circulating_sentinel_mint, record_tombstone, remove_member,
}

abbrev pub token_program_id : ℕ
token_program_id =
    3_106_054_211_088_883_198_575_105_191_760_876_350_940_303_353_676_611_666_299_516_346_430_146_937_001

abbrev pub token_2022_program_id : ℕ
token_2022_program_id =
    3_106_054_213_517_619_466_333_521_364_411_816_883_583_182_866_730_275_619_636_245_252_638_471_457_788

pub record Close : Type 0 where
  pub pubkey : ℕ
  pub slot : ℕ
  pub write_version : ℕ

pub record LargestAccountsSeed : Type 0 where
  pub sol_k : Option ℕ
  pub token_k : ℕ
  pub tracked_mints : List ℕ
  pub mints : OrdMap (List SeedAccount)
  pub closes : List Close

unfoldable pub k_of : LargestAccountsSeed → ℕ → Option ℕ
unfolding is_sentinel
k_of s mint = if is_sentinel mint then s.sol_k else some s.token_k

-- `u64::from_le_bytes`
unfoldable pub from_le_bytes : List ℕ → ℕ
from_le_bytes [] = 0
from_le_bytes (b ∷ bytes) = b + 256 * from_le_bytes bytes

abbrev pub be_step : ℕ → List ℕ → ℕ
be_step acc [] = acc
be_step acc (b ∷ bytes) = be_step (256 * acc + b) bytes

-- Whether the first account sorts before the second: by key, then the newest first.
abbrev pub newest_first : SeedAccount → SeedAccount → Bool
newest_first a b =
    ltb a.pubkey b.pubkey
    || (a.pubkey == b.pubkey
        && (is_newer a.slot a.write_version b.slot b.write_version
            || (a.slot == b.slot && a.write_version == b.write_version && leb b.amount a.amount)))

-- The greatest amount first, then the greatest key.
abbrev pub greatest_first : SeedAccount → SeedAccount → Bool
greatest_first a b = ltb b.amount a.amount || (a.amount == b.amount && leb b.pubkey a.pubkey)

unfoldable pub insert_by :
    (SeedAccount → SeedAccount → Bool) → SeedAccount → List SeedAccount → List SeedAccount
insert_by before a [] = a ∷ []
insert_by before a (b ∷ rest) =
    let later = insert_by before a rest in if before a b then a ∷ b ∷ rest else b ∷ later

unfoldable pub sort_by : (SeedAccount → SeedAccount → Bool) → List SeedAccount → List SeedAccount
unfolding insert_by
sort_by before [] = []
sort_by before (a ∷ rest) = insert_by before a (sort_by before rest)

-- `dedup_by_key`: of a run with one key the first stays. `last` is the key before.
unfoldable pub dedup : Option ℕ → List SeedAccount → List SeedAccount
dedup last [] = []
dedup none (a ∷ rest) = a ∷ dedup (some a.pubkey) rest
dedup (some key) (a ∷ rest) =
    let later = dedup (some a.pubkey) rest in if key == a.pubkey then later else a ∷ later

unfoldable pub shrink : List SeedAccount → ℕ → List SeedAccount
unfolding sort_by dedup
shrink entries k = take k (sort_by greatest_first (dedup none (sort_by newest_first entries)))

unfoldable pub observe : LargestAccountsSeed → ℕ → SeedAccount → LargestAccountsSeed
unfolding k_of get insert shrink
observe s mint account = elim (k_of s mint) [
  | none ↦ s
  | some k ↦
      let entries = unwrap_or (get mint s.mints) [] ++ account ∷ [] in
      record s {
        mints =
            insert mint (if leb (k * 8) (length entries) then shrink entries k else entries)
              s.mints;
      }
]

unfoldable pub observe_close : LargestAccountsSeed → ℕ → ℕ → ℕ → LargestAccountsSeed
observe_close s pubkey slot write_version = record s {
  closes = s.closes ++ record { pubkey = pubkey; slot = slot; write_version = write_version } ∷ [];
}

-- The part of `observe_snapshot_account` for an account of a token program.
unfoldable pub observe_token : LargestAccountsSeed → ℕ → List ℕ → ℕ → ℕ → LargestAccountsSeed
unfolding observe from_le_bytes
observe_token s pubkey bytes slot write_version =
    let mint = be_step 0 (take 32 bytes) in
    if contains s.tracked_mints mint
    then observe s mint (record {
      pubkey = pubkey;
      amount = from_le_bytes (take 8 (drop 64 bytes));
      slot = slot;
      write_version = write_version;
    })
    else s

unfoldable pub observe_snapshot_account :
    LargestAccountsSeed → ℕ → ℕ → ℕ → List ℕ → ℕ → ℕ → LargestAccountsSeed
unfolding observe observe_close observe_token
observe_snapshot_account s pubkey owner lamports bytes slot write_version =
    if lamports == 0
    then observe_close s pubkey slot write_version
    else (let s' = observe s sol_sentinel_mint (record {
      pubkey = pubkey;
      amount = lamports;
      slot = slot;
      write_version = write_version;
    }) in
        if (owner == token_program_id || owner == token_2022_program_id) && leb 72 (length bytes)
        then observe_token s' pubkey bytes slot write_version
        else s')

-- The three removals from the sentinel tops.
unfoldable pub remove_sentinels : Touched → ℕ → ℕ → ℕ → Touched
unfolding remove_member
remove_sentinels s pubkey slot write_version =
    remove_member
      (remove_member (remove_member s sol_sentinel_mint pubkey slot write_version)
        circulating_sentinel_mint pubkey slot write_version)
      non_circulating_sentinel_mint pubkey slot write_version

-- The first loop of `merge_seed`.
unfoldable pub merge_closes : Touched → List Close → Touched
unfolding get record_tombstone remove_member remove_sentinels
merge_closes s [] = s
merge_closes (s, touched) (c ∷ closes) =
    let buried =
      record_tombstone (record s { max_applied_slot = max s.max_applied_slot c.slot }) c.pubkey
        c.slot c.write_version in
    let left : Touched = elim (get c.pubkey buried.member_index) [
      | none ↦ (buried, touched)
      | some mint ↦ remove_member (buried, touched) mint c.pubkey c.slot c.write_version
    ] in
    merge_closes (remove_sentinels left c.pubkey c.slot c.write_version) closes

abbrev pub max_slot : ℕ → List SeedAccount → ℕ
max_slot slot [] = slot
max_slot slot (a ∷ rest) = max_slot (max slot a.slot) rest

module _ (sol_k : Option ℕ) (token_k : ℕ) where
  unfoldable pub k_for : ℕ → ℕ
  unfolding is_sentinel
  k_for mint = if is_sentinel mint then unwrap_or sol_k 0 else token_k

  -- The second loop of `merge_seed`.
  unfoldable pub merge_mints : TrackerState → OrdMap (List SeedAccount) → TrackerState
  unfolding get insert shrink k_for
  merge_mints s [] = s
  merge_mints s ((mint, entries) ∷ mints) =
      merge_mints
        (record s {
          max_applied_slot = max_slot s.max_applied_slot entries;
          seed_reservoir =
              insert mint
                (shrink (unwrap_or (get mint s.seed_reservoir) [] ++ entries) (k_for mint))
                s.seed_reservoir;
        })
        mints

  unfoldable pub merge_seed : TrackerState → LargestAccountsSeed → TrackerState
  unfolding merge_closes merge_mints
  merge_seed s seed = elim s.status [
    | live ↦ s
    | bootstrapping ↦ merge_mints (merge_closes (s, []) seed.closes).0 seed.mints
  ]
