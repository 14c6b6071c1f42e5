-- ===== src/Processed/Ingest.antt =====
-- crates/core/src/modules/processed/ingest.rs, and the program filter of crates/core/src/config.rs.
-- `SubscribeUpdateBlock` and its parts have the fields that the code reads. `Pubkey::try_from` and
-- the heap size of a `HashMap` are parameters: they are code of other packages.
use cloudbreak.Prelude.{
  ℕ, ◌+◌, ◌≡◌, refl, String, Bool, not, ◌||◌, ◌&&◌, true, Option, none, some, List, [], ◌∷◌, arith,
  ◌==◌, if◌then◌else◌, length, contains, Option-cases, ap, ◌∙◌, inl, inr,
}
use cloudbreak.Prelude.Int.{ℤ}
use cloudbreak.OrdMap.{OrdMap, get, insert, get-insert}
use cloudbreak.Processed.{LiveAccount, AccountEntry, live, closed, SlotBlock}

pub record AccountSelectorConfig : Type 0 where
  pub include : List ℕ
  pub exclude : List ℕ

unfoldable pub is_program_selected : AccountSelectorConfig → ℕ → Bool
is_program_selected config program = elim config.include [
  | [] ↦ not (contains config.exclude program)
  | _ ∷ _ ↦ contains config.include program
]

pub record AccountInfo : Type 0 where
  pub pubkey : List ℕ
  pub lamports : ℕ
  pub owner : List ℕ
  pub executable : Bool
  pub rent_epoch : ℕ
  pub account_data : List ℕ

pub record BlockUpdate : Type 0 where
  pub slot : ℕ
  pub blockhash : String
  pub parent_slot : ℕ
  pub parent_blockhash : String
  pub block_time : Option ℤ
  pub accounts : List AccountInfo

-- The accounts and the data bytes so far.
pub record Ingested : Type 0 where
  pub accounts : OrdMap AccountEntry
  pub skipped : ℕ
  pub data_bytes : ℕ

-- What the filter is for: a program that is named, or where none is named, any that is not excluded.
pub wants : List ℕ → List ℕ → ℕ → Bool
wants [] [] program = true
wants [] (other ∷ exclude) program = not (other == program) && wants [] exclude program
wants (named ∷ []) exclude program = named == program
wants (named ∷ next ∷ include) exclude program =
    named == program || wants (next ∷ include) exclude program

wants-include :
    (named : ℕ) (include exclude : List ℕ) (program : ℕ)
    → contains (named ∷ include) program ≡ wants (named ∷ include) exclude program
unfolding wants
wants-include named [] exclude program = ground arith
wants-include named (next ∷ include) exclude program =
    ground (arith, wants-include next include exclude program)

wants-exclude :
    (exclude : List ℕ) (program : ℕ) → not (contains exclude program) ≡ wants [] exclude program
unfolding wants
wants-exclude [] program = refl
wants-exclude (other ∷ exclude) program = ground (arith, wants-exclude exclude program)

is_program_selected-wants :
    (include exclude : List ℕ) (program : ℕ)
    → is_program_selected (record { include = include; exclude = exclude }) program
      ≡ wants include exclude program
unfolding is_program_selected
is_program_selected-wants [] exclude program = wants-exclude exclude program
is_program_selected-wants (named ∷ include) exclude program =
    wants-include named include exclude program

module _ (pubkey_of : List ℕ → Option ℕ) (map_bytes : ℕ → ℕ)
    (program_filter : AccountSelectorConfig) where
  unfoldable pub is_closed : AccountInfo → ℕ → Bool
  is_closed account owner = account.lamports == 0 || not (is_program_selected program_filter owner)

  abbrev pub live_account : AccountInfo → ℕ → LiveAccount
  live_account account owner = record {
    lamports = account.lamports;
    owner = owner;
    executable = account.executable;
    rent_epoch = account.rent_epoch;
    account_data = account.account_data;
  }

  unfoldable pub entry_of : AccountInfo → ℕ → AccountEntry
  unfolding is_closed
  entry_of account owner =
      if is_closed account owner then closed else live (live_account account owner)

  -- One round of the loop of `from_update`.
  unfoldable pub ingest : Ingested → AccountInfo → Ingested
  unfolding entry_of
  ingest done account = elim (pubkey_of account.pubkey) [
    | none ↦ record done { skipped = done.skipped + 1 }
    | some pubkey ↦ elim (pubkey_of account.owner) [
      | none ↦ record done { skipped = done.skipped + 1 }
      | some owner ↦ record done {
        accounts = insert pubkey (entry_of account owner) done.accounts;
        data_bytes =
            if is_closed account owner
            then done.data_bytes
            else done.data_bytes + length account.account_data;
      }
    ]
  ]

  unfoldable pub ingest_all : Ingested → List AccountInfo → Ingested
  unfolding ingest
  ingest_all done [] = done
  ingest_all done (account ∷ rest) = ingest_all (ingest done account) rest

  unfoldable pub from_update : BlockUpdate → ℕ → SlotBlock
  unfolding ingest_all
  from_update block received_at =
      let done =
        ingest_all (record { accounts = []; skipped = 0; data_bytes = 0 }) block.accounts in
      record {
        slot = block.slot;
        blockhash = block.blockhash;
        parent_slot = block.parent_slot;
        parent_blockhash = block.parent_blockhash;
        block_time = block.block_time;
        received_at = received_at;
        accounts = done.accounts;
        heap_bytes = done.data_bytes + map_bytes (length block.accounts);
      }

  -- The entry that one account update calls for: a close without lamports or under a program that is not
  -- wanted.
  pub entry_for : AccountInfo → ℕ → AccountEntry
  entry_for account owner =
      if not (account.lamports == 0) && wants program_filter.include program_filter.exclude owner
      then live (record {
        lamports = account.lamports;
        owner = owner;
        executable = account.executable;
        rent_epoch = account.rent_epoch;
        account_data = account.account_data;
      })
      else closed

  entry_of-entry_for :
      (account : AccountInfo) (owner : ℕ) → entry_of account owner ≡ entry_for account owner
  unfolding entry_of is_closed entry_for
  entry_of-entry_for account owner =
      ground (arith, is_program_selected-wants program_filter.include program_filter.exclude owner)

  -- The entry that one account update writes for a key: none, if a key of it is malformed.
  pub write_of : ℕ → AccountInfo → Option AccountEntry
  unfolding entry_for
  write_of key account = elim (pubkey_of account.pubkey) [
    | none ↦ none
    | some pubkey ↦ elim (pubkey_of account.owner) [
      | none ↦ none
      | some owner ↦ if pubkey == key then some (entry_for account owner) else none
    ]
  ]

  -- The last write of a key, after an earlier one.
  pub last_write : ℕ → Option AccountEntry → List AccountInfo → Option AccountEntry
  unfolding write_of
  last_write key earlier [] = earlier
  last_write key earlier (account ∷ rest) =
      last_write key (elim (write_of key account) [ none ↦ earlier | some e ↦ some e ]) rest

  ingest-accounts :
      (key : ℕ) (done : Ingested) (account : AccountInfo)
      → get key (ingest done account).accounts
        ≡ elim (write_of key account) [ none ↦ get key done.accounts | some e ↦ some e ]
  unfolding ingest write_of
  ingest-accounts key done account = elim (Option-cases (pubkey_of account.pubkey)) [
    | inl e ↦ ground arith
    | inr (pubkey, e) ↦ elim (Option-cases (pubkey_of account.owner)) [
      | inl e' ↦ ground arith
      | inr (owner, e') ↦ ground (
        arith,
        get-insert pubkey key (entry_of account owner) done.accounts,
        entry_of-entry_for account owner,
      )
    ]
  ]

  ingest_all-accounts :
      (key : ℕ) (done : Ingested) (accounts : List AccountInfo)
      → get key (ingest_all done accounts).accounts
        ≡ last_write key (get key done.accounts) accounts
  unfolding ingest_all last_write
  ingest_all-accounts key done [] = refl
  ingest_all-accounts key done (account ∷ rest) =
      ingest_all-accounts key (ingest done account) rest
      ∙ ap (λ o. last_write key o rest) (ingest-accounts key done account)

  -- A block holds of each key the last well-formed write: a close exactly when it has no lamports or its
  -- owner is not wanted, that is not named where programs are named, or excluded where none is.
  pub from_update-last_write :
      (block : BlockUpdate) (received_at key : ℕ)
      → get key (from_update block received_at).accounts ≡ last_write key none block.accounts
  unfolding from_update
  from_update-last_write block received_at key =
      ingest_all-accounts key (record { accounts = []; skipped = 0; data_bytes = 0 }) block.accounts
      ∙ ap (λ o. last_write key o block.accounts) (unfold get in refl)
