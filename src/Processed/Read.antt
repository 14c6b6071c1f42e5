-- ===== src/Processed/Read.antt =====
-- crates/core/src/modules/processed/read.rs: the one read function of a request.
use cloudbreak.Prelude.{
  ℕ, ◌≤◌, ◌<◌, ◌≡◌, refl, ◌⊎◌, inl, inr, none, some, List, [], ◌∷◌, arith, Option-cases, All,
}
use cloudbreak.OrdMap.{get}
use cloudbreak.Processed.{LiveAccount, AccountEntry, SlotBlock, ProcessedBlocks}
use cloudbreak.Processed.Store.{BlockStore}
use cloudbreak.Processed.Store.Chain.{IsValid, IsChain, parent_of-eq_some}
use cloudbreak.Processed.Store.Latest.{Serves, Any, IsChain-tail}

pub data ProcessedAccount : Type 0 where
  live : LiveAccount → ProcessedAccount
  closed : ProcessedAccount
  unknown : ProcessedAccount

abbrev pub of_entry : AccountEntry → ProcessedAccount
of_entry (AccountEntry.live account) = ProcessedAccount.live account
of_entry AccountEntry.closed = ProcessedAccount.closed

-- The loop of `get_account`.
unfoldable pub first_write : ℕ → List SlotBlock → ProcessedAccount
first_write pubkey [] = ProcessedAccount.unknown
first_write pubkey (block ∷ blocks) = elim (get pubkey block.accounts) [
  | some entry ↦ of_entry entry
  | none ↦ first_write pubkey blocks
]

unfoldable pub get_account : ProcessedBlocks → ℕ → ProcessedAccount
unfolding first_write
get_account pb pubkey = first_write pubkey pb.blocks

-- `b` is the newest of the blocks that write the key.
pub record IsNewest (pubkey : ℕ) (l : List SlotBlock) (b : SlotBlock) (entry : AccountEntry)
    : Type 0 where
  pub among : Any (λ c. c ≡ b) l
  pub written : get pubkey b.accounts ≡ some entry
  pub newest : All (λ c. ((e : AccountEntry) → get pubkey c.accounts ≡ some e → c.slot ≤ b.slot)) l

module _ (s : BlockStore) (v : IsValid s) (pubkey : ℕ) where
  -- All blocks below the head of a chain are older.
  older :
      (b : SlotBlock) (rest : List SlotBlock)
      → IsChain s (b ∷ rest)
      → All (λ c. c.slot < b.slot) rest
  older b [] c = tt
  older b (p ∷ rest) c =
      let lower = (parent_of-eq_some s v b p c.1).1 in
      (lower, weaken p b lower rest (older p rest c.2))
    where
      weaken :
          (p b : SlotBlock)
          → p.slot < b.slot
          → (l : List SlotBlock) → All (λ c. c.slot < p.slot) l
          → All (λ c. c.slot < b.slot) l
      weaken p b lt [] h = tt
      weaken p b lt (c ∷ l) h = (omega (arith, h.0), weaken p b lt l h.1)

  first_write-IsNewest :
      (l : List SlotBlock)
      → IsChain s l
      → ((first_write pubkey l ≡ ProcessedAccount.unknown)
          × All (λ c. get pubkey c.accounts ≡ none) l)
        ⊎ ((b : SlotBlock) × (entry : AccountEntry) × (first_write pubkey l ≡ of_entry entry)
            × IsNewest pubkey l b entry)
  unfolding first_write
  first_write-IsNewest [] c = inl (refl, tt)
  first_write-IsNewest (b ∷ rest) c = elim (Option-cases (get pubkey b.accounts)) [
    | inr (entry, e) ↦ inr (
      b,
      entry,
      rw (e, first_write) refl,
      record {
        among = inl refl;
        written = e;
        newest = (λ x g. omega arith, all_older rest (older b rest c));
      },
    )
    | inl e ↦ elim (first_write-IsNewest rest (IsChain-tail s v b rest c)) [
      | inl (miss, absent) ↦ inl (rw (e, first_write) miss, (e, absent))
      | inr (n, entry, found, new) ↦ inr (
        n,
        entry,
        rw (e, first_write) found,
        record {
          among = inr new.among;
          written = new.written;
          newest = (λ x g. absurd (ground arith), new.newest);
        },
      )
    ]
  ]
    where
      all_older :
          (l : List SlotBlock)
          → All (λ c. c.slot < b.slot) l
          → All (λ c. ((e : AccountEntry) → get pubkey c.accounts ≡ some e → c.slot ≤ b.slot)) l
      all_older [] h = tt
      all_older (c ∷ l) h = (λ e g. omega (arith, h.0), all_older l h.1)

  -- What a request reads of a key is the write in the newest served block that writes the key, and
  -- `unknown` exactly when no served block writes it.
  pub get_account-IsNewest :
      (pb : ProcessedBlocks)
      → Serves s pb
      → ((get_account pb pubkey ≡ ProcessedAccount.unknown)
          × All (λ c. get pubkey c.accounts ≡ none) pb.blocks)
        ⊎ ((b : SlotBlock) × (entry : AccountEntry) × (get_account pb pubkey ≡ of_entry entry)
            × IsNewest pubkey pb.blocks b entry)
  unfolding get_account
  get_account-IsNewest pb served = first_write-IsNewest pb.blocks served.chained
