-- ===== src/Owners.antt =====
-- crates/core/src/modules/account_owner_map.rs: the owner of each account, while the map is enabled. The
-- insertion of the returned pairs into the database is the caller's.
pub mod Drained
mod Tests
use cloudbreak.Prelude.{
  ℕ, Bool, true, false, not, ◌&&◌, Option, none, some, List, [], ◌∷◌, ◌++◌, ltb, ◌==◌,
  if◌then◌else◌, unwrap_or, ◌>>=◌,
}
use cloudbreak.OrdMap.{OrdMap, get, insert, remove}

pub record AccountOwnerItem : Type 0 where
  pub owner : ℕ
  pub slot : ℕ

pub record ChangedOwner : Type 0 where
  pub pubkey : ℕ
  pub owner : ℕ

pub record AccountOwnerMap : Type 0 where
  pub accounts : OrdMap AccountOwnerItem
  pub changed_owners : OrdMap (List ChangedOwner)

unfoldable pub new : AccountOwnerMap
new = record { accounts = []; changed_owners = [] }

unfoldable pub upsert_account : AccountOwnerMap → ℕ → ℕ → ℕ → AccountOwnerMap
unfolding get insert
upsert_account m pubkey owner slot = elim (get pubkey m.accounts) [
  | none ↦ record m { accounts = insert pubkey (record { owner = owner; slot = slot }) m.accounts }
  | some existing ↦
      if not (existing.owner == owner) && ltb existing.slot slot
      then record {
        accounts = insert pubkey (record { owner = owner; slot = slot }) m.accounts;
        changed_owners =
            insert slot
              (unwrap_or (get slot m.changed_owners) []
                ++ record { pubkey = pubkey; owner = existing.owner } ∷ [])
              m.changed_owners;
      }
      else m
]

abbrev pub pair_of : ChangedOwner → ℕ × ℕ
pair_of changed = (changed.pubkey, changed.owner)

abbrev pub changed_pairs : List ChangedOwner → List (ℕ × ℕ)
changed_pairs [] = []
changed_pairs (changed ∷ rest) = pair_of changed ∷ changed_pairs rest

abbrev pub with_owner : ℕ → Option AccountOwnerItem → List (ℕ × ℕ) → List (ℕ × ℕ)
with_owner pubkey none pairs = pairs
with_owner pubkey (some item) pairs = (pubkey, item.owner) ∷ pairs

-- The loop of `closed_cleanup_pairs`.
unfoldable pub known_pairs : OrdMap AccountOwnerItem → List ℕ → List (ℕ × ℕ)
unfolding get
known_pairs accounts [] = []
known_pairs accounts (pubkey ∷ closed) =
    with_owner pubkey (get pubkey accounts) (known_pairs accounts closed)

-- The pairs of a key and an owner; the code returns two lists of the same length.
unfoldable pub closed_cleanup_pairs : AccountOwnerMap → List ℕ → ℕ → List (ℕ × ℕ)
unfolding known_pairs get
closed_cleanup_pairs m closed slot =
    known_pairs m.accounts closed ++ changed_pairs (unwrap_or (get slot m.changed_owners) [])

-- The loop of `save_closed_accounts`.
unfoldable pub drain : OrdMap AccountOwnerItem → List ℕ → OrdMap AccountOwnerItem × List (ℕ × ℕ)
unfolding get remove
drain accounts [] = (accounts, [])
drain accounts (pubkey ∷ closed) =
    let (accounts', pairs) = drain (remove pubkey accounts) closed in
    (accounts', with_owner pubkey (get pubkey accounts) pairs)

-- The map and the pairs that are inserted.
unfoldable pub save_closed_accounts : AccountOwnerMap → List ℕ → ℕ → AccountOwnerMap × List (ℕ × ℕ)
unfolding drain get remove
save_closed_accounts m closed slot =
    let (accounts, pairs) = drain m.accounts closed in
    (
      record { accounts = accounts; changed_owners = remove slot m.changed_owners },
      pairs ++ changed_pairs (unwrap_or (get slot m.changed_owners) []),
    )

unfoldable pub get_owner : AccountOwnerMap → ℕ → Option ℕ
unfolding get
get_owner m pubkey = do item ← get pubkey m.accounts; some item.owner
