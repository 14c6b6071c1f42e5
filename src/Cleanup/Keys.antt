-- ===== src/Cleanup/Keys.antt =====
-- `keys_for_slot` of crates/index/src/modules/cleanup/pending.rs: the keys that one finalized slot
-- contributes, each with its exclusive cutoff. Public keys arrive as bytes.
use cloudbreak.Prelude.{
  ℕ, ◌+◌, ◌*◌, ◌<◌, ◌≡◌, refl, inl, inr, Bool, true, false, not, ◌&&◌, ◌||◌, Option, none, some,
  List, [], ◌∷◌, ◌++◌, arith, ◌==◌, if◌then◌else◌, length, keep, Option-cases,
}
use cloudbreak.Prelude.Word.{saturating_add, u64_max}
use cloudbreak.Cleanup.{CleanupKey, KeyMap, key_eq, omax, omax_assoc, owed_items}

-- `AccountsReceivedPerBlock` of crates/index/src/indexer.rs, less the block time.
pub record AccountsReceivedPerBlock : Type 0 where
  pub accounts : List (List ℕ)
  pub accounts_owners : List (List ℕ)
  pub closed_accounts : List (List ℕ)
  pub closed_cleanup_pubkeys : List (List ℕ)
  pub closed_cleanup_owners : List (List ℕ)

pub record DerivedKeys : Type 0 where
  pub items : KeyMap
  pub uncovered_closes : ℕ

-- The number that bytes write, the highest first.
abbrev pub number : ℕ → List ℕ → ℕ
number acc [] = acc
number acc (b ∷ bs) = number (acc * 256 + b) bs

-- `bytes.try_into().ok()` into 32 bytes.
unfoldable pub to_key_bytes : List ℕ → Option ℕ
to_key_bytes bytes = if length bytes == 32 then some (number 0 bytes) else none

abbrev pub bytes_eq : List ℕ → List ℕ → Bool
bytes_eq [] [] = true
bytes_eq [] (b ∷ bs) = false
bytes_eq (a ∷ rest) [] = false
bytes_eq (a ∷ rest) (b ∷ bs) = a == b && bytes_eq rest bs

abbrev pub contains : List (List ℕ) → List ℕ → Bool
contains [] x = false
contains (y ∷ ys) x = bytes_eq y x || contains ys x

abbrev pub keyed : Option ℕ → ℕ → ℕ → CleanupKey × ℕ
keyed owner cutoff pubkey = (record { owner = owner; pubkey = pubkey }, cutoff)

-- A loop over keys alone: the malformed ones are skipped.
unfoldable pub unrouted_items : ℕ → List (List ℕ) → KeyMap
unrouted_items cutoff [] = []
unrouted_items cutoff (pubkey ∷ rest) =
    let items = unrouted_items cutoff rest in
    elim (to_key_bytes pubkey) [ none ↦ items | some p ↦ keyed none cutoff p ∷ items ]

-- A loop over keys with the owners at the same index.
unfoldable pub routed_items : ℕ → List (List ℕ) → List (List ℕ) → KeyMap
routed_items cutoff [] owners = []
routed_items cutoff (pubkey ∷ rest) [] = []
routed_items cutoff (pubkey ∷ rest) (owner ∷ owners) =
    let items = routed_items cutoff rest owners in
    elim (to_key_bytes pubkey) [
      | none ↦ items
      | some p ↦ keyed (to_key_bytes owner) cutoff p ∷ items
    ]

unfoldable pub open_items : AccountsReceivedPerBlock → ℕ → Bool → KeyMap
unfolding routed_items unrouted_items
open_items accounts slot owner_map_enabled =
    if owner_map_enabled && length accounts.accounts_owners == length accounts.accounts
    then routed_items slot accounts.accounts accounts.accounts_owners
    else unrouted_items slot accounts.accounts

unfoldable pub keys_for_slot : AccountsReceivedPerBlock → ℕ → Bool → DerivedKeys
unfolding open_items to_key_bytes
keys_for_slot accounts slot owner_map_enabled =
    let closed_cutoff = saturating_add slot 1 in
    let open_keys = open_items accounts slot owner_map_enabled in
    let paired = length accounts.closed_cleanup_owners == length accounts.closed_cleanup_pubkeys in
    let covered = if paired then accounts.closed_cleanup_pubkeys else [] in
    let closed_routed =
      routed_items closed_cutoff accounts.closed_cleanup_pubkeys accounts.closed_cleanup_owners in
    if owner_map_enabled
    then record {
      items = open_keys ++ (if paired then closed_routed else []);
      uncovered_closes = length (keep (λ k. not (contains covered k)) accounts.closed_accounts);
    }
    else record {
      items = open_keys ++ unrouted_items closed_cutoff accounts.closed_accounts;
      uncovered_closes = 0;
    }

-- Whether a well-formed key of the list reads as `pubkey`.
pub names : ℕ → List (List ℕ) → Bool
names pubkey [] = false
names pubkey (k ∷ ks) = elim (to_key_bytes k) [
  | none ↦ names pubkey ks
  | some p ↦ p == pubkey || names pubkey ks
]

abbrev pub unrouted_key : ℕ → CleanupKey
unrouted_key pubkey = record { owner = none; pubkey = pubkey }

owed-unrouted_items :
    (pubkey cutoff : ℕ) (ks : List (List ℕ))
    → owed_items (unrouted_key pubkey) (unrouted_items cutoff ks)
      ≡ (if names pubkey ks then some cutoff else none)
unfolding owed_items unrouted_items names
owed-unrouted_items pubkey cutoff [] = refl
owed-unrouted_items pubkey cutoff (k ∷ ks) = elim (Option-cases (to_key_bytes k)) [
  | inl e ↦ ground (arith, owed-unrouted_items pubkey cutoff ks)
  | inr (p, e) ↦ ground (arith, owed-unrouted_items pubkey cutoff ks)
]

owed_items-append :
    (key : CleanupKey) (xs ys : KeyMap)
    → owed_items key (xs ++ ys) ≡ omax (owed_items key xs) (owed_items key ys)
unfolding owed_items
owed_items-append key [] ys = refl
owed_items-append key ((k, c) ∷ xs) ys = ground (
  arith,
  owed_items-append key xs ys,
  omax_assoc (if key_eq k key then some c else none) (owed_items key xs) (owed_items key ys),
)

-- Without the owner map a key closed at the slot is owed one past the slot, a key that is only
-- written is owed the slot, and no other key is owed anything.
keys_for_slot-unrouted :
    (accounts : AccountsReceivedPerBlock) (slot pubkey : ℕ)
    → slot < u64_max
    → owed_items (unrouted_key pubkey) (keys_for_slot accounts slot false).items ≡ (
        if names pubkey accounts.closed_accounts
        then some (slot + 1)
        else if names pubkey accounts.accounts
        then some slot
        else none)
unfolding keys_for_slot
keys_for_slot-unrouted accounts slot pubkey small =
    let split =
      owed_items-append (unrouted_key pubkey) (unrouted_items slot accounts.accounts)
        (unrouted_items (saturating_add slot 1) accounts.closed_accounts) in
    let opened = owed-unrouted_items pubkey slot accounts.accounts in
    let shut = owed-unrouted_items pubkey (saturating_add slot 1) accounts.closed_accounts in
    let next : saturating_add slot 1 ≡ slot + 1 = omega arith in ground arith
