-- ===== src/Cleanup.antt =====
-- crates/index/src/modules/cleanup: the queue of cleanup keys behind the finalizer. This file has the
-- keys and the maps from keys to cutoffs.
pub mod Keys
pub mod Pending
mod Tests
use cloudbreak.Prelude.{
  ℕ, max, ap, ◌∙◌, ◌≡◌, ◌↔◌, Bool, true, false, ◌&&◌, Option, none, some, List, [], ◌∷◌, arith,
  ◌==◌, if◌then◌else◌,
}

-- A 32-byte array is the number that it writes. `owner` is `some` when the owner map knew the account.
pub record CleanupKey : Type 0 where
  pub owner : Option ℕ
  pub pubkey : ℕ

abbrev pub owner_eq : Option ℕ → Option ℕ → Bool
owner_eq none none = true
owner_eq none (some b) = false
owner_eq (some a) none = false
owner_eq (some a) (some b) = a == b

-- `==` of `CleanupKey`.
abbrev pub key_eq : CleanupKey → CleanupKey → Bool
key_eq a b = owner_eq a.owner b.owner && a.pubkey == b.pubkey

pub key_eq_iff : (a b : CleanupKey) → (key_eq a b ≡ true) ↔ (a ≡ b)
key_eq_iff a b = ground arith

-- `HashMap<CleanupKey, u64>`, in the order of its iteration.
abbrev pub KeyMap : Type 0
KeyMap = List (CleanupKey × ℕ)

unfoldable pub get : CleanupKey → KeyMap → Option ℕ
get key [] = none
get key ((k, cutoff) ∷ m) = if key_eq k key then some cutoff else get key m

-- `entry(key).or_insert(cutoff)`, raised to the maximum.
unfoldable pub upsert : CleanupKey → ℕ → KeyMap → KeyMap
upsert key cutoff [] = (key, cutoff) ∷ []
upsert key cutoff ((k, c) ∷ m) =
    let rest = upsert key cutoff m in if key_eq k key then (k, max c cutoff) ∷ m else (k, c) ∷ rest

-- The greater of two cutoffs that may be missing.
abbrev pub omax : Option ℕ → Option ℕ → Option ℕ
omax none b = b
omax (some a) none = some a
omax (some a) (some b) = some (max a b)

pub omax_assoc : (a b c : Option ℕ) → omax (omax a b) c ≡ omax a (omax b c)
omax_assoc a b c = ground arith

pub omax_comm : (a b : Option ℕ) → omax a b ≡ omax b a
omax_comm a b = ground arith

pub omax-none : (a : Option ℕ) → omax a none ≡ a
omax-none a = ground arith

pub omax_left_comm : (a b c : Option ℕ) → omax a (omax b c) ≡ omax b (omax a c)
omax_left_comm a b c = ground arith

pub get-upsert :
    (key q : CleanupKey) (cutoff : ℕ) (m : KeyMap)
    → get q (upsert key cutoff m) ≡ (if key_eq key q then omax (get q m) (some cutoff) else get q m)
unfolding get upsert
get-upsert key q cutoff [] = ground arith
get-upsert key q cutoff ((k, c) ∷ m) =
    ground (arith, get-upsert key q cutoff m, key_eq_iff k key, key_eq_iff k q, key_eq_iff key q)

-- The highest cutoff that a list of items gives a key.
unfoldable pub owed_items : CleanupKey → KeyMap → Option ℕ
owed_items key [] = none
owed_items key ((k, cutoff) ∷ items) =
    omax (if key_eq k key then some cutoff else none) (owed_items key items)

-- Merging items one by one raises each key to its highest cutoff.
unfoldable pub upsert_all : KeyMap → KeyMap → KeyMap
unfolding upsert
upsert_all m [] = m
upsert_all m ((key, cutoff) ∷ items) = upsert_all (upsert key cutoff m) items

pub owed_items-upsert :
    (q key : CleanupKey) (cutoff : ℕ) (m : KeyMap)
    → owed_items q (upsert key cutoff m)
      ≡ omax (owed_items q m) (if key_eq key q then some cutoff else none)
unfolding owed_items upsert
owed_items-upsert q key cutoff [] = ground arith
owed_items-upsert q key cutoff ((k, c) ∷ m) =
    ground
      (arith, owed_items-upsert q key cutoff m, key_eq_iff k key, key_eq_iff k q, key_eq_iff key q)

pub owed_items-upsert_all :
    (q : CleanupKey) (m items : KeyMap)
    → owed_items q (upsert_all m items) ≡ omax (owed_items q m) (owed_items q items)
unfolding upsert_all owed_items
owed_items-upsert_all q m [] = ground arith
owed_items-upsert_all q m ((key, cutoff) ∷ items) =
    owed_items-upsert_all q (upsert key cutoff m) items
    ∙ ap (λ o. omax o (owed_items q items)) (owed_items-upsert q key cutoff m)
    ∙ omax_assoc (owed_items q m) (if key_eq key q then some cutoff else none) (owed_items q items)
