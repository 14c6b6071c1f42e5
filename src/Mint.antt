-- ===== src/Mint.antt =====
-- crates/core/src/modules/mint_cache: what the program knows of each token mint. The state of a mint
-- is that of crates/core/src/utils/token.rs; a configuration is the bytes of its record.
pub mod Store
pub mod Indexer
pub mod Api
pub mod Same
mod Tests
use cloudbreak.Prelude.{
  ℕ, ◌≡◌, refl, Bool, true, false, ◌&&◌, Option, none, some, List, [], ◌∷◌, arith, ◌==◌, ==_refl,
  if◌then◌else◌,
}

pub record MintConfigs : Type 0 where
  pub interest_bearing : Option (List ℕ)
  pub scaled_ui_amount : Option (List ℕ)

pub record MintState : Type 0 where
  pub decimals : ℕ
  pub configs : Option MintConfigs
  pub immutable : Bool

pub data MintChange : Type 0 where
  live : MintState → MintChange
  closed : MintChange

abbrev pub bytes_eq : List ℕ → List ℕ → Bool
bytes_eq [] [] = true
bytes_eq [] (b ∷ bs) = false
bytes_eq (a ∷ xs) [] = false
bytes_eq (a ∷ xs) (b ∷ bs) = a == b && bytes_eq xs bs

abbrev pub bytes_option_eq : Option (List ℕ) → Option (List ℕ) → Bool
bytes_option_eq none none = true
bytes_option_eq none (some b) = false
bytes_option_eq (some a) none = false
bytes_option_eq (some a) (some b) = bytes_eq a b

abbrev pub configs_eq : Option MintConfigs → Option MintConfigs → Bool
configs_eq none none = true
configs_eq none (some b) = false
configs_eq (some a) none = false
configs_eq (some a) (some b) =
    bytes_option_eq a.interest_bearing b.interest_bearing
    && bytes_option_eq a.scaled_ui_amount b.scaled_ui_amount

abbrev pub bool_eq : Bool → Bool → Bool
bool_eq true b = b
bool_eq false true = false
bool_eq false false = true

-- The derived `==`.
unfoldable pub state_eq : MintState → MintState → Bool
state_eq a b =
    a.decimals == b.decimals && configs_eq a.configs b.configs && bool_eq a.immutable b.immutable

bytes_eq_refl : (xs : List ℕ) → bytes_eq xs xs ≡ true
bytes_eq_refl [] = refl
bytes_eq_refl (x ∷ xs) = ground (arith, bytes_eq_refl xs)

bytes_option_eq_refl : (o : Option (List ℕ)) → bytes_option_eq o o ≡ true
bytes_option_eq_refl none = refl
bytes_option_eq_refl (some xs) = bytes_eq_refl xs

configs_eq_refl : (o : Option MintConfigs) → configs_eq o o ≡ true
configs_eq_refl none = refl
configs_eq_refl (some c) =
    rw (bytes_option_eq_refl c.interest_bearing) (bytes_option_eq_refl c.scaled_ui_amount)

bool_eq_refl : (b : Bool) → bool_eq b b ≡ true
bool_eq_refl true = refl
bool_eq_refl false = refl

pub state_eq_refl : (s : MintState) → state_eq s s ≡ true
unfolding state_eq
state_eq_refl s = rw (==_refl s.decimals, configs_eq_refl s.configs) (bool_eq_refl s.immutable)
