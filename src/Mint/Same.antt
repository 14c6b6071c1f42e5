-- ===== src/Mint/Same.antt =====
-- The derived `==` of the states of a mint is equality.
use cloudbreak.Prelude.{
  ℕ, ◌≡◌, refl, ap, Bool, true, false, Option, none, some, List, [], ◌∷◌, arith,
}
use cloudbreak.Mint.{
  MintState, MintConfigs, state_eq, bytes_eq, bytes_option_eq, configs_eq, bool_eq,
}

bytes_eq_sound : (xs ys : List ℕ) → bytes_eq xs ys ≡ true → xs ≡ ys
bytes_eq_sound [] [] e = refl
bytes_eq_sound [] (y ∷ ys) e = absurd (ground (arith, e))
bytes_eq_sound (x ∷ xs) [] e = absurd (ground (arith, e))
bytes_eq_sound (x ∷ xs) (y ∷ ys) e = ground (arith, e, bytes_eq_sound xs ys)

bytes_option_eq_sound : (a b : Option (List ℕ)) → bytes_option_eq a b ≡ true → a ≡ b
bytes_option_eq_sound none none e = refl
bytes_option_eq_sound none (some y) e = absurd (ground (arith, e))
bytes_option_eq_sound (some x) none e = absurd (ground (arith, e))
bytes_option_eq_sound (some x) (some y) e = ap some (bytes_eq_sound x y e)

configs_eq_sound : (a b : Option MintConfigs) → configs_eq a b ≡ true → a ≡ b
configs_eq_sound none none e = refl
configs_eq_sound none (some y) e = absurd (ground (arith, e))
configs_eq_sound (some x) none e = absurd (ground (arith, e))
configs_eq_sound (some x) (some y) e = ground (
  arith,
  e,
  bytes_option_eq_sound x.interest_bearing y.interest_bearing,
  bytes_option_eq_sound x.scaled_ui_amount y.scaled_ui_amount,
)

bool_eq_sound : (a b : Bool) → bool_eq a b ≡ true → a ≡ b
bool_eq_sound true true e = refl
bool_eq_sound true false e = absurd (ground (arith, e))
bool_eq_sound false true e = absurd (ground (arith, e))
bool_eq_sound false false e = refl

pub state_eq_sound : (a b : MintState) → state_eq a b ≡ true → a ≡ b
unfolding state_eq
state_eq_sound a b e =
    ground (arith, e, configs_eq_sound a.configs b.configs, bool_eq_sound a.immutable b.immutable)
