-- ===== src/Prelude/Word.antt =====
-- `u64` arithmetic: the wrap-around and the saturation are written out.
use Prim.Native.Nat.{ℕ, ◌+◌, ◌-◌, ◌%◌, min}

-- 2 ^ 64
abbrev pub u64_mod : ℕ
u64_mod = 18_446_744_073_709_551_616

-- `u64::MAX`
abbrev pub u64_max : ℕ
u64_max = 18_446_744_073_709_551_615

-- `a + b` of a release build
abbrev pub add64 : ℕ → ℕ → ℕ
add64 a b = (a + b) % u64_mod

-- `u64::saturating_add`
abbrev pub saturating_add : ℕ → ℕ → ℕ
saturating_add a b = min (a + b) u64_max

-- `a - b` of a release build
abbrev pub sub64 : ℕ → ℕ → ℕ
sub64 a b = (a + u64_mod - b) % u64_mod
