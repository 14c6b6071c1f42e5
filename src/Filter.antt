-- ===== src/Filter.antt =====
-- crates/core/src/modules/rpc_filter_type.rs: the comparisons of account data that a request asks for.
-- A slice out of range is a panic. `Memcmp` is a type of another crate, so it is a parameter, as is its
-- own check.
pub mod Read
mod Tests
use Prim.Native.Char.{Char, code}
use Prim.Native.String.{[] as no_chars, ◌∷◌ as cons_char}
use cloudbreak.Prelude.{
  ℕ, zero, suc, ◌+◌, ◌-◌, ◌*◌, String, Bool, true, false, not, ◌&&◌, ◌||◌, Option, none, some, List,
  [], ◌∷◌, ltb, leb, ◌==◌, if◌then◌else◌, length, take, drop,
}
use cloudbreak.Prelude.Word.{add64}

pub data ValueType : Type 0 where
  u8_value u16_value u32_value u64_value u128_value : ValueType

pub data Operand : Type 0 where
  mem : ℕ → ValueType → Operand
  constant : String → Operand

-- A value with its type: the variants of `WrappedValueType` are one for each `ValueType`.
pub record WrappedValueType : Type 0 where
  pub value_type : ValueType
  pub value : ℕ

pub data Comparator : Type 0 where
  equal not_equal greater greater_or_equal less less_or_equal : Comparator

pub record ValueCmp : Type 0 where
  pub left : Operand
  pub comparator : Comparator
  pub right : Operand

-- A result: a panic, `InvalidValueCmp`, or a value.
pub data Outcome {ℓ} (A : Type ℓ) : Type ℓ where
  panic invalid : Outcome A
  ok : A → Outcome A

infixl 20 ◌>>=◌
abbrev pub ◌>>=◌ {ℓ κ} : {A : Type ℓ} {B : Type κ} → Outcome A → (A → Outcome B) → Outcome B
panic >>= f = panic
invalid >>= f = invalid
ok a >>= f = f a

abbrev pub reject_when : Bool → Outcome (Unit {0})
reject_when true = invalid
reject_when false = ok tt

infixl 20 ◌>>◌
abbrev pub ◌>>◌ {ℓ} : {B : Type ℓ} → Outcome (Unit {0}) → Outcome B → Outcome B
m >> k = m >>= λ _. k

-- The bytes of a type.
abbrev pub width : ValueType → ℕ
width u8_value = 1
width u16_value = 2
width u32_value = 4
width u64_value = 8
width u128_value = 16

-- `MAX` of a type and one.
abbrev pub bound : ValueType → ℕ
bound u8_value = 256
bound u16_value = 65_536
bound u32_value = 4_294_967_296
bound u64_value = 18_446_744_073_709_551_616
bound u128_value = 340_282_366_920_938_463_463_374_607_431_768_211_456

abbrev pub from_le_bytes : List ℕ → ℕ
from_le_bytes [] = 0
from_le_bytes (b ∷ bytes) = b + 256 * from_le_bytes bytes

-- `&data[first..past]`
unfoldable pub slice : ℕ → ℕ → List ℕ → Outcome (List ℕ)
slice first past bytes =
    if leb first past && leb past (length bytes)
    then ok (take (past - first) (drop first bytes))
    else panic

-- `data[i]`
abbrev pub byte_at : ℕ → List ℕ → Outcome ℕ
byte_at i [] = panic
byte_at zero (b ∷ bytes) = ok b
byte_at (suc i) (b ∷ bytes) = byte_at i bytes

-- The branches for more than one byte, which differ in the width only.
unfoldable pub read_wide : ℕ → ValueType → List ℕ → Outcome WrappedValueType
unfolding slice
read_wide offset value_type bytes = do
  reject_when (leb (length bytes) (add64 offset (width value_type - 1)))
  word ← slice offset (add64 offset (width value_type)) bytes
  ok (record { value_type = value_type; value = from_le_bytes word })

unfoldable pub read_byte : ℕ → List ℕ → Outcome WrappedValueType
read_byte offset bytes = do
  reject_when (leb (length bytes) offset)
  b ← byte_at offset bytes
  ok (record { value_type = u8_value; value = b })

abbrev pub read_mem : ℕ → ValueType → List ℕ → Outcome WrappedValueType
unfolding read_byte read_wide
read_mem offset u8_value bytes = read_byte offset bytes
read_mem offset u16_value bytes = read_wide offset u16_value bytes
read_mem offset u32_value bytes = read_wide offset u32_value bytes
read_mem offset u64_value bytes = read_wide offset u64_value bytes
read_mem offset u128_value bytes = read_wide offset u128_value bytes

unfoldable pub parse_mem_into_value_type : Operand → List ℕ → Outcome WrappedValueType
unfolding read_mem
parse_mem_into_value_type (mem offset value_type) bytes = read_mem offset value_type bytes
parse_mem_into_value_type (constant s) bytes = invalid

unfoldable pub compare : Comparator → ℕ → ℕ → Bool
compare equal left right = left == right
compare not_equal left right = not (left == right)
compare greater left right = ltb right left
compare greater_or_equal left right = leb right left
compare less left right = ltb left right
compare less_or_equal left right = leb left right

-- The digits of `str::parse`, after those read: an overflow at any of them is an error.
unfoldable pub parse_digits : ValueType → ℕ → String → Option ℕ
parse_digits value_type read no_chars = some read
parse_digits value_type read (cons_char c rest) =
    let next = read * 10 + (code c - 48) in
    let result = parse_digits value_type next rest in
    if leb 48 (code c) && leb (code c) 57 && ltb next (bound value_type) then result else none

-- `str::parse` of an unsigned type: digits, after a plus sign at most.
unfoldable pub parse : ValueType → String → Option ℕ
unfolding parse_digits
parse value_type no_chars = none
parse value_type (cons_char c no_chars) = parse_digits value_type 0 (cons_char c no_chars)
parse value_type (cons_char c (cons_char d rest)) =
    parse_digits value_type 0
      (if code c == 43 then cons_char d rest else cons_char c (cons_char d rest))

abbrev pub or_invalid {ℓ} : {A : Type ℓ} → Option A → Outcome A
or_invalid none = invalid
or_invalid (some a) = ok a

abbrev pub same_type : ValueType → ValueType → Bool
same_type u8_value u8_value = true
same_type u16_value u16_value = true
same_type u32_value u32_value = true
same_type u64_value u64_value = true
same_type u128_value u128_value = true
same_type _ _ = false

abbrev pub compared : Comparator → WrappedValueType → WrappedValueType → Outcome Bool
unfolding compare
compared comparator left right =
    if same_type left.value_type right.value_type
    then ok (compare comparator left.value right.value)
    else invalid

unfoldable pub match_operands : Operand → Comparator → Operand → List ℕ → Outcome Bool
unfolding parse_mem_into_value_type compared compare parse
match_operands (mem offset left_type) comparator (mem offset' right_type) bytes = do
  left ← parse_mem_into_value_type (mem offset left_type) bytes
  right ← parse_mem_into_value_type (mem offset' right_type) bytes
  compared comparator left right
match_operands (mem offset left_type) comparator (constant s) bytes = do
  left ← parse_mem_into_value_type (mem offset left_type) bytes
  right ← or_invalid (parse left.value_type s)
  ok (compare comparator left.value right)
match_operands (constant s) comparator right bytes = invalid

unfoldable pub values_match : ValueCmp → List ℕ → Outcome Bool
unfolding match_operands
values_match cmp bytes = match_operands cmp.left cmp.comparator cmp.right bytes

-- `unwrap_or(false)`
abbrev pub matched_or_false : Outcome Bool → Outcome Bool
matched_or_false panic = panic
matched_or_false invalid = ok false
matched_or_false (ok b) = ok b

-- One step of `all`, which stops at the first filter that fails.
abbrev pub and_then : Outcome Bool → Outcome Bool → Outcome Bool
and_then panic rest = panic
and_then invalid rest = invalid
and_then (ok true) rest = rest
and_then (ok false) rest = ok false

module _ (Memcmp : Type 0) where
  pub data RpcFilterType : Type 0 where
    data_size : ℕ → RpcFilterType
    memcmp : Memcmp → RpcFilterType
    token_account_state : RpcFilterType
    value_cmp : ValueCmp → RpcFilterType

module _ {Memcmp : Type 0} where
  -- `RpcFilterType::verify`
  unfoldable pub verify : (Memcmp → Bool) → RpcFilterType Memcmp → Bool
  verify verify_memcmp (data_size n) = true
  verify verify_memcmp (memcmp m) = verify_memcmp m
  verify verify_memcmp token_account_state = true
  verify verify_memcmp (value_cmp cmp) = true

  unfoldable pub has_value_cmp : List (RpcFilterType Memcmp) → Bool
  has_value_cmp [] = false
  has_value_cmp (value_cmp cmp ∷ filters) = true
  has_value_cmp (_ ∷ filters) = has_value_cmp filters

  unfoldable pub account_matches_value_cmps : List (RpcFilterType Memcmp) → List ℕ → Outcome Bool
  unfolding values_match
  account_matches_value_cmps [] bytes = ok true
  account_matches_value_cmps (value_cmp cmp ∷ filters) bytes =
      and_then (matched_or_false (values_match cmp bytes))
        (account_matches_value_cmps filters bytes)
  account_matches_value_cmps (_ ∷ filters) bytes = account_matches_value_cmps filters bytes
