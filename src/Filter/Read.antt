-- ===== src/Filter/Read.antt =====
-- What is read of an account's data: where it is in range, which value it is, and where it panics.
use Prim.Native.Char.{code}
use Prim.Native.String.{[] as no_chars, ◌∷◌ as cons_char}
use cloudbreak.Prelude.{
  ℕ, zero, suc, ◌+◌, ◌-◌, ◌*◌, ◌/◌, ◌%◌, ◌≤◌, ◌<◌, ◌≡◌, refl, sym, ap, ◌∙◌, inl, inr, String, true,
  false, ◌&&◌, some, List, [], ◌∷◌, ◌++◌, arith, ltb, leb, ◌==◌, if◌then◌else◌, length,
  length-append, take, drop, Bool-cases,
}
use cloudbreak.Prelude.Word.{u64_mod, add64}
use cloudbreak.Filter.{
  ValueType, u8_value, u16_value, u32_value, u64_value, u128_value, mem, constant, WrappedValueType,
  Comparator, Outcome, panic, invalid, ok, width, bound, from_le_bytes, slice, byte_at, read_wide,
  read_byte, read_mem, parse_mem_into_value_type, match_operands, values_match, RpcFilterType,
  data_size, memcmp, token_account_state, value_cmp, parse_digits, parse, has_value_cmp,
  account_matches_value_cmps,
}

-- The word at an offset, with no wrap-around.
abbrev pub word_at : ℕ → ValueType → List ℕ → Outcome WrappedValueType
word_at offset t bytes =
    if leb (offset + width t) (length bytes)
    then ok (record { value_type = t; value = from_le_bytes (take (width t) (drop offset bytes)) })
    else invalid

module _ (offset : ℕ) (bytes : List ℕ) (long : length bytes < u64_mod) where
  read_wide_exact :
      (t : ValueType)
      → 0 < width t
      → offset + width t ≤ u64_mod
      → read_wide offset t bytes ≡ word_at offset t bytes
  unfolding read_wide slice
  read_wide_exact t pos small = elim (Bool-cases (leb (offset + width t) (length bytes))) [
    | inl inside ↦
        let first : leb (length bytes) (add64 offset (width t - 1)) ≡ false =
          ground (arith, inside, long, pos, small) in
        let past : add64 offset (width t) ≡ offset + width t = ground (arith, inside, long) in
        let ordered : leb offset (offset + width t) ≡ true = ground arith in
        let size : offset + width t - offset ≡ width t = omega arith in
        simp (first, past, ordered, inside, size) refl
    | inr outside ↦
        let first : leb (length bytes) (add64 offset (width t - 1)) ≡ true =
          ground (arith, outside, long, pos, small) in
        simp (first, outside) refl
  ]

byte_at-drop :
    (i : ℕ) (bytes : List ℕ)
    → i < length bytes
    → byte_at i bytes ≡ ok (from_le_bytes (take 1 (drop i bytes)))
byte_at-drop i [] lt = absurd (omega (arith, lt))
byte_at-drop zero (b ∷ bytes) lt = ground arith
byte_at-drop (suc i) (b ∷ bytes) lt = byte_at-drop i bytes (omega arith)

read_byte_exact :
    (offset : ℕ) (bytes : List ℕ) → read_byte offset bytes ≡ word_at offset u8_value bytes
unfolding read_byte
read_byte_exact offset bytes = elim (Bool-cases (leb (offset + 1) (length bytes))) [
  | inl inside ↦
      let first : leb (length bytes) offset ≡ false = ground (arith, inside) in
      simp (first, inside, byte_at-drop offset bytes (ground (arith, inside))) refl
  | inr outside ↦
      let first : leb (length bytes) offset ≡ true = ground (arith, outside) in
      simp (first, outside) refl
]

-- Where no sum of the offset and the width passes 2^64, a read never panics: it is the little-endian word
-- at the offset if the data has all its bytes, and the error if not.
pub read_mem_exact :
    (offset : ℕ) (t : ValueType) (bytes : List ℕ)
    → length bytes < u64_mod
    → offset + width t ≤ u64_mod
    → parse_mem_into_value_type (mem offset t) bytes ≡ word_at offset t bytes
unfolding parse_mem_into_value_type read_mem
read_mem_exact offset u8_value bytes long small = read_byte_exact offset bytes
read_mem_exact offset u16_value bytes long small =
    read_wide_exact offset bytes long u16_value (omega arith) small
read_mem_exact offset u32_value bytes long small =
    read_wide_exact offset bytes long u32_value (omega arith) small
read_mem_exact offset u64_value bytes long small =
    read_wide_exact offset bytes long u64_value (omega arith) small
read_mem_exact offset u128_value bytes long small =
    read_wide_exact offset bytes long u128_value (omega arith) small

-- The little-endian bytes of a number.
abbrev pub to_le_bytes : ℕ → ℕ → List ℕ
to_le_bytes zero v = []
to_le_bytes (suc k) v = v % 256 ∷ to_le_bytes k (v / 256)

abbrev pow256 : ℕ → ℕ
pow256 zero = 1
pow256 (suc k) = 256 * pow256 k

length-to_le_bytes : (k v : ℕ) → length (to_le_bytes k v) ≡ k
length-to_le_bytes zero v = refl
length-to_le_bytes (suc k) v = ap suc (length-to_le_bytes k (v / 256))

from_le_bytes-to_le_bytes : (k v : ℕ) → v < pow256 k → from_le_bytes (to_le_bytes k v) ≡ v
from_le_bytes-to_le_bytes zero v lt = omega (arith, lt)
from_le_bytes-to_le_bytes (suc k) v lt =
    let rest = from_le_bytes-to_le_bytes k (v / 256) (omega (arith, lt)) in omega (arith, rest)

bound_le : (t : ValueType) → bound t ≤ pow256 (width t)
bound_le u8_value = omega arith
bound_le u16_value = omega arith
bound_le u32_value = omega arith
bound_le u64_value = omega arith
bound_le u128_value = omega arith

drop-append : (xs ys : List ℕ) → drop (length xs) (xs ++ ys) ≡ ys
drop-append [] ys = refl
drop-append (x ∷ xs) ys = drop-append xs ys

take-append : (xs ys : List ℕ) → take (length xs) (xs ++ ys) ≡ xs
take-append [] ys = refl
take-append (x ∷ xs) ys = ap (λ zs. x ∷ zs) (take-append xs ys)

-- A value in the range of its type, written in its little-endian bytes anywhere in data of less than 2^64
-- bytes, is the value that is read at that offset.
pub read_mem-to_le_bytes :
    (before after : List ℕ) (t : ValueType) (v : ℕ)
    → v < bound t
    → length (before ++ (to_le_bytes (width t) v ++ after)) < u64_mod
    → parse_mem_into_value_type
        (mem (length before) t)
        (before ++ (to_le_bytes (width t) v ++ after))
      ≡ ok (record { value_type = t; value = v })
read_mem-to_le_bytes before after t v lt long =
    let word = to_le_bytes (width t) v in
    let size = length-to_le_bytes (width t) v in
    let total = length-append before (word ++ after) in
    let total' = length-append word after in
    let fits : leb (length before + width t) (length (before ++ (word ++ after))) ≡ true =
      ground (arith, size, total, total') in
    let cut : take (width t) (word ++ after) ≡ word =
      ap (λ k. take k (word ++ after)) (sym size) ∙ take-append word after in
    let back = from_le_bytes-to_le_bytes (width t) v (omega (arith, lt, bound_le t)) in
    read_mem_exact (length before) t (before ++ (word ++ after)) long
      (omega (arith, size, total, total', long))
    ∙ simp (fits, drop-append before (word ++ after), cut, back) refl

read_wide_panic :
    (offset : ℕ) (t : ValueType) (bytes : List ℕ)
    → offset < u64_mod
    → u64_mod ≤ offset + (width t - 1)
    → offset + (width t - 1) - u64_mod < length bytes
    → width t < u64_mod
    → read_wide offset t bytes ≡ panic
unfolding read_wide slice
read_wide_panic offset t bytes small wraps short narrow =
    let passes : leb (length bytes) (add64 offset (width t - 1)) ≡ false =
      ground (arith, small, wraps, short, narrow) in
    let backwards : leb offset (add64 offset (width t)) ≡ false =
      ground (arith, small, wraps, narrow) in
    simp (passes, backwards) refl

read_mem_panic :
    (offset : ℕ) (t : ValueType) (bytes : List ℕ)
    → offset < u64_mod
    → u64_mod ≤ offset + (width t - 1)
    → offset + (width t - 1) - u64_mod < length bytes
    → read_mem offset t bytes ≡ panic
unfolding read_mem
read_mem_panic offset u8_value bytes small wraps short = absurd (omega (arith, small, wraps))
read_mem_panic offset u16_value bytes small wraps short =
    read_wide_panic offset u16_value bytes small wraps short (omega arith)
read_mem_panic offset u32_value bytes small wraps short =
    read_wide_panic offset u32_value bytes small wraps short (omega arith)
read_mem_panic offset u64_value bytes small wraps short =
    read_wide_panic offset u64_value bytes small wraps short (omega arith)
read_mem_panic offset u128_value bytes small wraps short =
    read_wide_panic offset u128_value bytes small wraps short (omega arith)

-- An offset so near 2^64 that the last index of the value wraps around into the data passes the check of
-- the filter, and then the filter of the first comparison of a request panics on the slice.
pub account_matches_value_cmps_panic :
    {Memcmp : Type 0} (offset : ℕ) (t : ValueType) (comparator : Comparator) (s : String)
    (filters : List (RpcFilterType Memcmp)) (bytes : List ℕ)
    → offset < u64_mod
    → u64_mod ≤ offset + (width t - 1)
    → offset + (width t - 1) - u64_mod < length bytes
    → account_matches_value_cmps
        (value_cmp (record { left = mem offset t; comparator = comparator; right = constant s })
          ∷ filters)
        bytes
      ≡ panic
unfolding account_matches_value_cmps values_match match_operands parse_mem_into_value_type read_mem
account_matches_value_cmps_panic offset t comparator s filters bytes small wraps short =
    rw (read_mem_panic offset t bytes small wraps short) refl

-- Without a comparison among the filters every account matches, so leaving the pass out changes nothing.
has_value_cmp-account_matches_value_cmps :
    {Memcmp : Type 0} (filters : List (RpcFilterType Memcmp)) (bytes : List ℕ)
    → has_value_cmp filters ≡ false
    → account_matches_value_cmps filters bytes ≡ ok true
unfolding has_value_cmp account_matches_value_cmps
has_value_cmp-account_matches_value_cmps [] bytes none_there = refl
has_value_cmp-account_matches_value_cmps (data_size n ∷ filters) bytes none_there =
    has_value_cmp-account_matches_value_cmps filters bytes none_there
has_value_cmp-account_matches_value_cmps (memcmp m ∷ filters) bytes none_there =
    has_value_cmp-account_matches_value_cmps filters bytes none_there
has_value_cmp-account_matches_value_cmps (token_account_state ∷ filters) bytes none_there =
    has_value_cmp-account_matches_value_cmps filters bytes none_there
has_value_cmp-account_matches_value_cmps (value_cmp cmp ∷ filters) bytes none_there =
    absurd (ground (arith, none_there))

parse_digits_lt :
    (t : ValueType) (read : ℕ) (s : String) (v : ℕ)
    → read < bound t
    → parse_digits t read s ≡ some v
    → v < bound t
unfolding parse_digits
parse_digits_lt t read no_chars v lt e = ground (arith, e, lt)
parse_digits_lt t read (cons_char c rest) v lt e =
    elim (Bool-cases
      (leb 48 (code c) && leb (code c) 57 && ltb (read * 10 + (code c - 48)) (bound t))) [
        | inl digit ↦
            parse_digits_lt t (read * 10 + (code c - 48)) rest v (ground (arith, digit))
              (sym (simp (digit) refl) ∙ e)
        | inr other ↦ absurd (ground (arith, other, e))
      ]

bound_pos : (t : ValueType) → 0 < bound t
bound_pos u8_value = omega arith
bound_pos u16_value = omega arith
bound_pos u32_value = omega arith
bound_pos u64_value = omega arith
bound_pos u128_value = omega arith

-- A constant that is read for a type is a value of the type.
parse_lt : (t : ValueType) (s : String) (v : ℕ) → parse t s ≡ some v → v < bound t
unfolding parse
parse_lt t no_chars v e = absurd (ground (arith, e))
parse_lt t (cons_char c no_chars) v e = parse_digits_lt t 0 (cons_char c no_chars) v (bound_pos t) e
parse_lt t (cons_char c (cons_char d rest)) v e =
    parse_digits_lt t 0 (if code c == 43 then cons_char d rest else cons_char c (cons_char d rest))
      v (bound_pos t) e
