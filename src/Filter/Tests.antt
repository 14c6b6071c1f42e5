-- ===== src/Filter/Tests.antt =====
-- Comparisons on small data.
use cloudbreak.Prelude.{ℕ, ◌≡◌, refl, true, none, some, List, [], ◌∷◌, ◌++◌, arith}
use cloudbreak.Filter.{
  u8_value, u16_value, u32_value, mem, constant, less, greater_or_equal, panic, ok, value_cmp,
  parse, values_match, parse_mem_into_value_type, account_matches_value_cmps,
}
use cloudbreak.Filter.Read.{
  word_at, to_le_bytes, read_mem_exact, read_mem-to_le_bytes, account_matches_value_cmps_panic,
}

abbrev five_bytes : List ℕ
five_bytes = 1 ∷ 2 ∷ 3 ∷ 4 ∷ 5 ∷ []

read_mem_exact_example :
    parse_mem_into_value_type (mem 1 u32_value) five_bytes ≡ word_at 1 u32_value five_bytes
read_mem_exact_example = read_mem_exact 1 u32_value five_bytes (omega arith) (omega arith)

read_mem-to_le_bytes_example :
    parse_mem_into_value_type (mem 2 u16_value) (7 ∷ 8 ∷ to_le_bytes 2 513 ++ (9 ∷ []))
    ≡ ok (record { value_type = u16_value; value = 513 })
read_mem-to_le_bytes_example =
    read_mem-to_le_bytes (7 ∷ 8 ∷ []) (9 ∷ []) u16_value 513 (omega arith) (omega arith)

-- The last offset, where the index of the second byte is 0.
account_matches_value_cmps_panic_example :
    account_matches_value_cmps {Memcmp = Unit}
      (value_cmp (record {
        left = mem 18_446_744_073_709_551_615 u16_value;
        comparator = less;
        right = constant "9";
      })
        ∷ [])
      five_bytes
    ≡ panic
account_matches_value_cmps_panic_example =
    account_matches_value_cmps_panic 18_446_744_073_709_551_615 u16_value less "9" [] five_bytes
      (omega arith) (omega arith) (omega arith)

parses_255 : parse u8_value "+255" ≡ some 255
unfolding parse
parses_255 = refl

overflows : parse u8_value "256" ≡ none
unfolding parse
overflows = refl

-- The word of the bytes 2 and 3 is 770.
matches_word :
    values_match
      (record { left = mem 1 u16_value; comparator = greater_or_equal; right = constant "770" })
      five_bytes
    ≡ ok true
unfolding values_match
matches_word = refl
