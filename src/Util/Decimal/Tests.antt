-- ===== src/Util/Decimal/Tests.antt =====
-- Runs of the printing and parsing functions, and the theorems at concrete inputs.
use hc.Base.{ℕ, ◌-◌, ◌≤◌, ◌^◌, ◌≡◌, refl, arith, List, [], ◌∷◌, ◌++◌, pos, negsuc, inl, length}
use hc.Util.Decimal.{
  fault, overflow, nothing, stored, uint_to_str, int_to_str, str_to_uint, str_to_int,
}
use hc.Util.Decimal.Print.{IsDecimal, uint_to_str_lem}
use hc.Util.Decimal.Parse.{str_to_uint_lem, str_to_uint-uint_to_str}
use hc.Util.Decimal.Signed.{str_to_int-int_to_str}

-- "18446744073709551615"
abbrev max_text : List ℕ
max_text = uint_to_str [] (2 ^ 64 - 1)

print_runs :
    (uint_to_str (10 ∷ []) 1203 ≡ b'1' ∷ b'2' ∷ b'0' ∷ b'3' ∷ 10 ∷ [])
    × (int_to_str [] (negsuc 6) ≡ b'-' ∷ b'7' ∷ [])
    × (int_to_str [] (pos 0) ≡ b'0' ∷ [])
unfolding uint_to_str int_to_str
print_runs = (refl, refl, refl)

uint_to_str_lem_example :
    (text : List ℕ) × (uint_to_str (0 ∷ []) 1203 ≡ text ++ 0 ∷ [])
    × IsDecimal 1203 text
    × (length text ≤ 20)
uint_to_str_lem_example = uint_to_str_lem 1203 (0 ∷ []) (omega arith)

str_to_uint_lem_example : str_to_uint (b'4' ∷ b'2' ∷ b'.' ∷ []) 5 ≡ stored 2 42
str_to_uint_lem_example =
    str_to_uint_lem (b'4' ∷ b'2' ∷ []) (b'.' ∷ []) 5 (omega arith) (omega arith) (inl (omega arith))

str_to_uint-uint_to_str_example :
    str_to_uint (uint_to_str (0 ∷ []) 1203) 20 ≡ stored (length (uint_to_str [] 1203)) 1203
str_to_uint-uint_to_str_example =
    str_to_uint-uint_to_str 1203 20 0 [] (omega arith) (omega arith) (λ h. omega arith)
      (omega arith)

str_to_int-int_to_str_example :
    str_to_int (int_to_str (10 ∷ []) (negsuc 41)) 20
    ≡ stored (length (int_to_str [] (negsuc 41))) (negsuc 41)
str_to_int-int_to_str_example =
    str_to_int-int_to_str (negsuc 41) 20 10 [] (omega arith) (omega arith) (λ h. omega arith)
      (omega arith)

-- One above the largest `uint64_t` overflows, and a text with no digits stores nothing.
parse_runs :
    (str_to_uint
        (b'1' ∷ b'8' ∷ b'4' ∷ b'4' ∷ b'6' ∷ b'7' ∷ b'4' ∷ b'4' ∷ b'0' ∷ b'7' ∷ b'3' ∷ b'7' ∷ b'0'
          ∷ b'9' ∷ b'5' ∷ b'5' ∷ b'1' ∷ b'6' ∷ b'1' ∷ b'6' ∷ [])
        20
      ≡ overflow)
    × (str_to_uint (b'x' ∷ []) 1 ≡ nothing)
    × (str_to_uint (b'7' ∷ []) 2 ≡ fault)
    × (str_to_int (b'-' ∷ []) 1 ≡ nothing)
unfolding str_to_uint str_to_int
parse_runs = (refl, refl, refl, refl)
