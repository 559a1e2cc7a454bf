-- ===== src/Util/Hex.antt =====
-- hc/core/hc/util.c: `util_uintToHex` and `util_hexToUint`.
mod Laws
mod Tests
use hc.Base.{
  ℕ, zero, suc, ◌+◌, ◌-◌, ◌*◌, ◌/◌, ◌%◌, ◌^◌, ◌==◌, ltb, if◌then◌else◌, List, [], ◌∷◌, Option, none,
  some, bit_and, bit_or, get_or,
}
use hc.Util.Decimal.{Parsed, fault, overflow, store_if, uint64_max}

abbrev pub hex_table : List ℕ
hex_table =
    b'0' ∷ b'1' ∷ b'2' ∷ b'3' ∷ b'4' ∷ b'5' ∷ b'6' ∷ b'7' ∷ b'8' ∷ b'9' ∷ b'A' ∷ b'B' ∷ b'C' ∷ b'D'
    ∷ b'E' ∷ b'F' ∷ []

-- `util_UINT64_MAX_HEX_CHARS`: each round of the loop writes two.
abbrev pub uint64_max_hex_chars : ℕ
uint64_max_hex_chars = 16

-- The `do` loop, with rounds left.
pub hex_onto : ℕ → ℕ → List ℕ → List ℕ
hex_onto zero number out = out
hex_onto (suc fuel) number out =
    let out' =
      get_or hex_table (bit_and (number / 2 ^ 4) 0xF) 0
      ∷ get_or hex_table (bit_and number 0xF) 0
      ∷ out in
    let rest = hex_onto fuel (number / 2 ^ 8) out' in if number / 2 ^ 8 == 0 then out' else rest

pub uint_to_hex : List ℕ → ℕ → List ℕ
unfolding hex_onto
uint_to_hex buffer_end number = hex_onto (uint64_max_hex_chars / 2) number buffer_end

-- The value of a hex digit by subtractions in `uint64_t`, or none where the loop breaks.
pub hex_digit_value : ℕ → Option ℕ
hex_digit_value c =
    let d = (c + 2 ^ 64 - b'0') % 2 ^ 64 in
    let d' = (d + (b'0' + 2 ^ 64 - b'A')) % 2 ^ 64 in
    let d'' = (d' + (b'A' + 2 ^ 64 - b'a')) % 2 ^ 64 in
    if ltb 9 d
    then if ltb 5 d'
      then if ltb 5 d'' then none else some ((d'' + 10) % 2 ^ 64)
      else some ((d' + 10) % 2 ^ 64)
    else some d

-- The loop body after the digit is known: `left` is `maxChars - i`.
pub hex_loop : List ℕ → ℕ → ℕ → ℕ → Parsed ℕ
unfolding hex_digit_value
hex_loop buffer zero i result = store_if (ltb 0 i) i result
hex_loop [] (suc left) i result = fault
hex_loop (c ∷ buffer) (suc left) i result = elim (hex_digit_value c) [
  | none ↦ store_if (ltb 0 i) i result
  | some d ↦
      let rest = hex_loop buffer left (i + 1) (bit_or (result * 2 ^ 4 % 2 ^ 64) d) in
      if ltb (uint64_max / 2 ^ 4) result then overflow else rest
]

pub hex_to_uint : List ℕ → ℕ → Parsed ℕ
unfolding hex_loop
hex_to_uint buffer max_chars = hex_loop buffer max_chars 0 0
