-- ===== src/Util/Decimal.antt =====
-- hc/core/hc/util.c: `util_uintToStr`, `util_intToStr`, `util_strToUint` and `util_strToInt`.
-- A pointer into a buffer is the list of the bytes from there on. The printing functions write
-- downwards from `bufferEnd`, so what they return is the new bytes in front of those at the end.
mod Print
mod Parse
mod Signed
mod Tests
use hc.Base.{
  ℕ, zero, suc, ◌+◌, ◌-◌, ◌*◌, ◌/◌, ◌%◌, ◌^◌, ◌==◌, ltb, leb, if◌then◌else◌, Bool, true, false,
  List, [], ◌∷◌, ℤ, pos, negsuc, signed64, word64,
}

-- `util_UINT64_MAX_CHARS`, and the bound on the rounds of the printing loop.
abbrev pub uint64_max_chars : ℕ
uint64_max_chars = 20

abbrev pub uint64_max : ℕ
uint64_max = 2 ^ 64 - 1

abbrev pub int64_max : ℕ
int64_max = 2 ^ 63 - 1

-- The `do` loop. Each round divides the number by 10, so 20 rounds are enough below 2 ^ 64.
pub digits_onto : ℕ → ℕ → List ℕ → List ℕ
digits_onto zero number out = out
digits_onto (suc fuel) number out =
    let out' = (b'0' + number % 10) ∷ out in
    let rest = digits_onto fuel (number / 10) out' in if number / 10 == 0 then out' else rest

pub uint_to_str : List ℕ → ℕ → List ℕ
unfolding digits_onto
uint_to_str buffer_end number = digits_onto uint64_max_chars number buffer_end

-- `-((uint64_t)number)` is taken modulo 2 ^ 64.
pub magnitude : ℤ → ℕ
magnitude (pos n) = n
magnitude (negsuc n) = (2 ^ 64 - word64 (negsuc n)) % 2 ^ 64

abbrev pub is_negative : ℤ → Bool
is_negative (pos n) = false
is_negative (negsuc n) = true

pub int_to_str : List ℕ → ℤ → List ℕ
unfolding digits_onto magnitude
int_to_str buffer_end number =
    let text = digits_onto uint64_max_chars (magnitude number) buffer_end in
    if is_negative number then b'-' ∷ text else text

-- What a parsing function returns: -1, 0 with nothing stored, or the count of characters with the
-- number stored. `fault` is a read past the end of the buffer.
pub data Parsed (A : Type 0) : Type 0 where
  fault : Parsed A
  overflow : Parsed A
  nothing : Parsed A
  stored : ℕ → A → Parsed A

-- `(uint64_t)c - '0'`
abbrev pub digit_value : ℕ → ℕ
digit_value c = (c + 2 ^ 64 - b'0') % 2 ^ 64

abbrev pub store_if : {A : Type 0} → Bool → ℕ → A → Parsed A
store_if moved i number = if moved then stored i number else nothing

-- The loop that both functions share: `left` is `maxChars - i`, `max_number` the largest value that
-- is allowed. What follows the loop is `finish`.
module _ {A : Type 0} (max_number : ℕ) (finish : ℕ → ℕ → Parsed A) where
  unfoldable pub parse_loop : List ℕ → ℕ → ℕ → ℕ → Parsed A
  parse_loop buffer zero i result = finish i result
  parse_loop [] (suc left) i result = fault
  parse_loop (c ∷ buffer) (suc left) i result =
      let d = digit_value c in
      let rest = parse_loop buffer left (i + 1) ((result * 10 + d) % 2 ^ 64) in
      if ltb 9 d
      then finish i result
      else if ltb ((max_number - d) / 10) result
      then overflow
      else rest

unfoldable pub str_to_uint : List ℕ → ℕ → Parsed ℕ
unfolding parse_loop
str_to_uint buffer max_chars =
    parse_loop uint64_max (λ i result. store_if (ltb 0 i) i result) buffer max_chars 0 0

-- `result * (1 - (negative << 1))` in `uint64_t`, and the cast to `int64_t`.
abbrev pub with_sign : ℕ → ℕ → ℤ
with_sign negative result = signed64 (result * ((1 + 2 ^ 64 - negative * 2) % 2 ^ 64) % 2 ^ 64)

-- From the first character on, `i` starts behind the sign.
pub signed_from : ℕ → List ℕ → ℕ → Parsed ℤ
unfolding parse_loop
signed_from negative buffer left =
    parse_loop (int64_max + negative)
      (λ i result. store_if (ltb negative i) i (with_sign negative result)) buffer left negative 0

pub str_to_int : List ℕ → ℕ → Parsed ℤ
unfolding signed_from
str_to_int buffer zero = nothing
str_to_int [] (suc left) = fault
str_to_int (c ∷ buffer) (suc left) =
    if c == b'-' then signed_from 1 buffer left else signed_from 0 (c ∷ buffer) (suc left)
