-- ===== src/Util/Hex/Laws.antt =====
-- Hexadecimal text read and written.
use native.Mathlib.Nat.{pow-suc, add-zero}
use hc.Base.{
  ℕ, zero, suc, ◌+◌, ◌-◌, ◌*◌, ◌/◌, ◌%◌, ◌^◌, ◌≤◌, ◌<◌, ◌==◌, ltb, if◌then◌else◌, List, [], ◌∷◌,
  ◌++◌, none, some, bit_and, bit_or, get_or, length, ◌≡◌, ◌⊎◌, inl, inr, refl, arith, bit_and-low,
  bit_or-field, every_below, agree_below, true, ap, ◌∙◌, dec_le, Bool-cases, ==_iff,
}
use hc.Util.Decimal.{overflow, stored, store_if, uint64_max}
use hc.Util.Hex.{
  hex_table, hex_onto, uint_to_hex, hex_digit_value, hex_loop, hex_to_uint, uint64_max_hex_chars,
}

-- A hexadecimal digit of either case.
abbrev pub IsHexDigit : ℕ → Type 0
IsHexDigit c = ((b'0' ≤ c) × (c ≤ b'9')) ⊎ ((b'A' ≤ c) × (c ≤ b'F')) ⊎ ((b'a' ≤ c) × (c ≤ b'f'))

abbrev pub digit_of : ℕ → ℕ
digit_of c = if ltb c b'A' then c - b'0' else if ltb c b'a' then c - b'A' + 10 else c - b'a' + 10

abbrev pub AllHex : List ℕ → Type 0
AllHex [] = Unit {0}
AllHex (c ∷ cs) = IsHexDigit c × AllHex cs

abbrev pub hex_value_from : ℕ → List ℕ → ℕ
hex_value_from acc [] = acc
hex_value_from acc (c ∷ cs) = hex_value_from (acc * 16 + digit_of c) cs

-- The text is followed by a byte that is no hex digit, or it fills `maxChars`.
abbrev pub HexEnds : List ℕ → ℕ → ℕ → Type 0
HexEnds [] used max_chars = used ≡ max_chars
HexEnds (c ∷ rest) used max_chars = ¬ IsHexDigit c × (c < 256) ⊎ (used ≡ max_chars)

hex_digit_value-some : (c : ℕ) → IsHexDigit c → hex_digit_value c ≡ some (digit_of c)
unfolding hex_digit_value
hex_digit_value-some c h = ground arith

hex_digit_value-none : (c : ℕ) → ¬ IsHexDigit c → c < 256 → hex_digit_value c ≡ none
unfolding hex_digit_value
hex_digit_value-none c h b = ground arith

digit_of-lt : (c : ℕ) → IsHexDigit c → digit_of c < 16
digit_of-lt c h = ground arith

hex_value_from-ge : (acc : ℕ) (text : List ℕ) → acc ≤ hex_value_from acc text
hex_value_from-ge acc [] = omega arith
hex_value_from-ge acc (c ∷ cs) = omega (arith, hex_value_from-ge (acc * 16 + digit_of c) cs)

HexEnds-suc :
    (rest : List ℕ) (used max_chars : ℕ)
    → HexEnds rest (suc used) (suc max_chars)
    → HexEnds rest used max_chars
HexEnds-suc [] used max_chars h = omega arith
HexEnds-suc (c ∷ rest) used max_chars (inl h) = inl h
HexEnds-suc (c ∷ rest) used max_chars (inr h) = inr (omega arith)

hex_loop-end :
    (rest : List ℕ) (left i result : ℕ)
    → HexEnds rest 0 left
    → hex_loop rest left i result ≡ store_if (ltb 0 i) i result
unfolding hex_loop
hex_loop-end [] zero i r h = refl
hex_loop-end [] (suc left) i r h = absurd (omega arith)
hex_loop-end (c ∷ rest) zero i r h = refl
hex_loop-end (c ∷ rest) (suc left) i r (inl h) = rw (hex_digit_value-none c h.0 h.1, hex_loop)
hex_loop-end (c ∷ rest) (suc left) i r (inr h) = absurd (omega arith)

or_digit : (r d : ℕ) → r ≤ uint64_max / 16 → d < 16 → bit_or (r * 2 ^ 4 % 2 ^ 64) d ≡ r * 16 + d
or_digit r d h hd =
    let e : r * 2 ^ 4 % 2 ^ 64 ≡ r * 2 ^ 4 = omega arith in rw e (bit_or-field 4 r d hd)

hex_loop_step :
    (c : ℕ) (rest : List ℕ) (left i r : ℕ)
    → IsHexDigit c
    → r < 2 ^ 64
    → hex_loop (c ∷ rest) (suc left) i r ≡ (
        if ltb uint64_max (r * 16 + digit_of c)
        then overflow
        else hex_loop rest left (i + 1) (r * 16 + digit_of c))
unfolding hex_loop
hex_loop_step c rest left i r h hr =
    rw (hex_digit_value-some c h, hex_loop) (step (digit_of c) (digit_of-lt c h))
  where
    step :
        (d : ℕ)
        → d < 16
        → (if ltb (uint64_max / 2 ^ 4) r
            then overflow
            else hex_loop rest left (i + 1) (bit_or (r * 2 ^ 4 % 2 ^ 64) d))
          ≡ (if ltb uint64_max (r * 16 + d)
              then overflow
              else hex_loop rest left (i + 1) (r * 16 + d))
    step d hd = elim (dec_le r (uint64_max / 16)) [
      | yes small ↦ rw (or_digit r d small hd) (ground arith)
      | no big ↦ ground arith
    ]

pub hex_loop_lem :
    (text rest : List ℕ) (left i result : ℕ)
    → result < 2 ^ 64
    → AllHex text
    → length text ≤ left
    → HexEnds rest (length text) left
    → hex_loop (text ++ rest) left i result ≡ (
        if ltb uint64_max (hex_value_from result text)
        then overflow
        else store_if (ltb 0 (i + length text)) (i + length text) (hex_value_from result text))
hex_loop_lem [] rest left i r hr d l e = ground (arith, hex_loop-end rest left i r e, add-zero i)
hex_loop_lem (c ∷ cs) rest zero i r hr d l e = absurd (omega arith)
hex_loop_lem (c ∷ cs) rest (suc left) i r hr d l e = ground (
  arith,
  hex_loop_step c (cs ++ rest) left i r d.0 hr,
  HexEnds-suc rest (length cs) left e,
  hex_value_from-ge (r * 16 + digit_of c) cs,
  hex_loop_lem cs rest left (i + 1) (r * 16 + digit_of c),
)

-- What `util_hexToUint` returns for a text of hex digits of either case that ends inside the
-- `maxChars` first bytes: -1 exactly where its number is above 2 ^ 64 - 1, 0 with nothing stored
-- for no digits, and otherwise the count of digits with that number stored.
pub hex_to_uint_lem :
    (text rest : List ℕ) (max_chars : ℕ)
    → AllHex text
    → length text ≤ max_chars
    → HexEnds rest (length text) max_chars
    → hex_to_uint (text ++ rest) max_chars ≡ (
        if ltb uint64_max (hex_value_from 0 text)
        then overflow
        else store_if (ltb 0 (length text)) (length text) (hex_value_from 0 text))
unfolding hex_to_uint
hex_to_uint_lem text rest max_chars d l e =
    ground (arith, hex_loop_lem text rest max_chars 0 0 (omega arith) d l e)

abbrev hex_char : ℕ → ℕ
hex_char d = if ltb d 10 then b'0' + d else b'A' + (d - 10)

hex_table_checked : every_below (λ d. get_or hex_table d 0 == hex_char d) 16 ≡ true
unfolding every_below
hex_table_checked = refl

hex_table_lem : (d : ℕ) → d < 16 → get_or hex_table d 0 ≡ hex_char d
hex_table_lem d h = agree_below (λ x. get_or hex_table x 0) hex_char 16 d hex_table_checked h

-- The two characters of a byte.
hex_table_low : (n : ℕ) → get_or hex_table (bit_and n 0xF) 0 ≡ hex_char (n % 16)
hex_table_low n = rw (bit_and-low 4 n) (hex_table_lem (n % 16) (omega arith))

hex_char-digit_of : (d : ℕ) → d < 16 → IsHexDigit (hex_char d) × (digit_of (hex_char d) ≡ d)
hex_char-digit_of d h = (ground arith, ground arith)

-- With the table read, a round of the loop.
hex_onto_step :
    (fuel n : ℕ) (out : List ℕ)
    → hex_onto (suc fuel) n out ≡ (
        let out' = hex_char (n / 16 % 16) ∷ hex_char (n % 16) ∷ out in
        if n / 256 == 0 then out' else hex_onto fuel (n / 256) out')
unfolding hex_onto
hex_onto_step fuel n out = rw (hex_table_low n, hex_table_low (n / 16))

hex_onto-append :
    (fuel n : ℕ) (out rest : List ℕ) → hex_onto fuel n (out ++ rest) ≡ hex_onto fuel n out ++ rest
hex_onto-append zero n out rest = unfold hex_onto in refl
hex_onto-append (suc fuel) n out rest = ground (
  arith,
  hex_onto_step fuel n out,
  hex_onto_step fuel n (out ++ rest),
  hex_onto-append fuel (n / 256) (hex_char (n / 16 % 16) ∷ hex_char (n % 16) ∷ out) rest,
)

two_chars :
    (acc n : ℕ) (out : List ℕ)
    → hex_value_from acc (hex_char (n / 16 % 16) ∷ hex_char (n % 16) ∷ out)
      ≡ hex_value_from (acc * 256 + n % 256) out
two_chars acc n out =
    rw
      (
        (hex_char-digit_of (n / 16 % 16) (omega arith)).1,
        (hex_char-digit_of (n % 16) (omega arith)).1,
      )
      (ap (λ m. hex_value_from m out) (omega arith))

hex_onto-value :
    (fuel n : ℕ) (out : List ℕ)
    → n < 256 ^ fuel
    → hex_value_from 0 (hex_onto fuel n out) ≡ hex_value_from n out
hex_onto-value zero n out h = unfold hex_onto in ground arith
hex_onto-value (suc fuel) n out h =
    rw (hex_onto_step fuel n out) (elim (Bool-cases (n / 256 == 0)) [
      | inl done ↦ rw done (two_chars 0 n out ∙ ap (λ m. hex_value_from m out) (last done))
      | inr more ↦ rw more (
          hex_onto-value fuel (n / 256) (hex_char (n / 16 % 16) ∷ hex_char (n % 16) ∷ out)
            (omega (arith, pow-suc 256 fuel))
          ∙ two_chars (n / 256) n out
          ∙ ap (λ m. hex_value_from m out) (omega arith))
    ])
  where
    last : (n / 256 == 0) ≡ true → 0 * 256 + n % 256 ≡ n
    last done = omega (arith, (==_iff (n / 256) 0).0 done)

hex_onto-AllHex : (fuel n : ℕ) (out : List ℕ) → AllHex out → AllHex (hex_onto fuel n out)
hex_onto-AllHex zero n out h = unfold hex_onto in h
hex_onto-AllHex (suc fuel) n out h = ground (
  arith,
  hex_onto_step fuel n out,
  hex_char-digit_of (n % 16) (omega arith),
  hex_char-digit_of (n / 16 % 16) (omega arith),
  hex_onto-AllHex fuel (n / 256) (hex_char (n / 16 % 16) ∷ hex_char (n % 16) ∷ out),
)

length-hex_onto : (fuel n : ℕ) (out : List ℕ) → length (hex_onto fuel n out) ≤ 2 * fuel + length out
length-hex_onto zero n out = unfold hex_onto in omega arith
length-hex_onto (suc fuel) n out = ground (
  arith,
  hex_onto_step fuel n out,
  length-hex_onto fuel (n / 256) (hex_char (n / 16 % 16) ∷ hex_char (n % 16) ∷ out),
)

length-hex_onto-ge : (fuel n : ℕ) (out : List ℕ) → length out ≤ length (hex_onto fuel n out)
length-hex_onto-ge zero n out = unfold hex_onto in omega arith
length-hex_onto-ge (suc fuel) n out = ground (
  arith,
  hex_onto_step fuel n out,
  length-hex_onto-ge fuel (n / 256) (hex_char (n / 16 % 16) ∷ hex_char (n % 16) ∷ out),
)

hex_onto-pos : (fuel n : ℕ) (out : List ℕ) → 0 < length (hex_onto (suc fuel) n out)
hex_onto-pos fuel n out = ground (
  arith,
  hex_onto_step fuel n out,
  length-hex_onto-ge fuel (n / 256) (hex_char (n / 16 % 16) ∷ hex_char (n % 16) ∷ out),
)

-- For every `uint64_t` n, `util_uintToHex` puts in front of what stands at `bufferEnd` a text of at
-- most 16 hex digits, and `util_hexToUint` reads n back from it with its count of characters, if at
-- least 16 characters are allowed and what follows is no hex digit.
pub hex_to_uint-uint_to_hex :
    (n max_chars c : ℕ) (rest : List ℕ)
    → n < 2 ^ 64
    → 16 ≤ max_chars
    → ¬ IsHexDigit c
    → c < 256
    → (text : List ℕ) × (uint_to_hex (c ∷ rest) n ≡ text ++ c ∷ rest)
      × (length text ≤ uint64_max_hex_chars)
      × (hex_to_uint (uint_to_hex (c ∷ rest) n) max_chars ≡ stored (length text) n)
unfolding uint_to_hex
hex_to_uint-uint_to_hex n max_chars c rest h m nd b =
    let t = hex_onto 8 n [] in
    let a = hex_onto-append 8 n [] (c ∷ rest) in
    let l : length t ≤ 16 = omega (arith, length-hex_onto 8 n []) in
    (
      t,
      a,
      l,
      rw
          (
            a,
            hex_to_uint_lem t (c ∷ rest) max_chars (hex_onto-AllHex 8 n [] tt) (omega arith)
                (inl (nd, b)),
            hex_onto-value 8 n [] h,
          )
          (ground (arith, hex_onto-pos 7 n [])),
    )
