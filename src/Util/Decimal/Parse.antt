-- ===== src/Util/Decimal/Parse.antt =====
-- What the parsing loop computes: the number that the digits stand for, or overflow exactly where
-- that number is above the limit.
use hc.Base.{
  ℕ, zero, suc, ◌+◌, ◌-◌, ◌*◌, ◌^◌, ◌≤◌, ◌<◌, ◌≡◌, ◌≢◌, refl, arith, List, [], ◌∷◌, ◌++◌, length,
  ltb, if◌then◌else◌, ◌⊎◌, inl,
}
use native.Mathlib.Nat.{add-zero}
use hc.Util.Decimal.{
  Parsed, overflow, stored, store_if, parse_loop, str_to_uint, uint64_max, uint_to_str,
}
use hc.Util.Decimal.Print.{
  value_from, IsDigit, AllDigits, IsDecimal, append_uint_to_str, uint_to_str-IsDecimal,
  length-uint_to_str,
}

-- The text is followed by a byte that is no digit, or it fills `maxChars`.
abbrev pub Ends : List ℕ → ℕ → ℕ → Type 0
Ends [] used max_chars = used ≡ max_chars
Ends (c ∷ rest) used max_chars = ¬ IsDigit c × (c < 256) ⊎ (used ≡ max_chars)

value_from-ge : (acc : ℕ) (text : List ℕ) → acc ≤ value_from acc text
value_from-ge acc [] = omega arith
value_from-ge acc (c ∷ cs) = omega (arith, value_from-ge (acc * 10 + (c - b'0')) cs)

pub Ends-suc :
    (rest : List ℕ) (used max_chars : ℕ)
    → Ends rest (suc used) (suc max_chars)
    → Ends rest used max_chars
Ends-suc [] used max_chars h = omega arith
Ends-suc (c ∷ rest) used max_chars h = ground arith

module _ {A : Type 0} (max_number : ℕ) (finish : ℕ → ℕ → Parsed A) where
  parse_loop-end :
      (rest : List ℕ) (left i result : ℕ)
      → Ends rest 0 left
      → parse_loop max_number finish rest left i result ≡ finish i result
  unfolding parse_loop
  parse_loop-end [] zero i r h = refl
  parse_loop-end [] (suc left) i r h = absurd (omega arith)
  parse_loop-end (c ∷ rest) zero i r h = refl
  parse_loop-end (c ∷ rest) (suc left) i r h = ground arith

  pub parse_loop_lem :
      (text rest : List ℕ) (left i result : ℕ)
      → 9 < max_number
      → max_number < 2 ^ 64
      → result ≤ max_number
      → AllDigits text
      → length text ≤ left
      → Ends rest (length text) left
      → parse_loop max_number finish (text ++ rest) left i result ≡ (
          if ltb max_number (value_from result text)
          then overflow
          else finish (i + length text) (value_from result text))
  unfolding parse_loop
  parse_loop_lem [] rest left i r m mm hr d l e =
      ground (arith, parse_loop-end rest left i r e, add-zero i)
  parse_loop_lem (c ∷ cs) rest zero i r m mm hr d l e = absurd (omega arith)
  parse_loop_lem (c ∷ cs) rest (suc left) i r m mm hr d l e = ground (
    arith,
    Ends-suc rest (length cs) left e,
    value_from-ge (r * 10 + (c - b'0')) cs,
    parse_loop_lem cs rest left (i + 1) (r * 10 + (c - b'0')) m mm,
  )

-- What `util_strToUint` returns for a text of digits that ends inside the `maxChars` first bytes:
-- -1 exactly where the number that the text stands for is above 2 ^ 64 - 1, 0 with nothing stored
-- for no digits, and otherwise the count of digits with that number stored.
pub str_to_uint_lem :
    (text rest : List ℕ) (max_chars : ℕ)
    → AllDigits text
    → length text ≤ max_chars
    → Ends rest (length text) max_chars
    → str_to_uint (text ++ rest) max_chars ≡ (
        if ltb uint64_max (value_from 0 text)
        then overflow
        else store_if (ltb 0 (length text)) (length text) (value_from 0 text))
unfolding str_to_uint
str_to_uint_lem text rest max_chars d l e = ground (
  arith,
  parse_loop_lem uint64_max (λ i result. store_if (ltb 0 i) i result) text rest max_chars 0 0,
)

pub length-pos : (text : List ℕ) → text ≢ [] → 0 < length text
length-pos [] h = absurd (h refl)
length-pos (c ∷ cs) h = omega arith

-- What `util_uintToStr` writes for a `uint64_t`, `util_strToUint` reads back, with its count of
-- characters, if at least 20 characters are allowed and what follows is no digit.
pub str_to_uint-uint_to_str :
    (n max_chars c : ℕ) (rest : List ℕ)
    → n < 2 ^ 64
    → 20 ≤ max_chars
    → ¬ IsDigit c
    → c < 256
    → str_to_uint (uint_to_str (c ∷ rest) n) max_chars ≡ stored (length (uint_to_str [] n)) n
str_to_uint-uint_to_str n max_chars c rest h m nd b =
    let t = uint_to_str [] n in
    let d : IsDecimal n t = uint_to_str-IsDecimal n h in
    rw
      (
        append_uint_to_str n (c ∷ rest),
        str_to_uint_lem t (c ∷ rest) max_chars d.all_digits (omega (arith, length-uint_to_str n))
            (inl (nd, b)),
        d.value,
      )
      (ground (arith, length-pos t d.not_empty))
