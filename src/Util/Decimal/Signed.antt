-- ===== src/Util/Decimal/Signed.antt =====
-- Signed numbers: `util_intToStr` and `util_strToInt`.
use hc.Base.{
  ℕ, zero, suc, ◌+◌, ◌-◌, ◌%◌, ◌^◌, ◌≤◌, ◌<◌, ◌≡◌, ◌≢◌, refl, arith, List, [], ◌∷◌, ◌++◌, length,
  ltb, if◌then◌else◌, ℤ, pos, negsuc, sub_ℕ, IsInt64, ap,
}
use hc.Util.Decimal.{
  overflow, stored, store_if, str_to_int, with_sign, int64_max, uint_to_str, int_to_str,
  digits_onto,
}
use hc.Util.Decimal.Print.{
  value_from, IsDigit, AllDigits, IsDecimal, append_uint_to_str, uint_to_str-IsDecimal,
  length-uint_to_str, length-uint_to_str_signed,
}
use hc.Util.Decimal.Parse.{Ends, Ends-suc, parse_loop_lem, length-pos}

-- -n, as an integer.
abbrev pub minus : ℕ → ℤ
minus n = sub_ℕ 0 n

with_sign_zero : (n : ℕ) → n ≤ int64_max → with_sign 0 n ≡ pos n
with_sign_zero n h = ground arith

with_sign_one : (n : ℕ) → n ≤ int64_max + 1 → with_sign 1 n ≡ minus n
with_sign_one n h = ground arith

-- After a minus sign, a text of digits gives the negated number, or overflow above 2 ^ 63.
pub str_to_int_negative :
    (text rest : List ℕ) (max_chars : ℕ)
    → AllDigits text
    → text ≢ []
    → length text ≤ max_chars
    → Ends rest (length text) max_chars
    → str_to_int (b'-' ∷ (text ++ rest)) (suc max_chars) ≡ (
        if ltb (2 ^ 63) (value_from 0 text)
        then overflow
        else stored (1 + length text) (minus (value_from 0 text)))
unfolding str_to_int
str_to_int_negative text rest max_chars d ne l e = ground (
  arith,
  length-pos text ne,
  with_sign_one (value_from 0 text),
  parse_loop_lem (int64_max + 1) (λ i result. store_if (ltb 1 i) i (with_sign 1 result)) text rest
      max_chars 1 0,
)

-- With no sign in front, a text of digits gives its number, or overflow above 2 ^ 63 - 1.
pub str_to_int_positive :
    (c : ℕ) (text rest : List ℕ) (max_chars : ℕ)
    → AllDigits (c ∷ text)
    → length text ≤ max_chars
    → Ends rest (suc (length text)) (suc max_chars)
    → str_to_int (c ∷ (text ++ rest)) (suc max_chars) ≡ (
        if ltb int64_max (value_from 0 (c ∷ text))
        then overflow
        else stored (suc (length text)) (pos (value_from 0 (c ∷ text))))
unfolding str_to_int
str_to_int_positive c text rest max_chars d l e = ground (
  arith,
  with_sign_zero (value_from 0 (c ∷ text)),
  parse_loop_lem (int64_max + 0) (λ i result. store_if (ltb 0 i) i (with_sign 0 result)) (c ∷ text)
      rest (suc max_chars) 0 0,
)

int_to_str_pos : (n : ℕ) (rest : List ℕ) → int_to_str rest (pos n) ≡ uint_to_str rest n
unfolding int_to_str uint_to_str
int_to_str_pos n rest = refl

int_to_str_negsuc :
    (n : ℕ) (rest : List ℕ)
    → n < 2 ^ 63
    → int_to_str rest (negsuc n) ≡ b'-' ∷ uint_to_str rest (suc n)
unfolding int_to_str uint_to_str
int_to_str_negsuc n rest h =
    let e : (2 ^ 64 - (2 ^ 64 - suc n)) % 2 ^ 64 ≡ suc n = omega arith in
    ap (λ m. b'-' ∷ digits_onto 20 m rest) e

-- `str_to_int_positive` over the whole text.
str_to_int_digits :
    (text rest : List ℕ) (max_chars : ℕ)
    → text ≢ []
    → AllDigits text
    → value_from 0 text ≤ int64_max
    → length text ≤ max_chars
    → Ends rest (length text) max_chars
    → str_to_int (text ++ rest) max_chars ≡ stored (length text) (pos (value_from 0 text))
str_to_int_digits [] rest max_chars ne d v l e = absurd (ne refl)
str_to_int_digits (c ∷ text) rest zero ne d v l e = absurd (omega arith)
str_to_int_digits (c ∷ text) rest (suc max_chars) ne d v l e =
    ground (arith, str_to_int_positive c text rest max_chars d)

str_to_int-minus :
    (text rest : List ℕ) (max_chars : ℕ)
    → text ≢ []
    → AllDigits text
    → value_from 0 text ≤ int64_max + 1
    → suc (length text) ≤ max_chars
    → Ends rest (suc (length text)) max_chars
    → str_to_int (b'-' ∷ (text ++ rest)) max_chars
      ≡ stored (suc (length text)) (minus (value_from 0 text))
str_to_int-minus text rest zero ne d v l e = absurd (omega arith)
str_to_int-minus text rest (suc max_chars) ne d v l e =
    ground (arith, Ends-suc rest (length text) max_chars, str_to_int_negative text rest max_chars d)

-- What `util_intToStr` writes for an `int64_t`, `util_strToInt` reads back.
pub str_to_int-int_to_str :
    (z : ℤ) (max_chars c : ℕ) (rest : List ℕ)
    → IsInt64 z
    → 20 ≤ max_chars
    → ¬ IsDigit c
    → c < 256
    → str_to_int (int_to_str (c ∷ rest) z) max_chars ≡ stored (length (int_to_str [] z)) z
str_to_int-int_to_str (pos n) max_chars c rest h m nd b =
    let t = uint_to_str [] n in
    let d : IsDecimal n t = uint_to_str-IsDecimal n (omega arith) in
    rw (int_to_str_pos n (c ∷ rest), int_to_str_pos n [], append_uint_to_str n (c ∷ rest))
      (ground (
        arith,
        length-uint_to_str n,
        str_to_int_digits t (c ∷ rest) max_chars d.not_empty d.all_digits,
      ))
str_to_int-int_to_str (negsuc n) max_chars c rest h m nd b =
    let t = uint_to_str [] (suc n) in
    let d : IsDecimal (suc n) t = uint_to_str-IsDecimal (suc n) (omega arith) in
    rw
      (
        int_to_str_negsuc n (c ∷ rest) h,
        int_to_str_negsuc n [] h,
        append_uint_to_str (suc n) (c ∷ rest),
      )
      (ground (
        arith,
        length-uint_to_str_signed (suc n),
        str_to_int-minus t (c ∷ rest) max_chars d.not_empty d.all_digits,
      ))
