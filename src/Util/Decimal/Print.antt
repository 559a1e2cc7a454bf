-- ===== src/Util/Decimal/Print.antt =====
-- What `util_uintToStr` writes: the digits of the number, at most 20, none superfluous.
use hc.Base.{
  ℕ, zero, suc, ◌+◌, ◌-◌, ◌*◌, ◌/◌, ◌%◌, ◌^◌, ◌≤◌, ◌<◌, ◌≡◌, ◌≢◌, refl, arith, List, [], ◌∷◌, ◌++◌,
  length,
}
use native.Mathlib.Nat.{pow-suc}
use hc.Util.Decimal.{digits_onto, uint_to_str, uint64_max_chars}

-- The value of a text of decimal digits, read after a number `acc`.
abbrev pub value_from : ℕ → List ℕ → ℕ
value_from acc [] = acc
value_from acc (c ∷ cs) = value_from (acc * 10 + (c - b'0')) cs

abbrev pub IsDigit : ℕ → Type 0
IsDigit c = (b'0' ≤ c) × (c ≤ b'9')

abbrev pub AllDigits : List ℕ → Type 0
AllDigits [] = Unit {0}
AllDigits (c ∷ cs) = IsDigit c × AllDigits cs

-- What is known of the text that stands for a number.
pub record IsDecimal (n : ℕ) (text : List ℕ) : Type 0 where
  pub all_digits : AllDigits text
  pub value : value_from 0 text ≡ n
  pub not_empty : text ≢ []
  pub no_leading_zero : (cs : List ℕ) → text ≡ b'0' ∷ cs → cs ≡ []

digits_onto-append :
    (fuel n : ℕ) (out rest : List ℕ)
    → digits_onto fuel n (out ++ rest) ≡ digits_onto fuel n out ++ rest
unfolding digits_onto
digits_onto-append zero n out rest = refl
digits_onto-append (suc fuel) n out rest =
    ground (arith, digits_onto-append fuel (n / 10) ((b'0' + n % 10) ∷ out) rest)

-- With enough fuel the loop writes the digits in front.
digits_onto-value :
    (fuel n : ℕ) (out : List ℕ)
    → n < 10 ^ fuel
    → value_from 0 (digits_onto fuel n out) ≡ value_from n out
unfolding digits_onto
digits_onto-value zero n out h = ground arith
digits_onto-value (suc fuel) n out h = ground (
  arith,
  pow-suc 10 fuel,
  digits_onto-value fuel (n / 10) ((b'0' + n % 10) ∷ out) (omega (arith, pow-suc 10 fuel)),
)

digits_onto-AllDigits :
    (fuel n : ℕ) (out : List ℕ) → AllDigits out → AllDigits (digits_onto fuel n out)
unfolding digits_onto
digits_onto-AllDigits zero n out h = h
digits_onto-AllDigits (suc fuel) n out h =
    ground (arith, digits_onto-AllDigits fuel (n / 10) ((b'0' + n % 10) ∷ out))

digits_onto-head :
    (fuel n : ℕ) (out cs : List ℕ) → n < 10 ^ fuel → 0 < n → digits_onto fuel n out ≢ b'0' ∷ cs
unfolding digits_onto
digits_onto-head zero n out cs h pos = ground arith
digits_onto-head (suc fuel) n out cs h pos = ground (
  arith,
  digits_onto-head fuel (n / 10) ((b'0' + n % 10) ∷ out) cs (omega (arith, pow-suc 10 fuel)),
)

length-digits_onto :
    (fuel n : ℕ) (out : List ℕ) → length (digits_onto fuel n out) ≤ fuel + length out
unfolding digits_onto
length-digits_onto zero n out = omega arith
length-digits_onto (suc fuel) n out =
    ground (arith, length-digits_onto fuel (n / 10) ((b'0' + n % 10) ∷ out))

-- A number below 10 ^ (k + 1) has at most k + 1 digits.
length-digits_onto_lt :
    (fuel k n : ℕ) (out : List ℕ)
    → n < 10 ^ suc k
    → length (digits_onto fuel n out) ≤ suc k + length out
unfolding digits_onto
length-digits_onto_lt zero k n out h = omega arith
length-digits_onto_lt (suc fuel) zero n out h = ground (arith, pow-suc 10 0)
length-digits_onto_lt (suc fuel) (suc k) n out h = ground (
  arith,
  pow-suc 10 (suc k),
  length-digits_onto_lt fuel k (n / 10) ((b'0' + n % 10) ∷ out) (omega (arith, pow-suc 10 (suc k))),
)

-- The digits of an `int64_t` leave room for its sign.
pub length-uint_to_str_signed : (n : ℕ) → n ≤ 2 ^ 63 → length (uint_to_str [] n) ≤ 19
unfolding uint_to_str
length-uint_to_str_signed n h = omega (arith, length-digits_onto_lt 20 18 n [] (omega arith))

digits_onto-ne-nil : (fuel n c : ℕ) (out : List ℕ) → digits_onto fuel n (c ∷ out) ≢ []
unfolding digits_onto
digits_onto-ne-nil zero n c out = ground arith
digits_onto-ne-nil (suc fuel) n c out =
    ground (arith, digits_onto-ne-nil fuel (n / 10) (b'0' + n % 10) (c ∷ out))

uint_to_str-ne-nil : (n : ℕ) → uint_to_str [] n ≢ []
unfolding uint_to_str
uint_to_str-ne-nil n = ground (arith, digits_onto-ne-nil 19 (n / 10) (b'0' + n % 10) [])

uint_to_str_zero : (cs : List ℕ) → uint_to_str [] 0 ≡ b'0' ∷ cs → cs ≡ []
unfolding uint_to_str
uint_to_str_zero cs h = ground arith

uint_to_str-head : (n : ℕ) (cs : List ℕ) → n < 2 ^ 64 → uint_to_str [] n ≡ b'0' ∷ cs → cs ≡ []
uint_to_str-head zero cs h e = uint_to_str_zero cs e
uint_to_str-head (suc n) cs h e =
    absurd (unfold uint_to_str in digits_onto-head 20 (suc n) [] cs (omega arith) (omega arith) e)

pub uint_to_str-IsDecimal : (n : ℕ) → n < 2 ^ 64 → IsDecimal n (uint_to_str [] n)
uint_to_str-IsDecimal n h = record {
  all_digits = unfold uint_to_str in digits_onto-AllDigits 20 n [] tt;
  value = unfold uint_to_str in digits_onto-value 20 n [] (omega arith);
  not_empty = uint_to_str-ne-nil n;
  no_leading_zero = λ cs e. uint_to_str-head n cs h e;
}

pub length-uint_to_str : (n : ℕ) → length (uint_to_str [] n) ≤ uint64_max_chars
unfolding uint_to_str
length-uint_to_str n = omega (arith, length-digits_onto 20 n [])

pub append_uint_to_str : (n : ℕ) (rest : List ℕ) → uint_to_str rest n ≡ uint_to_str [] n ++ rest
unfolding uint_to_str
append_uint_to_str n rest = digits_onto-append 20 n [] rest

-- For every `uint64_t` n, `util_uintToStr` puts in front of what stands at `bufferEnd` a text that
-- is not empty, of at most 20 bytes, all decimal digits, with no superfluous leading zero, and
-- whose value is n.
pub uint_to_str_lem :
    (n : ℕ) (rest : List ℕ)
    → n < 2 ^ 64
    → (text : List ℕ) × (uint_to_str rest n ≡ text ++ rest)
      × IsDecimal n text
      × (length text ≤ uint64_max_chars)
uint_to_str_lem n rest h =
    (uint_to_str [] n, append_uint_to_str n rest, uint_to_str-IsDecimal n h, length-uint_to_str n)
