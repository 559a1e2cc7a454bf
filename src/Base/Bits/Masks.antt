-- ===== src/Base/Bits/Masks.antt =====
-- Masks and disjoint fields, at every width.
use hc.Base.Bits.Digits.{bit_and-halves, bit_or-halves, bit_xor-halves}
use hc.Base.Names.{
  ℕ, zero, suc, ◌+◌, ◌-◌, ◌*◌, ◌/◌, ◌%◌, ◌^◌, ◌≤◌, ◌<◌, bit_and, bit_or, bit_xor, ◌≡◌, refl, ap,
  ◌∙◌, arith,
}
use native.Mathlib.Nat.{add-zero, pow-suc, one-le-pow, mod-eq_of_lt}

pub two_pow_pos : (k : ℕ) → 1 ≤ 2 ^ k
two_pow_pos k = one-le-pow k 2 (omega arith)

pub two_pow_suc : (k : ℕ) → 2 ^ suc k ≡ 2 * 2 ^ k
two_pow_suc k = omega (arith, pow-suc 2 k)

mul-two_pow_suc : (q k : ℕ) → q * 2 ^ suc k ≡ 2 * (q * 2 ^ k)
mul-two_pow_suc q k = omega (arith, ap (λ (t : ℕ). q * t) (pow-suc 2 k))

-- By rounds, since each equation goes from half of the number to the number.
bit_or-zero_rounds : (n a : ℕ) → a ≤ n → bit_or a 0 ≡ a
bit_or-zero_rounds n zero h = refl
bit_or-zero_rounds zero (suc a) h = absurd (omega arith)
bit_or-zero_rounds (suc n) (suc a) h =
    omega (arith, bit_or-halves (suc a) 0, bit_or-zero_rounds n (suc a / 2) (omega arith))

pub bit_or-zero : (a : ℕ) → bit_or a 0 ≡ a
bit_or-zero a = bit_or-zero_rounds a a (omega arith)

bit_and-zero_rounds : (n a : ℕ) → a ≤ n → bit_and a 0 ≡ 0
bit_and-zero_rounds n zero h = refl
bit_and-zero_rounds zero (suc a) h = absurd (omega arith)
bit_and-zero_rounds (suc n) (suc a) h =
    omega (arith, bit_and-halves (suc a) 0, bit_and-zero_rounds n (suc a / 2) (omega arith))

pub bit_and-zero : (a : ℕ) → bit_and a 0 ≡ 0
bit_and-zero a = bit_and-zero_rounds a a (omega arith)

-- `(q << k) | r` is a sum where `r` fits in `k` bits.
pub bit_or-field : (k q r : ℕ) → r < 2 ^ k → bit_or (q * 2 ^ k) r ≡ q * 2 ^ k + r
bit_or-field zero q r h = ground (arith, bit_or-zero q)
bit_or-field (suc k) q r h = ground (
  arith,
  mul-two_pow_suc q k,
  two_pow_suc k,
  bit_or-halves (q * 2 ^ suc k) r,
  bit_or-field k q (r / 2) (omega (arith, two_pow_suc k)),
)

-- A low mask keeps the low field.
bit_and-field_low : (k q r : ℕ) → r < 2 ^ k → bit_and (q * 2 ^ k + r) (2 ^ k - 1) ≡ r
bit_and-field_low zero q r h = rw (bit_and-zero (q * 2 ^ 0 + r)) (omega arith)
bit_and-field_low (suc k) q r h = ground (
  arith,
  mul-two_pow_suc q k,
  two_pow_suc k,
  two_pow_pos k,
  bit_and-halves (q * 2 ^ suc k + r) (2 ^ suc k - 1),
  bit_and-field_low k q (r / 2) (omega (arith, two_pow_suc k)),
)

-- A mask that is shifted keeps the high field.
bit_and-field_high :
    (k p q r : ℕ) → r < 2 ^ k → bit_and (q * 2 ^ k + r) (p * 2 ^ k) ≡ bit_and q p * 2 ^ k
bit_and-field_high zero p q r h = ground arith
bit_and-field_high (suc k) p q r h = ground (
  arith,
  mul-two_pow_suc q k,
  mul-two_pow_suc p k,
  mul-two_pow_suc (bit_and q p) k,
  two_pow_suc k,
  bit_and-halves (q * 2 ^ suc k + r) (p * 2 ^ suc k),
  bit_and-field_high k p q (r / 2) (omega (arith, two_pow_suc k)),
)

-- `a & ((1 << k) - 1)` is a remainder.
pub bit_and-low : (k a : ℕ) → bit_and a (2 ^ k - 1) ≡ a % 2 ^ k
bit_and-low k a = ground (
  arith,
  two_pow_pos k,
  bit_and-field_low k (a / 2 ^ k) (a % 2 ^ k) (omega (arith, two_pow_pos k)),
)

-- `a & ~((1 << k) - 1)` in words of `j + k` bits rounds down to a multiple of `2 ^ k`.
pub bit_and-high :
    (j k a : ℕ) → a / 2 ^ k < 2 ^ j → bit_and a ((2 ^ j - 1) * 2 ^ k) ≡ a / 2 ^ k * 2 ^ k
bit_and-high j k a h = ground (
  arith,
  two_pow_pos k,
  mod-eq_of_lt h,
  bit_and-low j (a / 2 ^ k),
  bit_and-field_high k (2 ^ j - 1) (a / 2 ^ k) (a % 2 ^ k) (omega (arith, two_pow_pos k)),
)

pub bit_xor_self : (n a : ℕ) → a ≤ n → bit_xor a a ≡ 0
bit_xor_self n zero h = refl
bit_xor_self zero (suc a) h = absurd (omega arith)
bit_xor_self (suc n) (suc a) h =
    omega (arith, bit_xor-halves (suc a) (suc a), bit_xor_self n (suc a / 2) (omega arith))

pub two_pow_add : (j k : ℕ) → 2 ^ (j + k) ≡ 2 ^ j * 2 ^ k
two_pow_add j zero = rw add-zero (omega arith)
two_pow_add j (suc k) =
    let e : j + suc k ≡ suc (j + k) = omega arith in
    rw e (omega (arith, two_pow_suc (j + k), two_pow_add j k, mul-two_pow_suc (2 ^ j) k))

pub two_pow_split : (k w : ℕ) → k ≤ w → 2 ^ w ≡ 2 ^ (w - k) * 2 ^ k
two_pow_split k w h =
    let e : w ≡ w - k + k = omega arith in ap (λ n. 2 ^ n) e ∙ two_pow_add (w - k) k
