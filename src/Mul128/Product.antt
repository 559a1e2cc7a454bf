-- ===== src/Mul128/Product.antt =====
-- The two words are the product.
use native.Mathlib.Nat.{mul-le-mul_left, mul-le-mul_right}
use hc.Base.{
  ℕ, ◌+◌, ◌-◌, ◌*◌, ◌/◌, ◌%◌, ◌^◌, ◌≤◌, ◌<◌, ◌≡◌, ◌∙◌, ap₂, sym, arith, bit_and, bit_and-low,
}
use hc.Mul128.{mul128_64x64}

-- The sums over the four products of halves, as words.
sums :
    (x y z w : ℕ)
    → x ≤ (2 ^ 32 - 1) * (2 ^ 32 - 1)
    → y ≤ (2 ^ 32 - 1) * (2 ^ 32 - 1)
    → z ≤ (2 ^ 32 - 1) * (2 ^ 32 - 1)
    → w ≤ (2 ^ 32 - 1) * (2 ^ 32 - 1)
    → let low0 = x % 2 ^ 64 in
      let temp0 = low0 / 2 ^ 32 in
      let low1 = low0 % 2 ^ 32 in
      let temp1 = (temp0 + y % 2 ^ 64) % 2 ^ 64 in
      let low2 = (low1 + temp1 % 2 ^ 32 * 2 ^ 32 % 2 ^ 64) % 2 ^ 64 in
      let high0 = temp1 / 2 ^ 32 in
      let temp2 = low2 / 2 ^ 32 in
      let low3 = low2 % 2 ^ 32 in
      let temp3 = (temp2 + z % 2 ^ 64) % 2 ^ 64 in
      let low4 = (low3 + temp3 % 2 ^ 32 * 2 ^ 32 % 2 ^ 64) % 2 ^ 64 in
      let high1 = (high0 + temp3 / 2 ^ 32) % 2 ^ 64 in
      let high2 = (high1 + w % 2 ^ 64) % 2 ^ 64 in
      low4 + high2 * 2 ^ 64 ≡ x + y * 2 ^ 32 + z * 2 ^ 32 + w * 2 ^ 64
sums x y z w hx hy hz hw = omega arith

half_product : (p q : ℕ) → p < 2 ^ 32 → q < 2 ^ 32 → p * q ≤ (2 ^ 32 - 1) * (2 ^ 32 - 1)
half_product p q hp hq = omega (
  arith,
  mul-le-mul_right {m = p} {n = 2 ^ 32 - 1} q (omega arith),
  mul-le-mul_left {m = q} {n = 2 ^ 32 - 1} (2 ^ 32 - 1) (omega arith),
)

halves :
    (p q r s : ℕ)
    → (p * 2 ^ 32 + q) * (r * 2 ^ 32 + s) ≡ q * s + p * s * 2 ^ 32 + r * q * 2 ^ 32 + p * r * 2 ^ 64
halves p q r s = grind arith

-- `mul128_64x64` on two 64-bit words: the two words of the result are below 2 ^ 64 and together are
-- the exact product.
pub mul128_64x64_lem :
    (a b : ℕ)
    → a < 2 ^ 64
    → b < 2 ^ 64
    → let r = mul128_64x64 a b in (r.0 + r.1 * 2 ^ 64 ≡ a * b) × (r.0 < 2 ^ 64) × (r.1 < 2 ^ 64)
unfolding mul128_64x64
mul128_64x64_lem a b ha hb =
    let al = a % 2 ^ 32 in
    let ah = a / 2 ^ 32 in
    let bl = b % 2 ^ 32 in
    let bh = b / 2 ^ 32 in
    let low : (x : ℕ) → bit_and x 0xFFFFFFFF ≡ x % 2 ^ 32 = bit_and-low 32 in
    let split_a : ah * 2 ^ 32 + al ≡ a = omega arith in
    let split_b : bh * 2 ^ 32 + bl ≡ b = omega arith in
    (
      simp low (
          sums (al * bl) (ah * bl) (bh * al) (ah * bh)
            (half_product al bl (omega arith) (omega arith))
            (half_product ah bl (omega arith) (omega arith))
            (half_product bh al (omega arith) (omega arith))
            (half_product ah bh (omega arith) (omega arith))
          ∙ sym (halves ah al bh bl)
          ∙ ap₂ ◌*◌ split_a split_b),
      omega arith,
      omega arith,
    )
