-- ===== src/Mul128.antt =====
-- hc/core/hc/compilerRt/mul128.c: the product of two 64-bit words as two words, on machines whose
-- compiler has no wider multiplication.
mod Product
mod Tests
use hc.Base.{ℕ, ◌+◌, ◌*◌, ◌/◌, ◌%◌, ◌^◌, bit_and}

-- `mul128_64x64`; the result is `u64[0]`, then `u64[1]`. Sums and products are taken in `uint64_t`.
unfoldable pub mul128_64x64 : ℕ → ℕ → ℕ × ℕ
mul128_64x64 a b =
    let low0 = bit_and a 0xFFFFFFFF * bit_and b 0xFFFFFFFF % 2 ^ 64 in
    let temp0 = low0 / 2 ^ 32 in
    let low1 = bit_and low0 0xFFFFFFFF in
    let temp1 = (temp0 + a / 2 ^ 32 * bit_and b 0xFFFFFFFF % 2 ^ 64) % 2 ^ 64 in
    let low2 = (low1 + bit_and temp1 0xFFFFFFFF * 2 ^ 32 % 2 ^ 64) % 2 ^ 64 in
    let high0 = temp1 / 2 ^ 32 in
    let temp2 = low2 / 2 ^ 32 in
    let low3 = bit_and low2 0xFFFFFFFF in
    let temp3 = (temp2 + b / 2 ^ 32 * bit_and a 0xFFFFFFFF % 2 ^ 64) % 2 ^ 64 in
    let low4 = (low3 + bit_and temp3 0xFFFFFFFF * 2 ^ 32 % 2 ^ 64) % 2 ^ 64 in
    let high1 = (high0 + temp3 / 2 ^ 32) % 2 ^ 64 in
    let high2 = (high1 + a / 2 ^ 32 * (b / 2 ^ 32) % 2 ^ 64) % 2 ^ 64 in (low4, high2)
