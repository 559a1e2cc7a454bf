-- ===== src/Mul128/Tests.antt =====
-- The largest factors.
use hc.Base.{◌+◌, ◌-◌, ◌*◌, ◌^◌, ◌<◌, ◌≡◌, refl, arith}
use hc.Mul128.{mul128_64x64}
use hc.Mul128.Product.{mul128_64x64_lem}

largest : mul128_64x64 (2 ^ 64 - 1) (2 ^ 64 - 1) ≡ (1, 2 ^ 64 - 2)
unfolding mul128_64x64
largest = refl

mul128_64x64_lem_example :
    let r = mul128_64x64 (2 ^ 64 - 1) (2 ^ 63 + 5) in
    (r.0 + r.1 * 2 ^ 64 ≡ (2 ^ 64 - 1) * (2 ^ 63 + 5)) × (r.0 < 2 ^ 64) × (r.1 < 2 ^ 64)
mul128_64x64_lem_example = mul128_64x64_lem (2 ^ 64 - 1) (2 ^ 63 + 5) (omega arith) (omega arith)
