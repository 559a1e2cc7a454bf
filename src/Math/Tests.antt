-- ===== src/Math/Tests.antt =====
-- Runs of the macros and of the loop, and the theorems at concrete inputs.
use Prim.Native.Nat.{◌∣◌}
use hc.Base.{ℕ, ◌-◌, ◌%◌, ◌^◌, ◌≤◌, ◌≡◌, ◌↔◌, refl, arith}
use hc.Math.{align_forward, pad_bytes, gcd}
use hc.Math.Gcd.{dvd-gcd_iff}
use hc.Math.Align.{align_forward-IsLeast}

math_runs :
    (align_forward 32 5 4 ≡ 8)
    × (pad_bytes 64 513 512 ≡ 511)
    × (pad_bytes 64 0 512 ≡ 0)
    × (gcd 48 36 ≡ 12)
    × (gcd 7 0 ≡ 7)
unfolding align_forward pad_bytes gcd
math_runs = (refl, refl, refl, refl, refl)

-- Without the bound the addition wraps: nothing is above the last page of the address space.
align_forward_wraps : align_forward 32 (2 ^ 32 - 1) 4096 ≡ 0
unfolding align_forward
align_forward_wraps = refl

align_forward-IsLeast_example :
    (5 ≤ align_forward 32 5 4)
    × (align_forward 32 5 4 % 4 ≡ 0)
    × ((m : ℕ) → 5 ≤ m → m % 4 ≡ 0 → align_forward 32 5 4 ≤ m)
align_forward-IsLeast_example = align_forward-IsLeast 32 2 5 (omega arith) (omega arith)

dvd-gcd_iff_example : (6 ∣ gcd 48 36) ↔ ((6 ∣ 48) × (6 ∣ 36))
dvd-gcd_iff_example = dvd-gcd_iff 6 48 36
