-- ===== src/Math/Gcd.antt =====
-- The loop computes the greatest common divisor.
use Prim.Native.Nat.{◌∣◌}
use native.Mathlib.Nat.{dvd-mod_iff, dvd-zero, mod-lt}
use hc.Base.{ℕ, zero, suc, ◌%◌, ◌<◌, ◌≡◌, ◌↔◌, arith}
use hc.Math.{gcd_loop, gcd}

gcd_loop_step : (fuel a b : ℕ) → gcd_loop (suc fuel) a (suc b) ≡ gcd_loop fuel (suc b) (a % suc b)
unfolding gcd_loop
gcd_loop_step fuel a b = ground arith

gcd_loop_iff : (d fuel a b : ℕ) → b < fuel → (d ∣ gcd_loop fuel a b) ↔ ((d ∣ a) × (d ∣ b))
gcd_loop_iff d zero a b h = absurd (omega arith)
gcd_loop_iff d (suc fuel) a zero h = unfold gcd_loop in (λ p. (p, dvd-zero d), λ p. p.0)
gcd_loop_iff d (suc fuel) a (suc b) h =
    let ih =
      gcd_loop_iff d fuel (suc b) (a % suc b) (omega (arith, mod-lt a {m = suc b} (omega arith))) in
    rw (gcd_loop_step fuel a b) (
      λ p. let q = ih.0 p in ((dvd-mod_iff d q.0).0 q.1, q.0),
      λ p. ih.1 (p.1, (dvd-mod_iff d p.1).1 p.0),
    )

-- A number divides what `math_gcd64` and `math_gcd32` return exactly where it divides both
-- arguments, so this is their greatest common divisor, zero arguments included.
pub dvd-gcd_iff : (d a b : ℕ) → (d ∣ gcd a b) ↔ ((d ∣ a) × (d ∣ b))
unfolding gcd
dvd-gcd_iff d a b = gcd_loop_iff d (suc b) a b (omega arith)
