-- ===== src/Math.antt =====
-- hc/core/hc/math.c: the alignment macros and the greatest common divisors. A macro is used at words of
-- several widths, so each takes the width `w` of its argument's type.
pub mod Align
mod Gcd
mod Tests
use hc.Base.{ℕ, zero, suc, ◌+◌, ◌-◌, ◌%◌, ◌^◌, ◌<◌, ◌==◌, Bool, true, false, ◌&&◌, ltb, bit_and}

-- `~x` in a word of `w` bits.
abbrev pub lnot : ℕ → ℕ → ℕ
lnot w x = 2 ^ w - 1 - x

-- `math_ALIGN_FORWARD`: `(X + (ALIGN - 1)) & ~(typeof(X))(ALIGN - 1)`
unfoldable pub align_forward : ℕ → ℕ → ℕ → ℕ
align_forward w x align = bit_and ((x + (align - 1)) % 2 ^ w) (lnot w (align - 1))

-- `math_ALIGN_BACKWARD`: `X & ~(typeof(X))(ALIGN - 1)`
unfoldable pub align_backward : ℕ → ℕ → ℕ → ℕ
align_backward w x align = bit_and x (lnot w (align - 1))

-- `math_ALIGN_REMAINDER`: `X & (ALIGN - 1)`
unfoldable pub align_remainder : ℕ → ℕ → ℕ
align_remainder x align = bit_and x (align - 1)

-- `math_PAD_BYTES`: `-(X) & (ALIGN - 1)`
unfoldable pub pad_bytes : ℕ → ℕ → ℕ → ℕ
pad_bytes w x align = bit_and ((2 ^ w - x) % 2 ^ w) (align - 1)

-- `math_RANGES_OVERLAP`
unfoldable pub ranges_overlap : ℕ → ℕ → ℕ → ℕ → Bool
ranges_overlap x_start x_end y_start y_end = ltb x_start y_end && ltb y_start x_end

-- The loop of `math_gcd64` and `math_gcd32`, with rounds left: `b` falls in each.
pub gcd_loop : ℕ → ℕ → ℕ → ℕ
gcd_loop zero a b = a
gcd_loop (suc fuel) a b = elim (b == 0) [ true ↦ a | false ↦ gcd_loop fuel b (a % b) ]

-- `math_gcd64` and `math_gcd32`: `b + 1` rounds are enough.
pub gcd : ℕ → ℕ → ℕ
unfolding gcd_loop
gcd a b = gcd_loop (suc b) a b
