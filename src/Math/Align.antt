-- ===== src/Math/Align.antt =====
-- The alignment macros at a power of two.
use native.Mathlib.Nat.{
  mod-eq_of_lt, mul-le-mul_right, le_of_mul-le-mul_right, mul-add-mod_self_right, mod-mod_of_dvd,
  div-add-mod', mod-lt, div-lt_iff_lt-mul, mod-eq-zero_of_dvd, dvd-mul_left,
}
use Prim.Native.Nat.{◌∣◌}
use hc.Base.{
  ℕ, ◌+◌, ◌-◌, ◌*◌, ◌/◌, ◌%◌, ◌^◌, ◌≤◌, ◌<◌, ◌≡◌, ◌↔◌, arith, bit_and, bit_and-low, bit_and-high,
  two_pow_pos, two_pow_split, true, ap, zero, suc, max, dec_lt,
}
use hc.Math.{lnot, align_forward, align_backward, align_remainder, pad_bytes, ranges_overlap}

pub pred-mul : (a p : ℕ) → 1 ≤ a → (a - 1) * p + p ≡ a * p
pred-mul zero p h = absurd (omega arith)
pred-mul (suc a) p h = let e : suc a - 1 ≡ a = omega arith in rw e (omega arith)

-- The mask of a power of two that fits in the word.
lnot_lem : (w k : ℕ) → k ≤ w → lnot w (2 ^ k - 1) ≡ (2 ^ (w - k) - 1) * 2 ^ k
lnot_lem w k h = omega (
  arith,
  two_pow_split k w h,
  two_pow_pos k,
  pred-mul (2 ^ (w - k)) (2 ^ k) (two_pow_pos (w - k)),
)

round_down : (w k x : ℕ) → k ≤ w → x < 2 ^ w → bit_and x (lnot w (2 ^ k - 1)) ≡ x / 2 ^ k * 2 ^ k
round_down w k x h hx = rw (lnot_lem w k h) (
    bit_and-high (w - k) k x
      ((div-lt_iff_lt-mul (two_pow_pos k)).1 (rw (two_pow_split k w h) at hx)))

align_forward_div :
    (w k x : ℕ)
    → k ≤ w
    → x + (2 ^ k - 1) < 2 ^ w
    → align_forward w x (2 ^ k) ≡ (x + (2 ^ k - 1)) / 2 ^ k * 2 ^ k
unfolding align_forward
align_forward_div w k x h hx = rw (mod-eq_of_lt hx) (round_down w k (x + (2 ^ k - 1)) h hx)

mul-mod : (q p : ℕ) → q * p % p ≡ 0
mul-mod q p = mod-eq-zero_of_dvd p (dvd-mul_left p q)

-- Facts on rounding, over any positive step.
module _ (p : ℕ) (pos : 0 < p) where
  up_ge : (x : ℕ) → x ≤ (x + (p - 1)) / p * p
  up_ge x = omega (arith, div-add-mod' (x + (p - 1)) p, mod-lt (x + (p - 1)) pos)

  multiples_apart : (a b : ℕ) → a * p < b * p → a * p + p ≤ b * p
  multiples_apart a b h = elim (dec_lt a b) [
    | yes lt ↦ omega (arith, mul-le-mul_right {m = suc a} {n = b} p lt)
    | no ge ↦ absurd (omega (arith, mul-le-mul_right {m = b} {n = a} p (omega arith)))
  ]

  up_le : (x m : ℕ) → x ≤ m → m % p ≡ 0 → (x + (p - 1)) / p * p ≤ m
  up_le x m h e = elim (dec_lt m ((x + (p - 1)) / p * p)) [
    | yes lt ↦ absurd (
        omega (
          arith,
          div-add-mod' m p,
          div-add-mod' (x + (p - 1)) p,
          multiples_apart (m / p) ((x + (p - 1)) / p) (omega (arith, div-add-mod' m p)),
        ))
    | no ge ↦ omega arith
  ]

-- `math_ALIGN_FORWARD` at a power of two that fits in the word: the least multiple that is not
-- below x, as long as x + (ALIGN - 1) does not wrap.
pub align_forward-IsLeast :
    (w k x : ℕ)
    → k ≤ w
    → x + (2 ^ k - 1) < 2 ^ w
    → (x ≤ align_forward w x (2 ^ k))
      × (align_forward w x (2 ^ k) % 2 ^ k ≡ 0)
      × ((m : ℕ) → x ≤ m → m % 2 ^ k ≡ 0 → align_forward w x (2 ^ k) ≤ m)
align_forward-IsLeast w k x h hx = rw (align_forward_div w k x h hx) (
  up_ge (2 ^ k) (two_pow_pos k) x,
  mul-mod ((x + (2 ^ k - 1)) / 2 ^ k) (2 ^ k),
  up_le (2 ^ k) (two_pow_pos k) x,
)

-- `math_ALIGN_BACKWARD` and `math_ALIGN_REMAINDER` at such a power split a word into a multiple of
-- it and a rest below it.
pub align_backward-remainder :
    (w k x : ℕ)
    → k ≤ w
    → x < 2 ^ w
    → (align_backward w x (2 ^ k) % 2 ^ k ≡ 0)
      × (align_remainder x (2 ^ k) < 2 ^ k)
      × (align_backward w x (2 ^ k) + align_remainder x (2 ^ k) ≡ x)
unfolding align_backward align_remainder
align_backward-remainder w k x h hx =
    rw (round_down w k x h hx, bit_and-low k x)
      (mul-mod (x / 2 ^ k) (2 ^ k), mod-lt x (two_pow_pos k), div-add-mod' x (2 ^ k))

-- The rest of a negated number, over any positive step and a word of `q` steps.
negated_rest :
    (p q x : ℕ) → 0 < p → x + (p - 1) < q * p → x + (q * p - x) % p ≡ (x + (p - 1)) / p * p
negated_rest p q x pos h =
    let t = (x + (p - 1)) / p in
    let c = q - t in
    let d = t * p - x in
    let f : x ≤ t * p = up_ge p pos x in
    let g : t * p ≤ x + (p - 1) = omega (arith, div-add-mod' (x + (p - 1)) p) in
    let le : t ≤ q = le_of_mul-le-mul_right {m = t} {n = q} {k = p} (omega arith) pos in
    let e : q * p ≡ t * p + c * p = omega (arith, ap (λ (n : ℕ). n * p) (split t q le)) in
    let e' : q * p - x ≡ c * p + d = omega arith in
    rw (e', mul-add-mod_self_right c p d, mod-eq_of_lt {n = d} {m = p} (omega arith)) (omega arith)
  where
    split : (a b : ℕ) → a ≤ b → b ≡ a + (b - a)
    split a b le = omega arith

-- `math_PAD_BYTES` at such a power: the number of bytes, below it, that bring x up to what
-- `math_ALIGN_FORWARD` gives.
pub add-pad_bytes :
    (w k x : ℕ)
    → k ≤ w
    → x + (2 ^ k - 1) < 2 ^ w
    → (x + pad_bytes w x (2 ^ k) ≡ align_forward w x (2 ^ k)) × (pad_bytes w x (2 ^ k) < 2 ^ k)
unfolding pad_bytes
add-pad_bytes w k x h hx =
    rw
      (
        bit_and-low k ((2 ^ w - x) % 2 ^ w),
        align_forward_div w k x h hx,
        mod-mod_of_dvd (2 ^ k) (2 ^ w - x) divides,
      )
      (rest, mod-lt (2 ^ w - x) (two_pow_pos k))
  where
    divides : 2 ^ k ∣ 2 ^ w
    divides = rw (two_pow_split k w h) (dvd-mul_left (2 ^ k) (2 ^ (w - k)))

    rest : x + (2 ^ w - x) % 2 ^ k ≡ (x + (2 ^ k - 1)) / 2 ^ k * 2 ^ k
    rest =
        let e = two_pow_split k w h in
        rw e (negated_rest (2 ^ k) (2 ^ (w - k)) x (two_pow_pos k) (omega (arith, e)))

-- `math_RANGES_OVERLAP`: exactly where some number lies in both ranges, if neither is empty.
pub ranges_overlap_iff :
    (a b c d : ℕ)
    → a < b
    → c < d
    → (ranges_overlap a b c d ≡ true) ↔ ((x : ℕ) × (a ≤ x) × (x < b) × (c ≤ x) × (x < d))
unfolding ranges_overlap
ranges_overlap_iff a b c d h k = (
  λ e. (max a c, ground arith, ground arith, ground arith, ground arith),
  λ p. let l = p.1 in let m = p.2 in let n = p.3 in let o = p.4 in ground arith,
)
