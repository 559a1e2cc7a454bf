-- ===== src/Hash/Choose.antt =====
-- Ch and Maj of FIPS 180-4 are what sha256.c and sha512.c compute with one operation less.
use hc.Base.{
  ℕ, zero, suc, ◌+◌, ◌-◌, ◌/◌, ◌%◌, ◌^◌, ◌≡◌, ◌<◌, min, refl, ap, ap₂, sym, ◌∙◌, arith, bit_and,
  bit_xor, bit_and-halves, bit_xor-halves, two_pow_suc,
}
use hc.Math.{lnot}
use hc.Hash.Sha2.{ch, maj}

-- (x ∧ y) ⊕ (¬x ∧ z)
unfoldable pub fips_ch : ℕ → ℕ → ℕ → ℕ → ℕ
fips_ch w x y z = bit_xor (bit_and x y) (bit_and (lnot w x) z)

-- (x ∧ y) ⊕ (x ∧ z) ⊕ (y ∧ z)
unfoldable pub fips_maj : ℕ → ℕ → ℕ → ℕ
fips_maj x y z = bit_xor (bit_xor (bit_and x y) (bit_and x z)) (bit_and y z)

and-half : (a b : ℕ) → bit_and a b / 2 ≡ bit_and (a / 2) (b / 2)
and-half a b = omega (arith, bit_and-halves a b)

and-bit : (a b : ℕ) → bit_and a b % 2 ≡ min (a % 2) (b % 2)
and-bit a b = omega (arith, bit_and-halves a b)

xor-half : (a b : ℕ) → bit_xor a b / 2 ≡ bit_xor (a / 2) (b / 2)
xor-half a b = omega (arith, bit_xor-halves a b)

xor-bit : (a b : ℕ) → bit_xor a b % 2 ≡ (a % 2 + b % 2) % 2
xor-bit a b = omega (arith, bit_xor-halves a b)

by_halves : (a b : ℕ) → a / 2 ≡ b / 2 → a % 2 ≡ b % 2 → a ≡ b
by_halves a b h l = omega arith

ch-half : (x y z : ℕ) → ch x y z / 2 ≡ ch (x / 2) (y / 2) (z / 2)
unfolding ch
ch-half x y z =
    xor-half z (bit_and x (bit_xor y z))
    ∙ ap (bit_xor (z / 2)) (and-half x (bit_xor y z) ∙ ap (bit_and (x / 2)) (xor-half y z))

fips_ch-half :
    (w x y z : ℕ) → x < 2 ^ suc w → fips_ch (suc w) x y z / 2 ≡ fips_ch w (x / 2) (y / 2) (z / 2)
unfolding fips_ch
fips_ch-half w x y z h =
    let n : lnot (suc w) x / 2 ≡ lnot w (x / 2) = omega (arith, two_pow_suc w) in
    xor-half (bit_and x y) (bit_and (lnot (suc w) x) z)
    ∙ ap₂ bit_xor (and-half x y) (and-half (lnot (suc w) x) z ∙ ap (λ t. bit_and t (z / 2)) n)

ch-bit : (w x y z : ℕ) → x < 2 ^ suc w → ch x y z % 2 ≡ fips_ch (suc w) x y z % 2
unfolding ch fips_ch
ch-bit w x y z h =
    let n : lnot (suc w) x % 2 ≡ 1 - x % 2 = omega (arith, two_pow_suc w) in
    omega (
      arith,
      xor-bit z (bit_and x (bit_xor y z)),
      and-bit x (bit_xor y z),
      xor-bit y z,
      xor-bit (bit_and x y) (bit_and (lnot (suc w) x) z),
      and-bit x y,
      and-bit (lnot (suc w) x) z,
      n,
    )

-- Words of `w` bits.
pub ch-fips_ch : (w x y z : ℕ) → x < 2 ^ w → y < 2 ^ w → z < 2 ^ w → ch x y z ≡ fips_ch w x y z
unfolding ch fips_ch
ch-fips_ch zero zero zero zero a b c = refl
ch-fips_ch zero (suc x) y z a b c = absurd (omega arith)
ch-fips_ch zero zero (suc y) z a b c = absurd (omega arith)
ch-fips_ch zero zero zero (suc z) a b c = absurd (omega arith)
ch-fips_ch (suc w) x y z a b c =
    by_halves (ch x y z) (fips_ch (suc w) x y z)
      (ch-half x y z
        ∙ ch-fips_ch w (x / 2) (y / 2) (z / 2) (omega (arith, two_pow_suc w))
            (omega (arith, two_pow_suc w)) (omega (arith, two_pow_suc w))
        ∙ sym (fips_ch-half w x y z a))
      (ch-bit w x y z a)

maj-half : (x y z : ℕ) → maj x y z / 2 ≡ maj (x / 2) (y / 2) (z / 2)
unfolding maj
maj-half x y z =
    xor-half (bit_and x (bit_xor y z)) (bit_and y z)
    ∙ ap₂ bit_xor (and-half x (bit_xor y z) ∙ ap (bit_and (x / 2)) (xor-half y z)) (and-half y z)

fips_maj-half : (x y z : ℕ) → fips_maj x y z / 2 ≡ fips_maj (x / 2) (y / 2) (z / 2)
unfolding fips_maj
fips_maj-half x y z =
    xor-half (bit_xor (bit_and x y) (bit_and x z)) (bit_and y z)
    ∙ ap₂ bit_xor (xor-half (bit_and x y) (bit_and x z) ∙ ap₂ bit_xor (and-half x y) (and-half x z))
        (and-half y z)

maj-bit : (x y z : ℕ) → maj x y z % 2 ≡ fips_maj x y z % 2
unfolding maj fips_maj
maj-bit x y z = omega (
  arith,
  xor-bit (bit_and x (bit_xor y z)) (bit_and y z),
  and-bit x (bit_xor y z),
  xor-bit y z,
  xor-bit (bit_xor (bit_and x y) (bit_and x z)) (bit_and y z),
  xor-bit (bit_and x y) (bit_and x z),
  and-bit x y,
  and-bit x z,
  and-bit y z,
)

pub maj-fips_maj : (w x y z : ℕ) → x < 2 ^ w → y < 2 ^ w → z < 2 ^ w → maj x y z ≡ fips_maj x y z
unfolding maj fips_maj
maj-fips_maj zero zero zero zero a b c = refl
maj-fips_maj zero (suc x) y z a b c = absurd (omega arith)
maj-fips_maj zero zero (suc y) z a b c = absurd (omega arith)
maj-fips_maj zero zero zero (suc z) a b c = absurd (omega arith)
maj-fips_maj (suc w) x y z a b c =
    by_halves (maj x y z) (fips_maj x y z)
      (maj-half x y z
        ∙ maj-fips_maj w (x / 2) (y / 2) (z / 2) (omega (arith, two_pow_suc w))
            (omega (arith, two_pow_suc w)) (omega (arith, two_pow_suc w))
        ∙ sym (fips_maj-half x y z))
      (maj-bit x y z)
