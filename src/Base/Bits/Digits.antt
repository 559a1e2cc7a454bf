-- ===== src/Base/Bits/Digits.antt =====
-- One equation for the lowest binary digit of each bit operation.
use Prim.Native.Nat.{digits, bitwise, differ, bit_and-bitwise, bit_or-bitwise, bit_xor-bitwise}
use hc.Base.Names.{
  ℕ, zero, suc, ◌+◌, ◌-◌, ◌*◌, ◌/◌, ◌%◌, ◌≤◌, ◌<◌, min, max, bit_and, bit_or, bit_xor, ◌≡◌, refl,
  ◌∙◌, ap, arith,
}

-- `d` more rounds of fuel.
abbrev raise : ℕ → ℕ → ℕ
raise zero n = n
raise (suc d) n = suc (raise d n)

raise-add : (d n : ℕ) → raise d n ≡ d + n
raise-add zero n = omega arith
raise-add (suc d) n = omega (arith, raise-add d n)

module _ (z : ℕ → ℕ) (f : ℕ → ℕ → ℕ) where
  -- One more round changes nothing once the fuel covers the first number.
  digits-grow : (n a b : ℕ) → a ≤ n → digits z f (suc n) a b ≡ digits z f n a b
  digits-grow zero zero b h = refl
  digits-grow zero (suc a) b h = absurd (omega arith)
  digits-grow (suc n) zero b h = refl
  digits-grow (suc n) (suc a) b h =
      ap (λ t. t * 2 + f (suc a % 2) (b % 2)) (digits-grow n (suc a / 2) (b / 2) (omega arith))

  digits-raise : (d n a b : ℕ) → a ≤ n → digits z f (raise d n) a b ≡ digits z f n a b
  digits-raise zero n a b h = refl
  digits-raise (suc d) n a b h =
      digits-grow (raise d n) a b (omega (arith, raise-add d n)) ∙ digits-raise d n a b h

  digits-enough : (n a b : ℕ) → a ≤ n → digits z f n a b ≡ bitwise z f a b
  digits-enough n a b h =
      let e : n ≡ raise (n - a) a = omega (arith, raise-add (n - a) a) in
      ap (λ m. digits z f m a b) e ∙ digits-raise (n - a) a a b (omega arith)

  bitwise_step :
      (a b : ℕ)
      → bitwise z f (suc a) b ≡ bitwise z f (suc a / 2) (b / 2) * 2 + f (suc a % 2) (b % 2)
  bitwise_step a b =
      ap (λ t. t * 2 + f (suc a % 2) (b % 2)) (digits-enough a (suc a / 2) (b / 2) (omega arith))

pub bit_and-halves : (a b : ℕ) → bit_and a b ≡ bit_and (a / 2) (b / 2) * 2 + min (a % 2) (b % 2)
bit_and-halves zero b = omega (arith, bit_and-bitwise 0 b, bit_and-bitwise 0 (b / 2))
bit_and-halves (suc a) b = omega (
  arith,
  bit_and-bitwise (suc a) b,
  bit_and-bitwise (suc a / 2) (b / 2),
  bitwise_step (λ _. 0) min a b,
)

pub bit_or-halves : (a b : ℕ) → bit_or a b ≡ bit_or (a / 2) (b / 2) * 2 + max (a % 2) (b % 2)
bit_or-halves zero b = omega (arith, bit_or-bitwise 0 b, bit_or-bitwise 0 (b / 2))
bit_or-halves (suc a) b = omega (
  arith,
  bit_or-bitwise (suc a) b,
  bit_or-bitwise (suc a / 2) (b / 2),
  bitwise_step (λ y. y) max a b,
)

differ-bit : (x y : ℕ) → x < 2 → y < 2 → differ x y ≡ (x + y) % 2
differ-bit zero y hx hy = omega arith
differ-bit (suc zero) zero hx hy = refl
differ-bit (suc zero) (suc zero) hx hy = refl
differ-bit (suc zero) (suc (suc y)) hx hy = absurd (omega arith)
differ-bit (suc (suc x)) y hx hy = absurd (omega arith)

pub bit_xor-halves : (a b : ℕ) → bit_xor a b ≡ bit_xor (a / 2) (b / 2) * 2 + (a % 2 + b % 2) % 2
bit_xor-halves zero b = omega (arith, bit_xor-bitwise 0 b, bit_xor-bitwise 0 (b / 2))
bit_xor-halves (suc a) b = omega (
  arith,
  bit_xor-bitwise (suc a) b,
  bit_xor-bitwise (suc a / 2) (b / 2),
  bitwise_step (λ y. y) differ a b,
  differ-bit (suc a % 2) (b % 2) (omega arith) (omega arith),
)
