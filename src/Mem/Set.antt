-- ===== src/Mem/Set.antt =====
-- memset writes one byte throughout.
use native.Mathlib.Nat.{add-mul, mul_assoc, mul_comm}
use hc.Base.{
  ℕ, zero, suc, ◌+◌, ◌-◌, ◌*◌, ◌/◌, ◌%◌, ◌^◌, ◌≡◌, ◌≤◌, ◌<◌, refl, ap, subst, ◌∙◌, arith, List, ◌∷◌,
  length, replicate, length-replicate, leb, ◌==◌, Bool-cases, inl, inr, byte_at, copy_to, bit_and,
  bit_and-low,
}
use hc.Mem.{expanded, bytes_of, set_loop, set_ends, set_rest, memset}
use hc.Mem.Copied.{Copied, Copied-none, Copied-all, ends-Copied, start-Copied, set-Copied}

byte_at-replicate : (n b j : ℕ) → j < n → byte_at (replicate n b) j ≡ b
byte_at-replicate zero b j h = absurd (omega arith)
byte_at-replicate (suc n) b zero h = refl
byte_at-replicate (suc n) b (suc j) h = byte_at-replicate n b j (omega arith)

-- The number with `k` bytes of 1.
ones : ℕ → ℕ
ones zero = 0
ones (suc k) = ones k * 2 ^ 8 + 1

bytes_of-ones :
    (count k b : ℕ) → count ≤ k → b < 2 ^ 8 → bytes_of count (ones k * b) ≡ replicate count b
unfolding bytes_of ones
bytes_of-ones zero k b h lt = refl
bytes_of-ones (suc count) zero b h lt = absurd (omega arith)
bytes_of-ones (suc count) (suc k) b h lt =
    let e : ones (suc k) * b ≡ ones k * b * 2 ^ 8 + b = omega (
      arith,
      add-mul (ones k * 2 ^ 8) 1 b,
      mul_assoc (ones k) (2 ^ 8) b,
      mul_comm (2 ^ 8) b,
      mul_assoc (ones k) b (2 ^ 8),
    ) in
    let low : ones (suc k) * b % 2 ^ 8 ≡ b = omega arith in
    let high : ones (suc k) * b / 2 ^ 8 ≡ ones k * b = omega arith in
    ap (λ x. x ∷ bytes_of count (ones (suc k) * b / 2 ^ 8)) low
    ∙ ap (λ x. b ∷ bytes_of count x) high
    ∙ ap (◌∷◌ b) (bytes_of-ones count k b (omega arith) lt)

-- The word of memset holds the byte eight times.
bytes_of-expanded :
    (count c : ℕ) → count ≤ 8 → bytes_of count (expanded c) ≡ replicate count (c % 2 ^ 8)
unfolding expanded ones
bytes_of-expanded count c h =
    let low : bit_and c 0xFF ≡ c % 2 ^ 8 = bit_and-low 8 c in
    let lt : c % 2 ^ 8 < 2 ^ 8 = omega arith in
    let small : expanded c ≡ ones 8 * (c % 2 ^ 8) = rw (low, expanded) (omega arith) in
    ap (bytes_of count) small ∙ bytes_of-ones count 8 (c % 2 ^ 8) h lt

set_loop-Copied :
    (fuel : ℕ) (mem : List ℕ) (dest b x n total : ℕ) (mem' : List ℕ)
    → bytes_of 8 x ≡ replicate 8 b
    → n ≤ fuel
    → n ≤ total
    → dest + total ≤ length mem
    → Copied mem dest (λ _. b) n total mem'
    → let r = set_loop fuel mem' dest x n in
      Copied mem dest (λ _. b) r.1 total r.0 × (r.1 < 16) × (r.1 ≤ total)
unfolding set_loop
set_loop-Copied zero mem dest b x n total mem' e h le fits c = (c, omega arith, omega arith)
set_loop-Copied (suc fuel) mem dest b x n total mem' e h le fits c = elim (Bool-cases (leb 16 n)) [
  | inl more ↦
      rw (more, set_loop)
        (set_loop-Copied fuel mem dest b x (n - 16) total _ e (omega arith) (omega arith) fits (
          rw e (
            ends-Copied mem dest (λ _. b) (n - 16) n total mem' (replicate 8 b) (replicate 8 b) 8
              (dest + (n - 16) + 8) c le fits (length-replicate 8 b) (length-replicate 8 b)
              (byte_at-replicate 8 b) (byte_at-replicate 8 b) (ground arith) (ground arith)
              (ground arith))))
  | inr done ↦ rw (done, set_loop) (c, ground arith, ground arith)
]

-- What is left, at the start of the block, as ends of `size` bytes.
set_ends-Copied :
    (mem : List ℕ) (dest b x n total : ℕ) (mem' : List ℕ) (size : ℕ)
    → bytes_of size x ≡ replicate size b
    → n ≤ total
    → dest + total ≤ length mem
    → Copied mem dest (λ _. b) n total mem'
    → size ≤ n
    → n ≤ size + size
    → Copied mem dest (λ _. b) 0 total (set_ends mem' dest x n size)
unfolding set_ends
set_ends-Copied mem dest b x n total mem' size e le fits c l h =
    rw (set_ends, e)
      (start-Copied mem dest (λ _. b) n total mem' (replicate size b) (replicate size b) size c le
        fits (length-replicate size b) (length-replicate size b) (byte_at-replicate size b)
        (λ j. byte_at-replicate size b j) l h)

set_rest-Copied :
    (mem : List ℕ) (dest c n total : ℕ) (mem' : List ℕ)
    → n ≤ total
    → dest + total ≤ length mem
    → Copied mem dest (λ _. c % 2 ^ 8) n total mem'
    → n < 16
    → Copied mem dest (λ _. c % 2 ^ 8) 0 total (set_rest mem' dest (expanded c) n)
unfolding set_rest
set_rest-Copied mem dest c n total mem' le fits d small = elim (Bool-cases (n == 0)) [
  | inl none ↦
      let z : n ≡ 0 = ground arith in
      rw (none, set_rest) (subst (λ k. Copied mem dest (λ _. c % 2 ^ 8) k total mem') z d)
  | inr some_left ↦ elim (Bool-cases (leb 8 n)) [
    | inl eight ↦
        rw (some_left, eight, set_rest) (ends 8 (omega arith) (ground arith) (omega arith))
    | inr below_eight ↦ elim (Bool-cases (leb 4 n)) [
      | inl four ↦
          rw (some_left, below_eight, four, set_rest)
            (ends 4 (omega arith) (ground arith) (ground arith))
      | inr below_four ↦ elim (Bool-cases (leb 2 n)) [
        | inl two ↦
            rw (some_left, below_eight, below_four, two, set_rest)
              (ends 2 (omega arith) (ground arith) (ground arith))
        | inr below_two ↦
            rw (some_left, below_eight, below_four, below_two, set_rest)
              (set-Copied mem dest (λ _. c % 2 ^ 8) n total mem' (expanded c % 2 ^ 8) d
                (ground arith) le (ground arith) fits (low_byte c))
      ]
    ]
  ]
]
  where
    ends :
        (size : ℕ)
        → size ≤ 8
        → size ≤ n
        → n ≤ size + size
        → Copied mem dest (λ _. c % 2 ^ 8) 0 total (set_ends mem' dest (expanded c) n size)
    ends size h l u =
        set_ends-Copied mem dest (c % 2 ^ 8) (expanded c) n total mem' size
          (bytes_of-expanded size c h) le fits d l u

    low_byte : (c : ℕ) → expanded c % 2 ^ 8 ≡ c % 2 ^ 8
    low_byte c = ap (λ xs. byte_at xs 0) (one_byte c)
      where
        one_byte : (c : ℕ) → bytes_of 1 (expanded c) ≡ replicate 1 (c % 2 ^ 8)
        one_byte c = bytes_of-expanded 1 c (omega arith)

-- memset writes the lowest byte of `c` to the `n` places from `dest` on, and nothing else.
pub memset_lem :
    (mem : List ℕ) (dest c n : ℕ)
    → dest + n ≤ length mem
    → memset mem dest c n ≡ copy_to mem dest (replicate n (c % 2 ^ 8))
unfolding memset
memset_lem mem dest c n fits =
    let (d, small, le) =
      set_loop-Copied n mem dest (c % 2 ^ 8) (expanded c) n n mem
        (bytes_of-expanded 8 c (omega arith)) (omega arith) (omega arith) fits
        (Copied-none mem dest (λ _. c % 2 ^ 8) n) in
    Copied-all mem dest (λ _. c % 2 ^ 8) n (memset mem dest c n) (replicate n (c % 2 ^ 8))
      (set_rest-Copied mem dest c _ n _ le fits d small) (length-replicate n (c % 2 ^ 8))
      (byte_at-replicate n (c % 2 ^ 8)) fits
