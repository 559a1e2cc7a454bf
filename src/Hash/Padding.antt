-- ===== src/Hash/Padding.antt =====
-- The message of FIPS 180-4 with its padding, and its hash at once.
use native.Mathlib.Nat.{add-mul, mod-eq_of_lt, mod_self, mul-add-mod_self_right, mul-div_cancel}
use hc.Base.{
  ℕ, zero, suc, ◌+◌, ◌-◌, ◌*◌, ◌/◌, ◌%◌, ◌^◌, ◌≡◌, ◌≤◌, ◌<◌, refl, ap, ap₂, sym, ◌∙◌, arith, List,
  [], ◌∷◌, ◌++◌, length, replicate, ltb, ltb→lt, Bool-cases, inl, inr, length-append, two_pow_pos,
}
use hc.Hash.{Scheme, block_size, blocks, big_endian}
use hc.Hash.Absorb.{blocks-append}

-- What is missing of a whole number of blocks.
missing : (b count x : ℕ) → 0 < x → x ≤ b → (b - (count * b + x) % b) % b ≡ b - x
missing b count x p h = elim (Bool-cases (ltb x b)) [
  | inl e ↦
      let below : x < b = ltb→lt x b e in
      let m : (count * b + x) % b ≡ x = mul-add-mod_self_right count b x ∙ mod-eq_of_lt below in
      let l : b - x < b = omega arith in ap (λ k. (b - k) % b) m ∙ mod-eq_of_lt l
  | inr e ↦
      let q : x ≡ b = ground arith in
      let m : (count * b + x) % b ≡ 0 =
        mul-add-mod_self_right count b x ∙ ap (λ k. k % b) q ∙ mod_self b in
      let d : 0 ≡ b - x = omega arith in
      let z : b - 0 ≡ b = omega arith in
      ap (λ k. (b - k) % b) m ∙ ap (λ k. k % b) z ∙ mod_self b ∙ d
]

pub length-big_endian : (count v : ℕ) → length (big_endian count v) ≡ count
unfolding big_endian
length-big_endian zero v = refl
length-big_endian (suc count) v = omega (
  arith,
  length-append (big_endian count (v / 2 ^ 8)) (v % 2 ^ 8 ∷ []),
  length-big_endian count (v / 2 ^ 8),
)

pub replicate-add : (m n x : ℕ) → replicate (m + n) x ≡ replicate m x ++ replicate n x
replicate-add zero n x = let e : 0 + n ≡ n = omega arith in ap (λ k. replicate k x) e
replicate-add (suc m) n x =
    let e : suc m + n ≡ suc (m + n) = omega arith in
    ap (λ k. replicate k x) e ∙ ap (◌∷◌ x) (replicate-add m n x)

module _ (s : Scheme) where
  -- The numbers of a scheme fit together, as those of the three files do.
  pub record IsValid : Type 0 where
    pub shift_bound : s.shift ≤ 64
    pub length_fits : s.length_size < block_size s
    pub length_wide : 2 ^ 64 ≤ 2 ^ (8 * s.length_size)

  -- The zeros behind the mark for a message of `size` bytes: as few as fill a block with the length.
  unfoldable pub zeros : ℕ → ℕ
  zeros size = (block_size s - (size + 1 + s.length_size) % block_size s) % block_size s

  -- The message of FIPS 180-4: the bit 1, zeros, the length in bits.
  unfoldable pub padded : List ℕ → List ℕ
  padded message =
      message
      ++ (0x80
          ∷ (replicate (zeros (length message)) 0 ++ big_endian s.length_size (length message * 8)))

  -- The hash of a message at once.
  unfoldable pub hash : List ℕ → List ℕ
  hash message =
      s.digest (blocks s (length (padded message) / block_size s) s.initial (padded message))

  -- The zeros of `shaX_finish`, in one block or in two.
  pub zeros_one :
      (n count size : ℕ)
      → size ≡ count * block_size s + n
      → n + 1 + s.length_size ≤ block_size s
      → zeros size ≡ block_size s - s.length_size - (n + 1)
  unfolding zeros
  zeros_one n count size e h =
      let b = block_size s in
      let x = n + 1 + s.length_size in
      let sum : size + 1 + s.length_size ≡ count * b + x = omega arith in
      let d : b - x ≡ b - s.length_size - (n + 1) = omega arith in
      ap (λ k. (b - k % b) % b) sum ∙ missing b count x (omega arith) h ∙ d

  pub zeros_two :
      (n count size : ℕ)
      → size ≡ count * block_size s + n
      → block_size s < n + 1 + s.length_size
      → n < block_size s
      → s.length_size < block_size s
      → zeros size ≡ (block_size s - (n + 1)) + (block_size s - s.length_size)
  unfolding zeros
  zeros_two n count size e h l m =
      let b = block_size s in
      let x = n + 1 + s.length_size - b in
      let sum : size + 1 + s.length_size ≡ (count + 1) * b + x = omega (arith, add-mul count 1 b) in
      let d : b - x ≡ (b - (n + 1)) + (b - s.length_size) = omega arith in
      ap (λ k. (b - k % b) % b) sum ∙ missing b (count + 1) x (omega arith) (omega arith) ∙ d

  -- The hash from the state behind the first blocks on.
  pub hash_from :
      (message full tail state : List ℕ) (count n : ℕ)
      → padded message ≡ full ++ tail
      → length full ≡ count * block_size s
      → length tail ≡ n * block_size s
      → state ≡ blocks s count s.initial full
      → hash message ≡ s.digest (blocks s n state tail)
  unfolding hash
  hash_from message full tail state count n e f l st =
      let b = block_size s in
      let size : length (full ++ tail) ≡ (count + n) * b =
        omega (arith, length-append full tail, f, l, add-mul count n b) in
      let number : length (padded message) / b ≡ count + n =
        ap (λ t. length t / b) e
        ∙ ap (λ k. k / b) size
        ∙ mul-div_cancel (count + n) (two_pow_pos s.shift) in
      ap s.digest (
        ap₂ (λ k t. blocks s k s.initial t) number e
        ∙ blocks-append s count n s.initial full tail f
        ∙ ap (λ t. blocks s n t tail) (sym st))
