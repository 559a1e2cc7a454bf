-- ===== src/Hash/Absorb.antt =====
-- Blocks, one after another.
use native.Mathlib.Nat.{suc-mul}
use hc.Base.{
  length-drop, ℕ, zero, suc, ◌+◌, ◌*◌, ◌≡◌, ◌≤◌, ap, ◌∙◌, arith, List, [], ◌∷◌, ◌++◌, length, take,
  drop, take-append, drop-append,
}
use hc.Hash.{Scheme, block_size, blocks}

module _ (s : Scheme) where
  -- The blocks of `xs`, then those of `ys`.
  pub blocks-append :
      (m n : ℕ) (state xs ys : List ℕ)
      → length xs ≡ m * block_size s
      → blocks s (m + n) state (xs ++ ys) ≡ blocks s n (blocks s m state xs) ys
  unfolding blocks
  blocks-append zero n state [] ys h =
      let e : 0 + n ≡ n = omega arith in ap (λ k. blocks s k state ys) e
  blocks-append zero n state (x ∷ xs) ys h = absurd (omega arith)
  blocks-append (suc m) n state xs ys h =
      let b : block_size s ≤ length xs = omega (arith, suc-mul m (block_size s)) in
      let e : suc m + n ≡ suc (m + n) = omega arith in
      ap (λ k. blocks s k state (xs ++ ys)) e
      ∙ ap (λ t. blocks s (m + n) (s.compress state t) (drop (block_size s) (xs ++ ys)))
          (take-append xs ys (block_size s) b)
      ∙ ap (blocks s (m + n) (s.compress state (take (block_size s) xs)))
          (drop-append xs ys (block_size s) b)
      ∙ blocks-append m n (s.compress state (take (block_size s) xs)) (drop (block_size s) xs) ys
          (omega (arith, length-drop (block_size s) xs, suc-mul m (block_size s)))

  -- Bytes behind the blocks do not matter.
  pub blocks_prefix :
      (n : ℕ) (state xs ys : List ℕ)
      → length xs ≡ n * block_size s
      → blocks s n state (xs ++ ys) ≡ blocks s n state xs
  unfolding blocks
  blocks_prefix n state xs ys h =
      let e : n ≡ n + 0 = omega arith in
      ap (λ k. blocks s k state (xs ++ ys)) e ∙ blocks-append n 0 state xs ys h
