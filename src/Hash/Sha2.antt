-- ===== src/Hash/Sha2.antt =====
-- What _sha256_blocks of hc/core/hc/crypto/sha256.c and _sha512_blocks of
-- hc/core/hc/crypto/sha512.c have in common. The arrays that C leaves uninitialised start as zeros:
-- each element is written before it is read.
use hc.Base.{
  ℕ, zero, suc, ◌+◌, ◌-◌, ◌%◌, ◌^◌, ltb, if◌then◌else◌, bit_and, bit_xor, List, [], ◌∷◌, set,
  replicate,
}
use hc.Hash.Words.{word_at, load_words}

-- The numbers and functions in which the two files differ.
pub record Numbers : Type 0 where
  -- the bits of a word, and its bytes
  pub width : ℕ
  pub word_size : ℕ
  pub rounds : ℕ
  -- `_shaX_round`
  pub round : List ℕ
  pub sigma0_a : ℕ → ℕ
  pub sigma1_a : ℕ → ℕ
  pub sigma0_b : ℕ → ℕ
  pub sigma1_b : ℕ → ℕ

-- `_sha256_CH`, `_sha512_CH`
unfoldable pub ch : ℕ → ℕ → ℕ → ℕ
ch x y z = bit_xor z (bit_and x (bit_xor y z))

-- `_sha256_MAJ`, `_sha512_MAJ`
unfoldable pub maj : ℕ → ℕ → ℕ → ℕ
maj x y z = bit_xor (bit_and x (bit_xor y z)) (bit_and y z)

-- The arrays `w` and `r`.
pub record Work : Type 0 where
  pub w : List ℕ
  pub r : List ℕ

module _ (k : Numbers) where
  -- `x` of a round.
  unfoldable pub mixed : Work → ℕ → ℕ
  unfolding ch
  mixed m i =
      (word_at m.r i
        + word_at m.w i
        + word_at k.round i
        + k.sigma1_b (word_at m.r (i + 3))
        + ch (word_at m.r (i + 3)) (word_at m.r (i + 2)) (word_at m.r (i + 1)))
      % 2 ^ k.width

  -- `r[i + 4] += x; r[i + 8] = x + ...;`
  unfoldable pub next_r : List ℕ → ℕ → ℕ → List ℕ
  unfolding maj
  next_r r i x =
      let r' = set r (i + 4) ((word_at r (i + 4) + x) % 2 ^ k.width) in
      set r' (i + 8) (
        (x
          + k.sigma0_b (word_at r' (i + 7))
          + maj (word_at r' (i + 7)) (word_at r' (i + 6)) (word_at r' (i + 5)))
        % 2 ^ k.width)

  -- `if (i < 48) w[i + 16] = ...;`, 48 being 16 before the number of rounds.
  unfoldable pub next_w : List ℕ → ℕ → List ℕ
  next_w w i =
      if ltb i (k.rounds - 16)
      then set w (i + 16) (
          (word_at w i
            + word_at w (i + 9)
            + k.sigma1_a (word_at w (i + 14))
            + k.sigma0_a (word_at w (i + 1)))
          % 2 ^ k.width)
      else w

  -- One pass of `for (int32_t i = 0;; ++i)`.
  unfoldable pub round_at : Work → ℕ → Work
  unfolding mixed next_r next_w
  round_at m i = record { w = next_w m.w i; r = next_r m.r i (mixed m i) }

  -- `n` passes, the first of them for `i`.
  unfoldable pub rounds_from : ℕ → ℕ → Work → Work
  unfolding round_at
  rounds_from zero i m = m
  rounds_from (suc n) i m = rounds_from n (i + 1) (round_at m i)

  -- `r[7 - i] = state[i]`, for the `i` of the words that are left.
  unfoldable pub load_state : List ℕ → ℕ → List ℕ → List ℕ
  load_state r i [] = r
  load_state r i (x ∷ state) = load_state (set r (7 - i) x) (i + 1) state

  -- `state[i] += r[71 - i]`, 71 being 7 behind the number of rounds.
  unfoldable pub add_state : List ℕ → ℕ → List ℕ → List ℕ
  add_state r i [] = []
  add_state r i (x ∷ state) =
      (x + word_at r (k.rounds + 7 - i)) % 2 ^ k.width ∷ add_state r (i + 1) state

  -- One pass of the outer loop of `_shaX_blocks`.
  unfoldable pub compress : List ℕ → List ℕ → List ℕ
  unfolding load_state add_state rounds_from
  compress state block =
      let work = rounds_from k.rounds 0 (record {
        w = load_words k.word_size 16 (replicate k.rounds 0) 0 block;
        r = load_state (replicate (k.rounds + 8) 0) 0 state;
      }) in
      add_state work.r 0 state
