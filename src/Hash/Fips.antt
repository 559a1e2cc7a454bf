-- ===== src/Hash/Fips.antt =====
-- The hash computation of FIPS 180-4 for a block: eight variables that move by one place in a round,
-- and the last sixteen words of the schedule.
use hc.Base.{ℕ, zero, suc, ◌+◌, ◌*◌, ◌/◌, ◌%◌, ◌^◌, List, [], ◌∷◌, ◌++◌, drop}
use hc.Hash.Choose.{fips_ch, fips_maj}
use hc.Hash.Words.{word_at}
use hc.Hash.Sha2.{Numbers}

-- The working variables.
pub record Variables : Type 0 where
  pub a : ℕ
  pub b : ℕ
  pub c : ℕ
  pub d : ℕ
  pub e : ℕ
  pub f : ℕ
  pub g : ℕ
  pub h : ℕ

-- A number in bytes, the first the highest, behind one that was found before.
unfoldable pub number_of : ℕ → ℕ → List ℕ → ℕ
number_of zero found bytes = found
number_of (suc n) found [] = number_of n (found * 2 ^ 8) []
number_of (suc n) found (b ∷ bytes) = number_of n (found * 2 ^ 8 + b % 2 ^ 8) bytes

-- The bytes of a word, the highest first, and those of several.
unfoldable pub bytes_of : ℕ → ℕ → List ℕ
bytes_of zero x = []
bytes_of (suc n) x = x / 2 ^ (8 * n) % 2 ^ 8 ∷ bytes_of n x

unfoldable pub all_bytes : ℕ → List ℕ → List ℕ
unfolding bytes_of
all_bytes size [] = []
all_bytes size (x ∷ xs) = bytes_of size x ++ all_bytes size xs

-- The words of a block.
unfoldable pub block_words : ℕ → ℕ → List ℕ → List ℕ
unfolding number_of
block_words size zero block = []
block_words size (suc n) block = number_of size 0 block ∷ block_words size n (drop size block)

module _ (k : Numbers) where
  -- W_t is the first of the words; the one behind them is computed from them.
  unfoldable pub next_words : List ℕ → List ℕ
  next_words ws =
      drop 1 ws
      ++ ((k.sigma1_a (word_at ws 14) + word_at ws 9 + k.sigma0_a (word_at ws 1) + word_at ws 0)
            % 2 ^ k.width
          ∷ [])

  unfoldable pub variables_step : Variables → ℕ → ℕ → Variables
  unfolding fips_ch fips_maj
  variables_step v constant word =
      let t1 =
        (v.h + k.sigma1_b v.e + fips_ch k.width v.e v.f v.g + constant + word) % 2 ^ k.width in
      let t2 = k.sigma0_b v.a + fips_maj v.a v.b v.c in
      record {
        a = (t1 + t2) % 2 ^ k.width;
        b = v.a;
        c = v.b;
        d = v.c;
        e = (v.d + t1) % 2 ^ k.width;
        f = v.e;
        g = v.f;
        h = v.g;
      }

  unfoldable pub variables_from : ℕ → ℕ → List ℕ → Variables → Variables
  unfolding variables_step next_words
  variables_from zero t ws v = v
  variables_from (suc n) t ws v =
      variables_from n (t + 1) (next_words ws) (variables_step v (word_at k.round t) (word_at ws 0))

  -- The hash computation for one block.
  unfoldable pub hash_block : List ℕ → List ℕ → List ℕ
  unfolding variables_from block_words
  hash_block state block =
      let start : Variables = record {
        a = word_at state 0;
        b = word_at state 1;
        c = word_at state 2;
        d = word_at state 3;
        e = word_at state 4;
        f = word_at state 5;
        g = word_at state 6;
        h = word_at state 7;
      } in
      let v = variables_from k.rounds 0 (block_words k.word_size 16 block) start in
      (v.a + word_at state 0) % 2 ^ k.width
      ∷ (v.b + word_at state 1) % 2 ^ k.width
      ∷ (v.c + word_at state 2) % 2 ^ k.width
      ∷ (v.d + word_at state 3) % 2 ^ k.width
      ∷ (v.e + word_at state 4) % 2 ^ k.width
      ∷ (v.f + word_at state 5) % 2 ^ k.width
      ∷ (v.g + word_at state 6) % 2 ^ k.width
      ∷ (v.h + word_at state 7) % 2 ^ k.width
      ∷ []
