-- ===== src/Hash/Words.antt =====
-- What the three algorithms do to words of `w` bits: hc_ROTL32, hc_ROTR32 and hc_ROTR64 of
-- hc/core/hc/hc.h, and the loads of hc/core/hc/mem.c.
use hc.Base.{ℕ, zero, suc, ◌+◌, ◌-◌, ◌*◌, ◌/◌, ◌%◌, ◌^◌, List, [], ◌∷◌, ◌++◌, get_or, set, drop}
use hc.Hash.{big_endian}

abbrev pub word_at : List ℕ → ℕ → ℕ
word_at xs i = get_or xs i 0

unfoldable pub rotate_left : ℕ → ℕ → ℕ → ℕ
rotate_left w x n = x * 2 ^ n % 2 ^ w + x / 2 ^ (w - n)

unfoldable pub rotate_right : ℕ → ℕ → ℕ → ℕ
rotate_right w x n = x / 2 ^ n + x * 2 ^ (w - n) % 2 ^ w

-- The number in the first `count` bytes, the highest first: `mem_loadU32BE`, `mem_loadU64BE`.
unfoldable pub load_big_endian : ℕ → List ℕ → ℕ
load_big_endian zero bytes = 0
load_big_endian (suc count) [] = 0
load_big_endian (suc count) (b ∷ bytes) = b % 2 ^ 8 * 2 ^ (8 * count) + load_big_endian count bytes

-- `w[i] = mem_loadU32BE(&in[i << 2])` for `n` words of `size` bytes, from the word at `i` on.
unfoldable pub load_words : ℕ → ℕ → List ℕ → ℕ → List ℕ → List ℕ
load_words size zero w i block = w
load_words size (suc n) w i block =
    load_words size n (set w i (load_big_endian size block)) (i + 1) (drop size block)

-- The words of the state as bytes: the last line of `shaX_finish`.
unfoldable pub store_words : ℕ → List ℕ → List ℕ
store_words size [] = []
store_words size (x ∷ xs) = big_endian size x ++ store_words size xs
