-- ===== src/Hash/Sha1.antt =====
-- hc/core/hc/crypto/sha1.c: SHA-1 as an instance of the hash in blocks. The arrays that C leaves
-- uninitialised start as zeros: each element is written before it is read.
use hc.Base.{
  ℕ, zero, suc, ◌+◌, ◌-◌, ◌%◌, ◌^◌, ltb, if◌then◌else◌, bit_and, bit_or, bit_xor, List, [], ◌∷◌,
  set, replicate,
}
use hc.Hash.{Scheme, Context, blocks, init, update, finish}
use hc.Hash.Words.{word_at, rotate_left, load_words, store_words}

-- `_sha1_BLOCK_SIZE`, `_sha1_BLOCK_SHIFT`
abbrev pub sha1_block_size : ℕ
sha1_block_size = 64

abbrev pub sha1_block_shift : ℕ
sha1_block_shift = 6

-- `w[i + 16] = ...` for `n` words from `i` on.
unfoldable pub expand : ℕ → ℕ → List ℕ → List ℕ
unfolding rotate_left
expand zero i w = w
expand (suc n) i w =
    let x =
      bit_xor (bit_xor (bit_xor (word_at w (i + 13)) (word_at w (i + 8))) (word_at w (i + 2)))
        (word_at w i) in
    expand n (i + 1) (set w (i + 16) (rotate_left 32 x 1))

-- A loop over `i`: its constant, and its function of `r[i + 3]`, `r[i + 2]`, `r[i + 1]`.
pub record Phase : Type 0 where
  pub constant : ℕ
  pub choose : ℕ → ℕ → ℕ → ℕ

-- The four loops, each behind the one before it.
unfoldable pub phase_of : ℕ → Phase
phase_of i =
    if ltb i 20
    then record { constant = 0x5A827999; choose = λ x y z. bit_xor (bit_and x (bit_xor y z)) z }
    else if ltb i 40
    then record { constant = 0x6ED9EBA1; choose = λ x y z. bit_xor (bit_xor x y) z }
    else if ltb i 60
    then record {
      constant = 0x8F1BBCDC;
      choose = λ x y z. bit_or (bit_and (bit_or x y) z) (bit_and x y);
    }
    else record { constant = 0xCA62C1D6; choose = λ x y z. bit_xor (bit_xor x y) z }

-- The body of the four loops.
unfoldable pub sha1_round : List ℕ → List ℕ → ℕ → List ℕ
unfolding rotate_left phase_of
sha1_round w r i =
    let phase = phase_of i in
    let x = phase.choose (word_at r (i + 3)) (word_at r (i + 2)) (word_at r (i + 1)) in
    let r' = set r (i + 5) (
      (word_at r i + word_at w i + phase.constant + rotate_left 32 (word_at r (i + 4)) 5 + x)
      % 2 ^ 32) in
    set r' (i + 3) (rotate_left 32 (word_at r' (i + 3)) 30)

-- `n` rounds, the first of them for `i`.
unfoldable pub sha1_rounds : ℕ → ℕ → List ℕ → List ℕ → List ℕ
unfolding sha1_round
sha1_rounds zero i w r = r
sha1_rounds (suc n) i w r = sha1_rounds n (i + 1) w (sha1_round w r i)

-- `r[4 - i] = state[i]`
unfoldable pub sha1_load_state : List ℕ → ℕ → List ℕ → List ℕ
sha1_load_state r i [] = r
sha1_load_state r i (x ∷ state) = sha1_load_state (set r (4 - i) x) (i + 1) state

-- `state[i] += r[84 - i]`
unfoldable pub sha1_add_state : List ℕ → ℕ → List ℕ → List ℕ
sha1_add_state r i [] = []
sha1_add_state r i (x ∷ state) = (x + word_at r (84 - i)) % 2 ^ 32 ∷ sha1_add_state r (i + 1) state

-- One pass of the outer loop of `_sha1_blocks`.
unfoldable pub sha1_compress : List ℕ → List ℕ → List ℕ
unfolding expand sha1_rounds sha1_load_state sha1_add_state
sha1_compress state block =
    let w = expand 64 0 (load_words 4 16 (replicate 80 0) 0 block) in
    let r = sha1_rounds 80 0 w (sha1_load_state (replicate 85 0) 0 state) in
    sha1_add_state r 0 state

abbrev pub sha1_initial : List ℕ
sha1_initial = 0x67452301 ∷ 0xEFCDAB89 ∷ 0x98BADCFE ∷ 0x10325476 ∷ 0xC3D2E1F0 ∷ []

abbrev pub sha1_scheme : Scheme
sha1_scheme = record {
  shift = sha1_block_shift;
  length_size = 8;
  initial = sha1_initial;
  compress = sha1_compress;
  digest = store_words 4;
}

-- `_sha1_blocks`
abbrev pub sha1_blocks : ℕ → List ℕ → List ℕ → List ℕ
sha1_blocks = blocks sha1_scheme

abbrev pub sha1_init : List ℕ → Context
sha1_init = init sha1_scheme

abbrev pub sha1_update : Context → List ℕ → Context
sha1_update = update sha1_scheme

abbrev pub sha1_finish : Context → List ℕ
sha1_finish = finish sha1_scheme
