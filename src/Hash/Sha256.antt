-- ===== src/Hash/Sha256.antt =====
-- hc/core/hc/crypto/sha256.c: SHA-256 as an instance of the hash in blocks and of the rounds of SHA-2.
use hc.Base.{ℕ, ◌/◌, ◌^◌, bit_xor, List, [], ◌∷◌}
use hc.Hash.{Scheme, Context, blocks, init, update, finish}
use hc.Hash.Words.{rotate_right, store_words}
use hc.Hash.Sha2.{Numbers, compress}

-- `_sha256_BLOCK_SIZE`, `_sha256_BLOCK_SHIFT`
abbrev pub sha256_block_size : ℕ
sha256_block_size = 64

abbrev pub sha256_block_shift : ℕ
sha256_block_shift = 6

unfoldable pub sha256_sigma0_a : ℕ → ℕ
unfolding rotate_right
sha256_sigma0_a x = bit_xor (bit_xor (rotate_right 32 x 7) (rotate_right 32 x 18)) (x / 2 ^ 3)

unfoldable pub sha256_sigma1_a : ℕ → ℕ
unfolding rotate_right
sha256_sigma1_a x = bit_xor (bit_xor (rotate_right 32 x 17) (rotate_right 32 x 19)) (x / 2 ^ 10)

unfoldable pub sha256_sigma0_b : ℕ → ℕ
unfolding rotate_right
sha256_sigma0_b x =
    bit_xor (bit_xor (rotate_right 32 x 2) (rotate_right 32 x 13)) (rotate_right 32 x 22)

unfoldable pub sha256_sigma1_b : ℕ → ℕ
unfolding rotate_right
sha256_sigma1_b x =
    bit_xor (bit_xor (rotate_right 32 x 6) (rotate_right 32 x 11)) (rotate_right 32 x 25)

-- `_sha256_round`
abbrev pub sha256_round : List ℕ
sha256_round =
    0x428a2f98 ∷ 0x71374491 ∷ 0xb5c0fbcf ∷ 0xe9b5dba5 ∷ 0x3956c25b ∷ 0x59f111f1 ∷ 0x923f82a4
    ∷ 0xab1c5ed5 ∷ 0xd807aa98 ∷ 0x12835b01 ∷ 0x243185be ∷ 0x550c7dc3 ∷ 0x72be5d74 ∷ 0x80deb1fe
    ∷ 0x9bdc06a7 ∷ 0xc19bf174 ∷ 0xe49b69c1 ∷ 0xefbe4786 ∷ 0x0fc19dc6 ∷ 0x240ca1cc ∷ 0x2de92c6f
    ∷ 0x4a7484aa ∷ 0x5cb0a9dc ∷ 0x76f988da ∷ 0x983e5152 ∷ 0xa831c66d ∷ 0xb00327c8 ∷ 0xbf597fc7
    ∷ 0xc6e00bf3 ∷ 0xd5a79147 ∷ 0x06ca6351 ∷ 0x14292967 ∷ 0x27b70a85 ∷ 0x2e1b2138 ∷ 0x4d2c6dfc
    ∷ 0x53380d13 ∷ 0x650a7354 ∷ 0x766a0abb ∷ 0x81c2c92e ∷ 0x92722c85 ∷ 0xa2bfe8a1 ∷ 0xa81a664b
    ∷ 0xc24b8b70 ∷ 0xc76c51a3 ∷ 0xd192e819 ∷ 0xd6990624 ∷ 0xf40e3585 ∷ 0x106aa070 ∷ 0x19a4c116
    ∷ 0x1e376c08 ∷ 0x2748774c ∷ 0x34b0bcb5 ∷ 0x391c0cb3 ∷ 0x4ed8aa4a ∷ 0x5b9cca4f ∷ 0x682e6ff3
    ∷ 0x748f82ee ∷ 0x78a5636f ∷ 0x84c87814 ∷ 0x8cc70208 ∷ 0x90befffa ∷ 0xa4506ceb ∷ 0xbef9a3f7
    ∷ 0xc67178f2 ∷ []

abbrev pub sha256_numbers : Numbers
sha256_numbers = record {
  width = 32;
  word_size = 4;
  rounds = 64;
  round = sha256_round;
  sigma0_a = sha256_sigma0_a;
  sigma1_a = sha256_sigma1_a;
  sigma0_b = sha256_sigma0_b;
  sigma1_b = sha256_sigma1_b;
}

abbrev pub sha256_initial : List ℕ
sha256_initial =
    0x6a09e667 ∷ 0xbb67ae85 ∷ 0x3c6ef372 ∷ 0xa54ff53a ∷ 0x510e527f ∷ 0x9b05688c ∷ 0x1f83d9ab
    ∷ 0x5be0cd19 ∷ []

abbrev pub sha256_scheme : Scheme
sha256_scheme = record {
  shift = sha256_block_shift;
  length_size = 8;
  initial = sha256_initial;
  compress = compress sha256_numbers;
  digest = store_words 4;
}

-- `_sha256_blocks`
abbrev pub sha256_blocks : ℕ → List ℕ → List ℕ → List ℕ
sha256_blocks = blocks sha256_scheme

abbrev pub sha256_init : List ℕ → Context
sha256_init = init sha256_scheme

abbrev pub sha256_update : Context → List ℕ → Context
sha256_update = update sha256_scheme

abbrev pub sha256_finish : Context → List ℕ
sha256_finish = finish sha256_scheme
