-- ===== src/Hash/Constants.antt =====
-- The numbers and functions of FIPS 180-4 for SHA-256, SHA-384 and SHA-512, and that those of sha256.c
-- and sha512.c are these.
use hc.Base.{
  ℕ, zero, suc, ◌+◌, ◌-◌, ◌*◌, ◌/◌, ◌%◌, ◌^◌, ◌≡◌, refl, leb, if◌then◌else◌, bit_xor, map, take,
  drop, List, [], ◌∷◌,
}
use hc.Hash.Words.{rotate_right}
use hc.Hash.Sha2.{Numbers}
use hc.Hash.Sha256.{
  sha256_numbers, sha256_initial, sha256_sigma0_a, sha256_sigma1_a, sha256_sigma0_b,
  sha256_sigma1_b,
}
use hc.Hash.Sha512.{
  sha512_numbers, sha512_initial, sha384_initial, sha512_sigma0_a, sha512_sigma1_a, sha512_sigma0_b,
  sha512_sigma1_b,
}

-- The largest r with r ^ degree ≤ n that agrees with `found` above its last `bits` bits.
unfoldable root : ℕ → ℕ → ℕ → ℕ → ℕ
root degree n zero found = found
root degree n (suc bits) found =
    root degree n bits (if leb ((found + 2 ^ bits) ^ degree) n then found + 2 ^ bits else found)

-- The first `width` bits of the fractional part of the root of a number below 2 ^ (5 * degree).
unfoldable fraction : ℕ → ℕ → ℕ → ℕ
unfolding root
fraction width degree n = root degree (n * 2 ^ (width * degree)) (width + 5) 0 % 2 ^ width

-- The first eighty primes.
abbrev primes : List ℕ
primes =
    2 ∷ 3 ∷ 5 ∷ 7 ∷ 11 ∷ 13 ∷ 17 ∷ 19 ∷ 23 ∷ 29 ∷ 31 ∷ 37 ∷ 41 ∷ 43 ∷ 47 ∷ 53 ∷ 59 ∷ 61 ∷ 67 ∷ 71
    ∷ 73 ∷ 79 ∷ 83 ∷ 89 ∷ 97 ∷ 101 ∷ 103 ∷ 107 ∷ 109 ∷ 113 ∷ 127 ∷ 131 ∷ 137 ∷ 139 ∷ 149 ∷ 151 ∷ 157
    ∷ 163 ∷ 167 ∷ 173 ∷ 179 ∷ 181 ∷ 191 ∷ 193 ∷ 197 ∷ 199 ∷ 211 ∷ 223 ∷ 227 ∷ 229 ∷ 233 ∷ 239 ∷ 241
    ∷ 251 ∷ 257 ∷ 263 ∷ 269 ∷ 271 ∷ 277 ∷ 281 ∷ 283 ∷ 293 ∷ 307 ∷ 311 ∷ 313 ∷ 317 ∷ 331 ∷ 337 ∷ 347
    ∷ 349 ∷ 353 ∷ 359 ∷ 367 ∷ 373 ∷ 379 ∷ 383 ∷ 389 ∷ 397 ∷ 401 ∷ 409 ∷ []

-- The constants of the rounds are from the cube roots, those of the states from the square roots.
unfoldable round_constants : ℕ → ℕ → List ℕ
unfolding fraction
round_constants width rounds = map (fraction width 3) (take rounds primes)

unfoldable pub initial_words : ℕ → ℕ → List ℕ
unfolding fraction
initial_words width skipped = map (fraction width 2) (take 8 (drop skipped primes))

-- ROTR
unfoldable rotr : ℕ → ℕ → ℕ → ℕ
rotr width n x = x / 2 ^ n + x * 2 ^ (width - n) % 2 ^ width

-- Two rotations and a shift, and three rotations.
unfoldable small_sigma : ℕ → ℕ → ℕ → ℕ → ℕ → ℕ
unfolding rotr
small_sigma width a b shift x = bit_xor (bit_xor (rotr width a x) (rotr width b x)) (x / 2 ^ shift)

unfoldable large_sigma : ℕ → ℕ → ℕ → ℕ → ℕ → ℕ
unfolding rotr
large_sigma width a b c x = bit_xor (bit_xor (rotr width a x) (rotr width b x)) (rotr width c x)

-- SHA-256.
unfoldable pub standard256 : Numbers
unfolding small_sigma large_sigma round_constants
standard256 = record {
  width = 32;
  word_size = 4;
  rounds = 64;
  round = round_constants 32 64;
  sigma0_a = small_sigma 32 7 18 3;
  sigma1_a = small_sigma 32 17 19 10;
  sigma0_b = large_sigma 32 2 13 22;
  sigma1_b = large_sigma 32 6 11 25;
}

-- SHA-384 and SHA-512.
unfoldable pub standard512 : Numbers
unfolding small_sigma large_sigma round_constants
standard512 = record {
  width = 64;
  word_size = 8;
  rounds = 80;
  round = round_constants 64 80;
  sigma0_a = small_sigma 64 1 8 7;
  sigma1_a = small_sigma 64 19 61 6;
  sigma0_b = large_sigma 64 28 34 39;
  sigma1_b = large_sigma 64 14 18 41;
}

pub sha256_numbers-standard256 : sha256_numbers ≡ standard256
unfolding standard256 round_constants fraction root small_sigma large_sigma rotr rotate_right
    sha256_sigma0_a sha256_sigma1_a sha256_sigma0_b sha256_sigma1_b
sha256_numbers-standard256 = refl

pub sha512_numbers-standard512 : sha512_numbers ≡ standard512
unfolding standard512 round_constants fraction root small_sigma large_sigma rotr rotate_right
    sha512_sigma0_a sha512_sigma1_a sha512_sigma0_b sha512_sigma1_b
sha512_numbers-standard512 = refl

pub sha256_initial-initial_words : sha256_initial ≡ initial_words 32 0
unfolding initial_words fraction root
sha256_initial-initial_words = refl

pub sha512_initial-initial_words : sha512_initial ≡ initial_words 64 0
unfolding initial_words fraction root
sha512_initial-initial_words = refl

pub sha384_initial-initial_words : sha384_initial ≡ initial_words 64 8
unfolding initial_words fraction root
sha384_initial-initial_words = refl
