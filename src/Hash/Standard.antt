-- ===== src/Hash/Standard.antt =====
-- The hashes of hc/core/hc/crypto/sha256.c and sha512.c, and those of FIPS 180-4.
use native.Mathlib.Nat.{mod-lt}
use hc.Base.{
  ℕ, zero, suc, ◌/◌, ◌%◌, ◌^◌, ◌≡◌, ◌≤◌, ◌<◌, refl, ap, ap₂, ◌∙◌, arith, List, length, take, drop,
  two_pow_pos, ltb, ltb→lt, every_below, every_below→true,
}
use hc.Hash.{Scheme, blocks, update, finish, big_endian}
use hc.Hash.Words.{word_at}
use hc.Hash.Sha2.{Numbers, compress}
use hc.Hash.Fips.{hash_block, all_bytes}
use hc.Hash.Bytes.{store_words-all_bytes}
use hc.Hash.Constants.{
  initial_words, standard256, standard512, sha256_numbers-standard256, sha512_numbers-standard512,
  sha256_initial-initial_words, sha512_initial-initial_words, sha384_initial-initial_words,
}
use hc.Hash.Rounds.{compress-hash_block}
use hc.Hash.Padding.{IsValid, hash, padded, zeros}
use hc.Hash.Pieces.{joined, update_all, finish-update_all}
use hc.Hash.Sha256.{sha256_scheme, sha256_numbers, sha256_initial, sha256_init, sha256_finish}
use hc.Hash.Sha512.{
  sha512_scheme, sha512_numbers, sha512_initial, sha512_init, sha512_init384, sha512_finish,
  sha384_scheme, sha384_initial,
}

module _ (s : Scheme) (k : Numbers) (digest : List ℕ → List ℕ) where
  -- Eight words.
  pub record IsState (state : List ℕ) : Type 0 where
    pub eight : length state ≡ 8
    pub words : (i : ℕ) → i < 8 → word_at state i < 2 ^ k.width

  -- The scheme with the rounds of the code, and with eight variables that move and this digest.
  abbrev pub with_code : Scheme
  with_code = record s { compress = compress k }

  abbrev pub with_variables : Scheme
  with_variables = record s { compress = hash_block k; digest = digest }

  hash_block-IsState : (state block : List ℕ) → IsState (hash_block k state block)
  unfolding hash_block
  hash_block-IsState state block = record { eight = refl; words = go }
    where
      below : (x : ℕ) → x % 2 ^ k.width < 2 ^ k.width
      below x = mod-lt x (two_pow_pos k.width)

      go : (i : ℕ) → i < 8 → word_at (hash_block k state block) i < 2 ^ k.width
      go zero l = below _
      go (suc zero) l = below _
      go (suc (suc zero)) l = below _
      go (suc (suc (suc zero))) l = below _
      go (suc (suc (suc (suc zero)))) l = below _
      go (suc (suc (suc (suc (suc zero))))) l = below _
      go (suc (suc (suc (suc (suc (suc zero)))))) l = below _
      go (suc (suc (suc (suc (suc (suc (suc zero))))))) l = below _
      go (suc (suc (suc (suc (suc (suc (suc (suc i)))))))) l = absurd (omega arith)

  blocks-variables :
      (n : ℕ) (state input : List ℕ)
      → 16 ≤ k.rounds
      → IsState state
      → blocks with_code n state input ≡ blocks with_variables n state input
  unfolding blocks
  blocks-variables zero state input h st = refl
  blocks-variables (suc n) state input h st =
      let block = take (2 ^ s.shift) input in
      ap (λ t. blocks with_code n t (drop (2 ^ s.shift) input))
        (compress-hash_block k state block h st.eight st.words)
      ∙ blocks-variables n (hash_block k state block) (drop (2 ^ s.shift) input) h
          (hash_block-IsState state block)

  hash-variables :
      (part : List ℕ → List ℕ) (message : List ℕ)
      → ((state : List ℕ) → part (s.digest state) ≡ digest state)
      → 16 ≤ k.rounds
      → IsState s.initial
      → part (hash with_code message) ≡ hash with_variables message
  unfolding hash padded hash_block compress zeros big_endian
  hash-variables part message e h st =
      ap (λ x. part (s.digest x))
        (blocks-variables (length (padded with_code message) / 2 ^ s.shift) s.initial
          (padded with_code message) h st)
      ∙ e _

-- The bytes of the first six words.
abbrev pub first_six : List ℕ → List ℕ
first_six state = take 48 (all_bytes 8 state)

-- The states at the start are words.
pub sha256_initial-IsState : IsState sha256_scheme sha256_numbers (all_bytes 4) sha256_initial
unfolding every_below
sha256_initial-IsState = record {
  eight = refl;
  words = λ i l.
      ltb→lt (word_at sha256_initial i) (2 ^ 32)
        (every_below→true (λ j. ltb (word_at sha256_initial j) (2 ^ 32)) 8 i refl l);
}

sha512_initial-IsState : IsState sha512_scheme sha512_numbers (all_bytes 8) sha512_initial
unfolding every_below
sha512_initial-IsState = record {
  eight = refl;
  words = λ i l.
      ltb→lt (word_at sha512_initial i) (2 ^ 64)
        (every_below→true (λ j. ltb (word_at sha512_initial j) (2 ^ 64)) 8 i refl l);
}

pub sha384_initial-IsState : IsState sha384_scheme sha512_numbers first_six sha384_initial
unfolding every_below
sha384_initial-IsState = record {
  eight = refl;
  words = λ i l.
      ltb→lt (word_at sha384_initial i) (2 ^ 64)
        (every_below→true (λ j. ltb (word_at sha384_initial j) (2 ^ 64)) 8 i refl l);
}

-- The schemes of FIPS 180-4: the words of the last state as bytes, for SHA-384 only six of them.
abbrev pub standard_sha256 : Scheme
standard_sha256 = record {
  shift = 6;
  length_size = 8;
  initial = initial_words 32 0;
  compress = hash_block standard256;
  digest = all_bytes 4;
}

abbrev pub standard_sha512 : Scheme
standard_sha512 = record {
  shift = 7;
  length_size = 16;
  initial = initial_words 64 0;
  compress = hash_block standard512;
  digest = all_bytes 8;
}

abbrev pub standard_sha384 : Scheme
standard_sha384 = record {
  shift = 7;
  length_size = 16;
  initial = initial_words 64 8;
  compress = hash_block standard512;
  digest = λ state. take 48 (all_bytes 8 state);
}

sha256-standard : with_variables sha256_scheme sha256_numbers (all_bytes 4) ≡ standard_sha256
sha256-standard =
    ap₂
      (λ initial k. record {
        shift = 6;
        length_size = 8;
        initial = initial;
        compress = hash_block k;
        digest = all_bytes 4;
      })
      sha256_initial-initial_words sha256_numbers-standard256

-- The schemes with blocks of 128 bytes.
large_scheme : (List ℕ → List ℕ) → List ℕ → Numbers → Scheme
large_scheme digest initial k = record {
  shift = 7;
  length_size = 16;
  initial = initial;
  compress = hash_block k;
  digest = digest;
}

sha512-standard : with_variables sha512_scheme sha512_numbers (all_bytes 8) ≡ standard_sha512
unfolding large_scheme
sha512-standard =
    ap₂ (large_scheme (all_bytes 8)) sha512_initial-initial_words sha512_numbers-standard512

sha384-standard : with_variables sha384_scheme sha512_numbers first_six ≡ standard_sha384
unfolding large_scheme
sha384-standard =
    ap₂ (large_scheme first_six) sha384_initial-initial_words sha512_numbers-standard512

-- A pass of the outer loop of `_sha256_blocks`, and one of `_sha512_blocks`, on a state of eight
-- words, is the hash computation of FIPS 180-4 for one block, with the constants and functions that
-- it names: the constants from the cube roots of the primes, the words of the block by their bytes.
pub compress-standard :
    (state block large_state large_block : List ℕ)
    → length state ≡ 8
    → ((i : ℕ) → i < 8 → word_at state i < 2 ^ 32)
    → length large_state ≡ 8
    → ((i : ℕ) → i < 8 → word_at large_state i < 2 ^ 64)
    → (compress sha256_numbers state block ≡ hash_block standard256 state block)
      × (compress sha512_numbers large_state large_block
          ≡ hash_block standard512 large_state large_block)
compress-standard state block large_state large_block e w large_e large_w = (
  compress-hash_block sha256_numbers state block (omega arith) e w
      ∙ ap (λ k. hash_block k state block) sha256_numbers-standard256,
  compress-hash_block sha512_numbers large_state large_block (omega arith) large_e large_w
      ∙ ap (λ k. hash_block k large_state large_block) sha512_numbers-standard512,
)

-- A message shorter than 2^61 bytes, given to sha256_update, or to sha512_update behind sha512_init or
-- sha512_init384, in any pieces, has the hash that FIPS 180-4 defines for it, with the constants,
-- functions, words at the start and byte order that it names, whatever the buffers hold before. For
-- SHA-384 that hash is the first 48 of the 64 bytes that `sha512_finish` writes.
pub finish-standard :
    (buffer large_buffer : List ℕ) (inputs : List (List ℕ))
    → length buffer ≡ 64
    → length large_buffer ≡ 128
    → length (joined inputs) < 2 ^ 61
    → (sha256_finish (update_all sha256_scheme (sha256_init buffer) inputs)
        ≡ hash standard_sha256 (joined inputs))
      × (sha512_finish (update_all sha512_scheme (sha512_init large_buffer) inputs)
          ≡ hash standard_sha512 (joined inputs))
      × (take 48 (sha512_finish (update_all sha512_scheme (sha512_init384 large_buffer) inputs))
          ≡ hash standard_sha384 (joined inputs))
unfolding update_all update finish
finish-standard buffer large_buffer inputs small large h = (
  finish-update_all sha256_scheme buffer inputs sha256_valid small h
      ∙ hash-variables sha256_scheme sha256_numbers (all_bytes 4) (λ x. x) (joined inputs)
          (store_words-all_bytes 4) (omega arith) sha256_initial-IsState
      ∙ ap (λ s. hash s (joined inputs)) sha256-standard,
  finish-update_all sha512_scheme large_buffer inputs sha512_valid large h
      ∙ hash-variables sha512_scheme sha512_numbers (all_bytes 8) (λ x. x) (joined inputs)
          (store_words-all_bytes 8) (omega arith) sha512_initial-IsState
      ∙ ap (λ s. hash s (joined inputs)) sha512-standard,
  ap (take 48) (finish-update_all sha384_scheme large_buffer inputs sha384_valid large h)
      ∙ hash-variables sha384_scheme sha512_numbers first_six (take 48) (joined inputs)
          (λ x. ap (take 48) (store_words-all_bytes 8 x)) (omega arith) sha384_initial-IsState
      ∙ ap (λ s. hash s (joined inputs)) sha384-standard,
)
  where
    sha256_valid : IsValid sha256_scheme
    sha256_valid = record {
      shift_bound = omega arith;
      length_fits = omega arith;
      length_wide = omega arith;
    }

    sha512_valid : IsValid sha512_scheme
    sha512_valid = record {
      shift_bound = omega arith;
      length_fits = omega arith;
      length_wide = omega arith;
    }

    sha384_valid : IsValid sha384_scheme
    sha384_valid = record {
      shift_bound = omega arith;
      length_fits = omega arith;
      length_wide = omega arith;
    }
