-- ===== src/Hash/Tests.antt =====
-- The hashes of "abc" that FIPS 180-4 names, and a hash from pieces.
use hc.Base.{ℕ, ◌≡◌, refl, arith, List, [], ◌∷◌, replicate, take, copy_to}
use hc.Math.{align_remainder, align_backward}
use hc.Hash.{blocks, init, update_blocks, update, finish, big_endian}
use hc.Hash.Words.{load_big_endian, load_words, store_words}
use hc.Hash.Sha2.{compress}
use hc.Hash.Sha1.{sha1_compress, sha1_init, sha1_update, sha1_finish}
use hc.Hash.Sha256.{
  sha256_numbers, sha256_initial, sha256_scheme, sha256_init, sha256_update, sha256_finish,
  sha256_sigma0_a, sha256_sigma1_a, sha256_sigma0_b, sha256_sigma1_b,
}
use hc.Hash.Sha512.{
  sha512_numbers, sha384_initial, sha512_scheme, sha512_init, sha512_init384, sha512_update,
  sha512_finish, sha512_sigma0_a, sha512_sigma1_a, sha512_sigma0_b, sha512_sigma1_b,
}
use hc.Hash.Fips.{hash_block}
use hc.Hash.Constants.{standard256, standard512}
use hc.Hash.Standard.{
  standard_sha256, standard_sha512, standard_sha384, finish-standard, compress-standard,
  sha256_initial-IsState, sha384_initial-IsState,
}
use hc.Hash.Padding.{hash}
use hc.Hash.Pieces.{update_all, joined, finish-update_all}

abbrev abc : List ℕ
abc = 0x61 ∷ 0x62 ∷ 0x63 ∷ []

sha1_abc :
    sha1_finish (sha1_update (sha1_init (replicate 64 0)) abc)
    ≡ big_endian 20 0xa9993e364706816aba3e25717850c26c9cd0d89d
unfolding init update update_blocks blocks finish big_endian sha1_compress store_words load_words
    load_big_endian align_remainder copy_to align_backward
sha1_abc = refl

sha256_abc :
    sha256_finish (sha256_update (sha256_init (replicate 64 0)) abc)
    ≡ big_endian 32 0xba7816bf8f01cfea414140de5dae2223b00361a396177a9cb410ff61f20015ad
unfolding init update update_blocks blocks finish big_endian compress store_words sha256_sigma0_a
    sha256_sigma1_a sha256_sigma0_b sha256_sigma1_b load_words load_big_endian align_remainder
    copy_to align_backward
sha256_abc = refl

sha512_abc :
    sha512_finish (sha512_update (sha512_init (replicate 128 0)) abc)
    ≡ big_endian 64
        0xddaf35a193617abacc417349ae20413112e6fa4e89a97ea20a9eeee64b55d39a2192992a274fc1a836ba3c23a3feebbd454d4423643ce80e2a9ac94fa54ca49f
unfolding init update update_blocks blocks finish big_endian compress store_words sha512_sigma0_a
    sha512_sigma1_a sha512_sigma0_b sha512_sigma1_b load_words load_big_endian align_remainder
    copy_to align_backward
sha512_abc = refl

sha384_abc :
    take 48 (sha512_finish (sha512_update (sha512_init384 (replicate 128 0)) abc))
    ≡ big_endian 48
        0xcb00753f45a35e8bb5a03d699ac65007272c32ab0eded1631a8b605a43ff5bed8086072ba1e7cc2358baeca134c825a7
unfolding init update update_blocks blocks finish big_endian compress store_words sha512_sigma0_a
    sha512_sigma1_a sha512_sigma0_b sha512_sigma1_b load_words load_big_endian align_remainder
    copy_to align_backward
sha384_abc = refl

finish-update_all_example :
    sha256_finish (
      update_all sha256_scheme
        (sha256_init (replicate 64 7))
        ((0x61 ∷ []) ∷ replicate 130 0x62 ∷ abc ∷ []))
    ≡ hash sha256_scheme (joined ((0x61 ∷ []) ∷ replicate 130 0x62 ∷ abc ∷ []))
unfolding joined
finish-update_all_example =
    finish-update_all sha256_scheme (replicate 64 7) ((0x61 ∷ []) ∷ replicate 130 0x62 ∷ abc ∷ [])
      (record { shift_bound = omega arith; length_fits = omega arith; length_wide = omega arith })
      refl (omega arith)

finish-standard_example :
    let inputs = (0x61 ∷ []) ∷ replicate 130 0x62 ∷ abc ∷ [] in
    (sha256_finish (update_all sha256_scheme (sha256_init (replicate 64 7)) inputs)
      ≡ hash standard_sha256 (joined inputs))
    × (sha512_finish (update_all sha512_scheme (sha512_init (replicate 128 7)) inputs)
        ≡ hash standard_sha512 (joined inputs))
    × (take 48 (sha512_finish (update_all sha512_scheme (sha512_init384 (replicate 128 7)) inputs))
        ≡ hash standard_sha384 (joined inputs))
unfolding joined
finish-standard_example =
    finish-standard (replicate 64 7) (replicate 128 7) ((0x61 ∷ []) ∷ replicate 130 0x62 ∷ abc ∷ [])
      refl refl (omega arith)

compress-standard_example :
    (compress sha256_numbers sha256_initial (replicate 64 0x61)
      ≡ hash_block standard256 sha256_initial (replicate 64 0x61))
    × (compress sha512_numbers sha384_initial (replicate 128 0x62)
        ≡ hash_block standard512 sha384_initial (replicate 128 0x62))
compress-standard_example =
    compress-standard sha256_initial (replicate 64 0x61) sha384_initial (replicate 128 0x62) refl
      sha256_initial-IsState.words refl sha384_initial-IsState.words
