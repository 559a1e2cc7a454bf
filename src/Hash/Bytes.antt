-- ===== src/Hash/Bytes.antt =====
-- The loads and stores of hc/core/hc/mem.c that the hashes use give the words and bytes of FIPS 180-4.
use native.Mathlib.Nat.{div-div-eq-div-mul, mul_assoc, add-mul}
use hc.Base.{
  ℕ, zero, suc, ◌+◌, ◌*◌, ◌/◌, ◌%◌, ◌^◌, ◌≡◌, refl, ap, ap₂, sym, ◌∙◌, arith, List, [], ◌∷◌, ◌++◌,
  two_pow_suc,
}
use hc.Hash.{big_endian}
use hc.Hash.Words.{load_big_endian, store_words}
use hc.Hash.Fips.{number_of, bytes_of, all_bytes}

two_pow_byte : (n : ℕ) → 2 ^ (8 * suc n) ≡ 256 * 2 ^ (8 * n)
two_pow_byte n =
    let e : 8 * suc n ≡ suc (suc (suc (suc (suc (suc (suc (suc (8 * n)))))))) = omega arith in
    rw e (
      omega (
        arith,
        two_pow_suc (suc (suc (suc (suc (suc (suc (suc (8 * n)))))))),
        two_pow_suc (suc (suc (suc (suc (suc (suc (8 * n))))))),
        two_pow_suc (suc (suc (suc (suc (suc (8 * n)))))),
        two_pow_suc (suc (suc (suc (suc (8 * n))))),
        two_pow_suc (suc (suc (suc (8 * n)))),
        two_pow_suc (suc (suc (8 * n))),
        two_pow_suc (suc (8 * n)),
        two_pow_suc (8 * n),
      ))

load-nothing : (n : ℕ) → load_big_endian n [] ≡ 0
unfolding load_big_endian
load-nothing zero = refl
load-nothing (suc n) = refl

up_one : (x n : ℕ) → x * 256 * 2 ^ (8 * n) ≡ x * 2 ^ (8 * suc n)
up_one x n = mul_assoc x 256 (2 ^ (8 * n)) ∙ ap (λ t. x * t) (sym (two_pow_byte n))

number_of-load :
    (n found : ℕ) (bytes : List ℕ)
    → number_of n found bytes ≡ found * 2 ^ (8 * n) + load_big_endian n bytes
unfolding number_of load_big_endian
number_of-load zero found bytes = omega arith
number_of-load (suc n) found [] =
    number_of-load n (found * 2 ^ 8) [] ∙ omega (arith, up_one found n, load-nothing n)
number_of-load (suc n) found (b ∷ bytes) =
    number_of-load n (found * 2 ^ 8 + b % 2 ^ 8) bytes
    ∙ omega (arith, up_one found n, add-mul (found * 256) (b % 2 ^ 8) (2 ^ (8 * n)))

bytes_of-split : (n x : ℕ) → bytes_of (suc n) x ≡ bytes_of n (x / 2 ^ 8) ++ (x % 2 ^ 8 ∷ [])
unfolding bytes_of
bytes_of-split zero x = let e : x / 1 % 256 ≡ x % 256 = omega arith in ap (λ y. y ∷ []) e
bytes_of-split (suc n) x =
    ap₂ (λ y ys. y ∷ ys)
      (ap (λ t. t % 2 ^ 8)
        (ap (λ t. x / t) (two_pow_byte n) ∙ sym (div-div-eq-div-mul x 256 (2 ^ (8 * n)))))
      (bytes_of-split n x)

big_endian-bytes_of : (n x : ℕ) → big_endian n x ≡ bytes_of n x
unfolding big_endian bytes_of
big_endian-bytes_of zero x = refl
big_endian-bytes_of (suc n) x =
    ap (λ ys. ys ++ (x % 2 ^ 8 ∷ [])) (big_endian-bytes_of n (x / 2 ^ 8)) ∙ sym (bytes_of-split n x)

pub store_words-all_bytes : (size : ℕ) (xs : List ℕ) → store_words size xs ≡ all_bytes size xs
unfolding store_words all_bytes
store_words-all_bytes size [] = refl
store_words-all_bytes size (x ∷ xs) =
    ap₂ (λ ys zs. ys ++ zs) (big_endian-bytes_of size x) (store_words-all_bytes size xs)

-- The word that is loaded from the start of these bytes.
pub number_of-load_big_endian :
    (n : ℕ) (bytes : List ℕ) → load_big_endian n bytes ≡ number_of n 0 bytes
number_of-load_big_endian n bytes = omega (arith, number_of-load n 0 bytes)
