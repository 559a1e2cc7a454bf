-- ===== src/Base64/Bounds.antt =====
-- Where the encoder writes.
use hc.Base.{
  ℕ, zero, suc, ◌+◌, ◌≤◌, ◌<◌, ◌≡◌, ◌⊎◌, inl, inr, refl, ◌∙◌, arith, List, byte_at, set,
  byte_at-set_ne,
}
use hc.Base64.{encode_size, encode_round, encode_rest, base64_encode}

-- `i` is none of the `count` places from `out` on.
abbrev pub Outside : ℕ → ℕ → ℕ → Type 0
Outside out count i = (i < out) ⊎ (out + count ≤ i)

four_sets :
    (mem : List ℕ) (out i a b c d : ℕ)
    → Outside out 4 i
    → byte_at (set (set (set (set mem out a) (out + 1) b) (out + 2) c) (out + 3) d) i
      ≡ byte_at mem i
four_sets mem out i a b c d h =
    byte_at-set_ne (set (set (set mem out a) (out + 1) b) (out + 2) c) (out + 3) i d
      (λ e. grind arith)
    ∙ byte_at-set_ne (set (set mem out a) (out + 1) b) (out + 2) i c (λ e. grind arith)
    ∙ byte_at-set_ne (set mem out a) (out + 1) i b (λ e. grind arith)
    ∙ byte_at-set_ne mem out i a (λ e. grind arith)

encode_rest-Outside :
    (mem : List ℕ) (out inp remaining i : ℕ)
    → Outside out (encode_size remaining) i
    → remaining ≤ 2
    → byte_at (encode_rest mem out inp remaining) i ≡ byte_at mem i
unfolding encode_rest
encode_rest-Outside mem out inp zero i h l = refl
encode_rest-Outside mem out inp (suc zero) i h l = four_sets mem out i _ _ _ _ h
encode_rest-Outside mem out inp (suc (suc zero)) i h l = four_sets mem out i _ _ _ _ h
encode_rest-Outside mem out inp (suc (suc (suc n))) i h l = absurd (omega arith)

-- `base64_encode` writes only to the `base64_ENCODE_SIZE` places from `out` on, wherever the
-- input stands.
pub base64_encode-Outside :
    (in_size : ℕ) (mem : List ℕ) (out inp i : ℕ)
    → Outside out (encode_size in_size) i
    → byte_at (base64_encode mem out inp in_size) i ≡ byte_at mem i
unfolding base64_encode encode_round
base64_encode-Outside zero mem out inp i h = encode_rest-Outside mem out inp 0 i h (omega arith)
base64_encode-Outside (suc zero) mem out inp i h =
    encode_rest-Outside mem out inp 1 i h (omega arith)
base64_encode-Outside (suc (suc zero)) mem out inp i h =
    encode_rest-Outside mem out inp 2 i h (omega arith)
base64_encode-Outside (suc (suc (suc n))) mem out inp i h =
    base64_encode-Outside n (encode_round mem out inp) (out + 4) (inp + 3) i (narrower h)
    ∙ four_sets mem out i _ _ _ _ (first h)
  where
    narrower : Outside out (encode_size (suc (suc (suc n)))) i → Outside (out + 4) (encode_size n) i
    narrower (inl p) = inl (omega arith)
    narrower (inr p) = inr (omega arith)

    first : Outside out (encode_size (suc (suc (suc n)))) i → Outside out 4 i
    first (inl p) = inl p
    first (inr p) = inr (omega arith)
