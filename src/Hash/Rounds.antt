-- ===== src/Hash/Rounds.antt =====
-- The rounds of SHA-2 in hc/core/hc/crypto/sha256.c and sha512.c are those of FIPS 180-4.
use hc.Base.{
  ℕ, zero, suc, ◌+◌, ◌-◌, ◌%◌, ◌^◌, ◌≡◌, ◌≤◌, ◌<◌, refl, ap, ap₂, sym, subst, ◌∙◌, arith, List, [],
  ◌∷◌, ◌++◌, length, drop, replicate, length-append, length-replicate, ltb, Bool-cases, inl, inr,
}
use hc.Hash.Choose.{fips_ch, fips_maj, maj-fips_maj}
use hc.Hash.Words.{load_big_endian, word_at, load_words}
use hc.Hash.Sha2.{
  Numbers, maj, Work, mixed, next_r, next_w, round_at, rounds_from, load_state, add_state, compress,
}
use hc.Hash.Bytes.{number_of-load_big_endian}
use hc.Hash.Fips.{Variables, block_words, next_words, variables_step, variables_from, hash_block}
use hc.Hash.Schedule.{
  word_at-append, variables_step-Small, Corresponds, mixed_is, next_r_other, next_w_old,
  length-next_w, next_r_e, next_r_a, length-next_r, next_w_new, next_words_old, next_words_new,
  length-next_words,
}

module _ (k : Numbers) where
  round_at-words :
      (t : ℕ) (m : Work) (ws : List ℕ) (v : Variables)
      → Corresponds k t m ws v
      → (j : ℕ) → j < 16
      → t + 1 + j < k.rounds
      → word_at (next_w k m.w t) (t + 1 + j) ≡ word_at (next_words k ws) j
  round_at-words t m ws v c j below l = elim (Bool-cases (ltb j 15)) [
    | inl old ↦
        let one : t + 1 + j ≡ t + suc j = omega arith in
        next_w_old k m.w t (t + 1 + j) (λ e. ground arith)
        ∙ ap (word_at m.w) one
        ∙ c.words (suc j) (ground arith) (omega arith)
        ∙ sym (next_words_old k ws j c.ws_length (ground arith))
    | inr new ↦
        let last : j ≡ 15 = ground arith in
        let behind : t + 1 + j ≡ t + 16 = omega arith in
        ap (word_at (next_w k m.w t)) behind
        ∙ next_w_new k t m ws v (omega arith) c
        ∙ sym (next_words_new k ws c.ws_length)
        ∙ ap (word_at (next_words k ws)) (sym last)
  ]

  -- A round of the code is a round of the standard.
  round_at-Corresponds :
      (t : ℕ) (m : Work) (ws : List ℕ) (v : Variables)
      → t < k.rounds
      → Corresponds k t m ws v
      → Corresponds k
          (t + 1)
          (round_at k m t)
          (next_words k ws)
          (variables_step k v (word_at k.round t) (word_at ws 0))
  unfolding round_at variables_step
  round_at-Corresponds t m ws v lt c =
      let x = mixed k m t in
      let mix : x
          ≡ (v.h + k.sigma1_b v.e + fips_ch k.width v.e v.f v.g + word_at k.round t + word_at ws 0)
            % 2 ^ k.width =
        mixed_is k t m ws v lt c in
      let r' = next_r k m.r t x in
      let inside : t + 8 < length m.r = omega (arith, c.r_length) in
      let sum_a : x + k.sigma0_b v.a + maj v.a v.b v.c
          ≡ x + (k.sigma0_b v.a + fips_maj v.a v.b v.c) =
        omega (
          arith,
          maj-fips_maj k.width v.a v.b v.c c.small.a_small c.small.b_small c.small.c_small,
        ) in
      record {
        r_length = length-next_r k m.r t x ∙ c.r_length;
        w_length = length-next_w k m.w t ∙ c.w_length;
        ws_length = length-next_words k ws c.ws_length;
        small = variables_step-Small k v (word_at k.round t) (word_at ws 0) c.small;
        r0 = next_r_other k m.r t x (t + 1) (λ e. omega arith) (λ e. omega arith) ∙ c.r1;
        r1 =
            ap (word_at r') (plus 1 2 refl)
            ∙ next_r_other k m.r t x (t + 2) (λ e. omega arith) (λ e. omega arith)
            ∙ c.r2;
        r2 =
            ap (word_at r') (plus 2 3 refl)
            ∙ next_r_other k m.r t x (t + 3) (λ e. omega arith) (λ e. omega arith)
            ∙ c.r3;
        r3 =
            ap (word_at r') (plus 3 4 refl)
            ∙ next_r_e k m.r t x inside
            ∙ ap (λ y. (y + x) % 2 ^ k.width) c.r4
            ∙ ap (λ y. (v.d + y) % 2 ^ k.width) mix;
        r4 =
            ap (word_at r') (plus 4 5 refl)
            ∙ next_r_other k m.r t x (t + 5) (λ e. omega arith) (λ e. omega arith)
            ∙ c.r5;
        r5 =
            ap (word_at r') (plus 5 6 refl)
            ∙ next_r_other k m.r t x (t + 6) (λ e. omega arith) (λ e. omega arith)
            ∙ c.r6;
        r6 =
            ap (word_at r') (plus 6 7 refl)
            ∙ next_r_other k m.r t x (t + 7) (λ e. omega arith) (λ e. omega arith)
            ∙ c.r7;
        r7 =
            ap (word_at r') (plus 7 8 refl)
            ∙ next_r_a k m.r t x inside
            ∙ ap
                (λ y.
                  (x + k.sigma0_b y + maj y (word_at m.r (t + 6)) (word_at m.r (t + 5)))
                  % 2 ^ k.width)
                c.r7
            ∙ ap (λ y. (x + k.sigma0_b v.a + maj v.a y (word_at m.r (t + 5))) % 2 ^ k.width) c.r6
            ∙ ap (λ y. (x + k.sigma0_b v.a + maj v.a v.b y) % 2 ^ k.width) c.r5
            ∙ ap (λ y. y % 2 ^ k.width) sum_a
            ∙ ap (λ y. (y + (k.sigma0_b v.a + fips_maj v.a v.b v.c)) % 2 ^ k.width) mix;
        words = round_at-words t m ws v c;
      }
    where
      plus : (i j : ℕ) → i + 1 ≡ j → t + 1 + i ≡ t + j
      plus i j e = omega arith

  rounds_from-Corresponds :
      (n t : ℕ) (m : Work) (ws : List ℕ) (v : Variables)
      → t + n ≡ k.rounds
      → Corresponds k t m ws v
      → (end : List ℕ) × Corresponds k k.rounds
          (rounds_from k n t m)
          end
          (variables_from k n t ws v)
  unfolding rounds_from variables_from
  rounds_from-Corresponds zero t m ws v e c =
      let z : t ≡ k.rounds = omega arith in (ws, subst (λ i. Corresponds k i m ws v) z c)
  rounds_from-Corresponds (suc n) t m ws v e c =
      rounds_from-Corresponds n (t + 1) (round_at k m t) (next_words k ws)
        (variables_step k v (word_at k.round t) (word_at ws 0)) (omega arith)
        (round_at-Corresponds t m ws v (omega arith) c)

  loaded : List ℕ → List ℕ → Work
  loaded state block = record {
    w = load_words k.word_size 16 (replicate k.rounds 0) 0 block;
    r = load_state k (replicate (k.rounds + 8) 0) 0 state;
  }

  -- The words as the code loads them.
  code_words : ℕ → ℕ → List ℕ → List ℕ
  code_words size zero block = []
  code_words size (suc n) block = load_big_endian size block ∷ code_words size n (drop size block)

  code_words-block_words :
      (size n : ℕ) (block : List ℕ) → code_words size n block ≡ block_words size n block
  unfolding code_words block_words
  code_words-block_words size zero block = refl
  code_words-block_words size (suc n) block =
      ap₂ (λ x xs. x ∷ xs) (number_of-load_big_endian size block)
        (code_words-block_words size n (drop size block))

  loaded_w :
      (state block : List ℕ)
      → 16 ≤ k.rounds
      → (loaded state block).w ≡ block_words k.word_size 16 block ++ replicate (k.rounds - 16) 0
  unfolding loaded load_words code_words
  loaded_w state block h =
      let n = k.rounds - 16 in
      let e : k.rounds
          ≡ suc (
              suc (
                suc (
                  suc
                    (suc (suc (suc (suc (suc (suc (suc (suc (suc (suc (suc (suc (n)))))))))))))))) =
        omega arith in
      ap (λ i. load_words k.word_size 16 (replicate i 0) 0 block) e
      ∙ ap (λ ws. ws ++ replicate n 0) (code_words-block_words k.word_size 16 block)

  loaded_r :
      (x0 x1 x2 x3 x4 x5 x6 x7 : ℕ) (block : List ℕ)
      → (loaded (x0 ∷ x1 ∷ x2 ∷ x3 ∷ x4 ∷ x5 ∷ x6 ∷ x7 ∷ []) block).r
        ≡ x7 ∷ x6 ∷ x5 ∷ x4 ∷ x3 ∷ x2 ∷ x1 ∷ x0 ∷ replicate k.rounds 0
  unfolding loaded load_state
  loaded_r x0 x1 x2 x3 x4 x5 x6 x7 block =
      let e : k.rounds + 8 ≡ suc (suc (suc (suc (suc (suc (suc (suc (k.rounds)))))))) =
        omega arith in
      ap (λ i. load_state k (replicate i 0) 0 (x0 ∷ x1 ∷ x2 ∷ x3 ∷ x4 ∷ x5 ∷ x6 ∷ x7 ∷ [])) e

  length-block_words : (size n : ℕ) (block : List ℕ) → length (block_words size n block) ≡ n
  unfolding block_words
  length-block_words size zero block = refl
  length-block_words size (suc n) block = ap suc (length-block_words size n (drop size block))

  start_of : List ℕ → Variables
  start_of state = record {
    a = word_at state 0;
    b = word_at state 1;
    c = word_at state 2;
    d = word_at state 3;
    e = word_at state 4;
    f = word_at state 5;
    g = word_at state 6;
    h = word_at state 7;
  }

  loaded-Corresponds :
      (x0 x1 x2 x3 x4 x5 x6 x7 : ℕ) (block : List ℕ)
      → 16 ≤ k.rounds
      → let state = x0 ∷ x1 ∷ x2 ∷ x3 ∷ x4 ∷ x5 ∷ x6 ∷ x7 ∷ [] in
        ((i : ℕ) → i < 8 → word_at state i < 2 ^ k.width)
        → Corresponds k 0 (loaded state block) (block_words k.word_size 16 block) (start_of state)
  unfolding start_of
  loaded-Corresponds x0 x1 x2 x3 x4 x5 x6 x7 block h s =
      let state = x0 ∷ x1 ∷ x2 ∷ x3 ∷ x4 ∷ x5 ∷ x6 ∷ x7 ∷ [] in
      let r = loaded_r x0 x1 x2 x3 x4 x5 x6 x7 block in
      let w = loaded_w state block h in
      let words_length = length-block_words k.word_size 16 block in
      let zeros_w : length (replicate {A = ℕ} (k.rounds - 16) 0) ≡ k.rounds - 16 =
        length-replicate (k.rounds - 16) 0 in
      let zeros_r : length (replicate {A = ℕ} k.rounds 0) ≡ k.rounds =
        length-replicate k.rounds 0 in
      record {
        r_length = ap length r ∙ omega arith;
        w_length =
            ap length w
            ∙ length-append (block_words k.word_size 16 block) (replicate (k.rounds - 16) 0)
            ∙ omega arith;
        ws_length = words_length;
        small = record {
          a_small = s 0 (omega arith);
          b_small = s 1 (omega arith);
          c_small = s 2 (omega arith);
          e_small = s 4 (omega arith);
          f_small = s 5 (omega arith);
          g_small = s 6 (omega arith);
        };
        r0 = ap (λ xs. word_at xs 0) r;
        r1 = ap (λ xs. word_at xs 1) r;
        r2 = ap (λ xs. word_at xs 2) r;
        r3 = ap (λ xs. word_at xs 3) r;
        r4 = ap (λ xs. word_at xs 4) r;
        r5 = ap (λ xs. word_at xs 5) r;
        r6 = ap (λ xs. word_at xs 6) r;
        r7 = ap (λ xs. word_at xs 7) r;
        words = λ j b l.
            let here : 0 + j ≡ j = omega arith in
            ap₂ word_at w here
            ∙ word_at-append (block_words k.word_size 16 block) (replicate (k.rounds - 16) 0) j
                (omega arith);
      }

  -- The arrays of a block's rounds hold eight variables that move, for any constants and functions.
  pub compress-hash_block :
      (state block : List ℕ)
      → 16 ≤ k.rounds
      → length state ≡ 8
      → ((i : ℕ) → i < 8 → word_at state i < 2 ^ k.width)
      → compress k state block ≡ hash_block k state block
  unfolding compress hash_block add_state loaded start_of
  compress-hash_block (x0 ∷ x1 ∷ x2 ∷ x3 ∷ x4 ∷ x5 ∷ x6 ∷ x7 ∷ []) block h l s =
      let state = x0 ∷ x1 ∷ x2 ∷ x3 ∷ x4 ∷ x5 ∷ x6 ∷ x7 ∷ [] in
      let (end, c) =
        rounds_from-Corresponds k.rounds 0 (loaded state block) (block_words k.word_size 16 block)
          (start_of state) (omega arith) (loaded-Corresponds x0 x1 x2 x3 x4 x5 x6 x7 block h s) in
      let r = (rounds_from k k.rounds 0 (loaded state block)).r in
      let sum : (x p q y : ℕ)
          → p ≡ q
          → word_at r q ≡ y
          → (x + word_at r p) % 2 ^ k.width ≡ (y + x) % 2 ^ k.width =
        λ x p q y e f.
          let swap : x + y ≡ y + x = omega arith in
          ap (λ i. (x + word_at r i) % 2 ^ k.width) e
          ∙ ap (λ z. (x + z) % 2 ^ k.width) f
          ∙ ap (λ z. z % 2 ^ k.width) swap in
      ap₂ (λ y ys. y ∷ ys) (sum x0 (k.rounds + 7 - 0) (k.rounds + 7) _ (omega arith) c.r7)
        (ap₂ (λ y ys. y ∷ ys) (sum x1 (k.rounds + 7 - 1) (k.rounds + 6) _ (omega arith) c.r6)
          (ap₂ (λ y ys. y ∷ ys) (sum x2 (k.rounds + 7 - 2) (k.rounds + 5) _ (omega arith) c.r5)
            (ap₂ (λ y ys. y ∷ ys) (sum x3 (k.rounds + 7 - 3) (k.rounds + 4) _ (omega arith) c.r4)
              (ap₂ (λ y ys. y ∷ ys) (sum x4 (k.rounds + 7 - 4) (k.rounds + 3) _ (omega arith) c.r3)
                (ap₂ (λ y ys. y ∷ ys)
                  (sum x5 (k.rounds + 7 - 5) (k.rounds + 2) _ (omega arith) c.r2)
                  (ap₂ (λ y ys. y ∷ ys)
                    (sum x6 (k.rounds + 7 - 6) (k.rounds + 1) _ (omega arith) c.r1)
                    (ap₂ (λ y ys. y ∷ ys)
                      (sum x7 (k.rounds + 7 - 7) (k.rounds) _ (omega arith) c.r0) (refl))))))))
  compress-hash_block [] block h l s = absurd (omega arith)
  compress-hash_block (x0 ∷ []) block h l s = absurd (omega arith)
  compress-hash_block (x0 ∷ x1 ∷ []) block h l s = absurd (omega arith)
  compress-hash_block (x0 ∷ x1 ∷ x2 ∷ []) block h l s = absurd (omega arith)
  compress-hash_block (x0 ∷ x1 ∷ x2 ∷ x3 ∷ []) block h l s = absurd (omega arith)
  compress-hash_block (x0 ∷ x1 ∷ x2 ∷ x3 ∷ x4 ∷ []) block h l s = absurd (omega arith)
  compress-hash_block (x0 ∷ x1 ∷ x2 ∷ x3 ∷ x4 ∷ x5 ∷ []) block h l s = absurd (omega arith)
  compress-hash_block (x0 ∷ x1 ∷ x2 ∷ x3 ∷ x4 ∷ x5 ∷ x6 ∷ []) block h l s = absurd (omega arith)
  compress-hash_block (x0 ∷ x1 ∷ x2 ∷ x3 ∷ x4 ∷ x5 ∷ x6 ∷ x7 ∷ x8 ∷ more) block h l s =
      absurd (omega arith)
