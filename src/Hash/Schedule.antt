-- ===== src/Hash/Schedule.antt =====
-- Where the arrays `r` and `w` of the code, in which nothing moves, hold the variables and the words
-- of FIPS 180-4, and what a round writes there.
use native.Mathlib.Nat.{mod-lt}
use hc.Base.{
  ℕ, zero, suc, ◌+◌, ◌-◌, ◌%◌, ◌^◌, ◌≡◌, ◌≢◌, ◌<◌, refl, ap, sym, ◌∙◌, arith, List, [], ◌∷◌, ◌++◌,
  length, drop, set, length-set, length-drop, length-append, byte_at-set_self, byte_at-set_ne, ltb,
  true, Bool-cases, inl, inr, lt→ltb, two_pow_pos,
}
use hc.Hash.Choose.{fips_ch, ch-fips_ch}
use hc.Hash.Words.{word_at}
use hc.Hash.Sha2.{Numbers, ch, maj, Work, mixed, next_r, next_w}
use hc.Hash.Fips.{Variables, next_words, variables_step}

pub word_at-append : (xs ys : List ℕ) (j : ℕ) → j < length xs → word_at (xs ++ ys) j ≡ word_at xs j
word_at-append [] ys j h = absurd (omega arith)
word_at-append (x ∷ xs) ys zero h = refl
word_at-append (x ∷ xs) ys (suc j) h = word_at-append xs ys j (omega arith)

pub word_at-last : (xs : List ℕ) (x j : ℕ) → j ≡ length xs → word_at (xs ++ (x ∷ [])) j ≡ x
word_at-last [] x j h = ap (word_at (x ∷ [])) h
word_at-last (y ∷ xs) x zero h = absurd (omega arith)
word_at-last (y ∷ xs) x (suc j) h = word_at-last xs x j (omega arith)

pub word_at-drop : (xs : List ℕ) (j : ℕ) → word_at (drop 1 xs) j ≡ word_at xs (suc j)
word_at-drop [] j = refl
word_at-drop (x ∷ xs) j = refl

module _ (k : Numbers) where
  -- Variables that are words.
  pub record Small (v : Variables) : Type 0 where
    pub a_small : v.a < 2 ^ k.width
    pub b_small : v.b < 2 ^ k.width
    pub c_small : v.c < 2 ^ k.width
    pub e_small : v.e < 2 ^ k.width
    pub f_small : v.f < 2 ^ k.width
    pub g_small : v.g < 2 ^ k.width

  pub variables_step-Small :
      (v : Variables) (constant word : ℕ) → Small v → Small (variables_step k v constant word)
  unfolding variables_step
  variables_step-Small v constant word s =
      let below : (x : ℕ) → x % 2 ^ k.width < 2 ^ k.width = λ x. mod-lt x (two_pow_pos k.width) in
      record {
        a_small = below _;
        b_small = s.a_small;
        c_small = s.b_small;
        e_small = below _;
        f_small = s.e_small;
        g_small = s.f_small;
      }

  -- The arrays before the round `t`.
  pub record Corresponds (t : ℕ) (m : Work) (ws : List ℕ) (v : Variables) : Type 0 where
    pub r_length : length m.r ≡ k.rounds + 8
    pub w_length : length m.w ≡ k.rounds
    pub ws_length : length ws ≡ 16
    pub small : Small v
    pub r0 : word_at m.r t ≡ v.h
    pub r1 : word_at m.r (t + 1) ≡ v.g
    pub r2 : word_at m.r (t + 2) ≡ v.f
    pub r3 : word_at m.r (t + 3) ≡ v.e
    pub r4 : word_at m.r (t + 4) ≡ v.d
    pub r5 : word_at m.r (t + 5) ≡ v.c
    pub r6 : word_at m.r (t + 6) ≡ v.b
    pub r7 : word_at m.r (t + 7) ≡ v.a
    pub words : (j : ℕ) → j < 16 → t + j < k.rounds → word_at m.w (t + j) ≡ word_at ws j

  pub mixed_is :
      (t : ℕ) (m : Work) (ws : List ℕ) (v : Variables)
      → t < k.rounds
      → Corresponds t m ws v
      → mixed k m t
        ≡ (v.h + k.sigma1_b v.e + fips_ch k.width v.e v.f v.g + word_at k.round t + word_at ws 0)
          % 2 ^ k.width
  unfolding mixed
  mixed_is t m ws v lt c =
      let r = m.r in
      let s1 = ap k.sigma1_b c.r3 in
      let choose : ch (word_at r (t + 3)) (word_at r (t + 2)) (word_at r (t + 1))
          ≡ fips_ch k.width v.e v.f v.g =
        ap (λ x. ch x (word_at r (t + 2)) (word_at r (t + 1))) c.r3
        ∙ ap (λ x. ch v.e x (word_at r (t + 1))) c.r2
        ∙ ap (ch v.e v.f) c.r1
        ∙ ch-fips_ch k.width v.e v.f v.g c.small.e_small c.small.f_small c.small.g_small in
      let here : t ≡ t + 0 = omega arith in
      let word : word_at m.w t ≡ word_at ws 0 =
        ap (word_at m.w) here ∙ c.words 0 (omega arith) (omega arith) in
      let sum : word_at r t
            + word_at m.w t
            + word_at k.round t
            + k.sigma1_b (word_at r (t + 3))
            + ch (word_at r (t + 3)) (word_at r (t + 2)) (word_at r (t + 1))
          ≡ v.h + k.sigma1_b v.e + fips_ch k.width v.e v.f v.g + word_at k.round t + word_at ws 0 =
        omega (arith, c.r0) in
      ap (λ x. x % 2 ^ k.width) sum

  -- `r` behind a round, at other places and at the two that are written.
  pub next_r_other :
      (r : List ℕ) (t x p : ℕ) → p ≢ t + 4 → p ≢ t + 8 → word_at (next_r k r t x) p ≡ word_at r p
  unfolding next_r
  next_r_other r t x p n4 n8 =
      let r' = set r (t + 4) ((word_at r (t + 4) + x) % 2 ^ k.width) in
      byte_at-set_ne r' (t + 8) p _ (λ e. n8 (sym e))
      ∙ byte_at-set_ne r (t + 4) p _ (λ e. n4 (sym e))

  pub next_w_old : (w : List ℕ) (t p : ℕ) → p ≢ t + 16 → word_at (next_w k w t) p ≡ word_at w p
  unfolding next_w
  next_w_old w t p n = elim (Bool-cases (ltb t (k.rounds - 16))) [
    | inl more ↦ rw (more, next_w) (byte_at-set_ne w (t + 16) p _ (λ e. n (sym e)))
    | inr done ↦ rw (done, next_w) refl
  ]

  pub length-next_w : (w : List ℕ) (t : ℕ) → length (next_w k w t) ≡ length w
  unfolding next_w
  length-next_w w t = elim (Bool-cases (ltb t (k.rounds - 16))) [
    | inl more ↦ rw (more, next_w) (length-set w (t + 16) _)
    | inr done ↦ rw (done, next_w) refl
  ]

  -- The two places of `r` that a round writes.
  pub next_r_e :
      (r : List ℕ) (t x : ℕ)
      → t + 8 < length r
      → word_at (next_r k r t x) (t + 4) ≡ (word_at r (t + 4) + x) % 2 ^ k.width
  unfolding next_r
  next_r_e r t x l =
      let r' = set r (t + 4) ((word_at r (t + 4) + x) % 2 ^ k.width) in
      byte_at-set_ne r' (t + 8) (t + 4) _ (λ e. omega arith)
      ∙ byte_at-set_self r (t + 4) _ (omega arith)

  pub next_r_a :
      (r : List ℕ) (t x : ℕ)
      → t + 8 < length r
      → word_at (next_r k r t x) (t + 8)
        ≡ (x
            + k.sigma0_b (word_at r (t + 7))
            + maj (word_at r (t + 7)) (word_at r (t + 6)) (word_at r (t + 5)))
          % 2 ^ k.width
  unfolding next_r
  next_r_a r t x l =
      let r' = set r (t + 4) ((word_at r (t + 4) + x) % 2 ^ k.width) in
      let same : (p : ℕ) → p ≢ t + 4 → word_at r' p ≡ word_at r p =
        λ p n. byte_at-set_ne r (t + 4) p _ (λ e. n (sym e)) in
      let s7 = same (t + 7) (λ e. omega arith) in
      let s6 = same (t + 6) (λ e. omega arith) in
      let s5 = same (t + 5) (λ e. omega arith) in
      byte_at-set_self r' (t + 8) _
        (omega (arith, length-set r (t + 4) ((word_at r (t + 4) + x) % 2 ^ k.width)))
      ∙ ap (λ y. (x + k.sigma0_b y + maj y (word_at r' (t + 6)) (word_at r' (t + 5))) % 2 ^ k.width)
          s7
      ∙ ap
          (λ y.
            (x + k.sigma0_b (word_at r (t + 7)) + maj (word_at r (t + 7)) y (word_at r' (t + 5)))
            % 2 ^ k.width)
          s6
      ∙ ap
          (λ y.
            (x + k.sigma0_b (word_at r (t + 7)) + maj (word_at r (t + 7)) (word_at r (t + 6)) y)
            % 2 ^ k.width)
          s5

  pub length-next_r : (r : List ℕ) (t x : ℕ) → length (next_r k r t x) ≡ length r
  unfolding next_r
  length-next_r r t x =
      length-set (set r (t + 4) ((word_at r (t + 4) + x) % 2 ^ k.width)) (t + 8) _
      ∙ length-set r (t + 4) _

  -- The word that a round adds to the schedule.
  pub next_w_new :
      (t : ℕ) (m : Work) (ws : List ℕ) (v : Variables)
      → t + 16 < k.rounds
      → Corresponds t m ws v
      → word_at (next_w k m.w t) (t + 16)
        ≡ (k.sigma1_a (word_at ws 14) + word_at ws 9 + k.sigma0_a (word_at ws 1) + word_at ws 0)
          % 2 ^ k.width
  unfolding next_w
  next_w_new t m ws v l c =
      let more : ltb t (k.rounds - 16) ≡ true = lt→ltb t (k.rounds - 16) (omega arith) in
      let w = m.w in
      let here : t ≡ t + 0 = omega arith in
      let w0 : word_at w t ≡ word_at ws 0 =
        ap (word_at w) here ∙ c.words 0 (omega arith) (omega arith) in
      let w9 = c.words 9 (omega arith) (omega arith) in
      let s1 = ap k.sigma1_a (c.words 14 (omega arith) (omega arith)) in
      let s0 = ap k.sigma0_a (c.words 1 (omega arith) (omega arith)) in
      let sum : word_at w t
            + word_at w (t + 9)
            + k.sigma1_a (word_at w (t + 14))
            + k.sigma0_a (word_at w (t + 1))
          ≡ k.sigma1_a (word_at ws 14) + word_at ws 9 + k.sigma0_a (word_at ws 1) + word_at ws 0 =
        omega arith in
      rw (more, next_w)
        (byte_at-set_self w (t + 16) _ (omega (arith, c.w_length)) ∙ ap (λ x. x % 2 ^ k.width) sum)

  pub next_words_old :
      (ws : List ℕ) (j : ℕ)
      → length ws ≡ 16
      → j < 15
      → word_at (next_words k ws) j ≡ word_at ws (suc j)
  unfolding next_words
  next_words_old ws j l h =
      word_at-append (drop 1 ws) (_ ∷ []) j (omega (arith, length-drop 1 ws)) ∙ word_at-drop ws j

  pub next_words_new :
      (ws : List ℕ)
      → length ws ≡ 16
      → word_at (next_words k ws) 15
        ≡ (k.sigma1_a (word_at ws 14) + word_at ws 9 + k.sigma0_a (word_at ws 1) + word_at ws 0)
          % 2 ^ k.width
  unfolding next_words
  next_words_new ws l = word_at-last (drop 1 ws) _ 15 (omega (arith, length-drop 1 ws))

  pub length-next_words : (ws : List ℕ) → length ws ≡ 16 → length (next_words k ws) ≡ 16
  unfolding next_words
  length-next_words ws l = length-append (drop 1 ws) _ ∙ omega (arith, length-drop 1 ws)
