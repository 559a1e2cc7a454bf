-- ===== src/Hash/Update.antt =====
-- `shaX_update` keeps the blocks of the message absorbed and the rest of it in the buffer.
use hc.Base.{
  ℕ, zero, suc, ◌+◌, ◌-◌, ◌*◌, ◌/◌, ◌%◌, ◌^◌, ◌≡◌, ◌≤◌, ◌<◌, ap, sym, ◌∙◌, arith, List, [], ◌∷◌,
  ◌++◌, append_assoc, append-nil, take-append, take_all, length, take, drop, min, ltb, lt→ltb,
  ltb→lt, if◌then◌else◌, false, Bool-cases, inl, inr, copy_to, copy_to_lem, length-copy_to,
  length-take, length-drop, length-append, take-append-drop,
}
use hc.Math.{align_remainder, align_backward}
use hc.Hash.{Scheme, Context, block_size, blocks, update_blocks, update}
use hc.Hash.Absorbed.{Absorbed, StandsFor, Absorbed-append, divided}

module _ (s : Scheme) where
  -- The state and the counter behind the test for any blocks.
  after_blocks : Context → ℕ → List ℕ → Context
  after_blocks self n input =
      if ltb 0 n
      then record self {
        state = blocks s n self.state input;
        block_counter = (self.block_counter + n) % 2 ^ 64;
      }
      else self

  after_blocks-Absorbed :
      (self : Context) (n : ℕ) (input full : List ℕ) (count : ℕ)
      → self.block_counter < 2 ^ 64
      → Absorbed s (blocks s n self.state input) ((self.block_counter + n) % 2 ^ 64) full count
      → Absorbed s
          (after_blocks self n input).state
          (after_blocks self n input).block_counter
          full
          count
  unfolding after_blocks blocks
  after_blocks-Absorbed self zero input full count l a = record {
    full_length = a.full_length;
    state_is = a.state_is;
    counter_is = omega (arith, a.counter_is);
  }
  after_blocks-Absorbed self (suc n) input full count l a =
      rw (lt→ltb 0 (suc n) (omega arith), after_blocks) a

  -- The rest in the buffer.
  take-copy_to :
      (buffer rest : List ℕ)
      → length rest ≤ length buffer
      → take (length rest) (copy_to buffer 0 rest) ≡ rest
  take-copy_to buffer rest h =
      ap (take (length rest)) (copy_to_lem buffer 0 rest (omega arith))
      ∙ take-append rest (drop (0 + length rest) buffer) (length rest) (omega arith)
      ∙ take_all rest (length rest) (omega arith)

  rest_is :
      (buffer rest : List ℕ) (n : ℕ)
      → n ≡ length rest
      → length rest ≤ length buffer
      → take n (if ltb 0 n then copy_to buffer 0 rest else buffer) ≡ rest
  rest_is buffer [] n e h = ap (λ k. take k (if ltb 0 n then copy_to buffer 0 [] else buffer)) e
  rest_is buffer (x ∷ xs) n e h =
      rw (lt→ltb 0 n (omega arith))
        (ap (λ k. take k (copy_to buffer 0 (x ∷ xs))) e ∙ take-copy_to buffer (x ∷ xs) h)

  copied_length :
      (buffer rest : List ℕ) (n : ℕ)
      → length buffer ≡ block_size s
      → length (if ltb 0 n then copy_to buffer 0 rest else buffer) ≡ block_size s
  copied_length buffer rest n h = elim (Bool-cases (ltb 0 n)) [
    | inl e ↦ rw e (length-copy_to buffer 0 rest ∙ h)
    | inr e ↦ rw e h
  ]

  update_blocks-StandsFor :
      (self : Context) (full : List ℕ) (count : ℕ) (input : List ℕ)
      → Absorbed s self.state self.block_counter full count
      → length self.buffer ≡ block_size s
      → s.shift ≤ 64
      → length input < 2 ^ 64
      → StandsFor s (update_blocks s self input) (full ++ input)
  unfolding update_blocks after_blocks
  update_blocks-StandsFor self full count input a len sh l =
      let b = block_size s in
      let size = length input in
      let n = size / b in
      let d = divided s size sh l in
      let rest = drop (align_backward 64 size b) input in
      let rest_length : length rest ≡ size % b =
        omega (arith, length-drop (align_backward 64 size b) input, d.backward, d.sum) in
      let taken : align_remainder size b ≡ length rest = d.remainder ∙ sym rest_length in
      record {
        count = count + n;
        full = full ++ take (n * b) input;
        absorbed =
            after_blocks-Absorbed self n input (full ++ take (n * b) input) (count + n)
              (omega (arith, a.counter_is))
              (Absorbed-append s self.state self.block_counter full count n input a
                (omega (arith, d.sum)));
        message_is =
            ap (λ t. full ++ t)
              (sym (take-append-drop (n * b) input)
                ∙ ap (λ k. take (n * b) input ++ drop k input) (sym d.backward)
                ∙ ap (λ t. take (n * b) input ++ t)
                    (sym (
                      rest_is self.buffer rest (align_remainder size b) taken
                        (omega (arith, rest_length, d.below, len)))))
            ∙ sym (
                append_assoc full (take (n * b) input) (
                  take (align_remainder size b) (
                    if ltb 0 (align_remainder size b)
                    then copy_to self.buffer 0 rest
                    else self.buffer)));
        buffer_length = copied_length self.buffer rest (align_remainder size b) len;
        short = omega (arith, d.remainder, d.below);
      }

  filled_block :
      (self : Context) (input : List ℕ) (n : ℕ)
      → length self.buffer ≡ block_size s
      → self.buffer_size + n ≤ block_size s
      → n ≤ length input
      → take (self.buffer_size + n) (copy_to self.buffer self.buffer_size (take n input))
        ≡ take self.buffer_size self.buffer ++ take n input
  filled_block self input n len fits le =
      let bs = self.buffer_size in
      let head = take bs self.buffer in
      let more = take n input in
      let head_length : length head ≡ bs = omega (arith, length-take bs self.buffer) in
      let more_length : length more ≡ n = omega (arith, length-take n input) in
      let tail = drop (bs + length more) self.buffer in
      let both : length (head ++ more) ≡ bs + n = omega (arith, length-append head more) in
      ap (take (bs + n)) (copy_to_lem self.buffer bs more (omega (arith, more_length)))
      ∙ ap (take (bs + n)) (sym (append_assoc head more tail))
      ∙ take-append (head ++ more) tail (bs + n) (omega (arith, both))
      ∙ take_all (head ++ more) (bs + n) (omega (arith, both))

  -- The three ways through `shaX_update`.
  update-whole :
      (self : Context) (message input : List ℕ)
      → s.shift ≤ 64
      → length input < 2 ^ 64
      → StandsFor s self message
      → self.buffer_size ≡ 0
      → StandsFor s (update_blocks s self input) (message ++ input)
  update-whole self message input sh l st e =
      let m : message ≡ st.full =
        st.message_is ∙ ap (λ k. st.full ++ take k self.buffer) e ∙ append-nil st.full in
      rw m (update_blocks-StandsFor self st.full st.count input st.absorbed st.buffer_length sh l)

  update-short :
      (self : Context) (message input : List ℕ)
      → StandsFor s self message
      → self.buffer_size + length input < block_size s
      → StandsFor s
          (record self {
            buffer = copy_to self.buffer self.buffer_size (take (length input) input);
            buffer_size = self.buffer_size + length input;
          })
          (message ++ input)
  update-short self message input st fits =
      let n = length input in
      let head = take self.buffer_size self.buffer in
      record {
        count = st.count;
        full = st.full;
        absorbed = st.absorbed;
        message_is =
            ap (λ t. t ++ input) st.message_is
            ∙ append_assoc st.full head input
            ∙ ap (λ t. st.full ++ (head ++ t)) (sym (take_all input n (omega arith)))
            ∙ ap (λ t. st.full ++ t)
                (sym (filled_block self input n st.buffer_length (omega arith) (omega arith)));
        buffer_length =
            length-copy_to self.buffer self.buffer_size (take n input) ∙ st.buffer_length;
        short = fits;
      }

  update-filled :
      (self : Context) (message input : List ℕ) (n : ℕ)
      → s.shift ≤ 64
      → length input < 2 ^ 64
      → StandsFor s self message
      → self.buffer_size + n ≡ block_size s
      → n ≤ length input
      → let buffer = copy_to self.buffer self.buffer_size (take n input) in
        StandsFor s
          (update_blocks s
            (record {
              state = blocks s 1 self.state buffer;
              block_counter = (self.block_counter + 1) % 2 ^ 64;
              buffer = buffer;
              buffer_size = self.buffer_size + n;
            })
            (drop n input))
          (message ++ input)
  update-filled self message input n sh l st fits le =
      let b = block_size s in
      let head = take self.buffer_size self.buffer in
      let buffer = copy_to self.buffer self.buffer_size (take n input) in
      let buffer_length : length buffer ≡ b =
        length-copy_to self.buffer self.buffer_size (take n input) ∙ st.buffer_length in
      let one : 1 * b ≡ self.buffer_size + n = omega arith in
      let block : take (1 * b) buffer ≡ head ++ take n input =
        ap (λ k. take k buffer) one ∙ filled_block self input n st.buffer_length (omega arith) le in
      let whole : message ++ input ≡ (st.full ++ take (1 * b) buffer) ++ drop n input =
        ap (λ t. t ++ input) st.message_is
        ∙ append_assoc st.full head input
        ∙ ap (λ t. st.full ++ (head ++ t)) (sym (take-append-drop n input))
        ∙ ap (λ t. st.full ++ t) (sym (append_assoc head (take n input) (drop n input)))
        ∙ sym (append_assoc st.full (head ++ take n input) (drop n input))
        ∙ ap (λ t. (st.full ++ t) ++ drop n input) (sym block) in
      rw whole (
        update_blocks-StandsFor _ (st.full ++ take (1 * b) buffer) (st.count + 1) (drop n input)
          (Absorbed-append s self.state self.block_counter st.full st.count 1 buffer st.absorbed
            (omega (arith, buffer_length)))
          buffer_length sh (omega (arith, length-drop n input)))

  -- `shaX_update` appends its input to the message that the context stands for.
  pub update-StandsFor :
      (self : Context) (message input : List ℕ)
      → s.shift ≤ 64
      → length input < 2 ^ 64
      → StandsFor s self message
      → StandsFor s (update s self input) (message ++ input)
  unfolding update
  update-StandsFor self message input sh l st =
      let room = block_size s - self.buffer_size in
      let n = min room (length input) in
      elim (Bool-cases (ltb 0 self.buffer_size)) [
        | inr empty ↦ rw (empty, update) (update-whole self message input sh l st (ground arith))
        | inl some_bytes ↦ elim (Bool-cases (ltb (self.buffer_size + n) (block_size s))) [
          | inl fits ↦
              let below : self.buffer_size + n < block_size s =
                ltb→lt (self.buffer_size + n) (block_size s) fits in
              let all : n ≡ length input = omega arith in
              rw (some_bytes, fits, update, all) (update-short self message input st (omega arith))
          | inr full ↦
              rw (some_bytes, full, update)
                (update-filled self message input n sh l st (not_below full) (omega arith))
        ]
      ]
    where
      not_below :
          ltb
              (self.buffer_size + min (block_size s - self.buffer_size) (length input))
              (block_size s)
            ≡ false
          → self.buffer_size + min (block_size s - self.buffer_size) (length input) ≡ block_size s
      not_below e = ground (arith, st.short)
