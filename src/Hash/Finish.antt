-- ===== src/Hash/Finish.antt =====
-- `shaX_finish` returns the hash of the padded message.
use native.Mathlib.Nat.{mod-eq_of_lt, le-mul_of_pos_right}
use hc.Base.{
  ℕ, ◌+◌, ◌-◌, ◌*◌, ◌%◌, ◌^◌, ◌≡◌, ◌≤◌, ◌<◌, refl, ap, ap₂, sym, ◌∙◌, arith, List, [], ◌∷◌, ◌++◌,
  append_assoc, take_all, take-copy_to_behind, length, take, replicate, set, ltb, true, false,
  Bool-cases, inl, inr, copy_to, length-copy_to, length-take, length-append, length-replicate,
  length-set, two_pow_pos,
}
use hc.Hash.{Scheme, Context, block_size, blocks, finish, big_endian}
use hc.Hash.Absorb.{blocks-append}
use hc.Hash.Absorbed.{StandsFor}
use hc.Hash.Padding.{
  length-big_endian, replicate-add, IsValid, zeros, padded, hash, zeros_one, zeros_two, hash_from,
}

module _ (s : Scheme) where
  -- The last block: what is there, zeros, the length.
  last_block :
      (buffer front end : List ℕ) (size last : ℕ)
      → length buffer ≡ block_size s
      → take size buffer ≡ front
      → size ≤ last
      → last + length end ≡ block_size s
      → copy_to (copy_to buffer size (replicate (last - size) 0)) last end
        ≡ (front ++ replicate (last - size) 0) ++ end
  last_block buffer front end size last l e h whole =
      let b = block_size s in
      let gap = replicate (last - size) 0 in
      let cleared = copy_to buffer size gap in
      let gap_length : length gap ≡ last - size = length-replicate (last - size) 0 in
      let cleared_length : length cleared ≡ b = length-copy_to buffer size gap ∙ l in
      let upto : last ≡ size + length gap = omega (arith, gap_length) in
      sym (
        take_all (copy_to cleared last end) (last + length end)
          (omega (arith, length-copy_to cleared last end, cleared_length)))
      ∙ take-copy_to_behind cleared end last (omega (arith, cleared_length))
      ∙ ap (λ t. t ++ end)
          (ap (λ k. take k cleared) upto
            ∙ take-copy_to_behind buffer gap size (omega (arith, gap_length))
            ∙ ap (λ t. t ++ gap) e)

  -- The buffer with the mark behind the rest of the message.
  marked : Context → List ℕ
  marked self = set self.buffer self.buffer_size 0x80

  take-marked :
      (self : Context)
      → self.buffer_size + 1 ≤ length self.buffer
      → take (self.buffer_size + 1) (marked self) ≡ take self.buffer_size self.buffer ++ (0x80 ∷ [])
  unfolding marked copy_to
  take-marked self h = take-copy_to_behind self.buffer (0x80 ∷ []) self.buffer_size h

  -- The length in bits that `shaX_finish` computes.
  size_is :
      (self : Context) (message : List ℕ) (st : StandsFor s self message)
      → length message ≡ st.count * block_size s + self.buffer_size
  size_is self message st = omega (
    arith,
    ap length st.message_is,
    length-append st.full (take self.buffer_size self.buffer),
    length-take self.buffer_size self.buffer,
    st.absorbed.full_length,
    st.buffer_length,
    st.short,
  )

  bits_is :
      (self : Context) (message : List ℕ)
      → IsValid s
      → length message < 2 ^ 61
      → StandsFor s self message
      → (self.block_counter * 2 ^ s.shift + self.buffer_size) * 2 ^ 3 % 2 ^ (8 * s.length_size)
        ≡ length message * 8
  bits_is self message v h st =
      let b = block_size s in
      let size = size_is self message st in
      let few : st.count ≤ st.count * b = le-mul_of_pos_right st.count (two_pow_pos s.shift) in
      let small : st.count < 2 ^ 64 = omega arith in
      let counter : self.block_counter ≡ st.count = st.absorbed.counter_is ∙ mod-eq_of_lt small in
      let below : length message * 8 < 2 ^ (8 * s.length_size) = omega (arith, v.length_wide) in
      ap (λ c. (c * b + self.buffer_size) * 2 ^ 3 % 2 ^ (8 * s.length_size)) counter
      ∙ ap (λ k. k * 8 % 2 ^ (8 * s.length_size)) (sym size)
      ∙ mod-eq_of_lt below

  -- The bytes behind the whole blocks.
  rest : Context → List ℕ
  rest self = take self.buffer_size self.buffer

  tail_of : Context → List ℕ → ℕ → List ℕ
  tail_of self message gap =
      ((rest self ++ (0x80 ∷ [])) ++ replicate gap 0)
      ++ big_endian s.length_size (length message * 8)

  padded_is :
      (self : Context) (message : List ℕ) (st : StandsFor s self message) (gap : ℕ)
      → zeros s (length message) ≡ gap
      → padded s message ≡ st.full ++ tail_of self message gap
  unfolding padded rest tail_of
  padded_is self message st gap e =
      let end = big_endian s.length_size (length message * 8) in
      let zs = replicate gap 0 in
      ap₂ (λ m k. m ++ (0x80 ∷ (replicate k 0 ++ end))) st.message_is e
      ∙ append_assoc st.full (rest self) (0x80 ∷ (zs ++ end))
      ∙ ap (λ t. st.full ++ t)
          (sym (append_assoc (rest self) (0x80 ∷ []) (zs ++ end))
            ∙ sym (append_assoc (rest self ++ (0x80 ∷ [])) zs end))

  tail_length :
      (self : Context) (message : List ℕ) (gap : ℕ)
      → StandsFor s self message
      → length (tail_of self message gap) ≡ self.buffer_size + 1 + gap + s.length_size
  unfolding tail_of rest
  tail_length self message gap st =
      let end = big_endian s.length_size (length message * 8) in
      let zeros_length : length (replicate {A = ℕ} gap 0) ≡ gap = length-replicate gap 0 in
      omega (
        arith,
        length-append ((rest self ++ (0x80 ∷ [])) ++ replicate gap 0) end,
        length-append (rest self ++ (0x80 ∷ [])) (replicate gap 0),
        length-append (rest self) (0x80 ∷ []),
        length-take self.buffer_size self.buffer,
        zeros_length,
        length-big_endian s.length_size (length message * 8),
        st.buffer_length,
        st.short,
      )

  finish_one :
      (self : Context) (message : List ℕ)
      → IsValid s
      → length message < 2 ^ 61
      → StandsFor s self message
      → self.buffer_size + 1 + s.length_size ≤ block_size s
      → finish s self ≡ hash s message
  unfolding finish marked rest tail_of
  finish_one self message v h st fits =
      let b = block_size s in
      let n = self.buffer_size in
      let end = big_endian s.length_size (length message * 8) in
      let end_length : length end ≡ s.length_size =
        length-big_endian s.length_size (length message * 8) in
      let gap = b - s.length_size - (n + 1) in
      let room : ltb (b - s.length_size) (n + 1) ≡ false = ground arith in
      let bits = bits_is self message v h st in
      let last : copy_to (copy_to (marked self) (n + 1) (replicate gap 0)) (b - s.length_size) end
          ≡ tail_of self message gap =
        last_block (marked self) (rest self ++ (0x80 ∷ [])) end (n + 1) (b - s.length_size)
          (length-set self.buffer n 0x80 ∙ st.buffer_length)
          (take-marked self (omega (arith, st.buffer_length))) (omega arith)
          (omega (arith, end_length)) in
      rw (room, finish, bits)
        (ap (λ t. s.digest (blocks s 1 self.state t)) last
          ∙ sym (
              hash_from s message st.full (tail_of self message gap) self.state st.count 1
                (padded_is self message st gap
                  (zeros_one s n st.count (length message) (size_is self message st) fits))
                st.absorbed.full_length (omega (arith, tail_length self message gap st))
                st.absorbed.state_is))

  -- Two blocks, the second without bytes of the message.
  tail_two :
      (self : Context) (message first : List ℕ) (g last : ℕ)
      → first ≡ (rest self ++ (0x80 ∷ [])) ++ replicate g 0
      → tail_of self message (g + last)
        ≡ first ++ (replicate last 0 ++ big_endian s.length_size (length message * 8))
  unfolding tail_of
  tail_two self message first g last e =
      let end = big_endian s.length_size (length message * 8) in
      let front = rest self ++ (0x80 ∷ []) in
      ap (λ t. (front ++ t) ++ end) (replicate-add g last 0)
      ∙ ap (λ t. t ++ end) (sym (append_assoc front (replicate g 0) (replicate last 0)))
      ∙ append_assoc (front ++ replicate g 0) (replicate last 0) end
      ∙ ap (λ t. t ++ (replicate last 0 ++ end)) (sym e)

  cleared_is :
      (self : Context) (message : List ℕ) (st : StandsFor s self message)
      → let g = block_size s - (self.buffer_size + 1) in
        copy_to (marked self) (self.buffer_size + 1) (replicate g 0)
        ≡ (rest self ++ (0x80 ∷ [])) ++ replicate g 0
  unfolding rest marked
  cleared_is self message st =
      let n = self.buffer_size in
      let zs : List ℕ = replicate (block_size s - (n + 1)) 0 in
      let zs_length : length zs ≡ block_size s - (n + 1) =
        length-replicate (block_size s - (n + 1)) 0 in
      let l : length (marked self) ≡ block_size s =
        length-set self.buffer n 0x80 ∙ st.buffer_length in
      sym (
        take_all (copy_to (marked self) (n + 1) zs) (n + 1 + length zs)
          (omega (arith, length-copy_to (marked self) (n + 1) zs, l, zs_length)))
      ∙ take-copy_to_behind (marked self) zs (n + 1) (omega (arith, l, zs_length, st.short))
      ∙ ap (λ t. t ++ zs) (take-marked self (omega (arith, st.buffer_length, st.short)))

  finish_two :
      (self : Context) (message : List ℕ)
      → IsValid s
      → length message < 2 ^ 61
      → StandsFor s self message
      → block_size s < self.buffer_size + 1 + s.length_size
      → finish s self ≡ hash s message
  unfolding finish marked blocks
  finish_two self message v h st full =
      let b = block_size s in
      let n = self.buffer_size in
      let end = big_endian s.length_size (length message * 8) in
      let end_length : length end ≡ s.length_size =
        length-big_endian s.length_size (length message * 8) in
      let g = b - (n + 1) in
      let last = b - s.length_size in
      let cleared = copy_to (marked self) (n + 1) (replicate g 0) in
      let cleared_length : length cleared ≡ b =
        length-copy_to (marked self) (n + 1) (replicate g 0)
        ∙ length-set self.buffer n 0x80
        ∙ st.buffer_length in
      let crowded : ltb last (n + 1) ≡ true = ground (arith, v.length_fits) in
      let bits = bits_is self message v h st in
      let second : copy_to (copy_to cleared 0 (replicate (last - 0) 0)) last end
          ≡ replicate last 0 ++ end =
        let same : last - 0 ≡ last = omega arith in
        last_block cleared [] end 0 last cleared_length refl (omega arith)
          (omega (arith, end_length, v.length_fits))
        ∙ ap (λ k. replicate k 0 ++ end) same in
      let gap =
        zeros_two s n st.count (length message) (size_is self message st) full st.short
          v.length_fits in
      let tail = tail_of self message (g + last) in
      rw (crowded, finish, bits)
        (ap (λ t. s.digest (blocks s 1 (blocks s 1 self.state cleared) t)) second
          ∙ ap s.digest (
              sym (
                blocks-append s 1 1 self.state cleared (replicate last 0 ++ end)
                  (omega (arith, cleared_length)))
              ∙ ap (blocks s 2 self.state)
                  (sym (tail_two self message cleared g last (cleared_is self message st))))
          ∙ sym (
              hash_from s message st.full tail self.state st.count 2
                (padded_is self message st (g + last) gap) st.absorbed.full_length
                (omega (arith, tail_length self message (g + last) st, v.length_fits))
                st.absorbed.state_is))

  -- `shaX_finish` returns the hash of the message that the context stands for.
  pub finish-StandsFor :
      (self : Context) (message : List ℕ)
      → IsValid s
      → length message < 2 ^ 61
      → StandsFor s self message
      → finish s self ≡ hash s message
  finish-StandsFor self message v h st =
      elim (Bool-cases (ltb (block_size s) (self.buffer_size + 1 + s.length_size))) [
        | inl e ↦ finish_two self message v h st (ground arith)
        | inr e ↦ finish_one self message v h st (ground arith)
      ]
