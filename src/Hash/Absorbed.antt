-- ===== src/Hash/Absorbed.antt =====
-- What a context of `struct shaX` stands for.
use native.Mathlib.Nat.{div-add-mod', add-mul, mod-lt}
use hc.Base.{
  ℕ, ◌+◌, ◌*◌, ◌/◌, ◌%◌, ◌^◌, ◌≡◌, ◌≤◌, ◌<◌, refl, ap, sym, ◌∙◌, arith, List, [], ◌++◌, length,
  take, drop, length-take, length-append, take-append-drop, bit_and-low, two_pow_pos,
}
use hc.Math.{align_remainder, align_backward}
use hc.Math.Align.{align_backward-remainder}
use hc.Hash.{Scheme, Context, block_size, blocks, init}
use hc.Hash.Absorb.{blocks-append, blocks_prefix}

module _ (s : Scheme) where
  -- The blocks `full` of a message are absorbed, `count` many.
  pub record Absorbed (state : List ℕ) (block_counter : ℕ) (full : List ℕ) (count : ℕ)
      : Type 0 where
    pub full_length : length full ≡ count * block_size s
    pub state_is : state ≡ blocks s count s.initial full
    pub counter_is : block_counter ≡ count % 2 ^ 64

  -- The context stands for the message.
  pub record StandsFor (self : Context) (message : List ℕ) : Type 0 where
    pub count : ℕ
    pub full : List ℕ
    pub absorbed : Absorbed self.state self.block_counter full count
    pub message_is : message ≡ full ++ take self.buffer_size self.buffer
    pub buffer_length : length self.buffer ≡ block_size s
    pub short : self.buffer_size < block_size s

  pub init-StandsFor :
      (buffer : List ℕ) → length buffer ≡ block_size s → StandsFor (init s buffer) []
  unfolding init blocks
  init-StandsFor buffer h = record {
    count = 0;
    full = [];
    absorbed = record { full_length = omega arith; state_is = refl; counter_is = refl };
    message_is = refl;
    buffer_length = h;
    short = omega (arith, two_pow_pos s.shift);
  }

  -- More blocks.
  pub Absorbed-append :
      (state : List ℕ) (counter : ℕ) (full : List ℕ) (count n : ℕ) (input : List ℕ)
      → Absorbed state counter full count
      → n * block_size s ≤ length input
      → Absorbed
          (blocks s n state input)
          ((counter + n) % 2 ^ 64)
          (full ++ take (n * block_size s) input)
          (count + n)
  Absorbed-append state counter full count n input a h =
      let b = block_size s in
      let l : length (take (n * b) input) ≡ n * b = omega (arith, length-take (n * b) input) in
      record {
        full_length =
            omega
              (arith, length-append full (take (n * b) input), l, a.full_length, add-mul count n b);
        state_is =
            ap (blocks s n state) (sym (take-append-drop (n * b) input))
            ∙ blocks_prefix s n state (take (n * b) input) (drop (n * b) input) l
            ∙ ap (λ t. blocks s n t (take (n * b) input)) a.state_is
            ∙ sym (blocks-append s count n s.initial full (take (n * b) input) a.full_length);
        counter_is = omega (arith, a.counter_is);
      }

  -- The division of a length into blocks and a rest.
  pub record Divided (size : ℕ) : Type 0 where
    pub remainder : align_remainder size (block_size s) ≡ size % block_size s
    pub backward : align_backward 64 size (block_size s) ≡ size / block_size s * block_size s
    pub sum : size / block_size s * block_size s + size % block_size s ≡ size
    pub below : size % block_size s < block_size s

  pub divided : (size : ℕ) → s.shift ≤ 64 → size < 2 ^ 64 → Divided size
  unfolding align_remainder
  divided size h l =
      let rem : align_remainder size (block_size s) ≡ size % block_size s =
        bit_and-low s.shift size in
      let (m, lt, sum) = align_backward-remainder 64 s.shift size h l in
      record {
        remainder = rem;
        backward = omega (arith, rem, sum, div-add-mod' size (block_size s));
        sum = div-add-mod' size (block_size s);
        below = mod-lt size (omega (arith, two_pow_pos s.shift));
      }
