-- ===== src/Hash.antt =====
-- What hc/core/hc/crypto/sha1.c, sha256.c and sha512.c have in common: a message is hashed in blocks,
-- and the bytes of an unfinished block wait in a buffer. The three files repeat the code with other
-- numbers and another function on a block, which are the parameters here.
mod Absorb
mod Update
mod Absorbed
mod Padding
mod Finish
mod Pieces
mod Words
mod Sha1
mod Sha2
mod Fips
mod Bytes
mod Schedule
mod Rounds
mod Choose
mod Constants
mod Standard
mod Sha256
mod Sha512
mod Tests
use hc.Base.{
  ℕ, zero, suc, ◌+◌, ◌-◌, ◌*◌, ◌/◌, ◌%◌, ◌^◌, ltb, if◌then◌else◌, List, [], ◌∷◌, ◌++◌, length, take,
  drop, replicate, set, copy_to, min,
}
use hc.Math.{align_remainder, align_backward}

-- The numbers and functions of one algorithm. Its state is a list of words.
pub record Scheme : Type 0 where
  -- `_shaX_BLOCK_SHIFT`; a block has `2 ^ shift` bytes
  pub shift : ℕ
  -- the size of the length at the end of a message: 8 bytes, or 16
  pub length_size : ℕ
  pub initial : List ℕ
  -- a round of the outer loop of `_shaX_blocks`
  pub compress : List ℕ → List ℕ → List ℕ
  -- the words of the state as bytes
  pub digest : List ℕ → List ℕ

-- `struct shaX`; `buffer` is the whole array.
pub record Context : Type 0 where
  pub state : List ℕ
  pub block_counter : ℕ
  pub buffer : List ℕ
  pub buffer_size : ℕ

-- `count` bytes of a number, the highest first: `mem_storeU32BE`, `mem_storeU64BE`.
unfoldable pub big_endian : ℕ → ℕ → List ℕ
big_endian zero v = []
big_endian (suc count) v = big_endian count (v / 2 ^ 8) ++ (v % 2 ^ 8 ∷ [])

module _ (s : Scheme) where
  abbrev pub block_size : ℕ
  block_size = 2 ^ s.shift

  -- `_shaX_blocks` for `count` blocks.
  unfoldable pub blocks : ℕ → List ℕ → List ℕ → List ℕ
  blocks zero state input = state
  blocks (suc count) state input =
      blocks count (s.compress state (take block_size input)) (drop block_size input)

  -- `shaX_init`; the buffer is left as it is.
  unfoldable pub init : List ℕ → Context
  init buffer = record { state = s.initial; block_counter = 0; buffer = buffer; buffer_size = 0 }

  -- `shaX_update` from `numBlocks` on, for input that starts at a block.
  unfoldable pub update_blocks : Context → List ℕ → Context
  unfolding blocks
  update_blocks self input =
      let size = length input in
      let num_blocks = size / 2 ^ s.shift in
      let rest = drop (align_backward 64 size block_size) input in
      let buffer_size = align_remainder size block_size in
      let self' =
        if ltb 0 num_blocks
        then record self {
          state = blocks num_blocks self.state input;
          block_counter = (self.block_counter + num_blocks) % 2 ^ 64;
        }
        else self in
      record self' {
        buffer = if ltb 0 buffer_size then copy_to self.buffer 0 rest else self.buffer;
        buffer_size = buffer_size;
      }

  -- `shaX_update`
  unfoldable pub update : Context → List ℕ → Context
  unfolding blocks update_blocks
  update self input =
      let num_to_read = min (block_size - self.buffer_size) (length input) in
      let buffer = copy_to self.buffer self.buffer_size (take num_to_read input) in
      let filled = self.buffer_size + num_to_read in
      if ltb 0 self.buffer_size
      then if ltb filled block_size
        then record self { buffer = buffer; buffer_size = filled }
        else update_blocks
            (record {
              state = blocks 1 self.state buffer;
              block_counter = (self.block_counter + 1) % 2 ^ 64;
              buffer = buffer;
              buffer_size = filled;
            })
            (drop num_to_read input)
      else update_blocks self input

  -- `shaX_finish`: the hash.
  unfoldable pub finish : Context → List ℕ
  unfolding blocks big_endian
  finish self =
      let num_bits =
        (self.block_counter * 2 ^ s.shift + self.buffer_size) * 2 ^ 3 % 2 ^ (8 * s.length_size) in
      let last = block_size - s.length_size in
      let marked = set self.buffer self.buffer_size 0x80 in
      let marked_size = self.buffer_size + 1 in
      let full = ltb last marked_size in
      let cleared = copy_to marked marked_size (replicate (block_size - marked_size) 0) in
      let state = if full then blocks 1 self.state cleared else self.state in
      let buffer = if full then cleared else marked in
      let size = if full then 0 else marked_size in
      let padded = copy_to buffer size (replicate (last - size) 0) in
      s.digest (blocks 1 state (copy_to padded last (big_endian s.length_size num_bits)))
