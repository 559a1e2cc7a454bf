-- ===== src/Allocator.antt =====
-- hc/core/hc/allocator.c: a memory that grows and shrinks by whole pages inside a reserved range. The
-- page size is given by the program, the heap by the platform: whether `heap_commit` succeeds for a
-- range is a parameter. `allocator_deinit` gives the range back and is not modelled. Addresses
-- count from the start of the range. A number of type `ssize_t` is its word of 64 bits in two's
-- complement; where a signed sum overflows, which C leaves open, the word wraps around.
mod Committed
mod Tests
use hc.Base.{
  ℕ, ◌+◌, ◌-◌, ◌%◌, ◌^◌, ◌==◌, leb, ltb, if◌then◌else◌, Bool, true, false, List, [], ◌∷◌, Option,
  none, some,
}
use hc.Math.{align_forward}

-- `struct allocator`, without the start of the range.
pub record Allocator : Type 0 where
  pub size : ℕ
  pub reserve_size : ℕ

-- The calls that change the heap: `heap_commit` where it succeeds, and `heap_decommit`; start and
-- length.
pub data HeapCall : Type 0 where
  commit : ℕ → ℕ → HeapCall
  decommit : ℕ → ℕ → HeapCall

-- What `allocator_resize` returns, 0 (`true`) or -1, what it leaves, and what it calls.
pub record Resized : Type 0 where
  pub succeeded : Bool
  pub allocator : Allocator
  pub calls : List HeapCall

-- `a - b`, `-a`, `a < 0` and `a > b` for two signed words.
abbrev pub minus : ℕ → ℕ → ℕ
minus a b = (a + (2 ^ 64 - b)) % 2 ^ 64

abbrev pub negated : ℕ → ℕ
negated a = (2 ^ 64 - a) % 2 ^ 64

abbrev pub is_negative : ℕ → Bool
is_negative a = leb (2 ^ 63) a

abbrev pub greater : ℕ → ℕ → Bool
greater a b = ltb ((b + 2 ^ 63) % 2 ^ 64) ((a + 2 ^ 63) % 2 ^ 64)

module _ (page_size : ℕ) where
  -- `allocator_init`, for what `heap_reserve` returns: a range, or null.
  unfoldable pub allocator_init : ℕ → Bool → Option Allocator
  allocator_init reserve_size reserved =
      if reserved
      then some (record { size = 0; reserve_size = align_forward 64 reserve_size page_size })
      else none

  -- `allocator_resize` behind the two alignments.
  unfoldable pub resize_pages : (ℕ → ℕ → Bool) → Allocator → ℕ → ℕ → ℕ → Resized
  resize_pages commits self new_size commit_size new_commit_size =
      let diff = minus new_commit_size commit_size in
      let resized = record self { size = new_size } in
      if diff == 0
      then record { succeeded = true; allocator = resized; calls = [] }
      else if is_negative diff
      then record {
        succeeded = true;
        allocator = resized;
        calls = decommit new_commit_size (negated diff) ∷ [];
      }
      else if greater new_commit_size self.reserve_size
      then record { succeeded = false; allocator = self; calls = [] }
      else if commits commit_size diff
      then record { succeeded = true; allocator = resized; calls = commit commit_size diff ∷ [] }
      else record { succeeded = false; allocator = self; calls = [] }

  unfoldable pub allocator_resize : (ℕ → ℕ → Bool) → Allocator → ℕ → Resized
  unfolding resize_pages
  allocator_resize commits self new_size =
      resize_pages commits self new_size (align_forward 64 self.size page_size)
        (align_forward 64 new_size page_size)
