-- ===== src/Mem.antt =====
-- hc/core/hc/compilerRt/mem.c: memset and memmove, which also stands for memcpy. Memory is the list
-- of its bytes and a pointer an index; a `hc_MEMCPY` of a fixed size loads and stores so many bytes.
pub mod Copied
pub mod Set
pub mod Move
mod Tests
use hc.Base.{
  ℕ, zero, suc, ◌+◌, ◌-◌, ◌*◌, ◌/◌, ◌%◌, ◌^◌, leb, ltb, ◌==◌, if◌then◌else◌, List, [], ◌∷◌, bit_and,
  byte_at, window, set, copy_to,
}
use hc.Math.{lnot}

-- `expanded`, a word of eight equal bytes.
unfoldable pub expanded : ℕ → ℕ
expanded c = 0x0101010101010101 * bit_and c 0xFF % 2 ^ 64

-- The first `count` bytes of a word in memory. All eight are equal, so that the order is no matter.
unfoldable pub bytes_of : ℕ → ℕ → List ℕ
bytes_of zero x = []
bytes_of (suc count) x = x % 2 ^ 8 ∷ bytes_of count (x / 2 ^ 8)

-- `while (n >= 16)` of memset, with at most `fuel` rounds; the memory and the bytes that are left.
unfoldable pub set_loop : ℕ → List ℕ → ℕ → ℕ → ℕ → List ℕ × ℕ
set_loop zero mem dest x n = (mem, n)
set_loop (suc fuel) mem dest x n =
    if leb 16 n
    then (let left = n - 16 in
        let mem' = copy_to mem (dest + left) (bytes_of 8 x) in
        set_loop fuel (copy_to mem' (dest + left + 8) (bytes_of 8 x)) dest x left)
    else (mem, n)

-- The same word at both ends of what is left.
unfoldable pub set_ends : List ℕ → ℕ → ℕ → ℕ → ℕ → List ℕ
unfolding bytes_of
set_ends mem dest x n size =
    copy_to (copy_to mem dest (bytes_of size x)) (dest + n - size) (bytes_of size x)

-- memset behind its loop.
unfoldable pub set_rest : List ℕ → ℕ → ℕ → ℕ → List ℕ
unfolding set_ends
set_rest mem dest x n =
    if n == 0
    then mem
    else if leb 8 n
    then set_ends mem dest x n 8
    else if leb 4 n
    then set_ends mem dest x n 4
    else if leb 2 n
    then set_ends mem dest x n 2
    else set mem dest (x % 2 ^ 8)

unfoldable pub memset : List ℕ → ℕ → ℕ → ℕ → List ℕ
unfolding expanded set_loop set_rest
memset mem dest c n =
    let (mem', left) = set_loop n mem dest (expanded c) n in set_rest mem' dest (expanded c) left

-- The loop of memmove for `d < s`: chunks of 16 bytes from `i` on.
unfoldable pub forward : ℕ → List ℕ → ℕ → ℕ → ℕ → ℕ → List ℕ
forward zero mem d s i end = mem
forward (suc fuel) mem d s i end =
    let mem' = copy_to mem (d + i) (window mem (s + i) 16) in
    if ltb (i + 16) end then forward fuel mem' d s (i + 16) end else mem'

-- The other loop: chunks from the end on; the memory and the bytes that are left.
unfoldable pub backward : ℕ → List ℕ → ℕ → ℕ → ℕ → List ℕ × ℕ
backward zero mem d s n = (mem, n)
backward (suc fuel) mem d s n =
    let left = n - 16 in
    let mem' = copy_to mem (d + left) (window mem (s + left) 16) in
    if leb 16 left then backward fuel mem' d s left else (mem', left)

-- Both ends of what is left, both loaded before the first is stored.
unfoldable pub move_ends : List ℕ → ℕ → ℕ → ℕ → ℕ → List ℕ
move_ends mem d s n size =
    copy_to (copy_to mem d (window mem s size)) (d + n - size) (window mem (s + n - size) size)

-- memmove behind its loops.
unfoldable pub move_rest : List ℕ → ℕ → ℕ → ℕ → List ℕ
unfolding move_ends
move_rest mem d s n =
    if n == 0
    then mem
    else if leb 8 n
    then move_ends mem d s n 8
    else if leb 4 n
    then move_ends mem d s n 4
    else if leb 2 n
    then move_ends mem d s n 2
    else set mem d (byte_at mem s)

unfoldable pub memmove : List ℕ → ℕ → ℕ → ℕ → List ℕ
unfolding forward backward move_rest
memmove mem d s n =
    if leb 16 n
    then if ltb d s
      then (let end = bit_and n (lnot 64 15) in
          move_rest (forward n mem d s 0 end) (d + end) (s + end) (bit_and n 15))
      else (let (mem', left) = backward n mem d s n in move_rest mem' d s left)
    else move_rest mem d s n
