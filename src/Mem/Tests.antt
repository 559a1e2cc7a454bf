-- ===== src/Mem/Tests.antt =====
-- Small blocks, and an overlapping move in each direction.
use hc.Base.{ℕ, ◌%◌, ◌^◌, ◌≡◌, refl, arith, List, [], ◌∷◌, replicate, window, copy_to}
use hc.Mem.{memset, memmove, set_loop, set_rest, set_ends, expanded, bytes_of, move_rest, move_ends}
use hc.Mem.Set.{memset_lem}
use hc.Mem.Move.{memmove_lem}

abbrev numbered : List ℕ
numbered = 1 ∷ 2 ∷ 3 ∷ 4 ∷ 5 ∷ 6 ∷ 7 ∷ 8 ∷ []

memset_five : memset (replicate 8 0) 2 0x141 5 ≡ 0 ∷ 0 ∷ 0x41 ∷ 0x41 ∷ 0x41 ∷ 0x41 ∷ 0x41 ∷ 0 ∷ []
unfolding memset set_loop set_rest set_ends expanded bytes_of copy_to
memset_five = refl

memmove_five : memmove numbered 2 0 5 ≡ 1 ∷ 2 ∷ 1 ∷ 2 ∷ 3 ∷ 4 ∷ 5 ∷ 8 ∷ []
unfolding memmove move_rest move_ends copy_to
memmove_five = refl

memset_lem_example :
    memset (replicate 80 1) 3 0x2AB 61 ≡ copy_to (replicate 80 1) 3 (replicate 61 (0x2AB % 2 ^ 8))
memset_lem_example = memset_lem (replicate 80 1) 3 0x2AB 61 (omega arith)

memmove_lem_example : memmove numbered 1 3 5 ≡ copy_to numbered 1 (window numbered 3 5)
memmove_lem_example = memmove_lem numbered 1 3 5 (omega arith) (omega arith)
