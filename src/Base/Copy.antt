-- ===== src/Base/Copy.antt =====
-- Copies of byte ranges: `hc_MEMCPY` and `hc_MEMSET` as writes into a memory that is a list.
use hc.Base.Names.{
  ℕ, zero, suc, ◌+◌, ◌≤◌, ◌<◌, ◌≡◌, ◌⊎◌, inl, refl, ap, sym, ◌∙◌, arith, List, [], ◌∷◌, ◌++◌,
  append_assoc,
}
use hc.Base.Lists.{length, set, take, drop, length-set, take-append-drop}
use hc.Base.Memory.{byte_at, window, byte_at-set_self, byte_at-set_ne}

-- `hc_MEMCPY(&mem[at], bytes, length)`; with equal bytes, `hc_MEMSET`.
unfoldable pub copy_to : List ℕ → ℕ → List ℕ → List ℕ
copy_to mem at [] = mem
copy_to mem at (b ∷ bytes) = copy_to (set mem at b) (at + 1) bytes

pub length-copy_to :
    (mem : List ℕ) (at : ℕ) (bytes : List ℕ) → length (copy_to mem at bytes) ≡ length mem
unfolding copy_to
length-copy_to mem at [] = refl
length-copy_to mem at (b ∷ bytes) =
    length-copy_to (set mem at b) (at + 1) bytes ∙ length-set mem at b

pub byte_at-copy_to_outside :
    (mem : List ℕ) (at : ℕ) (bytes : List ℕ) (i : ℕ)
    → (i < at) ⊎ (at + length bytes ≤ i)
    → byte_at (copy_to mem at bytes) i ≡ byte_at mem i
unfolding copy_to
byte_at-copy_to_outside mem at [] i h = refl
byte_at-copy_to_outside mem at (b ∷ bytes) i h =
    byte_at-copy_to_outside (set mem at b) (at + 1) bytes i (grind arith)
    ∙ byte_at-set_ne mem at i b (λ e. grind arith)

pub byte_at-copy_to_inside :
    (mem : List ℕ) (at : ℕ) (bytes : List ℕ) (j : ℕ)
    → j < length bytes
    → at + length bytes ≤ length mem
    → byte_at (copy_to mem at bytes) (at + j) ≡ byte_at bytes j
unfolding copy_to
byte_at-copy_to_inside mem at [] j h l = absurd (omega arith)
byte_at-copy_to_inside mem at (b ∷ bytes) zero h l =
    byte_at-copy_to_outside (set mem at b) (at + 1) bytes (at + 0) (inl (omega arith))
    ∙ ap (byte_at (set mem at b)) (omega arith)
    ∙ byte_at-set_self mem at b (omega arith)
byte_at-copy_to_inside mem at (b ∷ bytes) (suc j) h l =
    ap (byte_at (copy_to (set mem at b) (at + 1) bytes)) (omega arith)
    ∙ byte_at-copy_to_inside (set mem at b) (at + 1) bytes j (omega arith)
        (omega (arith, length-set mem at b))

-- Two memories of one size that agree at every index are equal.
pub memory_ext :
    (xs ys : List ℕ)
    → length xs ≡ length ys
    → ((i : ℕ) → i < length xs → byte_at xs i ≡ byte_at ys i)
    → xs ≡ ys
memory_ext [] [] e h = refl
memory_ext [] (y ∷ ys) e h = absurd (omega arith)
memory_ext (x ∷ xs) [] e h = absurd (omega arith)
memory_ext (x ∷ xs) (y ∷ ys) e h =
    let tail : xs ≡ ys = memory_ext xs ys (omega arith) (λ i l. h (suc i) (omega arith)) in
    let head : x ≡ y = h 0 (omega arith) in ap (λ z. z ∷ xs) head ∙ ap (◌∷◌ y) tail

take-set :
    (mem : List ℕ) (at : ℕ) (b : ℕ)
    → at < length mem
    → take (suc at) (set mem at b) ≡ take at mem ++ (b ∷ [])
take-set [] at b h = absurd (omega arith)
take-set (x ∷ xs) zero b h = refl
take-set (x ∷ xs) (suc at) b h = ap (◌∷◌ x) (take-set xs at b (omega arith))

drop-set : (mem : List ℕ) (at n b : ℕ) → at < n → drop n (set mem at b) ≡ drop n mem
drop-set [] at n b h = refl
drop-set (x ∷ xs) at zero b h = absurd (omega arith)
drop-set (x ∷ xs) zero (suc n) b h = refl
drop-set (x ∷ xs) (suc at) (suc n) b h = drop-set xs at n b (omega arith)

-- A copy that fits, as a list.
pub copy_to_lem :
    (mem : List ℕ) (at : ℕ) (bytes : List ℕ)
    → at + length bytes ≤ length mem
    → copy_to mem at bytes ≡ take at mem ++ (bytes ++ drop (at + length bytes) mem)
unfolding copy_to
copy_to_lem mem at [] h =
    sym (take-append-drop at mem) ∙ ap (λ n. take at mem ++ drop n mem) (omega arith)
copy_to_lem mem at (b ∷ bytes) h =
    let e : at + 1 ≡ suc at = omega arith in
    copy_to_lem (set mem at b) (at + 1) bytes (omega (arith, length-set mem at b))
    ∙ ap (λ t. t ++ (bytes ++ drop (at + 1 + length bytes) (set mem at b)))
        (ap (λ n. take n (set mem at b)) e ∙ take-set mem at b (omega arith))
    ∙ append_assoc (take at mem) (b ∷ []) (bytes ++ drop (at + 1 + length bytes) (set mem at b))
    ∙ ap (λ t. take at mem ++ (b ∷ (bytes ++ t)))
        (drop-set mem at (at + 1 + length bytes) b (omega arith)
          ∙ ap (λ n. drop n mem) (omega arith))

pub length-window : (mem : List ℕ) (i n : ℕ) → length (window mem i n) ≡ n
length-window mem i zero = refl
length-window mem i (suc n) = ap suc (length-window mem (i + 1) n)

pub byte_at-window :
    (mem : List ℕ) (i n j : ℕ) → j < n → byte_at (window mem i n) j ≡ byte_at mem (i + j)
byte_at-window mem i zero j h = absurd (omega arith)
byte_at-window mem i (suc n) zero h = ap (byte_at mem) (omega arith)
byte_at-window mem i (suc n) (suc j) h =
    byte_at-window mem (i + 1) n j (omega arith) ∙ ap (byte_at mem) (omega arith)
