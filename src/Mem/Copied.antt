-- ===== src/Mem/Copied.antt =====
-- A memory into which a part of a block has been written, in whatever order.
use hc.Base.{
  ℕ, zero, suc, ◌+◌, ◌-◌, ◌≡◌, ◌≤◌, ◌<◌, ◌⊎◌, inl, inr, refl, ap, sym, subst, ◌∙◌, arith, List, [],
  ◌∷◌, length, leb, ltb, Bool-cases, byte_at, window, set, copy_to, memory_ext, length-copy_to,
  byte_at-copy_to_inside, byte_at-copy_to_outside,
}

-- The bytes `lo` to `hi` of the block at `dest` are those of `f`; the rest of the memory is as before.
pub record Copied (mem : List ℕ) (dest : ℕ) (f : ℕ → ℕ) (lo hi : ℕ) (mem' : List ℕ) : Type 0 where
  pub same_length : length mem' ≡ length mem
  pub written : (j : ℕ) → lo ≤ j → j < hi → byte_at mem' (dest + j) ≡ f j
  pub kept : (x : ℕ) → (x < dest + lo) ⊎ (dest + hi ≤ x) → byte_at mem' x ≡ byte_at mem x

pub Copied-none : (mem : List ℕ) (dest : ℕ) (f : ℕ → ℕ) (lo : ℕ) → Copied mem dest f lo lo mem
Copied-none mem dest f lo = record {
  same_length = refl;
  written = λ j a b. absurd (omega arith);
  kept = λ x h. refl;
}

-- A range that touches or overlaps what is written makes it longer, on either side.
pub copy_to-Copied :
    (mem : List ℕ) (dest : ℕ) (f : ℕ → ℕ) (lo hi : ℕ) (mem' : List ℕ) (p : ℕ) (bytes : List ℕ)
    (low high : ℕ)
    → Copied mem dest f lo hi mem'
    → ((j : ℕ) → j < length bytes → byte_at bytes j ≡ f (p + j))
    → dest + p + length bytes ≤ length mem
    → p ≤ hi
    → lo ≤ p + length bytes
    → (low ≡ p) ⊎ (low ≡ lo)
    → (high ≡ p + length bytes) ⊎ (high ≡ hi)
    → low ≤ p
    → low ≤ lo
    → p + length bytes ≤ high
    → hi ≤ high
    → Copied mem dest f low high (copy_to mem' (dest + p) bytes)
copy_to-Copied mem dest f lo hi mem' p bytes low high c same fits hp lp el eh l1 l2 h1 h2 = record {
  same_length = length-copy_to mem' (dest + p) bytes ∙ c.same_length;
  written = λ j a b. elim (Bool-cases (leb p j)) [
    | inr before ↦
        byte_at-copy_to_outside mem' (dest + p) bytes (dest + j) (inl (ground arith))
        ∙ c.written j (ground arith) (ground arith)
    | inl from ↦ elim (Bool-cases (ltb j (p + length bytes))) [
      | inl inside ↦
          let e : dest + j ≡ dest + p + (j - p) = ground arith in
          let e' : p + (j - p) ≡ j = ground arith in
          ap (byte_at (copy_to mem' (dest + p) bytes)) e
          ∙ byte_at-copy_to_inside mem' (dest + p) bytes (j - p) (ground arith)
              (omega (arith, c.same_length))
          ∙ same (j - p) (ground arith)
          ∙ ap f e'
      | inr behind ↦
          byte_at-copy_to_outside mem' (dest + p) bytes (dest + j) (inr (ground arith))
          ∙ c.written j (ground arith) (ground arith)
    ]
  ];
  kept =
      λ x h. byte_at-copy_to_outside mem' (dest + p) bytes x (grind arith) ∙ c.kept x (grind arith);
}

-- What is written throughout is a copy.
pub Copied-all :
    (mem : List ℕ) (dest : ℕ) (f : ℕ → ℕ) (n : ℕ) (mem' bytes : List ℕ)
    → Copied mem dest f 0 n mem'
    → length bytes ≡ n
    → ((j : ℕ) → j < n → byte_at bytes j ≡ f j)
    → dest + n ≤ length mem
    → mem' ≡ copy_to mem dest bytes
Copied-all mem dest f n mem' bytes c l same fits =
    memory_ext mem' (copy_to mem dest bytes) (c.same_length ∙ sym (length-copy_to mem dest bytes))
      (λ x below. elim (Bool-cases (leb dest x)) [
        | inr before ↦
            c.kept x (inl (ground arith))
            ∙ sym (byte_at-copy_to_outside mem dest bytes x (inl (ground arith)))
        | inl from ↦ elim (Bool-cases (ltb x (dest + n))) [
          | inl inside ↦
              let e : x ≡ dest + (x - dest) = ground arith in
              ap (byte_at mem') e
              ∙ c.written (x - dest) (omega arith) (ground arith)
              ∙ sym (same (x - dest) (ground arith))
              ∙ sym (byte_at-copy_to_inside mem dest bytes (x - dest) (ground arith) (omega arith))
              ∙ ap (byte_at (copy_to mem dest bytes)) (sym e)
          | inr behind ↦
              c.kept x (inr (ground arith))
              ∙ sym (byte_at-copy_to_outside mem dest bytes x (inr (ground arith)))
        ]
      ])

-- Two ranges of one size at both ends of the bytes from `low` to what is written.
pub ends-Copied :
    (mem : List ℕ) (dest : ℕ) (f : ℕ → ℕ) (low n total : ℕ) (mem' first last : List ℕ) (size at : ℕ)
    → Copied mem dest f n total mem'
    → n ≤ total
    → dest + total ≤ length mem
    → length first ≡ size
    → length last ≡ size
    → ((j : ℕ) → j < size → byte_at first j ≡ f (low + j))
    → ((j : ℕ) → j < size → byte_at last j ≡ f (n - size + j))
    → low + size ≤ n
    → n ≤ low + size + size
    → at ≡ dest + n - size
    → Copied mem dest f low total (copy_to (copy_to mem' (dest + low) first) at last)
ends-Copied mem dest f low n total mem' first last size at c le fits l1 l2 s1 s2 a b here =
    let mem1 = copy_to mem' (dest + low) first in
    let mem1_length : length mem1 ≡ length mem' = length-copy_to mem' (dest + low) first in
    record {
      same_length = length-copy_to mem1 at last ∙ mem1_length ∙ c.same_length;
      written = λ j from_low high. elim (Bool-cases (ltb j n)) [
        | inr behind ↦
            byte_at-copy_to_outside mem1 at last (dest + j) (inr (ground arith))
            ∙ byte_at-copy_to_outside mem' (dest + low) first (dest + j) (inr (ground arith))
            ∙ c.written j (ground arith) high
        | inl inside ↦ elim (Bool-cases (leb (n - size) j)) [
          | inl from ↦
              let e : dest + j ≡ at + (j - (n - size)) = ground arith in
              let e' : n - size + (j - (n - size)) ≡ j = ground arith in
              ap (byte_at (copy_to mem1 at last)) e
              ∙ byte_at-copy_to_inside mem1 at last (j - (n - size)) (ground arith)
                  (omega (arith, c.same_length, mem1_length))
              ∙ s2 (j - (n - size)) (ground arith)
              ∙ ap f e'
          | inr before ↦
              byte_at-copy_to_outside mem1 at last (dest + j) (inl (ground arith))
              ∙ ap (byte_at mem1) (back j from_low)
              ∙ byte_at-copy_to_inside mem' (dest + low) first (j - low) (ground arith)
                  (omega (arith, c.same_length))
              ∙ s1 (j - low) (ground arith)
              ∙ ap f (again j from_low)
        ]
      ];
      kept = λ x h.
          byte_at-copy_to_outside mem1 at last x (grind arith)
          ∙ byte_at-copy_to_outside mem' (dest + low) first x (grind arith)
          ∙ c.kept x (grind arith);
    }
  where
    back : (j : ℕ) → low ≤ j → dest + j ≡ dest + low + (j - low)
    back j l = omega arith

    again : (j : ℕ) → low ≤ j → low + (j - low) ≡ j
    again j l = omega arith

-- The same from the start of the block.
pub start-Copied :
    (mem : List ℕ) (dest : ℕ) (f : ℕ → ℕ) (n total : ℕ) (mem' first last : List ℕ) (size : ℕ)
    → Copied mem dest f n total mem'
    → n ≤ total
    → dest + total ≤ length mem
    → length first ≡ size
    → length last ≡ size
    → ((j : ℕ) → j < size → byte_at first j ≡ f j)
    → ((j : ℕ) → j < size → byte_at last j ≡ f (n - size + j))
    → size ≤ n
    → n ≤ size + size
    → Copied mem dest f 0 total (copy_to (copy_to mem' dest first) (dest + n - size) last)
start-Copied mem dest f n total mem' first last size c le fits l1 l2 s1 s2 a b =
    let z : dest + 0 ≡ dest = omega arith in
    subst (λ d. Copied mem dest f 0 total (copy_to (copy_to mem' d first) (dest + n - size) last)) z
      (ends-Copied mem dest f 0 n total mem' first last size (dest + n - size) c le fits l1 l2
        (λ j h. s1 j h ∙ ap f (omega arith)) s2 (omega arith) (omega arith) refl)

-- One byte at the start.
pub set-Copied :
    (mem : List ℕ) (dest : ℕ) (f : ℕ → ℕ) (n total : ℕ) (mem' : List ℕ) (x : ℕ)
    → Copied mem dest f n total mem'
    → n ≤ 1
    → n ≤ total
    → 0 < n
    → dest + total ≤ length mem
    → x ≡ f 0
    → Copied mem dest f 0 total (set mem' dest x)
unfolding copy_to
set-Copied mem dest f n total mem' x c one le pos fits e =
    let z : dest + 0 ≡ dest = omega arith in
    subst (λ d. Copied mem dest f 0 total (set mem' d x)) z
      (copy_to-Copied mem dest f n total mem' 0 (x ∷ []) 0 total c (only x e) (omega arith)
        (omega arith) (omega arith) (inl refl) (inr refl) (omega arith) (omega arith) (omega arith)
        (omega arith))
  where
    only : (y : ℕ) → y ≡ f 0 → (j : ℕ) → j < 1 → byte_at (y ∷ []) j ≡ f (0 + j)
    only y h zero l = h ∙ ap f (omega arith)
    only y h (suc j) l = absurd (omega arith)

-- The bytes of a window that nothing was written to.
pub window-Copied :
    (mem : List ℕ) (dest : ℕ) (f : ℕ → ℕ) (lo hi : ℕ) (mem' : List ℕ) (x n : ℕ)
    → Copied mem dest f lo hi mem'
    → (x + n ≤ dest + lo) ⊎ (dest + hi ≤ x)
    → window mem' x n ≡ window mem x n
window-Copied mem dest f lo hi mem' x zero c h = refl
window-Copied mem dest f lo hi mem' x (suc n) c h =
    let head : byte_at mem' x ≡ byte_at mem x = c.kept x (grind arith) in
    ap (λ b. b ∷ window mem' (x + 1) n) head
    ∙ ap (◌∷◌ (byte_at mem x)) (window-Copied mem dest f lo hi mem' (x + 1) n c (grind arith))
