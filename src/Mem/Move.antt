-- ===== src/Mem/Move.antt =====
-- memmove copies the bytes as they were, wherever the two blocks lie.
use hc.Base.{
  ℕ, zero, suc, ◌+◌, ◌-◌, ◌*◌, ◌%◌, ◌^◌, ◌≡◌, ◌≤◌, ◌<◌, ◌⊎◌, refl, ap, sym, subst, ◌∙◌, arith, List,
  length, leb, ltb, ◌==◌, Bool-cases, inl, inr, byte_at, window, copy_to, bit_and, length-window,
  byte_at-window,
}
use hc.Math.{lnot, align_backward, align_remainder}
use hc.Math.Align.{align_backward-remainder}
use hc.Mem.{forward, backward, move_ends, move_rest, memmove}
use hc.Mem.Copied.{
  Copied, Copied-none, copy_to-Copied, Copied-all, start-Copied, set-Copied, window-Copied,
}

-- The bytes behind the loops, with both ends loaded before the first is stored.
move_ends-Copied :
    (mem : List ℕ) (d s n size : ℕ)
    → d + n ≤ length mem
    → size ≤ n
    → n ≤ size + size
    → Copied mem d (λ j. byte_at mem (s + j)) 0 n (move_ends mem d s n size)
unfolding move_ends
move_ends-Copied mem d s n size fits l h =
    start-Copied mem d (λ j. byte_at mem (s + j)) n n mem (window mem s size)
      (window mem (s + n - size) size) size (Copied-none mem d (λ j. byte_at mem (s + j)) n)
      (omega arith) fits (length-window mem s size) (length-window mem (s + n - size) size)
      (byte_at-window mem s size)
      (λ j b. byte_at-window mem (s + n - size) size j b ∙ ap (byte_at mem) (omega arith)) l h

move_rest-Copied :
    (mem : List ℕ) (d s n : ℕ)
    → d + n ≤ length mem
    → n < 16
    → Copied mem d (λ j. byte_at mem (s + j)) 0 n (move_rest mem d s n)
unfolding move_rest
move_rest-Copied mem d s n fits small = elim (Bool-cases (n == 0)) [
  | inl none ↦
      let z : 0 ≡ n = ground arith in
      rw (none, move_rest)
        (subst (λ k. Copied mem d (λ j. byte_at mem (s + j)) 0 k mem) z
          (Copied-none mem d (λ j. byte_at mem (s + j)) 0))
  | inr some_left ↦ elim (Bool-cases (leb 8 n)) [
    | inl eight ↦
        rw (some_left, eight, move_rest)
          (move_ends-Copied mem d s n 8 fits (ground arith) (omega arith))
    | inr below_eight ↦ elim (Bool-cases (leb 4 n)) [
      | inl four ↦
          rw (some_left, below_eight, four, move_rest)
            (move_ends-Copied mem d s n 4 fits (ground arith) (ground arith))
      | inr below_four ↦ elim (Bool-cases (leb 2 n)) [
        | inl two ↦
            rw (some_left, below_eight, below_four, two, move_rest)
              (move_ends-Copied mem d s n 2 fits (ground arith) (ground arith))
        | inr below_two ↦
            let z : s ≡ s + 0 = omega arith in
            rw (some_left, below_eight, below_four, below_two, move_rest)
              (set-Copied mem d (λ j. byte_at mem (s + j)) n n mem (byte_at mem s)
                (Copied-none mem d (λ j. byte_at mem (s + j)) n) (ground arith) (omega arith)
                (ground arith) fits (ap (byte_at mem) z))
      ]
    ]
  ]
]

module _ (mem : List ℕ) (d s total : ℕ) (fits : d + total ≤ length mem) where
  -- The byte of the source at an index.
  abbrev source : ℕ → ℕ
  source j = byte_at mem (s + j)

  abbrev Moved : ℕ → ℕ → List ℕ → Type 0
  Moved lo hi mem' = Copied mem d source lo hi mem'

  -- A chunk that is read where nothing was written.
  chunk-Moved :
      (lo hi p low high : ℕ) (mem' : List ℕ)
      → Moved lo hi mem'
      → (s + p + 16 ≤ d + lo) ⊎ (d + hi ≤ s + p)
      → p + 16 ≤ total
      → p ≤ hi
      → lo ≤ p + 16
      → (low ≡ p) ⊎ (low ≡ lo)
      → (high ≡ p + 16) ⊎ (high ≡ hi)
      → low ≤ p
      → low ≤ lo
      → p + 16 ≤ high
      → hi ≤ high
      → Moved low high (copy_to mem' (d + p) (window mem' (s + p) 16))
  chunk-Moved lo hi p low high mem' c free a h1 h2 h3 h4 h5 h6 h7 h8 =
      subst (λ bytes. Moved low high (copy_to mem' (d + p) bytes))
        (sym (window-Copied mem d source lo hi mem' (s + p) 16 c free))
        (copy_to-Copied mem d source lo hi mem' p (window mem (s + p) 16) low high c
          (λ j l.
            byte_at-window mem (s + p) 16 j (omega (arith, length-window mem (s + p) 16))
            ∙ ap (byte_at mem) (omega arith))
          (omega (arith, length-window mem (s + p) 16)) h1 (omega arith) h3 h4 h5 h6 (omega arith)
          h8)

  forward-Moved :
      (fuel i end : ℕ) (mem' : List ℕ)
      → d < s
      → end ≤ total
      → end < i + 16 * fuel
      → end % 16 ≡ 0
      → i % 16 ≡ 0
      → i < end
      → Moved 0 i mem'
      → Moved 0 end (forward fuel mem' d s i end)
  unfolding forward
  forward-Moved zero i end mem' lt le enough e1 e2 more c = absurd (omega arith)
  forward-Moved (suc fuel) i end mem' lt le enough e1 e2 more c =
      let c' =
        chunk-Moved 0 i i 0 (i + 16) mem' c (inr (omega arith)) (omega arith) (omega arith)
          (omega arith) (inr refl) (inl refl) (omega arith) (omega arith) (omega arith)
          (omega arith) in
      elim (Bool-cases (ltb (i + 16) end)) [
        | inl again ↦
            rw (again, forward)
              (forward-Moved fuel (i + 16) end _ lt le (omega arith) e1 (omega arith) (ground arith)
                c')
        | inr stop ↦
            let z : i + 16 ≡ end = ground arith in
            rw (stop, forward)
              (subst (λ k. Moved 0 k (copy_to mem' (d + i) (window mem' (s + i) 16))) z c')
      ]

  backward-Moved :
      (fuel n : ℕ) (mem' : List ℕ)
      → s ≤ d
      → n ≤ total
      → n < 16 * fuel
      → 16 ≤ n
      → Moved n total mem'
      → let r = backward fuel mem' d s n in Moved r.1 total r.0 × (r.1 < 16) × (r.1 ≤ total)
  unfolding backward
  backward-Moved zero n mem' le l enough big c = absurd (omega arith)
  backward-Moved (suc fuel) n mem' le l enough big c =
      let c' =
        chunk-Moved n total (n - 16) (n - 16) total mem' c (inl (omega arith)) (omega arith)
          (omega arith) (omega arith) (inl refl) (inr refl) (omega arith) (omega arith)
          (omega arith) (omega arith) in
      elim (Bool-cases (leb 16 (n - 16))) [
        | inl again ↦
            rw (again, backward)
              (backward-Moved fuel (n - 16) _ le (omega arith) (omega arith) (ground arith) c')
        | inr stop ↦ rw (stop, backward) (c', ground arith, omega arith)
      ]

  -- A second copy beside the first, from bytes that the first left alone.
  Moved-Copied :
      (lo hi p k low high to from : ℕ) (mem1 mem2 : List ℕ)
      → Moved lo hi mem1
      → to ≡ d + p
      → from ≡ s + p
      → Copied mem1 to (λ j. byte_at mem1 (from + j)) 0 k mem2
      → (s + p + k ≤ d + lo) ⊎ (d + hi ≤ s + p)
      → ((j : ℕ)
          → low ≤ j
          → j < high
          → ((p ≤ j) × (j < p + k)) ⊎ ((lo ≤ j) × (j < hi) × ((j < p) ⊎ (p + k ≤ j))))
      → low ≤ lo
      → low ≤ p
      → hi ≤ high
      → p + k ≤ high
      → Moved low high mem2
  Moved-Copied lo hi p k low high to from mem1 mem2 c1 e1 e2 c2 free parts h1 h2 h3 h4 = record {
    same_length = c2.same_length ∙ c1.same_length;
    written = λ j a b. elim (parts j a b) [
      | inl (above, below) ↦
          let e : d + j ≡ to + (j - p) = omega arith in
          let e' : from + (j - p) ≡ s + j = omega arith in
          ap (byte_at mem2) e
          ∙ c2.written (j - p) (omega arith) (omega arith)
          ∙ ap (byte_at mem1) e'
          ∙ c1.kept (s + j) (grind arith)
      | inr (above, below, beside) ↦ c2.kept (d + j) (grind arith) ∙ c1.written j above below
    ];
    kept = λ x h. c2.kept x (grind arith) ∙ c1.kept x (grind arith);
  }

  backward_whole :
      (left : ℕ) (mem1 : List ℕ)
      → Moved left total mem1
      → left < 16
      → left ≤ total
      → s ≤ d
      → Moved 0 total (move_rest mem1 d s left)
  backward_whole left mem1 c small le over =
      Moved-Copied left total 0 left 0 total d s mem1 (move_rest mem1 d s left) c (omega arith)
        (omega arith) (move_rest-Copied mem1 d s left (omega (arith, c.same_length)) small)
        (inl (omega arith)) (λ j a b. grind arith) (omega arith) (omega arith) (omega arith)
        (omega arith)

  forward_whole :
      (end left : ℕ) (mem1 : List ℕ)
      → Moved 0 end mem1
      → end + left ≡ total
      → left < 16
      → d < s
      → Moved 0 total (move_rest mem1 (d + end) (s + end) left)
  forward_whole end left mem1 c sum small under =
      Moved-Copied 0 end end left 0 total (d + end) (s + end) mem1
        (move_rest mem1 (d + end) (s + end) left) c refl refl
        (move_rest-Copied mem1 (d + end) (s + end) left (omega (arith, c.same_length)) small)
        (inr (omega arith)) (λ j a b. grind arith) (omega arith) (omega arith) (omega arith)
        (omega arith)

  Moved-copy_to : (mem' : List ℕ) → Moved 0 total mem' → mem' ≡ copy_to mem d (window mem s total)
  Moved-copy_to mem' c =
      Copied-all mem d source total mem' (window mem s total) c (length-window mem s total)
        (byte_at-window mem s total) fits

-- memmove copies the `n` bytes at `s`, as they were before the call, to `d`, also where the two
-- blocks overlap.
pub memmove_lem :
    (mem : List ℕ) (d s n : ℕ)
    → d + n ≤ length mem
    → n < 2 ^ 64
    → memmove mem d s n ≡ copy_to mem d (window mem s n)
unfolding memmove align_backward align_remainder
memmove_lem mem d s n fits word = elim (Bool-cases (leb 16 n)) [
  | inr short ↦
      rw (short, memmove)
        (Moved-copy_to mem d s n fits (move_rest mem d s n)
          (move_rest-Copied mem d s n fits (ground arith)))
  | inl long ↦ elim (Bool-cases (ltb d s)) [
    | inl below ↦
        let (divided, small, sum) = align_backward-remainder 64 4 n (omega arith) word in
        let end = bit_and n (lnot 64 15) in
        rw (long, below, memmove)
          (Moved-copy_to mem d s n fits
            (move_rest (forward n mem d s 0 end) (d + end) (s + end) (bit_and n 15))
            (forward_whole mem d s n fits end (bit_and n 15) (forward n mem d s 0 end)
              (forward-Moved mem d s n fits n 0 end mem (ground arith) (omega arith) (ground arith)
                divided refl (ground arith) (Copied-none mem d (λ j. byte_at mem (s + j)) 0))
              sum small (ground arith)))
    | inr above ↦
        rw (long, above, memmove)
          (let (c, small, le) =
              backward-Moved mem d s n fits n n mem (ground arith) (omega arith) (ground arith)
                (ground arith) (Copied-none mem d (λ j. byte_at mem (s + j)) n) in
            let r = backward n mem d s n in
            Moved-copy_to mem d s n fits (move_rest r.0 d s r.1)
              (backward_whole mem d s n fits r.1 r.0 c small le (ground arith)))
  ]
]
