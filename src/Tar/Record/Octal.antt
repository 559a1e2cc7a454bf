-- ===== src/Tar/Record/Octal.antt =====
-- What the loop over octal digits writes, and that `parseSize` reads it.
use hc.Base.{
  ℕ, zero, suc, ◌+◌, ◌-◌, ◌*◌, ◌/◌, ◌%◌, ◌^◌, ◌≤◌, ◌<◌, ◌≡◌, ◌⊎◌, inl, inr, refl, ◌∙◌, ap, arith,
  List, some, length, byte_at, set, every_below, agree_below, dec_lt, get_or, bit_and, bit_and-low,
  byte_at-set_ne, byte_at-set_self, length-set, ltb, false,
}
use hc.Tar.Record.{octal_table, put_octal, parse_octal}

-- A number shifted by three bits, `times` times.
abbrev pub shifted : ℕ → ℕ → ℕ
shifted value zero = value
shifted value (suc times) = shifted (value / 8) times

pub shifted-suc : (value times : ℕ) → shifted value (suc times) ≡ shifted value times / 8
shifted-suc value zero = refl
shifted-suc value (suc times) = shifted-suc (value / 8) times

abbrev pub digit_of : ℕ → ℕ
digit_of value = get_or octal_table (bit_and value 7) 0

pub digit_of_lem : (value : ℕ) → digit_of value ≡ 48 + value % 8
unfolding every_below
digit_of_lem value =
    ap (λ d. get_or octal_table d 0) (bit_and-low 3 value)
    ∙ agree_below (λ d. get_or octal_table d 0) (λ d. 48 + d) 8 (value % 8) refl (omega arith)

pub length-put_octal :
    (last : ℕ) (count value : ℕ) (mem : List ℕ)
    → length (put_octal mem last count value) ≡ length mem
unfolding put_octal
length-put_octal last zero value mem = refl
length-put_octal last (suc count) value mem =
    length-put_octal (last - 1) count (value / 8) (set mem last (digit_of value))
    ∙ length-set mem last (digit_of value)

pub byte_at-put_octal_outside :
    (count last value i : ℕ) (mem : List ℕ)
    → count ≤ last + 1
    → (last < i) ⊎ (i + count ≤ last)
    → byte_at (put_octal mem last count value) i ≡ byte_at mem i
unfolding put_octal
byte_at-put_octal_outside zero last value i mem c h = refl
byte_at-put_octal_outside (suc count) last value i mem c h =
    byte_at-put_octal_outside count (last - 1) (value / 8) i (set mem last (digit_of value))
      (omega arith) (narrower h)
    ∙ byte_at-set_ne mem last i (digit_of value) (λ e. grind arith)
  where
    narrower : (last < i) ⊎ (i + suc count ≤ last) → (last - 1 < i) ⊎ (i + count ≤ last - 1)
    narrower (inl p) = inl (omega arith)
    narrower (inr p) = inr (omega arith)

-- Digit `j` from the right.
pub byte_at-put_octal :
    (count last value j : ℕ) (mem : List ℕ)
    → j < count
    → count ≤ last + 1
    → last < length mem
    → byte_at (put_octal mem last count value) (last - j) ≡ 48 + shifted value j % 8
unfolding put_octal
byte_at-put_octal zero last value j mem h c l = absurd (omega arith)
byte_at-put_octal (suc count) last value zero mem h c l =
    ap (byte_at (put_octal (set mem last (digit_of value)) (last - 1) count (value / 8)))
      (omega arith)
    ∙ byte_at-put_octal_outside count (last - 1) (value / 8) last (set mem last (digit_of value))
        (omega arith) apart
    ∙ byte_at-set_self mem last (digit_of value) l
    ∙ digit_of_lem value
  where
    apart : (last - 1 < last) ⊎ (last + count ≤ last - 1)
    apart = elim (dec_lt 0 last) [ yes p ↦ inl (omega arith) | no p ↦ inr (omega arith) ]
byte_at-put_octal (suc count) last value (suc j) mem h c l =
    ap (byte_at (put_octal (set mem last (digit_of value)) (last - 1) count (value / 8)))
      (omega arith)
    ∙ byte_at-put_octal count (last - 1) (value / 8) j (set mem last (digit_of value)) (omega arith)
        (omega arith) (omega (arith, length-set mem last (digit_of value)))

small : (x : ℕ) → ltb 7 (x % 8) ≡ false
small x = ground arith

-- `parseSize`'s loop on digits that stand in a memory.
pub parse_octal_lem :
    (left value at acc : ℕ) (mem : List ℕ)
    → acc ≡ shifted value left
    → ((j : ℕ) → j < left → byte_at mem (at + left - 1 - j) ≡ 48 + shifted value j % 8)
    → parse_octal mem at left acc ≡ some value
unfolding parse_octal
parse_octal_lem zero value at acc mem e digits = ap some e
parse_octal_lem (suc left) value at acc mem e digits =
    let d : byte_at mem at ≡ 48 + shifted value left % 8 =
      ap (byte_at mem) (omega arith) ∙ digits left (omega arith) in
    let s : acc * 8 + shifted value left % 8 ≡ shifted value left =
      omega (arith, e, shifted-suc value left) in
    let digit : (byte_at mem at + 2 ^ 32 - 48) % 2 ^ 32 ≡ shifted value left % 8 = omega arith in
    rw (digit, small (shifted value left), parse_octal, s)
      (parse_octal_lem left value (at + 1) (shifted value left) mem refl
        (λ j h. ap (byte_at mem) (omega arith) ∙ digits j (omega arith)))
