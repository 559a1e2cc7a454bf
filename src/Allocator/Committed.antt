-- ===== src/Allocator/Committed.antt =====
-- Which addresses are committed.
use hc.Base.{
  ◌⊎◌, inl, inr, dec_lt, ap, subst, two_pow_split, two_pow_pos, ◌*◌, ℕ, ◌+◌, ◌-◌, ◌%◌, ◌^◌, ◌≤◌,
  ◌<◌, ◌≡◌, leb, ltb, sym, ◌∙◌, arith, Bool, true, false, not, ◌&&◌, ◌||◌, ◌==◌, List, [], ◌∷◌,
  if◌then◌else◌,
}
use hc.Math.{align_forward}
use hc.Math.Align.{align_forward-IsLeast, pred-mul}
use native.Mathlib.Nat.{mod-eq-zero_of_dvd, dvd-mul_left}
use hc.Allocator.{
  Allocator, HeapCall, Resized, commit, decommit, minus, negated, is_negative, greater,
  resize_pages, allocator_resize,
}

-- The committed addresses after calls.
abbrev pub after_calls : List HeapCall → (ℕ → Bool) → ℕ → Bool
after_calls [] committed = committed
after_calls (commit start len ∷ calls) committed =
    after_calls calls (λ x. (leb start x && ltb x (start + len)) || committed x)
after_calls (decommit start len ∷ calls) committed =
    after_calls calls (λ x. not (leb start x && ltb x (start + len)) && committed x)

-- `end` is the least multiple of the page size that is not below the size.
pub record WholePages (page_size size end : ℕ) : Type 0 where
  pub covers : size ≤ end
  pub whole : end % page_size ≡ 0
  pub least : (m : ℕ) → size ≤ m → m % page_size ≡ 0 → end ≤ m

-- Exactly the whole pages that the size needs are committed, and they are reserved.
pub record IsExact (page_size : ℕ) (self : Allocator) (committed : ℕ → Bool) : Type 0 where
  pub end : ℕ
  pub pages : WholePages page_size self.size end
  pub exact : (x : ℕ) → committed x ≡ ltb x end
  pub reserved : end ≤ self.reserve_size

module _ (k : ℕ) (small : k ≤ 62) where
  aligned-WholePages :
      (x : ℕ) → x + 2 ^ k ≤ 2 ^ 63 → WholePages (2 ^ k) x (align_forward 64 x (2 ^ k))
  aligned-WholePages x h =
      let least = align_forward-IsLeast 64 k x (omega arith) (omega arith) in
      record { covers = least.0; whole = least.1; least = least.2 }

  same_end : {size a b : ℕ} → WholePages (2 ^ k) size a → WholePages (2 ^ k) size b → a ≡ b
  same_end {size} {a} {b} p q =
      omega (arith, p.least b q.covers q.whole, q.least a p.covers p.whole)

  aligned-lt : (x : ℕ) → x + 2 ^ k ≤ 2 ^ 63 → align_forward 64 x (2 ^ k) < 2 ^ 63
  aligned-lt x h =
      let split = two_pow_split k 63 (omega arith) in
      let pos = two_pow_pos (63 - k) in
      let m = (2 ^ (63 - k) - 1) * 2 ^ k in
      let below : m + 2 ^ k ≡ 2 ^ 63 = pred-mul (2 ^ (63 - k)) (2 ^ k) pos ∙ sym split in
      let whole : m % 2 ^ k ≡ 0 =
        mod-eq-zero_of_dvd (2 ^ k) (dvd-mul_left (2 ^ k) (2 ^ (63 - k) - 1)) in
      omega (arith, (aligned-WholePages x h).least m (omega arith) whole, two_pow_pos k)

module _ (a b c : ℕ) (a_small : a < 2 ^ 63) (b_small : b < 2 ^ 63) (c_small : c < 2 ^ 63) where
  minus-up : a ≤ b → minus b a ≡ b - a
  minus-up h = omega arith

  minus-down : b < a → minus b a ≡ 2 ^ 64 - (a - b)
  minus-down h = omega arith

  greater_lem : greater b c ≡ ltb c b
  greater_lem =
      let p : (b + 2 ^ 63) % 2 ^ 64 ≡ b + 2 ^ 63 = omega arith in
      let q : (c + 2 ^ 63) % 2 ^ 64 ≡ c + 2 ^ 63 = omega arith in rw (p, q) (ground arith)

  minus_is_zero : (minus b a == 0) ≡ (b == a)
  minus_is_zero = ground arith

  is_negative-minus : is_negative (minus b a) ≡ ltb b a
  is_negative-minus = ground arith

  negated-minus : b < a → negated (minus b a) ≡ a - b
  negated-minus h = omega arith

-- What a call from pages up to `a` to pages up to `b` leaves.
record Resizes (self : Allocator) (new_size a b : ℕ) (committed : ℕ → Bool) (r : Resized)
    : Type 0 where
  exact : (x : ℕ) → after_calls r.calls committed x ≡ ltb x (if r.succeeded then b else a)
  reserved : (if r.succeeded then b else a) ≤ self.reserve_size
  reserve_kept : r.allocator.reserve_size ≡ self.reserve_size
  size_is : r.allocator.size ≡ (if r.succeeded then new_size else self.size)
  unchanged : r.succeeded ≡ false → r.calls ≡ []
  accepted : b ≤ a → r.succeeded ≡ true

resize_pages-Resizes :
    (page_size : ℕ) (commits : ℕ → ℕ → Bool) (self : Allocator) (new_size a b : ℕ)
    (committed : ℕ → Bool)
    → a < 2 ^ 63
    → b < 2 ^ 63
    → self.reserve_size < 2 ^ 63
    → ((x : ℕ) → committed x ≡ ltb x a)
    → a ≤ self.reserve_size
    → Resizes self new_size a b committed (resize_pages page_size commits self new_size a b)
unfolding resize_pages
resize_pages-Resizes page_size commits self new_size a b committed a_small b_small c_small e le =
    elim (lt_trichotomy b a) [
      | inl below ↦
          rw
            (
              minus_is_zero a b self.reserve_size a_small b_small c_small,
              is_negative-minus a b self.reserve_size a_small b_small c_small,
              negated-minus a b self.reserve_size a_small b_small c_small below,
            )
            (record {
              exact = λ x. ground (arith, e x);
              reserved = ground arith;
              reserve_kept = ground arith;
              size_is = ground arith;
              unchanged = ground arith;
              accepted = ground arith;
            })
      | inr other ↦
          rw
            (
              minus_is_zero a b self.reserve_size a_small b_small c_small,
              is_negative-minus a b self.reserve_size a_small b_small c_small,
              greater_lem a b self.reserve_size a_small b_small c_small,
              minus-up a b self.reserve_size a_small b_small c_small other,
            )
            (record {
              exact = λ x. ground (arith, e x);
              reserved = ground arith;
              reserve_kept = ground arith;
              size_is = ground arith;
              unchanged = ground arith;
              accepted = ground arith;
            })
    ]
  where
    lt_trichotomy : (m n : ℕ) → (m < n) ⊎ (n ≤ m)
    lt_trichotomy m n = elim (dec_lt m n) [ yes h ↦ inl h | no h ↦ inr (omega arith) ]

-- If the page size is a power of two up to 2^62, and the sizes leave room for a page below 2^63, where
-- `ssize_t` ends, then `allocator_resize` keeps exactly the pages committed that the size of the
-- allocator needs, up to the least multiple of the page size that is not below it, and keeps them
-- inside the reserved range, however `heap_commit` decides and in every branch. If it returns 0,
-- the size is the new one, otherwise it is the old one and nothing was called; and it always
-- returns 0 when the new size is not above the old one.
pub allocator_resize-IsExact :
    (k : ℕ) (commits : ℕ → ℕ → Bool) (self : Allocator) (new_size : ℕ) (committed : ℕ → Bool)
    → k ≤ 62
    → self.size + 2 ^ k ≤ 2 ^ 63
    → new_size + 2 ^ k ≤ 2 ^ 63
    → self.reserve_size < 2 ^ 63
    → IsExact (2 ^ k) self committed
    → let r = allocator_resize (2 ^ k) commits self new_size in
      IsExact (2 ^ k) r.allocator (after_calls r.calls committed)
      × (r.allocator.size ≡ (if r.succeeded then new_size else self.size))
      × (r.succeeded ≡ false → r.calls ≡ [])
      × (new_size ≤ self.size → r.succeeded ≡ true)
unfolding allocator_resize
allocator_resize-IsExact k commits self new_size committed small old_fits new_fits reserve_fits e =
    let a = align_forward 64 self.size (2 ^ k) in
    let b = align_forward 64 new_size (2 ^ k) in
    let old_pages = aligned-WholePages k small self.size old_fits in
    let new_pages = aligned-WholePages k small new_size new_fits in
    let same : e.end ≡ a = same_end k small e.pages old_pages in
    let r =
      resize_pages-Resizes (2 ^ k) commits self new_size a b committed
        (aligned-lt k small self.size old_fits) (aligned-lt k small new_size new_fits) reserve_fits
        (λ x. e.exact x ∙ ap (ltb x) same) (omega (arith, e.reserved)) in
    let result = resize_pages (2 ^ k) commits self new_size a b in
    (
      record {
        end = if result.succeeded then b else a;
        pages =
            subst (λ s. WholePages (2 ^ k) s (if result.succeeded then b else a)) (sym r.size_is)
              (either result.succeeded old_pages new_pages);
        exact = r.exact;
        reserved = omega (arith, r.reserved, r.reserve_kept);
      },
      r.size_is,
      r.unchanged,
      λ h. r.accepted (old_pages-le old_pages new_pages h),
    )
  where
    either :
        {p s t a b : ℕ} (ok : Bool)
        → WholePages p s a
        → WholePages p t b
        → WholePages p (if ok then t else s) (if ok then b else a)
    either true old new = new
    either false old new = old

    old_pages-le : {p s t a b : ℕ} → WholePages p s a → WholePages p t b → t ≤ s → b ≤ a
    old_pages-le {p} {s} {t} {a} {b} old new h = new.least a (omega (arith, old.covers)) old.whole
