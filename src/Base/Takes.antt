-- ===== src/Base/Takes.antt =====
-- The first elements of a list, and what is behind them.
use hc.Base.Names.{
  ℕ, zero, suc, ◌+◌, ◌≤◌, ◌≡◌, refl, ap, sym, ◌∙◌, arith, List, [], ◌∷◌, ◌++◌, append_assoc,
}
use hc.Base.Lists.{length, take, drop, length-append, length-take}
use hc.Base.Copy.{copy_to, copy_to_lem}

pub take-append : (xs ys : List ℕ) (n : ℕ) → n ≤ length xs → take n (xs ++ ys) ≡ take n xs
take-append xs ys zero h = refl
take-append [] ys (suc n) h = absurd (omega arith)
take-append (x ∷ xs) ys (suc n) h = ap (◌∷◌ x) (take-append xs ys n (omega arith))

pub drop-append : (xs ys : List ℕ) (n : ℕ) → n ≤ length xs → drop n (xs ++ ys) ≡ drop n xs ++ ys
drop-append xs ys zero h = refl
drop-append [] ys (suc n) h = absurd (omega arith)
drop-append (x ∷ xs) ys (suc n) h = drop-append xs ys n (omega arith)

pub take_all : (xs : List ℕ) (n : ℕ) → length xs ≤ n → take n xs ≡ xs
take_all [] zero h = refl
take_all [] (suc n) h = refl
take_all (x ∷ xs) zero h = absurd (omega arith)
take_all (x ∷ xs) (suc n) h = ap (◌∷◌ x) (take_all xs n (omega arith))

pub drop_all : (xs : List ℕ) (n : ℕ) → length xs ≤ n → drop n xs ≡ []
drop_all [] zero h = refl
drop_all [] (suc n) h = refl
drop_all (x ∷ xs) zero h = absurd (omega arith)
drop_all (x ∷ xs) (suc n) h = drop_all xs n (omega arith)

-- Writing behind the first bytes of the array.
pub take-copy_to_behind :
    (mem bytes : List ℕ) (at : ℕ)
    → at + length bytes ≤ length mem
    → take (at + length bytes) (copy_to mem at bytes) ≡ take at mem ++ bytes
take-copy_to_behind mem bytes at h =
    let head = take at mem in
    let tail = drop (at + length bytes) mem in
    let head_length : length head ≡ at = omega (arith, length-take at mem) in
    let both : length (head ++ bytes) ≡ at + length bytes =
      omega (arith, length-append head bytes) in
    ap (take (at + length bytes)) (copy_to_lem mem at bytes h)
    ∙ ap (take (at + length bytes)) (sym (append_assoc head bytes tail))
    ∙ take-append (head ++ bytes) tail (at + length bytes) (omega (arith, both))
    ∙ take_all (head ++ bytes) (at + length bytes) (omega (arith, both))
