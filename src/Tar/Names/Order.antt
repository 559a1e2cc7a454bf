-- ===== src/Tar/Names/Order.antt =====
-- The names come out in the order of dictionaries, each as often as it went in.
use hc.Base.{
  ℕ, zero, suc, ◌+◌, ◌≡◌, ◌⊎◌, inl, inr, refl, sym, arith, Bool, true, false, if◌then◌else◌,
  Bool-cases, List, [], ◌∷◌, ◌++◌, some, ℤ, pos, negsuc, reverse,
}
use mathlib.Core.List.{reverse_aux}
use hc.Util.Cstr.{cstr_cmp}
use hc.Util.Cstr.Laws.{NoZero, Before, Compared, cstr_cmp_lem}
use hc.Tar.Names.{at_least, insert, sort_loop, sort_names}

-- `a` may stand before `b`.
abbrev pub MayPrecede : List ℕ → List ℕ → Type 0
MayPrecede a b = (a ≡ b) ⊎ Before a b

-- Each name may stand before the next.
abbrev pub IsOrdered : List (List ℕ) → Type 0
IsOrdered [] = Unit {0}
IsOrdered (a ∷ []) = Unit {0}
IsOrdered (a ∷ b ∷ names) = MayPrecede a b × IsOrdered (b ∷ names)

at_least-MayPrecede :
    (name prev : List ℕ)
    → NoZero name
    → NoZero prev
    → ((at_least name prev ≡ true) × MayPrecede prev name)
      ⊎ ((at_least name prev ≡ false) × MayPrecede name prev)
unfolding at_least
at_least-MayPrecede name prev hn hp =
    let (diff, e, c) = cstr_cmp_lem name prev [] [] hn hp in by_sign diff e c
  where
    by_sign :
        (diff : ℤ)
        → cstr_cmp (name ++ 0 ∷ []) (prev ++ 0 ∷ []) ≡ some diff
        → Compared name prev diff
        → ((at_least name prev ≡ true) × MayPrecede prev name)
          ⊎ ((at_least name prev ≡ false) × MayPrecede name prev)
    by_sign (negsuc n) e c = inr (rw (e, at_least) refl, inr (c.negative tt))
    by_sign (pos zero) e c = inl (rw (e, at_least) refl, inl (sym (c.equal refl)))
    by_sign (pos (suc n)) e c = inl (rw (e, at_least) refl, inr (c.positive (omega arith)))

abbrev pub AllNoZero : List (List ℕ) → Type 0
AllNoZero [] = Unit {0}
AllNoZero (name ∷ names) = NoZero name × AllNoZero names

-- How many of the names pass a test.
abbrev pub count : (List ℕ → Bool) → List (List ℕ) → ℕ
count test [] = 0
count test (name ∷ names) = (if test name then 1 else 0) + count test names

-- The names in front of the place, the nearest first, in order.
abbrev IsDescending : List (List ℕ) → Type 0
IsDescending [] = Unit {0}
IsDescending (a ∷ []) = Unit {0}
IsDescending (a ∷ b ∷ names) = MayPrecede b a × IsDescending (b ∷ names)

count-insert :
    (test : List ℕ → Bool) (name : List ℕ) (before : List (List ℕ))
    → count test (insert name before) ≡ (if test name then 1 else 0) + count test before
unfolding insert
count-insert test name [] = refl
count-insert test name (prev ∷ before) = ground (arith, count-insert test name before)

AllNoZero-insert :
    (name : List ℕ) (before : List (List ℕ))
    → NoZero name
    → AllNoZero before
    → AllNoZero (insert name before)
unfolding insert
AllNoZero-insert name [] n a = (n, tt)
AllNoZero-insert name (prev ∷ before) n a = elim (Bool-cases (at_least name prev)) [
  | inl e ↦ rw e (n, a)
  | inr e ↦ rw e (a.0, AllNoZero-insert name before n a.1)
]

insert-behind :
    (prev name : List ℕ) (before : List (List ℕ))
    → NoZero name
    → AllNoZero before
    → MayPrecede name prev
    → IsDescending (prev ∷ before)
    → IsDescending (insert name before)
    → IsDescending (prev ∷ insert name before)
unfolding insert
insert-behind prev name [] n a m d e = (m, tt)
insert-behind prev name (p ∷ before) n a m d e = elim (Bool-cases (at_least name p)) [
  | inl t ↦ rw t (m, (rw (t, insert) at e))
  | inr t ↦ rw t (d.0, (rw (t, insert) at e))
]

insert-IsDescending :
    (name : List ℕ) (before : List (List ℕ))
    → NoZero name
    → AllNoZero before
    → IsDescending before
    → IsDescending (insert name before)
unfolding insert
insert-IsDescending name [] n a d = tt
insert-IsDescending name (prev ∷ before) n a d = elim (at_least-MayPrecede name prev n a.0) [
  | inl (e, m) ↦ rw e (m, d)
  | inr (e, m) ↦ rw e (
      insert-behind prev name before n a.1 m d
        (insert-IsDescending name before n a.1 (rest before d)))
]
  where
    rest : (names : List (List ℕ)) → IsDescending (prev ∷ names) → IsDescending names
    rest [] h = tt
    rest (x ∷ names) h = h.1

sort_loop-IsDescending :
    (before names : List (List ℕ))
    → AllNoZero before
    → AllNoZero names
    → IsDescending before
    → IsDescending (sort_loop before names)
unfolding sort_loop
sort_loop-IsDescending before [] a b d = d
sort_loop-IsDescending before (name ∷ names) a b d =
    sort_loop-IsDescending (insert name before) names (AllNoZero-insert name before b.0 a) b.1
      (insert-IsDescending name before b.0 a d)

count-sort_loop :
    (test : List ℕ → Bool) (before names : List (List ℕ))
    → count test (sort_loop before names) ≡ count test before + count test names
unfolding sort_loop
count-sort_loop test before [] = omega arith
count-sort_loop test before (name ∷ names) =
    omega (arith, count-sort_loop test (insert name before) names, count-insert test name before)

reverse_aux-IsOrdered :
    (a : List ℕ) (before done : List (List ℕ))
    → IsDescending (a ∷ before)
    → IsOrdered (a ∷ done)
    → IsOrdered (reverse_aux before (a ∷ done))
reverse_aux-IsOrdered a [] done d h = h
reverse_aux-IsOrdered a (b ∷ before) done d h =
    reverse_aux-IsOrdered b before (a ∷ done) d.1 (d.0, h)

reverse-IsOrdered : (names : List (List ℕ)) → IsDescending names → IsOrdered (reverse names)
reverse-IsOrdered [] d = tt
reverse-IsOrdered (a ∷ names) d = reverse_aux-IsOrdered a names [] d tt

count-reverse_aux :
    (test : List ℕ → Bool) (xs ys : List (List ℕ))
    → count test (reverse_aux xs ys) ≡ count test xs + count test ys
count-reverse_aux test [] ys = omega arith
count-reverse_aux test (x ∷ xs) ys = omega (arith, count-reverse_aux test xs (x ∷ ys))

-- `sortNames` puts names in the order of dictionaries, each before the next or equal to it, and for
-- any test as many names pass it as before: none is lost or made up.
pub sort_names_lem :
    (names : List (List ℕ)) (test : List ℕ → Bool)
    → AllNoZero names
    → IsOrdered (sort_names names) × (count test (sort_names names) ≡ count test names)
unfolding sort_names
sort_names_lem names test a = (
  reverse-IsOrdered (sort_loop [] names) (sort_loop-IsDescending [] names tt a tt),
  omega (arith, count-reverse_aux test (sort_loop [] names) [], count-sort_loop test [] names),
)
