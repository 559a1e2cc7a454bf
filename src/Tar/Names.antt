-- ===== src/Tar/Names.antt =====
-- hc/tools/tar/common.c: `sortNames`. A name is its bytes before the terminator.
pub mod Order
use hc.Base.{
  ℕ, ◌+◌, Bool, true, false, if◌then◌else◌, List, [], ◌∷◌, ◌++◌, Option, none, some, pos, negsuc,
  reverse,
}
use hc.Util.Cstr.{cstr_cmp}

-- `util_cstrCmp(name, prev) >= 0`
unfoldable pub at_least : List ℕ → List ℕ → Bool
at_least name prev = elim (cstr_cmp (name ++ 0 ∷ []) (prev ++ 0 ∷ [])) [
  | none ↦ true
  | some (pos n) ↦ true
  | some (negsuc n) ↦ false
]

-- The inner loop: `before` are the names in front of the place, the nearest first; the names that
-- are passed move one place back.
unfoldable pub insert : List ℕ → List (List ℕ) → List (List ℕ)
insert name [] = name ∷ []
insert name (prev ∷ before) =
    let rest = insert name before in
    if at_least name prev then name ∷ prev ∷ before else prev ∷ rest

-- The outer loop: `before` are the names below index `i`, the last first.
unfoldable pub sort_loop : List (List ℕ) → List (List ℕ) → List (List ℕ)
unfolding insert
sort_loop before [] = before
sort_loop before (name ∷ names) = sort_loop (insert name before) names

unfoldable pub sort_names : List (List ℕ) → List (List ℕ)
unfolding sort_loop
sort_names names = reverse (sort_loop [] names)
