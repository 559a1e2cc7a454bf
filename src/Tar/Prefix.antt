-- ===== src/Tar/Prefix.antt =====
-- hc/tools/tar/common.c: `enterDirectory`, `leaveDirectory` and `validateName`. The prefix is kept
-- as its `prefixLen` bytes, the last first.
pub mod Laws
use hc.Base.{
  ℕ, zero, suc, ◌+◌, ◌==◌, ltb, leb, not, ◌&&◌, if◌then◌else◌, Bool, true, false, List, [], ◌∷◌,
  ◌++◌, Option, none, some, length, reverse,
}

abbrev pub max_name_len : ℕ
max_name_len = 100

abbrev pub max_prefix_len : ℕ
max_prefix_len = 155

abbrev pub prefix_size : ℕ
prefix_size = max_prefix_len + 1 + max_name_len

-- `enterDirectory`; `none` is -1.
unfoldable pub enter_directory : List ℕ → List ℕ → Option (List ℕ)
enter_directory [] name = some (reverse name)
enter_directory (c ∷ prefix) name =
    if ltb max_prefix_len (length (c ∷ prefix))
    then none
    else some (reverse name ++ (b'/' ∷ c ∷ prefix))

-- The loop of `leaveDirectory`; the prefix that it leaves.
unfoldable pub until_slash : List ℕ → List ℕ
until_slash [] = []
until_slash (c ∷ prefix) = let rest = until_slash prefix in if c == b'/' then prefix else rest

-- `leaveDirectory`; `none` is the assertion that the prefix is not empty.
unfoldable pub leave_directory : List ℕ → Option (List ℕ)
unfolding until_slash
leave_directory [] = none
leave_directory (c ∷ prefix) = some (until_slash (c ∷ prefix))

-- `isDotDot`
unfoldable pub is_dot_dot : List ℕ → Bool
is_dot_dot (a ∷ b ∷ c ∷ rest) = a == b'.' && b == b'.' && c == 0
is_dot_dot _ = false

-- What `validateName` returns; `fault` is a read past the end of the memory.
pub data Validated : Type 0 where
  fault : Validated
  dot_dot : Validated
  too_long : Validated
  has_slash : Validated
  valid : ℕ → Validated

-- The loop, at index `i` with `left` bytes allowed.
unfoldable pub validate_from : ℕ → ℕ → List ℕ → Validated
validate_from i left [] = fault
validate_from i zero (c ∷ cs) = if c == 0 then valid i else too_long
validate_from i (suc left) (c ∷ cs) =
    let rest = validate_from (i + 1) left cs in
    if c == 0 then valid i else if c == b'/' then has_slash else rest

unfoldable pub validate_name : List ℕ → ℕ → Validated
unfolding is_dot_dot validate_from
validate_name name max_len = if is_dot_dot name then dot_dot else validate_from 0 max_len name
