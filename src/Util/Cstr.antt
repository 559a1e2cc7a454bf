-- ===== src/Util/Cstr.antt =====
-- hc/core/hc/util.c: `util_cstrLen`, `util_cstrCmp`, `util_getEnv` and `util_strToUtf16`.
-- A `char *` is the list of the bytes from it on, and `none` is a read past the end of that memory.
pub mod Laws
mod Tests
use hc.Base.{
  ℕ, zero, suc, ◌%◌, ◌^◌, ◌==◌, ◌||◌, not, if◌then◌else◌, List, [], ◌∷◌, Option, none, some, ℤ, pos,
  sub_ℕ,
}

-- The loop counts the bytes before the terminator.
pub cstr_len_from : ℕ → List ℕ → Option ℕ
cstr_len_from count [] = none
cstr_len_from count (c ∷ cs) = if c == 0 then some count else cstr_len_from (suc count) cs

pub cstr_len : List ℕ → Option ℕ
unfolding cstr_len_from
cstr_len cstring = cstr_len_from 0 cstring

-- `*left - *right` in `int32_t`, on unsigned bytes.
pub cstr_cmp : List ℕ → List ℕ → Option ℤ
cstr_cmp [] right = none
cstr_cmp (l ∷ left) [] = none
cstr_cmp (l ∷ left) (r ∷ right) =
    if l == r then if l == 0 then some (pos 0) else cstr_cmp left right else some (sub_ℕ l r)

-- The inner loop of `util_getEnv` and the test behind it, on one string of the environment:
-- `some none` is `noMatch`, `some (some v)` the pointer behind `=`.
pub match_env : List ℕ → List ℕ → Option (Option (List ℕ))
match_env env [] = none
match_env [] (c ∷ name) = none
match_env (e ∷ env) (c ∷ name) =
    if c == 0
    then if e == b'=' then some (some env) else some none
    else if e == 0 || not (e == c)
    then some none
    else match_env env name

-- The outer loop: `envp` up to its terminating null pointer.
pub get_env : List (List ℕ) → List ℕ → Option (Option (List ℕ))
unfolding match_env
get_env [] name = some none
get_env (env ∷ envp) name = elim (match_env env name) [
  | none ↦ none
  | some (some v) ↦ some (some v)
  | some none ↦ get_env envp name
]

-- `util_strToUtf16`: `size` bytes, each widened to 16 bits.
pub str_to_utf16 : List ℕ → ℕ → Option (List ℕ)
str_to_utf16 src zero = some []
str_to_utf16 [] (suc size) = none
str_to_utf16 (c ∷ src) (suc size) = elim (str_to_utf16 src size) [
  | none ↦ none
  | some dest ↦ some (c % 2 ^ 16 ∷ dest)
]
