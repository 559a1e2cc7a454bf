-- ===== src/Util/Cstr/Tests.antt =====
-- Runs of the string functions, and the theorems at concrete inputs.
use hc.Base.{◌≡◌, refl, arith, List, [], ◌∷◌, ◌++◌, some, none, pos, negsuc, ℤ, ℕ}
use hc.Util.Cstr.{cstr_len, cstr_cmp, get_env, str_to_utf16}
use hc.Util.Cstr.Laws.{cstr_cmp_lem, Compared, get_env_found}

-- "A", "AB", "B"
abbrev text_a : List ℕ
text_a = b'A' ∷ []

abbrev text_ab : List ℕ
text_ab = b'A' ∷ b'B' ∷ []

cstr_runs :
    (cstr_cmp (text_a ++ 0 ∷ []) (text_ab ++ 0 ∷ []) ≡ some (negsuc 65))
    × (cstr_cmp (text_a ++ 0 ∷ 7 ∷ []) (text_a ++ 0 ∷ []) ≡ some (pos 0))
    × (cstr_len text_a ≡ none)
    × (str_to_utf16 text_ab 2 ≡ some text_ab)
unfolding cstr_cmp cstr_len str_to_utf16
cstr_runs = (refl, refl, refl, refl)

cstr_cmp_lem_example :
    (diff : ℤ) × (cstr_cmp (b'A' ∷ 0 ∷ []) (b'A' ∷ b'B' ∷ 0 ∷ []) ≡ some diff)
    × Compared text_a text_ab diff
cstr_cmp_lem_example = cstr_cmp_lem text_a text_ab [] [] (omega arith) (omega arith)

get_env_found_example :
    get_env
      ((b'A' ∷ b'B' ∷ b'=' ∷ b'1' ∷ 0 ∷ []) ∷ (b'A' ∷ b'=' ∷ b'2' ∷ 0 ∷ []) ∷ [])
      (b'A' ∷ 0 ∷ [])
    ≡ some (some (b'2' ∷ 0 ∷ []))
get_env_found_example =
    get_env_found ((b'A' ∷ b'B' ∷ b'=' ∷ b'1' ∷ []) ∷ []) text_a (b'2' ∷ 0 ∷ []) [] [] (omega arith)
      ((omega arith, λ v e. ground arith), tt)
