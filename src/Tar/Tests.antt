-- ===== src/Tar/Tests.antt =====
-- Runs and the theorems at concrete names.
use hc.Base.{some, ℕ, ◌≡◌, ◌≢◌, ◌≤◌, refl, arith, List, [], ◌∷◌, length, ltb}
use hc.Tar.Names.{sort_names}
use hc.Tar.Names.Order.{IsOrdered, count, sort_names_lem}
use hc.Tar.Prefix.{
  prefix_size, enter_directory, leave_directory, is_dot_dot, validate_from, validate_name,
}
use hc.Tar.Prefix.Laws.{Starts, validate_name_lem, leave_directory-enter_directory}

abbrev names : List (List ℕ)
names = (b'b' ∷ []) ∷ (b'a' ∷ b'c' ∷ []) ∷ (b'a' ∷ []) ∷ []

sort_names_lem_example :
    IsOrdered (sort_names names) × (count (λ name. ltb 1 (length name)) (sort_names names) ≡ 1)
sort_names_lem_example = sort_names_lem names (λ name. ltb 1 (length name)) (ground arith)

validate_name_lem_example :
    (2 ≤ 100) × (s : Starts (b'a' ∷ b'b' ∷ 0 ∷ 7 ∷ []) 2) × (s.text ≢ b'.' ∷ b'.' ∷ [])
unfolding validate_name validate_from is_dot_dot
validate_name_lem_example = validate_name_lem (b'a' ∷ b'b' ∷ 0 ∷ 7 ∷ []) 100 2 refl

-- The prefix a/bc, the last byte first.
abbrev entered : List ℕ
entered = b'c' ∷ b'b' ∷ b'/' ∷ b'a' ∷ []

leave_directory-enter_directory_example :
    (leave_directory entered ≡ some (b'a' ∷ [])) × (length entered ≤ prefix_size)
unfolding enter_directory
leave_directory-enter_directory_example =
    leave_directory-enter_directory (b'a' ∷ []) (b'b' ∷ b'c' ∷ []) refl (ground arith) (omega arith)
      (omega arith)
