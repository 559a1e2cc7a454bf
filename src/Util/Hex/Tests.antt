-- ===== src/Util/Hex/Tests.antt =====
-- Runs of the hexadecimal functions, and the theorems at concrete inputs.
use hc.Base.{◌≡◌, refl, arith, List, [], ◌∷◌, ◌++◌, ℕ, inl, inr, length, ◌≤◌}
use hc.Util.Decimal.{stored, nothing}
use hc.Util.Hex.{uint_to_hex, hex_to_uint}
use hc.Util.Hex.Laws.{hex_to_uint_lem, hex_to_uint-uint_to_hex}

hex_runs :
    (uint_to_hex [] 0x1a2 ≡ b'0' ∷ b'1' ∷ b'A' ∷ b'2' ∷ [])
    × (hex_to_uint (b'f' ∷ b'F' ∷ b' ' ∷ []) 8 ≡ stored 2 255)
    × (hex_to_uint (b'g' ∷ []) 8 ≡ nothing)
unfolding uint_to_hex hex_to_uint
hex_runs = (refl, refl, refl)

hex_to_uint_lem_example : hex_to_uint (b'1' ∷ b'a' ∷ b'F' ∷ []) 3 ≡ stored 3 0x1af
hex_to_uint_lem_example =
    hex_to_uint_lem (b'1' ∷ b'a' ∷ b'F' ∷ []) [] 3
      (inl (omega arith), (inr (inr (omega arith)), (inr (inl (omega arith)), tt))) (omega arith)
      (omega arith)

hex_to_uint-uint_to_hex_example :
    (text : List ℕ) × (uint_to_hex (0 ∷ []) 0x1a2 ≡ text ++ 0 ∷ [])
    × (length text ≤ 16)
    × (hex_to_uint (uint_to_hex (0 ∷ []) 0x1a2) 16 ≡ stored (length text) 0x1a2)
hex_to_uint-uint_to_hex_example =
    hex_to_uint-uint_to_hex 0x1a2 16 0 [] (omega arith) (omega arith) (ground arith) (omega arith)
