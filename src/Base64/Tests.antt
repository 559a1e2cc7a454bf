-- ===== src/Base64/Tests.antt =====
-- Runs of the encoder, and its bound at a concrete memory.
use hc.Base.{◌≡◌, refl, arith, inr, [], ◌∷◌, byte_at}
use hc.Base64.{encode_round, encode_rest, base64_encode}
use hc.Base64.Bounds.{base64_encode-Outside}

-- In place: the input stands at the end.
encodes_in_place :
    base64_encode (0 ∷ 0 ∷ 0 ∷ 0 ∷ b'M' ∷ b'a' ∷ b'n' ∷ b'y' ∷ []) 0 4 4
    ≡ b'T' ∷ b'W' ∷ b'F' ∷ b'u' ∷ b'e' ∷ b'Q' ∷ b'=' ∷ b'=' ∷ []
unfolding base64_encode encode_round encode_rest
encodes_in_place = refl

base64_encode-Outside_example : byte_at (base64_encode (0 ∷ 0 ∷ 0 ∷ 0 ∷ 65 ∷ 7 ∷ []) 0 4 1) 5 ≡ 7
base64_encode-Outside_example =
    base64_encode-Outside 1 (0 ∷ 0 ∷ 0 ∷ 0 ∷ 65 ∷ 7 ∷ []) 0 4 5 (inr (omega arith))
