-- ===== src/Base/Int.antt =====
-- Signed integers over the native numbers, and the 64-bit words that stand for them.
use hc.Base.Names.{ℕ, suc, ◌-◌, ◌^◌, ◌<◌}
use hc.Base.Tests.{ltb, leb, if◌then◌else◌}

-- `negsuc n` is -(n + 1).
pub data ℤ : Type 0 where
  pos : ℕ → ℤ
  negsuc : ℕ → ℤ

-- a - b, as an integer: the difference of two `char`s, which are unsigned here.
abbrev pub sub_ℕ : ℕ → ℕ → ℤ
sub_ℕ a b = if leb b a then pos (a - b) else negsuc (b - a - 1)

-- The `int64_t` that a 64-bit word stands for.
abbrev pub signed64 : ℕ → ℤ
signed64 w = if ltb w (2 ^ 63) then pos w else negsuc (2 ^ 64 - w - 1)

-- The word of an `int64_t`, as the cast to `uint64_t` gives it.
abbrev pub word64 : ℤ → ℕ
word64 (pos n) = n
word64 (negsuc n) = 2 ^ 64 - suc n

abbrev pub IsInt64 : ℤ → Type 0
IsInt64 (pos n) = n < 2 ^ 63
IsInt64 (negsuc n) = n < 2 ^ 63
