-- ===== src/Base/Memory.antt =====
-- Byte memory as a list, read and written by index.
use hc.Base.Names.{
  ℕ, zero, suc, ◌+◌, ◌*◌, ◌/◌, ◌%◌, ◌^◌, ◌<◌, ◌≡◌, ◌≢◌, refl, ap, arith, List, [], ◌∷◌, ◌++◌,
}
use hc.Base.Lists.{length, get_or, set}

-- A byte of a memory; 0 past its end.
abbrev pub byte_at : List ℕ → ℕ → ℕ
byte_at mem i = get_or mem i 0

-- `n` bytes from index `i` on.
abbrev pub window : List ℕ → ℕ → ℕ → List ℕ
window mem i zero = []
window mem i (suc n) = byte_at mem i ∷ window mem (i + 1) n

abbrev pub AllBytes : List ℕ → Type 0
AllBytes [] = Unit {0}
AllBytes (b ∷ bs) = (b < 256) × AllBytes bs

pub byte_at-lt : (mem : List ℕ) (i : ℕ) → AllBytes mem → byte_at mem i < 256
byte_at-lt [] i h = omega arith
byte_at-lt (b ∷ bs) zero h = h.0
byte_at-lt (b ∷ bs) (suc i) h = byte_at-lt bs i h.1

pub byte_at-set_self : (mem : List ℕ) (i v : ℕ) → i < length mem → byte_at (set mem i v) i ≡ v
byte_at-set_self [] i v h = absurd (omega arith)
byte_at-set_self (b ∷ bs) zero v h = refl
byte_at-set_self (b ∷ bs) (suc i) v h = byte_at-set_self bs i v (omega arith)

pub byte_at-set_ne : (mem : List ℕ) (i j v : ℕ) → i ≢ j → byte_at (set mem i v) j ≡ byte_at mem j
byte_at-set_ne [] i j v h = refl
byte_at-set_ne (b ∷ bs) zero zero v h = absurd (h refl)
byte_at-set_ne (b ∷ bs) zero (suc j) v h = refl
byte_at-set_ne (b ∷ bs) (suc i) zero v h = refl
byte_at-set_ne (b ∷ bs) (suc i) (suc j) v h = byte_at-set_ne bs i j v (λ e. h (ap suc e))

-- A `uint32_t` copied out of memory, on the little-endian machines that the code runs on.
abbrev pub word_at : List ℕ → ℕ → ℕ
word_at mem i =
    byte_at mem i
    + byte_at mem (i + 1) * 2 ^ 8
    + byte_at mem (i + 2) * 2 ^ 16
    + byte_at mem (i + 3) * 2 ^ 24

-- The bytes of a `uint32_t` in memory, and `hc_BSWAP32`.
abbrev pub word_bytes : ℕ → List ℕ
word_bytes w = w % 256 ∷ w / 2 ^ 8 % 256 ∷ w / 2 ^ 16 % 256 ∷ w / 2 ^ 24 % 256 ∷ []

abbrev pub bswap32 : ℕ → ℕ
bswap32 w =
    w % 256 * 2 ^ 24 + w / 2 ^ 8 % 256 * 2 ^ 16 + w / 2 ^ 16 % 256 * 2 ^ 8 + w / 2 ^ 24 % 256

abbrev pub bswap16 : ℕ → ℕ
bswap16 w = w % 256 * 2 ^ 8 + w / 2 ^ 8 % 256

pub byte_at-append :
    (mem rest : List ℕ) (i : ℕ) → i < length mem → byte_at (mem ++ rest) i ≡ byte_at mem i
byte_at-append [] rest i h = absurd (omega arith)
byte_at-append (b ∷ bs) rest zero h = refl
byte_at-append (b ∷ bs) rest (suc i) h = byte_at-append bs rest i (omega arith)
