-- ===== src/Dhcp/Options/Stale.antt =====
-- The walks read the length byte of an option before they know that it was received. What they
-- find does not depend on it.
use hc.Base.{ℕ, zero, suc, ◌+◌, ◌<◌, ◌≡◌, refl, arith, List, byte_at, dec_lt}
use hc.Dhcp.Options.{Found, nothing_found, next_option, note_option, find_options}

-- Two buffers hold the same received bytes.
abbrev pub SameUpTo : ℕ → List ℕ → List ℕ → Type 0
SameUpTo limit a b = (i : ℕ) → i < limit → byte_at a i ≡ byte_at b i

module _ (a b : List ℕ) (limit : ℕ) (same : SameUpTo limit a b) where
  find_options-stale :
      (fuel current : ℕ) (f : Found)
      → find_options fuel a limit current f ≡ find_options fuel b limit current f
  unfolding find_options
  find_options-stale zero current f = refl
  find_options-stale (suc fuel) current f = elim (dec_lt (current + 1) limit) [
    | yes h ↦
        rw
          (
            same current (omega arith),
            same (current + 1) h,
            find_options-stale fuel (next_option b current)
                (note_option current (byte_at b current) (byte_at b (current + 1)) f),
          )
          refl
    | no h ↦ ground arith
  ]

-- The client reads the length byte of an option before it knows that the byte was received. Two
-- buffers that agree on the received bytes give the same pointers, whatever older bytes stand
-- behind those.
pub find_options_stale :
    (fuel start : ℕ) (a b : List ℕ) (limit : ℕ)
    → SameUpTo limit a b
    → find_options fuel a limit start nothing_found ≡ find_options fuel b limit start nothing_found
find_options_stale fuel start a b limit same =
    find_options-stale a b limit same fuel start nothing_found
