-- ===== src/Telnet/Saved.antt =====
-- router/router/telnetServer.c: the array `saved`. An unfinished command stands at its end, behind
-- zero bytes; the first byte of a command is never zero.
use hc.Base.{
  ℕ, zero, suc, ◌-◌, ◌≤◌, ◌==◌, ◌≡◌, ◌≢◌, refl, arith, if◌then◌else◌, List, [], ◌∷◌, ◌++◌, length,
  replicate, take, ap, ◌∙◌, length-append, length-replicate,
}

-- The `hc_MEMCPY` of `_telnetServer_getByteOrSave`; nothing is saved if nothing is pending.
unfoldable pub put_saved : List ℕ → List ℕ → List ℕ
put_saved saved pending = take (length saved - length pending) saved ++ pending

-- The loop of `telnetServer_onClientFd` over the array: from its first byte that is not zero on.
unfoldable pub take_saved : List ℕ → List ℕ
take_saved [] = []
take_saved (c ∷ saved) = if c == 0 then take_saved saved else c ∷ saved

-- What the loop leaves: the bytes before that one are zero, the `hc_MEMSET` clears the others.
unfoldable pub clear_saved : List ℕ → List ℕ
clear_saved saved = replicate (length saved) 0

take_zeros : (m n : ℕ) → n ≤ m → take {A = ℕ} n (replicate m 0) ≡ replicate n 0
take_zeros m zero h = refl
take_zeros zero (suc n) h = absurd (omega arith)
take_zeros (suc m) (suc n) h = ap (◌∷◌ 0) (take_zeros m n (omega arith))

take_saved-zeros :
    (n : ℕ) (pending : List ℕ) → take_saved (replicate n 0 ++ pending) ≡ take_saved pending
unfolding take_saved
take_saved-zeros zero pending = refl
take_saved-zeros (suc n) pending = take_saved-zeros n pending

-- A command that is pending: nothing, or bytes that begin with one that is not zero.
abbrev pub IsPending : List ℕ → Type 0
IsPending [] = Unit {0}
IsPending (c ∷ cs) = c ≢ 0

take_saved-pending : (pending : List ℕ) → IsPending pending → take_saved pending ≡ pending
unfolding take_saved
take_saved-pending [] h = refl
take_saved-pending (c ∷ cs) h = ground arith

-- A pending command that fits is found again after the array has been cleared, and the array keeps
-- its size.
pub take_saved-put_saved :
    (saved pending : List ℕ)
    → length pending ≤ length saved
    → IsPending pending
    → (take_saved (put_saved (clear_saved saved) pending) ≡ pending)
      × (length (put_saved (clear_saved saved) pending) ≡ length saved)
unfolding put_saved clear_saved
take_saved-put_saved saved pending fits h =
    let e : take {A = ℕ} (length (replicate {A = ℕ} (length saved) 0) - length pending)
          (replicate (length saved) 0)
        ≡ replicate (length saved - length pending) 0 =
      rw (length-replicate {A = ℕ} (length saved) 0)
        (take_zeros (length saved) (length saved - length pending) (omega arith)) in
    rw e (
      take_saved-zeros (length saved - length pending) pending ∙ take_saved-pending pending h,
      length-append (replicate (length saved - length pending) 0) pending
          ∙ omega (arith, length-replicate {A = ℕ} (length saved - length pending) 0),
    )
