-- ===== src/Base/Tables.antt =====
-- A Boolean test at every number below a bound, by evaluation.
use hc.Base.Names.{ℕ, zero, suc, ◌<◌, ◌≡◌, Bool, true, ◌&&◌, arith}
use hc.Base.Tests.{◌==◌, ==_iff}

unfoldable pub every_below : (ℕ → Bool) → ℕ → Bool
every_below test zero = true
every_below test (suc n) = every_below test n && test n

pub every_below→true :
    (test : ℕ → Bool) (n x : ℕ) → every_below test n ≡ true → x < n → test x ≡ true
unfolding every_below
every_below→true test zero x h lt = absurd (omega arith)
every_below→true test (suc n) x h lt = ground (arith, every_below→true test n x)

-- Two functions that agree at every number below a bound.
pub agree_below :
    (f g : ℕ → ℕ) (n x : ℕ) → every_below (λ y. f y == g y) n ≡ true → x < n → f x ≡ g x
agree_below f g n x h lt = (==_iff (f x) (g x)).0 (every_below→true (λ y. f y == g y) n x h lt)
