-- ===== src/Prelude/Tables.antt =====
-- A statement about the numbers below a bound, checked by evaluation.
use Prim.Native.Nat.{ℕ, zero, suc, ◌<◌}
use mathlib.Core.Path.{◌≡◌}
use mathlib.Core.Bool.{Bool, true, false}
use native.Mathlib.Omega.{arith}

unfoldable pub every : (ℕ → Bool) → ℕ → Bool
every test zero = true
every test (suc bound) = elim (test bound) [ true ↦ every test bound | false ↦ false ]

pub every-apply :
    (test : ℕ → Bool) (bound value : ℕ)
    → value < bound
    → every test bound ≡ true
    → test value ≡ true
unfolding every
every-apply test zero value inside passed = absurd (omega arith)
every-apply test (suc bound) value inside passed = ground (arith, every-apply test bound value)
