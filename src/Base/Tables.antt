-- ===== src/Base/Tables.antt =====
-- A test that passes for every number below a bound is settled by running it.
use Prim.Native.Nat.{ℕ, zero, suc, ◌<◌}
use mathlib.Core.Path.{◌≡◌}
use mathlib.Core.Bool.{Bool, true, ◌&&◌}
use native.Mathlib.Omega.{arith}

module _ (test : ℕ → Bool) where
  unfoldable pub passes_to : ℕ → Bool
  passes_to zero = true
  passes_to (suc last) = passes_to last && test last

  pub passes_to-test : (bound c : ℕ) → c < bound → passes_to bound ≡ true → test c ≡ true
  unfolding passes_to
  passes_to-test zero c below run = elim below [ ]
  passes_to-test (suc last) c below run = ground (arith, run, passes_to-test last c)
