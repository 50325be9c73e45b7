-- ===== src/Base/Table.antt =====
-- Tests of every number below a bound, settled by running them.
use Prim.Native.Nat.{ℕ, zero, suc, ◌<◌}
use mathlib.Core.Path.{◌≡◌}
use mathlib.Core.Bool.{Bool, true, ◌&&◌}
use native.Mathlib.Omega.{arith}

-- The test at `bound - 1`, then at the numbers before it.
unfoldable pub table : ℕ → (ℕ → Bool) → Bool
table zero test = true
table (suc last) test = let before = table last test in test last && before

pub table-row :
    (bound : ℕ) (test : ℕ → Bool) (i : ℕ) → table bound test ≡ true → i < bound → test i ≡ true
unfolding table
table-row (suc last) test i passed below = let row = table-row last test i in ground arith
table-row zero test i passed below = absurd (omega arith)
