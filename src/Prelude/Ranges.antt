-- ===== src/Prelude/Ranges.antt =====
-- A property of every number of a small range, by evaluation.
use Prim.Native.Nat.{ℕ, zero, suc, ◌+◌, ◌≤◌, ◌<◌}
use mathlib.Core.Path.{◌≡◌, subst}
use mathlib.Core.Bool.{Bool, true, ◌&&◌}
use native.Mathlib.Decide.{ℕ_discrete}
use native.Mathlib.Omega.{arith}

-- The test holds at `lo`, `lo + 1`, …, `lo + n - 1`.
unfoldable pub all_from : ℕ → ℕ → (ℕ → Bool) → Bool
all_from lo zero test = true
all_from lo (suc n) test = test lo && all_from (lo + 1) n test

pub all_from_lem :
    (lo n : ℕ) (test : ℕ → Bool) (x : ℕ)
    → all_from lo n test ≡ true
    → lo ≤ x
    → x < lo + n
    → test x ≡ true
unfolding all_from
all_from_lem lo zero test x h p q = absurd (omega arith)
all_from_lem lo (suc n) test x h p q = elim (ℕ_discrete lo x) [
  | yes e ↦ subst (λ y. test y ≡ true) e (ground arith)
  | no ne ↦ all_from_lem (lo + 1) n test x (ground arith) (omega arith) (omega arith)
]
