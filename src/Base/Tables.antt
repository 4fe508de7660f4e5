-- ===== src/Base/Tables.antt =====
-- Facts about all numbers of a small range, by evaluation.
use Prim.Native.Nat.{ℕ, zero, suc, ◌+◌, ◌≤◌, ◌<◌}
use mathlib.Core.Path.{◌≡◌}
use mathlib.Core.Bool.{Bool, true, ◌&&◌}
use mathlib.Core.Logic.{inl, inr}
use native.Mathlib.Omega.{arith}
use oort_agent.Base.Compare.{◌==◌, ==_iff, Bool-cases}

-- The test at `first` and at `more` numbers from there on.
unfoldable pub all_from : (ℕ → Bool) → ℕ → ℕ → Bool
all_from test first zero = true
all_from test first (suc more) = test first && all_from test (first + 1) more

pub all_from_holds :
    (test : ℕ → Bool) (first more x : ℕ)
    → first ≤ x
    → x < first + more
    → all_from test first more ≡ true
    → test x ≡ true
unfolding all_from
all_from_holds test first zero x low high h = absurd (omega arith)
all_from_holds test first (suc more) x low high h = elim (Bool-cases (first == x)) [
  | inl e ↦ rw (← (==_iff first x).0 e) (ground (arith, h))
  | inr e ↦
      all_from_holds test (first + 1) more x (ground (arith, ==_iff first x)) (omega arith)
        (ground (arith, h))
]
