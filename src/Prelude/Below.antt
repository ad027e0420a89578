-- ===== src/Prelude/Below.antt =====
-- A finite range checked value by value, from the top down.
use Prim.Native.Nat.{ℕ, zero, suc, ◌<◌}
use mathlib.Core.Path.{◌≡◌, ap, ◌∙◌}
use mathlib.Core.Bool.{Bool, true, false}
use mathlib.Core.Logic.{inl, inr}
use native.Mathlib.Omega.{arith}
use scal_ux.Prelude.Tests.{Bool-cases, ==_iff, ◌==◌, if◌then◌else◌}

unfoldable pub first_failure : (ℕ → Bool) → ℕ → Bool
first_failure test zero = false
first_failure test (suc top) =
    let below = first_failure test top in if test top then below else true

-- Where the table has no failure, each of its values passes.
pub table_passes :
    (test : ℕ → Bool) (top i : ℕ) → i < top → first_failure test top ≡ false → test i ≡ true
unfolding first_failure
table_passes test zero i low clean = absurd (omega arith)
table_passes test (suc top) i low clean = elim (Bool-cases (i == top)) [
  | inl last ↦ ap test ((==_iff i top).0 last) ∙ ground (arith, clean)
  | inr other ↦ table_passes test top i (ground arith) (ground (arith, clean))
]
