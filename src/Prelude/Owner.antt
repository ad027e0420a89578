-- ===== src/Prelude/Owner.antt =====
-- A pointer to a thread, compared with a thread.
use Prim.Native.Nat.{ℕ}
use mathlib.Core.Path.{◌≡◌}
use mathlib.Core.Bool.{Bool, true, false}
use mathlib.Core.Option.{Option, none, some}
use native.Mathlib.Omega.{arith}
use scal_ux.Prelude.Tests.{◌==◌}

abbrev pub owns : ℕ → Option ℕ → Bool
owns t none = false
owns t (some u) = u == t

pub owns_only : (o : Option ℕ) (t u : ℕ) → owns t o ≡ true → (t == u) ≡ false → owns u o ≡ false
owns_only none t u h d = cc
owns_only (some w) t u h d = ground (arith, h, d)
