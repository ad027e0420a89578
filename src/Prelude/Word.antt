-- ===== src/Prelude/Word.antt =====
-- 64-bit words: sums, differences and products that wrap around.
use mathlib.Core.Bool.{Bool}
use scal_ux.Prelude.Tests.{leb}
use Prim.Native.Nat.{ℕ, ◌+◌, ◌-◌, ◌*◌, ◌%◌, ◌^◌}

abbrev pub word : ℕ
word = 2 ^ 64

abbrev pub add64 : ℕ → ℕ → ℕ
add64 a b = (a + b) % word

abbrev pub sub64 : ℕ → ℕ → ℕ
sub64 a b = (a + word - b) % word

abbrev pub mul64 : ℕ → ℕ → ℕ
mul64 a b = a * b % word

-- The bit pattern of an `int` that is made from a 64-bit word, and its sign.
abbrev pub int32 : ℕ → ℕ
int32 n = n % 2 ^ 32

abbrev pub is_negative : ℕ → Bool
is_negative n = leb (2 ^ 31) n
