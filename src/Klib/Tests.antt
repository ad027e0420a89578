-- ===== src/Klib/Tests.antt =====
-- A few bytes, copied over themselves, compared and measured.
use scal_ux.Prelude.{arith, if◌then◌else◌, inr, refl, some, ℕ, ◌+◌, ◌==◌, ◌≡◌}
use scal_ux.Klib.{Memory, memcmp, memcpy, memmove, strcmp, strcpy, strlen}
use scal_ux.Klib.Copy.{memcpy-memmove, memmove-moved, moved}
use scal_ux.Klib.Strings.{
  Compared, IsString, StringsCompared, memcmp-Compared, strcmp-StringsCompared, strcpy_lem,
  strlen_lem,
}

-- "abc" at 16, with its 0, and nothing else.
abbrev letters : Memory
letters x = if x == 16 then 97 else if x == 17 then 98 else if x == 18 then 99 else 0

letters-IsString : IsString 16 3 letters
letters-IsString = record { not_zero = λ k low e. ground arith; ends = refl }

-- Upwards over itself by two bytes.
memmove-moved_example : memmove 18 16 3 letters 20 ≡ moved 18 16 3 letters 20
memmove-moved_example = memmove-moved 18 16 3 letters 20

memcpy-memmove_example : memcpy 32 16 4 letters 34 ≡ memmove 32 16 4 letters 34
memcpy-memmove_example = memcpy-memmove 32 16 4 letters 34 (inr (omega arith))

strlen_lem_example : strlen 10 16 letters ≡ some 3
strlen_lem_example = strlen_lem 10 16 3 letters letters-IsString (omega arith)

memcmp-Compared_example : Compared 16 17 2 letters (memcmp 16 17 2 letters)
memcmp-Compared_example = memcmp-Compared 2 16 17 letters

strcpy_lem_example :
    (t : Memory) × (strcpy 10 32 16 letters ≡ some (32 + 3 + 1, t))
    × ((x : ℕ) → t x ≡ moved 32 16 (3 + 1) letters x)
strcpy_lem_example =
    strcpy_lem 3 10 32 16 letters letters-IsString (inr (omega arith)) (omega arith)

strcmp-StringsCompared_example :
    (r : ℕ) × (strcmp 10 16 17 letters ≡ some r) × StringsCompared 16 17 3 letters r
strcmp-StringsCompared_example =
    strcmp-StringsCompared 3 10 16 17 letters letters-IsString (omega arith)
