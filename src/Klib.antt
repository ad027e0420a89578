-- ===== src/Klib.antt =====
-- klib.c: the functions on memory and on strings. Memory is a byte for each address; a loop without
-- a count runs on fuel.
pub mod Copy
pub mod Strings
mod Tests
use scal_ux.Prelude.{
  Option, count, if◌then◌else◌, ltb, none, some, suc, update, zero, ℕ, ◌%◌, ◌+◌, ◌-◌, ◌==◌, ◌>>=◌,
  ◌^◌,
}

abbrev pub Memory : Type 0
Memory = ℕ → ℕ

-- The loop of memcpy from the index `i` on.
unfoldable pub memcpy_from : ℕ → ℕ → ℕ → ℕ → Memory → Memory
memcpy_from zero i dst src m = m
memcpy_from (suc rounds) i dst src m =
    memcpy_from rounds (i + 1) dst src (update m (dst + i) (m (src + i)))

unfoldable pub memcpy : ℕ → ℕ → ℕ → Memory → Memory
memcpy dst src len m = memcpy_from len 0 dst src m

-- Upwards, with both pointers advanced.
unfoldable pub copy_up : ℕ → ℕ → ℕ → Memory → Memory
copy_up zero t f m = m
copy_up (suc n) t f m = copy_up n (t + 1) (f + 1) (update m t (m f))

-- Downwards: with `n` bytes left the pointers are `n` above those of the call.
unfoldable pub copy_down : ℕ → ℕ → ℕ → Memory → Memory
copy_down zero t f m = m
copy_down (suc n) t f m = copy_down n t f (update m (t + n) (m (f + n)))

unfoldable pub memmove : ℕ → ℕ → ℕ → Memory → Memory
memmove dst src n m = if ltb src dst then copy_down n dst src m else copy_up n dst src m

unfoldable pub memset : ℕ → ℕ → ℕ → Memory → Memory
memset b c zero m = m
memset b c (suc len) m = memset (b + 1) c len (update m b (c % 256))

-- An `int` as 32 bits.
abbrev pub minus_one : ℕ
minus_one = 2 ^ 32 - 1

unfoldable pub memcmp : ℕ → ℕ → ℕ → Memory → ℕ
memcmp c1 c2 zero m = 0
memcmp c1 c2 (suc count) m =
    let rest = memcmp (c1 + 1) (c2 + 1) count m in
    if m c1 == m c2 then rest else if ltb (m c1) (m c2) then minus_one else 1

-- The address of the byte 0 at which the loop of strlen ends.
unfoldable pub strlen_end : ℕ → ℕ → Memory → Option ℕ
strlen_end zero s m = none
strlen_end (suc fuel) s m =
    let rest = strlen_end fuel (s + 1) m in if m s == 0 then some s else rest

unfoldable pub strlen : ℕ → ℕ → Memory → Option ℕ
strlen fuel str m = do s ← strlen_end fuel str m; some (s - str)

-- Returns the pointer that the loop has advanced.
unfoldable pub strcpy : ℕ → ℕ → ℕ → Memory → Option (ℕ × Memory)
strcpy zero dst src m = none
strcpy (suc fuel) dst src m =
    let rest = strcpy fuel (dst + 1) (src + 1) (update m dst (m src)) in
    if m src == 0 then some (dst + 1, update m dst (m src)) else rest

unfoldable pub strcmp : ℕ → ℕ → ℕ → Memory → Option ℕ
strcmp zero s1 s2 m = none
strcmp (suc fuel) s1 s2 m =
    let rest = strcmp fuel (s1 + 1) (s2 + 1) m in
    if m s1 == m s2
    then if m s1 == 0 then some 0 else rest
    else some ((m s1 + 2 ^ 32 - m s2) % 2 ^ 32)
