-- ===== src/Klib/Copy.antt =====
-- klib.c: where the bytes are after memcpy, memmove and memset.
use scal_ux.Prelude.{
  Bool-cases, arith, if◌then◌else◌, inl, inr, leb, ltb, ltb→lt, suc, sym, update, zero, ℕ, ◌%◌,
  ◌&&◌, ◌+◌, ◌-◌, ◌<◌, ◌∙◌, ◌≡◌, ◌≤◌, ◌⊎◌,
}
use scal_ux.Klib.{Memory, copy_down, copy_up, memcpy, memcpy_from, memmove, memset}

-- The byte at `x` once `n` bytes are copied from `src` to `dst`.
abbrev pub moved : ℕ → ℕ → ℕ → Memory → ℕ → ℕ
moved dst src n m x = if leb dst x && ltb x (dst + n) then m (src + (x - dst)) else m x

copy_down-moved : (n t f : ℕ) (m : Memory) (x : ℕ) → f < t → copy_down n t f m x ≡ moved t f n m x
unfolding copy_down
copy_down-moved zero t f m x h = ground arith
copy_down-moved (suc n) t f m x h =
    ground (arith, copy_down-moved n t f (update m (t + n) (m (f + n))) x)

copy_up-moved : (n t f : ℕ) (m : Memory) (x : ℕ) → t ≤ f → copy_up n t f m x ≡ moved t f n m x
unfolding copy_up
copy_up-moved zero t f m x h = ground arith
copy_up-moved (suc n) t f m x h =
    ground (arith, copy_up-moved n (t + 1) (f + 1) (update m t (m f)) x)

-- memmove copies the bytes as they were, also between ranges that overlap, and changes no other.
pub memmove-moved :
    (dst src n : ℕ) (m : Memory) (x : ℕ) → memmove dst src n m x ≡ moved dst src n m x
unfolding memmove
memmove-moved dst src n m x = elim (Bool-cases (ltb src dst)) [
  | inl below ↦ rw below (copy_down-moved n dst src m x (ltb→lt _ _ below))
  | inr above ↦ rw above (copy_up-moved n dst src m x (ground arith))
]

memcpy_from-moved :
    (n i dst src : ℕ) (m : Memory) (x : ℕ)
    → (dst + i + n ≤ src) ⊎ (src + i + n ≤ dst)
    → memcpy_from n i dst src m x ≡ moved (dst + i) (src + i) n m x
unfolding memcpy_from
memcpy_from-moved zero i dst src m x h = ground arith
memcpy_from-moved (suc n) i dst src m x (inl below) = ground (
  arith,
  memcpy_from-moved n (i + 1) dst src (update m (dst + i) (m (src + i))) x (inl (omega arith)),
)
memcpy_from-moved (suc n) i dst src m x (inr above) = ground (
  arith,
  memcpy_from-moved n (i + 1) dst src (update m (dst + i) (m (src + i))) x (inr (omega arith)),
)

-- Between ranges that do not overlap, memcpy does what memmove does.
pub memcpy-memmove :
    (dst src len : ℕ) (m : Memory) (x : ℕ)
    → (dst + len ≤ src) ⊎ (src + len ≤ dst)
    → memcpy dst src len m x ≡ memmove dst src len m x
unfolding memcpy
memcpy-memmove dst src len m x h =
    let r : memcpy_from len 0 dst src m x ≡ moved (dst + 0) (src + 0) len m x =
      memcpy_from-moved len 0 dst src m x (ground (arith, h)) in
    r ∙ ground arith ∙ sym (memmove-moved dst src len m x)

-- memset sets the low byte of its argument in the range, and changes no other.
pub memset_lem :
    (len b c : ℕ) (m : Memory) (x : ℕ)
    → memset b c len m x ≡ (if leb b x && ltb x (b + len) then c % 256 else m x)
unfolding memset
memset_lem zero b c m x = ground arith
memset_lem (suc len) b c m x = ground (arith, memset_lem len (b + 1) c (update m b (c % 256)) x)
