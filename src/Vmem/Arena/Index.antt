-- ===== src/Vmem/Arena/Index.antt =====
-- The freelist index of a size: the position of its highest binary digit.
use scal_ux.Prelude.{ap, arith, refl, suc, word, zero, ℕ, ◌*◌, ◌-◌, ◌/◌, ◌<◌, ◌≡◌, ◌≤◌}
use scal_ux.Vmem.Arena.{bit_length, freelist_index, nfreelists}

bit_length-le : (f n : ℕ) → bit_length f n ≤ f
unfolding bit_length
bit_length-le zero n = omega arith
bit_length-le (suc f) n = ground (arith, bit_length-le f (n / 2))

bit_length-pos : (f n : ℕ) → 0 < f → 0 < n → 0 < bit_length f n
unfolding bit_length
bit_length-pos zero n h p = elim h [ ]
bit_length-pos (suc f) n h p = ground arith

bit_length_mono : (f m n : ℕ) → m ≤ n → bit_length f m ≤ bit_length f n
unfolding bit_length
bit_length_mono zero m n h = omega arith
bit_length_mono (suc f) m n h = ground (arith, bit_length_mono f (m / 2) (n / 2))

-- The powers of two, as `bit_length` halves.
abbrev pub pow2 : ℕ → ℕ
pow2 zero = 1
pow2 (suc n) = 2 * pow2 n

bit_length-zero : (f : ℕ) → bit_length f 0 ≡ 0
unfolding bit_length
bit_length-zero zero = refl
bit_length-zero (suc f) = refl

pow2-half : (f n : ℕ) → n < pow2 (suc f) → n / 2 < pow2 f
pow2-half f n h = omega arith

bit_length_bounds :
    (f n : ℕ) → n < pow2 f → (n < pow2 (bit_length f n)) × (0 < n → pow2 (bit_length f n) ≤ 2 * n)
unfolding bit_length
bit_length_bounds zero n h = (omega arith, λ p. omega arith)
bit_length_bounds (suc f) n h =
    ground (arith, bit_length_bounds f (n / 2), bit_length-zero f, pow2-half f n)

freelist_index_lem : (n : ℕ) → freelist_index n ≡ bit_length 64 n - 1
unfolding freelist_index
freelist_index_lem n = omega (arith, bit_length-le 64 n)

pub freelist_index-lt : (n : ℕ) → freelist_index n < nfreelists
freelist_index-lt n = omega (arith, freelist_index_lem n, bit_length-le 64 n)

pub freelist_index_mono : (m n : ℕ) → m ≤ n → freelist_index m ≤ freelist_index n
freelist_index_mono m n h =
    omega (arith, freelist_index_lem m, freelist_index_lem n, bit_length_mono 64 m n)

pow2-pred : (n : ℕ) → 0 < n → pow2 n ≡ 2 * pow2 (n - 1)
pow2-pred zero h = elim h [ ]
pow2-pred (suc n) h = ap (λ (k : ℕ). 2 * pow2 k) (omega arith)

-- The freelist `n` holds the sizes from 2 ^ n up to 2 ^ (n + 1), the latter not included.
pub freelist_index_bounds :
    (n : ℕ) → 0 < n → n < word → (pow2 (freelist_index n) ≤ n) × (n < 2 * pow2 (freelist_index n))
freelist_index_bounds n p h = ground (
  arith,
  freelist_index_lem n,
  bit_length_bounds 64 n h,
  bit_length-pos 64 n,
  pow2-pred (bit_length 64 n),
)
