-- ===== src/Kmem/Sizes.antt =====
-- kmem_slab.c: the zones of kmem_alloc, the zone for a size, and the geometry of slabs. `& ~(a - 1)`
-- at a power of two `a` clears the low digits, that is, it takes the remainder by `a` away.
use Prim.Native.Nat.add
use scal_ux.Prelude.{
  ==_iff, Bool-cases, List, Option, [], ap, arith, false, first_failure, if◌then◌else◌, inl, inr,
  leb, ltb, none, refl, some, suc, table_passes, zero, ℕ, ◌%◌, ◌*◌, ◌+◌, ◌-◌, ◌/◌, ◌<◌, ◌==◌, ◌∷◌,
  ◌≡◌, ◌≤◌,
}

-- PGSIZE, kSmallSlabMax and sizeof(struct kmem_slab).
abbrev pub page_size : ℕ
page_size = 4096

abbrev pub small_slab_max : ℕ
small_slab_max = 256

abbrev pub slab_header_size : ℕ
slab_header_size = 32

abbrev pub round_up : ℕ → ℕ → ℕ
round_up addr align = addr + align - 1 - (addr + align - 1) % align

abbrev pub round_down : ℕ → ℕ → ℕ
round_down addr align = addr - addr % align

-- ZONE_SIZES
abbrev pub zone_sizes : List ℕ
zone_sizes =
    8 ∷ 16 ∷ 24 ∷ 32 ∷ 40 ∷ 48 ∷ 56 ∷ 64 ∷ 80 ∷ 96 ∷ 112 ∷ 128 ∷ 160 ∷ 192 ∷ 224 ∷ 256 ∷ 320 ∷ 384
    ∷ 448 ∷ 512 ∷ 640 ∷ 768 ∷ 896 ∷ 1024 ∷ 1280 ∷ 1536 ∷ 1792 ∷ 2048 ∷ 2560 ∷ 3072 ∷ 3584 ∷ 4096
    ∷ []

-- The object size of the zone kmem_alloc_zones[i].
abbrev pub get_or : List ℕ → ℕ → ℕ → ℕ
get_or [] i d = d
get_or (x ∷ xs) zero d = x
get_or (x ∷ xs) (suc i) d = get_or xs i d

unfoldable pub zone_size : ℕ → ℕ
zone_size i = get_or zone_sizes i 0

-- `none` is -1: vm_kalloc serves the request.
unfoldable pub zonenum : ℕ → Option ℕ
zonenum size =
    if leb size 64
    then some (round_up size 8 / 8 - 1)
    else if leb size 128
    then some (round_up (size - 64) 16 / 16 + 7)
    else if leb size 256
    then some (round_up (size - 128) 32 / 32 + 11)
    else if leb size 512
    then some (round_up (size - 256) 64 / 64 + 15)
    else if leb size 1024
    then some (round_up (size - 512) 128 / 128 + 19)
    else if leb size 2048
    then some (round_up (size - 1024) 256 / 256 + 23)
    else if leb size 4096
    then some (round_up (size - 2048) 512 / 512 + 27)
    else none

abbrev pub pg_round_up : ℕ → ℕ
pg_round_up addr = round_up addr page_size

unfoldable pub slabsize : ℕ → ℕ
slabsize size = if leb size small_slab_max then page_size else pg_round_up (size * 16)

unfoldable pub slabcapacity : ℕ → ℕ
unfolding slabsize
slabcapacity size =
    if leb size small_slab_max
    then (slabsize size - slab_header_size) / size
    else slabsize size / size

-- The table in steps that double with each octave.
stepped : ℕ → ℕ
stepped i =
    if ltb i 8
    then 8 * (i + 1)
    else if ltb i 12
    then 64 + 16 * (i - 7)
    else if ltb i 16
    then 128 + 32 * (i - 11)
    else if ltb i 20
    then 256 + 64 * (i - 15)
    else if ltb i 24
    then 512 + 128 * (i - 19)
    else if ltb i 28
    then 1024 + 256 * (i - 23)
    else 2048 + 512 * (i - 27)

stepped_table : first_failure (λ i. zone_size i == stepped i) 32 ≡ false
unfolding first_failure zone_size stepped
stepped_table = refl

zone_size-stepped : (i : ℕ) → i < 32 → zone_size i ≡ stepped i
zone_size-stepped i h =
    (==_iff _ _).0 (table_passes (λ k. zone_size k == stepped k) 32 i h stepped_table)

abbrev zone_index : ℕ → ℕ
zone_index size =
    if leb size 64
    then round_up size 8 / 8 - 1
    else if leb size 128
    then round_up (size - 64) 16 / 16 + 7
    else if leb size 256
    then round_up (size - 128) 32 / 32 + 11
    else if leb size 512
    then round_up (size - 256) 64 / 64 + 15
    else if leb size 1024
    then round_up (size - 512) 128 / 128 + 19
    else if leb size 2048
    then round_up (size - 1024) 256 / 256 + 23
    else round_up (size - 2048) 512 / 512 + 27

zonenum-zone_index : (size : ℕ) → size ≤ 4096 → zonenum size ≡ some (zone_index size)
unfolding zonenum
zonenum-zone_index size h = ground arith

zone_index_fits :
    (size : ℕ)
    → 0 < size
    → size ≤ 4096
    → (zone_index size < 32) × (size ≤ stepped (zone_index size))
unfolding stepped
zone_index_fits size pos top = ground arith

stepped_next : (j : ℕ) → stepped j ≤ stepped (j + 1)
unfolding stepped
stepped_next j = ground arith

stepped_mono : (d j : ℕ) → stepped j ≤ stepped (d + j)
stepped_mono zero j = omega (arith, ap stepped (add.zero j))
stepped_mono (suc d) j =
    let e : suc d + j ≡ d + j + 1 = omega arith in
    omega (arith, stepped_mono d j, stepped_next (d + j), ap stepped e)

previous_below :
    (size : ℕ) → 0 < size → size ≤ 4096 → 0 < zone_index size → stepped (zone_index size - 1) < size
unfolding stepped
previous_below size pos top h = ground arith

stepped_below :
    (size i j : ℕ) → 0 < size → size ≤ 4096 → zone_index size ≡ i → j < i → stepped j < size
stepped_below size i j pos top e h =
    let back : i - 1 - j + j ≡ zone_index size - 1 = omega arith in
    omega (arith, stepped_mono (i - 1 - j) j, ap stepped back, previous_below size pos top)

-- The zone for a size from 1 to 4096, 4096 included, is the first whose objects hold it.
pub zonenum_best_fit :
    (size : ℕ)
    → 0 < size
    → size ≤ 4096
    → (i : ℕ) × (zonenum size ≡ some i)
      × (i < 32)
      × (size ≤ zone_size i)
      × ((j : ℕ) → j < i → zone_size j < size)
zonenum_best_fit size pos top =
    let (low, fits) = zone_index_fits size pos top in
    (
      zone_index size,
      zonenum-zone_index size top,
      low,
      rw (zone_size-stepped (zone_index size) low) fits,
      λ j h.
          rw (zone_size-stepped j (omega arith))
            (stepped_below size (zone_index size) j pos top refl h),
    )

-- Below a quotient there is room for one more, and a product that fits bounds the quotient.
pub room_below_div : (i n d : ℕ) → i < n / d → i * d + d ≤ n
room_below_div i n d h = grind arith

pub le-div : (k n d : ℕ) → 0 < d → k * d ≤ n → k ≤ n / d
le-div k n d pos h = grind arith

-- Every object of a slab lies in its data, and in a small slab in front of the header.
pub slab_geometry :
    (size i : ℕ)
    → 0 < size
    → i < slabcapacity size
    → (size ≤ 256 → i * size + size + slab_header_size ≤ page_size)
      × (i * size + size ≤ slabsize size)
unfolding slabcapacity
slab_geometry size i pos h = elim (Bool-cases (leb size 256)) [
  | inl small ↦
      let r : i * size + size ≤ 4096 - 32 = room_below_div i (4096 - 32) size (ground arith) in
      (λ _. omega (arith, r), ground arith)
  | inr large ↦
      let r : i * size + size ≤ pg_round_up (size * 16) =
        room_below_div i (pg_round_up (size * 16)) size (ground arith) in
      (λ h'. absurd (ground arith), ground arith)
]

pub slabcapacity_pos : (size : ℕ) → 0 < size → 0 < slabcapacity size
unfolding slabcapacity
slabcapacity_pos size pos =
    ground (arith, le-div 1 (4096 - 32) size pos, le-div 16 (pg_round_up (size * 16)) size pos)

pub slabcapacity_large :
    (size : ℕ) → 256 < size → (16 ≤ slabcapacity size) × (slabsize size % page_size ≡ 0)
unfolding slabcapacity
slabcapacity_large size h = ground (arith, le-div 16 (pg_round_up (size * 16)) size)

div-lt : (k n d : ℕ) → n < k * d → n / d < k
div-lt k n d h = grind arith

-- The counter of a slab has room for its capacity.
pub slabcapacity_bound : (size : ℕ) → 0 < size → slabcapacity size < 4096
unfolding slabcapacity slabsize
slabcapacity_bound size pos = elim (Bool-cases (leb size 256)) [
  | inl small ↦ ground (arith, div-lt 4096 (4096 - 32) size (omega arith))
  | inr large ↦
      let b : pg_round_up (size * 16) / size < 32 =
        div-lt 32 (pg_round_up (size * 16)) size (ground arith) in
      ground (arith, b)
]
