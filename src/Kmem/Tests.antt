-- ===== src/Kmem/Tests.antt =====
-- A zone of small objects and one of large objects, with an object taken and given back.
use scal_ux.Kmem.Alloc.{
  from_zone, kmem_alloc, kmem_init, kmem_strfree, kmem_vasprintf, kmem_zone_init, to_zone,
}
use scal_ux.Kmem.Zone.Freelist.{Chained, Slabs, free_count}
use scal_ux.Prelude.{
  List, Option, [], arith, if◌then◌else◌, none, refl, some, update, ℕ, ◌*◌, ◌+◌, ◌<◌, ◌==◌, ◌∷◌,
  ◌≡◌, ◌≤◌,
}
use scal_ux.Kmem.Zone.Take.{Taken, kmem_zonealloc-Taken}
use scal_ux.Kmem.Zone.Return.{Returned, in_large, kmem_zonefree-Returned}
use scal_ux.Kmem.Alloc.Correct.{Zones, kmem_alloc-Taken, kmem_init-Zones, kmem_strfree_zone}
use scal_ux.Kmem.Sizes.{
  page_size, slab_geometry, slab_header_size, slabcapacity, slabsize, zone_size, zonenum,
  zonenum_best_fit,
}
use scal_ux.Kmem.Zone.{Supply, Zone, kmem_zonealloc, kmem_zonefree, with_slab}
use scal_ux.Kmem.Zone.Stock.{Free, Fresh, new_entry, stock}

abbrev kalloc : ℕ → Unit {0} → Option (ℕ × Unit {0})
kalloc pages s = some (0x100000, s)

abbrev kfree : ℕ → ℕ → Unit {0} → Option (Unit {0})
kfree ptr pages s = some s

abbrev supply : Supply
supply = record { pages = 0x10000; header = 0x500; entry = λ i. 0x2000 + 32 * i }

-- A large zone with one slab, in which the object at 0x20000 is allocated and one more is free.
abbrev blocks : Zone
blocks = record {
  size = 2048;
  slablist = record { header = 0x400; data_base = 0x20000; nfree = 1; firstfree = some 0x120 } ∷ [];
  bufctllist = 0x100 ∷ [];
  sle_next = λ i. none;
  slab = λ i. 0x400;
  base = λ i. if i == 0x100 then 0x20000 else 0x20800;
}

blocks-Free : Free blocks ((0x120 ∷ []) ∷ [])
unfolding Slabs Chained free_count
blocks-Free = record { listed = ((refl, refl), refl, tt); once = λ i. ground arith }

supply-Fresh : Fresh supply blocks ((0x120 ∷ []) ∷ [])
unfolding new_entry free_count
supply-Fresh = record { distinct = λ j k lt top e. omega arith; unused = λ k lt. ground arith }

zonenum_best_fit_example :
    (i : ℕ) × (zonenum 100 ≡ some i)
    × (i < 32)
    × (100 ≤ zone_size i)
    × ((j : ℕ) → j < i → zone_size j < 100)
zonenum_best_fit_example = zonenum_best_fit 100 (omega arith) (omega arith)

slab_geometry_example :
    (256 ≤ 256 → 14 * 256 + 256 + slab_header_size ≤ page_size) × (14 * 256 + 256 ≤ slabsize 256)
unfolding slabcapacity slabsize
slab_geometry_example = slab_geometry 256 14 (omega arith) (omega arith)

kmem_zonealloc-Taken_example :
    (e ptr : ℕ) × (t : Zone) × (kmem_zonealloc supply blocks ≡ some (ptr, t))
    × Taken (with_slab supply blocks) (stock supply blocks ((0x120 ∷ []) ∷ [])) e ptr t
kmem_zonealloc-Taken_example =
    kmem_zonealloc-Taken supply blocks ((0x120 ∷ []) ∷ []) (omega arith) blocks-Free supply-Fresh

kmem_zonefree-Returned_example :
    (t : Zone) × (kmem_zonefree 0x20000 blocks ≡ some t)
    × Returned blocks ((0x120 ∷ []) ∷ []) 0x100 t
kmem_zonefree-Returned_example =
    kmem_zonefree-Returned blocks ((0x120 ∷ []) ∷ []) 0x20000 0x100 blocks-Free (in_large refl refl)
      refl

kmem_strfree_zone_example :
    (kmem_vasprintf kalloc supply (zone_size 0) (kmem_init tt)
      ≡ from_zone kalloc supply (zone_size 0 + 1) (some (0 + 1)) (kmem_init tt))
    × (kmem_strfree kfree 0x10000 (zone_size 0) (kmem_init tt)
        ≡ to_zone kfree 0x10000 (zone_size 0) (some 0) (kmem_init tt))
kmem_strfree_zone_example =
    kmem_strfree_zone kalloc kfree supply 0 0x10000 (kmem_init tt) (omega arith)

kmem_init-Fresh : (i : ℕ) → Fresh supply ((kmem_init tt).zones i) []
unfolding kmem_init kmem_zone_init free_count
kmem_init-Fresh i = record { distinct = λ j k lt top e. omega arith; unused = λ k lt. omega arith }

kmem_alloc-Taken_example :
    (i e ptr : ℕ) × (t : Zone) × (left : List (List ℕ)) × (kmem_alloc kalloc supply 2000
        (kmem_init tt)
      ≡ some (ptr, record (kmem_init tt) { zones = update (kmem_init tt).zones i t }))
    × (2000 ≤ t.size)
    × ((j : ℕ) → j < i → zone_size j < 2000)
    × Taken
        (with_slab supply ((kmem_init tt).zones i))
        (stock supply ((kmem_init tt).zones i) [])
        e
        ptr
        t
    × Zones
        (update (λ _. []) i left)
        (record (kmem_init tt) { zones = update (kmem_init tt).zones i t })
kmem_alloc-Taken_example =
    kmem_alloc-Taken kalloc supply 2000 (λ _. []) (kmem_init tt) (omega arith) (omega arith)
      (kmem_init-Zones tt) kmem_init-Fresh
