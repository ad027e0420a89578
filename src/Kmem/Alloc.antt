-- ===== src/Kmem/Alloc.antt =====
-- kmem_slab.c: kmem_init, kmem_alloc and kmem_free over the zones, and the strings that
-- kmem_vasprintf allocates and kmem_strfree frees. The page allocator (vm_kalloc, vm_kfree, with a
-- number of pages) is an argument.
pub mod Correct
use scal_ux.Prelude.{Option, [], assert, ltb, none, some, update, ℕ, ◌+◌, ◌/◌, ◌>>=◌, ◌>>◌}
use scal_ux.Kmem.Zone.{Supply, Zone, kmem_zonealloc, kmem_zonefree}
use scal_ux.Kmem.Sizes.{page_size, pg_round_up, zone_size, zonenum}

-- kmem_alloc_zones, and the state of the page allocator.
pub record Heap (S : Type 0) : Type 0 where
  pub zones : ℕ → Zone
  pub vm : S

unfoldable pub kmem_zone_init : ℕ → Zone
kmem_zone_init size = record {
  size = size;
  slablist = [];
  bufctllist = [];
  sle_next = λ _. none;
  slab = λ _. 0;
  base = λ _. 0;
}

unfoldable pub kmem_init : {S : Type 0} → S → Heap S
kmem_init vm = record { zones = λ i. kmem_zone_init (zone_size i); vm = vm }

unfoldable pub from_zone :
    {S : Type 0} → (ℕ → S → Option (ℕ × S)) → Supply → ℕ → Option ℕ → Heap S → Option (ℕ × Heap S)
from_zone vm_kalloc supply size none h = do
  (ptr, vm) ← vm_kalloc (pg_round_up size / page_size) h.vm
  some (ptr, record h { vm = vm })
from_zone vm_kalloc supply size (some i) h = do
  (ptr, z) ← kmem_zonealloc supply (h.zones i)
  some (ptr, record h { zones = update h.zones i z })

unfoldable pub kmem_alloc :
    {S : Type 0} → (ℕ → S → Option (ℕ × S)) → Supply → ℕ → Heap S → Option (ℕ × Heap S)
kmem_alloc vm_kalloc supply size h = do
  assert (ltb 0 size)
  from_zone vm_kalloc supply size (zonenum size) h

unfoldable pub to_zone :
    {S : Type 0} → (ℕ → ℕ → S → Option S) → ℕ → ℕ → Option ℕ → Heap S → Option (Heap S)
to_zone vm_kfree ptr size none h = do
  vm ← vm_kfree ptr (pg_round_up size / page_size) h.vm
  some (record h { vm = vm })
to_zone vm_kfree ptr size (some i) h = do
  z ← kmem_zonefree ptr (h.zones i)
  some (record h { zones = update h.zones i z })

unfoldable pub kmem_free : {S : Type 0} → (ℕ → ℕ → S → Option S) → ℕ → ℕ → Heap S → Option (Heap S)
kmem_free vm_kfree ptr size h = do assert (ltb 0 size); to_zone vm_kfree ptr size (zonenum size) h

-- A string of `len` characters; the characters themselves are npf_vsnprintf's.
unfoldable pub kmem_vasprintf :
    {S : Type 0} → (ℕ → S → Option (ℕ × S)) → Supply → ℕ → Heap S → Option (ℕ × Heap S)
kmem_vasprintf vm_kalloc supply len h = kmem_alloc vm_kalloc supply (len + 1) h

unfoldable pub kmem_strfree :
    {S : Type 0} → (ℕ → ℕ → S → Option S) → ℕ → ℕ → Heap S → Option (Heap S)
kmem_strfree vm_kfree str len h = kmem_free vm_kfree str len h
