-- ===== src/Kernel.antt =====
-- vm/vm_kernel.c: the kernel's address space, and wired memory as an arena that imports from it.
use scal_ux.Prelude.{
  List, Option, add64, false, if◌then◌else◌, is_negative, mul64, none, some, suc, true, zero, ℕ,
  ◌%◌, ◌*◌, ◌+◌, ◌-◌, ◌/◌, ◌==◌, ◌>>=◌,
}
use scal_ux.Page.{Pages, Region, kmem_queue, page_bytes, vm_page_free, vm_pagealloc}
use scal_ux.Pmap.{pmap_enter_kern, pmap_unenter_kern}
use scal_ux.Vmem.Arena.{Arena, Flags, Result, SegPool, Source, State, err, ok}
use scal_ux.Vmem.Alloc.{vmem_xalloc}
use scal_ux.Vmem.Free.{vmem_xfree}
use scal_ux.Vmem.Init.{vmem_earlyinit, vmem_init}
use scal_ux.Maps.PageFault.{kheap_base}

-- What stands behind the arena of wired memory: the arena of kmap, and the pages with the tables in them.
pub record Behind : Type 0 where
  pub kva : Arena (Unit {0})
  pub pages : Pages

abbrev pub kheap_size : ℕ
kheap_size = 0x100000000

-- kVMAll
abbrev pub all_prot : ℕ
all_prot = 7

abbrev pub kva_state : SegPool → Behind → State (Unit {0})
kva_state pool behind = record { arena = behind.kva; pool = pool; backing = tt }

-- The rounds of the loops over the pages of a size.
abbrev pub alloc_rounds : ℕ → ℕ
alloc_rounds size = (size - 1 + (page_bytes - 1)) / page_bytes

abbrev pub free_rounds : ℕ → ℕ
free_rounds size = (size + (page_bytes - 1)) / page_bytes

-- `pml4` is the table of kmap, `regions` the memory of the machine, and `kalloc` what seg_refill calls while
-- an operation on the arena of kmap is under way.
module _ (pml4 : ℕ) (regions : List Region)
    (kalloc : ℕ → State (Unit {0}) → Option (Option (List ℕ) × State (Unit {0}))) where
  unfoldable pub wire_pages : ℕ → ℕ → Pages → Option Pages
  wire_pages addr zero s = some s
  wire_pages addr (suc n) s = do
    (page, s1) ← vm_pagealloc kmem_queue s
    s2 ← pmap_enter_kern pml4 (page * page_bytes) addr all_prot s1
    wire_pages (add64 addr page_bytes) n s2

  unfoldable pub unwire_pages : ℕ → ℕ → Pages → Option Pages
  unwire_pages addr zero s = some s
  unwire_pages addr (suc n) s = do
    (page, s1) ← pmap_unenter_kern pml4 addr regions s
    s2 ← vm_page_free page s1
    unwire_pages (add64 addr page_bytes) n s2

  -- An allocation that fails is fatal.
  unfoldable pub wire : ℕ → Result × State (Unit {0}) → Pages → Option (Result × (SegPool × Behind))
  wire size (err e, st) s = none
  wire size (ok addr, st) s = do
    s' ← wire_pages addr (alloc_rounds size) s
    some (ok addr, (st.pool, record { kva = st.arena; pages = s' }))

  unfoldable pub internal_allocwired :
      ℕ → Flags → SegPool × Behind → Option (Result × (SegPool × Behind))
  internal_allocwired size flags (pool, behind) = do
    r ← vmem_xalloc kalloc size 0 0 0 0 0 flags (kva_state pool behind)
    wire size r behind.pages

  -- A size that is negative as an int is only printed.
  unfoldable pub internal_freewired : ℕ → ℕ → SegPool × Behind → Option (SegPool × Behind)
  internal_freewired addr size (pool, behind) = do
    (r, st) ← vmem_xfree addr (kva_state pool behind)
    let unwired = unwire_pages addr (free_rounds size) behind.pages
    s ← if is_negative r then some behind.pages else unwired
    some (st.pool, record { kva = st.arena; pages = s })

  abbrev pub wired_source : Source Behind
  wired_source = record { allocfn = internal_allocwired; freefn = internal_freewired }

  abbrev pub boot_flags : Flags
  boot_flags = record { no_sleep = false; exact = false; bootstrap = true }

  abbrev pub no_flags : Flags
  no_flags = record { no_sleep = false; exact = false; bootstrap = false }

  -- The arenas of kmap and of wired memory; the flag for the start is taken back at the end.
  unfoldable pub vm_kernel_init : ℕ → SegPool → Pages → Option (State Behind)
  vm_kernel_init static_segs pool pages = do
    st ←
        vmem_init kheap_base kheap_size page_bytes none boot_flags (vmem_earlyinit static_segs pool)
          tt
    wired ←
        vmem_init 0 0 page_bytes (some wired_source) boot_flags st.pool
          (record { kva = record st.arena { flags = no_flags }; pages = pages })
    some (record wired { arena = record wired.arena { flags = no_flags } })

  abbrev pub address_of : Result → Option ℕ
  address_of (ok addr) = some addr
  address_of (err e) = none

  -- The bits of `wait`: 1 for kVMemSleep, 2 for kVMemBootstrap. `refill` is what seg_refill calls.
  unfoldable pub vm_kalloc :
      (ℕ → State Behind → Option (Option (List ℕ) × State Behind))
      → ℕ
      → ℕ
      → State Behind
      → Option (Option ℕ × State Behind)
  vm_kalloc refill npages wait s = do
    (r, s') ←
        vmem_xalloc refill (mul64 npages page_bytes) 0 0 0 0 0
          (record { no_sleep = wait % 2 == 0; exact = false; bootstrap = wait / 2 % 2 == 1 }) s
    some (address_of r, s')

  unfoldable pub vm_kfree : ℕ → State Behind → Option (State Behind)
  vm_kfree addr s = do (r, s') ← vmem_xfree addr s; some s'
