-- ===== src/Pmap.antt =====
-- x86_64/vm.c: the four levels of page tables of x86_64. A page is known by the number of its frame, so
-- that its paddr is `page_bytes` times that number, and what a table page holds is its 512 words. P2V
-- and V2P, which map all physical memory at an offset, are left out.
pub mod Walk
mod Tests
pub mod Grow
pub mod Share
pub mod Roundtrip
pub mod Correct
pub mod Translate
pub mod Descend
use scal_ux.Prelude.{
  Bool, List, Option, assert, if◌then◌else◌, none, not, some, suc, true, update, zero, ℕ, ◌%◌, ◌*◌,
  ◌+◌, ◌/◌, ◌==◌, ◌>>=◌, ◌>>◌, ◌^◌,
}
use scal_ux.Page.{Pages, Region, page_bytes, vm_page_free, vm_page_from_paddr, vm_pagealloc}

-- The queue vm_pgpmapq.
abbrev pub pmap_queue : ℕ
pmap_queue = 5

-- kMMUDefaultProt: present, writable and for the user.
abbrev pub default_prot : ℕ
default_prot = 7

-- `pte & kMMUPresent`
abbrev pub is_present : ℕ → Bool
is_present pte = pte % 2 == 1

-- `pte & kMMUFrame`, the bits 12 to 51.
abbrev pub pte_get_addr : ℕ → ℕ
pte_get_addr pte = pte / 2 ^ 12 % 2 ^ 40 * 2 ^ 12

-- `pte & ~kMMUFrame`
abbrev pub pte_get_flags : ℕ → ℕ
pte_get_flags pte = pte / 2 ^ 52 * 2 ^ 52 + pte % 2 ^ 12

-- The word that pte_set stores. The flags are bits below 12, which the address does not have, so `|` is
-- a sum.
abbrev pub pte_value : ℕ → ℕ → ℕ
pte_value addr flags = pte_get_addr addr + flags

-- vm_prot_t, a set of bits: kVMRead is 1 and kVMWrite is 2.
abbrev pub vm_prot_to_i386 : ℕ → ℕ
vm_prot_to_i386 prot = (if prot % 2 == 1 then 1 else 0) + (if prot / 2 % 2 == 1 then 2 else 0) + 4

-- The index into the table of level `l`, 0 for the tables that hold the pages: `(virt >> 12) & 0x1ff`,
-- and so on in steps of 9 bits.
abbrev pub index : ℕ → ℕ → ℕ
index zero virt = virt / 2 ^ 12 % 512
index (suc zero) virt = virt / 2 ^ 21 % 512
index (suc (suc zero)) virt = virt / 2 ^ 30 % 512
index (suc (suc (suc zero))) virt = virt / 2 ^ 39 % 512
index (suc (suc (suc (suc l)))) virt = 0

-- `table[index]`, for the physical address of a table.
abbrev pub entry : ℕ → ℕ → Pages → ℕ
entry table i s = s.contents (table / page_bytes) i

abbrev pub pte_set : ℕ → ℕ → ℕ → ℕ → Pages → Pages
pte_set table i addr flags s = record s {
  contents =
      update s.contents (table / page_bytes)
        (update (s.contents (table / page_bytes)) i (pte_value addr flags));
}

unfoldable pub alloc_table : ℕ → ℕ → ℕ → Pages → Option (ℕ × Pages)
alloc_table table i mmuprot s = do
  (page, s') ← vm_pagealloc pmap_queue s
  some (page_bytes * page, pte_set table i (page_bytes * page) mmuprot s')

-- NULL is 0.
unfoldable pub pmap_descend : ℕ → ℕ → Bool → ℕ → Pages → Option (ℕ × Pages)
pmap_descend table i alloc mmuprot s =
    if is_present (entry table i s)
    then some (pte_get_addr (entry table i s), s)
    else if alloc
    then alloc_table table i mmuprot s
    else some (0, s)

-- What pmap_descend gives when it may not allocate.
abbrev pub next_table : ℕ → ℕ → Pages → ℕ
next_table table i s = if is_present (entry table i s) then pte_get_addr (entry table i s) else 0

-- The table and the index of the entry of a virtual address, where there is one.
unfoldable pub pmap_fully_descend : ℕ → ℕ → Pages → Option (ℕ × ℕ)
pmap_fully_descend pml4 virt s =
    let pdptes = next_table pml4 (index 3 virt) s in
    let pdes = next_table pdptes (index 2 virt) s in
    let ptes = next_table pdes (index 1 virt) s in
    if pdptes == 0
    then none
    else if pdes == 0
    then none
    else if ptes == 0
    then none
    else some (ptes, index 0 virt)

unfoldable pub pmap_trans : ℕ → ℕ → Pages → ℕ
pmap_trans pml4 virt s =
    let pdpte = next_table pml4 (index 3 virt) s in
    let pde = next_table pdpte (index 2 virt) s in
    let pte = next_table pde (index 1 virt) s in
    if pdpte == 0
    then 0
    else if pde == 0
    then 0
    else if pte == 0
    then 0
    else if is_present (entry pte (index 0 virt) s)
    then pte_get_addr (entry pte (index 0 virt) s) + virt % 2 ^ 12
    else 0

unfoldable pub pmap_enter_kern : ℕ → ℕ → ℕ → ℕ → Pages → Option Pages
pmap_enter_kern pml4 phys virt prot s = do
  (pdpte, s1) ← pmap_descend pml4 (index 3 virt) true default_prot s
  (pde, s2) ← pmap_descend pdpte (index 2 virt) true default_prot s1
  (pte, s3) ← pmap_descend pde (index 1 virt) true default_prot s2
  some (pte_set pte (index 0 virt) phys (vm_prot_to_i386 prot) s3)

-- `*pte = 0`
abbrev pub clear_entry : ℕ → ℕ → Pages → Pages
clear_entry table i s = record s {
  contents = update s.contents (table / page_bytes) (update (s.contents (table / page_bytes)) i 0);
}

-- The address that was mapped, and the tables without it.
unfoldable pub take_translation : ℕ × ℕ → Pages → Option (ℕ × Pages)
take_translation (table, i) s = do
  assert (not (entry table i s == 0))
  some (pte_get_addr (entry table i s), clear_entry table i s)

unfoldable pub pmap_unenter_kern : ℕ → ℕ → List Region → Pages → Option (ℕ × Pages)
pmap_unenter_kern pml4 virt regions s = do
  place ← pmap_fully_descend pml4 virt s
  (paddr, s') ← take_translation place s
  page ← vm_page_from_paddr paddr regions
  some (page, s')

-- The loop of pmap_new over the entries from 255 to 511, which copies those of the kernel's table.
unfoldable pub copy_upper : ℕ → ℕ → ℕ → Pages → Pages
copy_upper pml4 kpml4 zero s = s
copy_upper pml4 kpml4 (suc n) s =
    let before = copy_upper pml4 kpml4 n s in
    pte_set pml4 (255 + n) (entry kpml4 (255 + n) before) default_prot before

abbrev pub upper_entries : ℕ
upper_entries = 257

unfoldable pub pmap_new : ℕ → Pages → Option (ℕ × Pages)
pmap_new kpml4 s = do
  (page, s') ← vm_pagealloc pmap_queue s
  some (page_bytes * page, copy_upper (page_bytes * page) kpml4 upper_entries s')

-- The loop over the entries of a table that is freed.
unfoldable pub each_entry : (ℕ → Pages → Option Pages) → ℕ → ℕ → Pages → Option Pages
each_entry free_sub table zero s = some s
each_entry free_sub table (suc n) s = do
  s' ← each_entry free_sub table n s
  free_sub (pte_get_addr (entry table n s')) s'

unfoldable pub free_page_at : ℕ → List Region → Pages → Option Pages
free_page_at table regions s = do page ← vm_page_from_paddr table regions; vm_page_free page s

-- The levels of tables below this one are freed first.
unfoldable pub pmap_free_sub : List Region → ℕ → ℕ → Pages → Option Pages
pmap_free_sub regions zero table s = if table == 0 then some s else free_page_at table regions s
pmap_free_sub regions (suc below) table s =
    let freed = each_entry (pmap_free_sub regions below) table 512 s in
    if table == 0 then some s else (freed >>= free_page_at table regions)

-- The table of the highest level and the structure are not freed.
unfoldable pub pmap_free : ℕ → List Region → Pages → Option Pages
pmap_free pml4 regions s = each_entry (pmap_free_sub regions 2) pml4 255 s
