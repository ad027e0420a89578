-- ===== src/Maps/PageFault.antt =====
-- vm/vm.c: vm_fault, which finds the object that an address shows.
pub mod Correct
use scal_ux.Prelude.{
  Bool, Option, add64, assert, false, if◌then◌else◌, leb, none, not, some, sub64, true, ℕ, ◌%◌, ◌-◌,
  ◌/◌, ◌>>=◌, ◌>>◌,
}
use scal_ux.Page.{page_bytes}
use scal_ux.Vm.{Kind, Vm}
use scal_ux.Vm.Objects.{is_anonymous}
use scal_ux.Vm.Fault.{Fault, Result, failed, fault_aobj, ok}
use scal_ux.Maps.{Entry, World, kmap, map_entry_for_addr}

-- KHEAP_BASE: the kernel's map serves the addresses from here on.
abbrev pub kheap_base : ℕ
kheap_base = 0xffff800100000000

abbrev pub fault_map : ℕ → ℕ → ℕ
fault_map m vaddr = if leb kheap_base vaddr then kmap else m

-- PGROUNDDOWN
abbrev pub page_down : ℕ → ℕ
page_down vaddr = vaddr - vaddr % page_bytes

abbrev pub fault_at : ℕ → ℕ → ℕ → Entry → Fault
fault_at m vaddr flags entry = record {
  map_of = m;
  object = entry.obj;
  vaddr = page_down vaddr;
  page = add64 (sub64 (page_down vaddr) entry.start) entry.offset / page_bytes;
  flags = flags;
}

-- Whether the fault was served, and the objects afterwards.
abbrev pub served : Result → Bool × Vm
served (ok s) = (true, s)
served (failed s) = (false, s)

unfoldable pub fault_object : Fault → Kind → Vm → Option (Bool × Vm)
fault_object f kind s =
    let r = fault_aobj f s in
    if is_anonymous kind then (r >>= λ x. some (served x)) else some (false, s)

unfoldable pub fault_entry : ℕ → ℕ → ℕ → Option Entry → Vm → Option (Bool × Vm)
fault_entry m vaddr flags none s = some (false, s)
fault_entry m vaddr flags (some entry) s = do
  object ← s.objects entry.obj
  fault_object (fault_at m vaddr flags entry) object.type_of s

-- A second fault while one is being served is fatal.
unfoldable pub vm_fault : ℕ → ℕ → ℕ → World → Option (Bool × World)
vm_fault m vaddr flags w = do
  assert (not w.in_pagefault)
  space ← w.spaces (fault_map m vaddr)
  (r, vm) ←
      fault_entry (fault_map m vaddr) vaddr flags (map_entry_for_addr vaddr space.entries) w.vm
  some (r, record w { vm = vm; in_pagefault = false })
