-- ===== src/Vm.antt =====
-- vm/vm.c and the records of vm/vm.h: memory objects made of reference-counted anonymous pages.
-- Objects, anons and maps are known by numbers; an address that was freed is not given out again.
-- The locks are left out: each operation runs while it holds those that the source takes.
pub mod Enter
pub mod Anons
pub mod View
mod Tests
pub mod Objects
pub mod Refine
pub mod Copy
pub mod Invariant
pub mod Fault
use scal_ux.Prelude.{Bool, List, Option, ℕ}
use scal_ux.Page.{Pages}

-- vm_anon_t, with refcnt the 24 bits of its field.
pub record Anon : Type 0 where
  pub refcnt : ℕ
  pub resident : Bool
  pub physpage : ℕ

-- vm_amap_chunk_t
abbrev pub Chunk : Type 0
Chunk = ℕ → Option ℕ

-- vm_amap_t: the first `curnchunk` members of the array count.
pub record Amap : Type 0 where
  pub chunks : ℕ → Option Chunk
  pub curnchunk : ℕ

pub data Kind : Type 0 where
  direct_map : Kind
  kernel_heap : Kind
  anonymous : Kind

-- vm_object_t. Its amap is no other object's, and stands inside it.
pub record Object : Type 0 where
  pub refcnt : ℕ
  pub type_of : Kind
  pub bytes : ℕ
  pub amap : Amap
  pub parent : Option ℕ

-- The protections that the source maps pages with: kVMAll, and kVMRead | kVMExecute.
pub data Protection : Type 0 where
  all : Protection
  read_execute : Protection

-- An entry of a page table, as the processor reads it.
pub record Mapping : Type 0 where
  pub frame : ℕ
  pub protection : Protection

-- pv_entry_t: a map, and an address in it.
pub record PvEntry : Type 0 where
  pub map_of : ℕ
  pub vaddr : ℕ

-- The heap: `next_anon` and `next_object` are the numbers that the next allocation gives. `tables` are
-- the page tables of each map, and `pv_table` the list of that name in each page.
pub record Vm : Type 0 where
  pub objects : ℕ → Option Object
  pub next_object : ℕ
  pub anons : ℕ → Option Anon
  pub next_anon : ℕ
  pub pages : Pages
  pub tables : ℕ → ℕ → Option Mapping
  pub pv_table : ℕ → List PvEntry
