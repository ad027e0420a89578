-- ===== src/Maps/Tests.antt =====
-- An object mapped in an empty map, and the first access to it.
use scal_ux.Prelude.{
  List, Option, [], false, if◌then◌else◌, none, some, suc, zero, ℕ, ◌+◌, ◌==◌, ◌∷◌,
}
use scal_ux.Maps.PageFault.{fault_at}
use scal_ux.Vmem.Segment.{Seg, free, span}
use scal_ux.Vmem.Arena.{State, freelist_index}
use scal_ux.Vm.{Object, Vm, anonymous}
use scal_ux.Vm.Fault.{Fault}
use scal_ux.Vm.Objects.{no_chunks, vm_aobj_new}
use scal_ux.Page.{Pages}
use scal_ux.Maps.{Entry, Space, World}
use scal_ux.Maps.MapObject.{map_flags}

abbrev free_list : ℕ → List ℕ
free_list q = if q == 0 then 3 ∷ 4 ∷ 5 ∷ [] else []

abbrev some_pages : Pages
some_pages = record {
  queue = free_list;
  npages = λ q. if q == 0 then 3 else 0;
  queue_of = λ page. 0;
  contents = λ page offset. 0;
}

abbrev empty_vm : Vm
empty_vm = record {
  objects = λ o. none;
  next_object = 0;
  anons = λ a. none;
  next_anon = 0;
  pages = some_pages;
  tables = λ map vaddr. none;
  pv_table = λ page. [];
}

-- One object of two pages.
abbrev made : Vm
made = (vm_aobj_new 8192 empty_vm).1

abbrev whole_span : Seg
whole_span = record { id = 1; type = span; base = 0x1000; size = 0x100000 }

abbrev whole_free : Seg
whole_free = record { id = 2; type = free; base = 0x1000; size = 0x100000 }

abbrev numbers : ℕ → List ℕ
numbers zero = []
numbers (suc n) = (n + 10) ∷ numbers n

spares : List ℕ
spares = numbers 128

abbrev empty_space : Space
empty_space = record {
  entries = [];
  arena = record {
    base = 0x1000;
    size = 0x100000;
    quantum = 0x1000;
    flags = map_flags false;
    source = none;
    segqueue = whole_span ∷ whole_free ∷ [];
    freelist = λ n. if n == freelist_index 0x100000 then 2 ∷ [] else [];
    hashtab = λ n. [];
    spanlist = 1 ∷ [];
  };
}

abbrev empty_world : World
empty_world = record {
  vm = made;
  spaces = λ m. if m == 1 then some empty_space else none;
  next_map = 2;
  pool = record { free_segs = spares; nfreesegs = 128 };
  in_pagefault = false;
}

abbrev no_memory : ℕ → State (Unit {0}) → Option (Option (List ℕ) × State (Unit {0}))
no_memory flags s = some (none, s)

abbrev retained : Option Vm → Vm
retained none = empty_vm
retained (some s) = s

-- The object mapped at 0x4000, and a write to its second page.
abbrev mapped_space : Space
mapped_space = record empty_space {
  entries = record { start = 0x4000; end = 0x6000; offset = 0; obj = 0 } ∷ [];
}

abbrev mapped_world : World
mapped_world = record empty_world { spaces = λ m. if m == 1 then some mapped_space else none }

made_object : Object
made_object = record {
  refcnt = 1;
  type_of = anonymous;
  bytes = 8192;
  amap = record { chunks = no_chunks; curnchunk = 0 };
  parent = none;
}

the_fault : Fault
the_fault = fault_at 1 0x5008 2 (record { start = 0x4000; end = 0x6000; offset = 0; obj = 0 })

abbrev entry_of : Option Entry → Entry
entry_of none = record { start = 0x4000; end = 0x6000; offset = 0; obj = 0 }
entry_of (some entry) = entry
