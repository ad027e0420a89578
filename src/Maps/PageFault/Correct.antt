-- ===== src/Maps/PageFault/Correct.antt =====
-- vm/vm.c: vm_fault leads a fault to the object that the address shows.
use scal_ux.Vm.Fault.{Fault}
use scal_ux.Vm.Fault.Refused.{NeedsPaging, Refused}
use scal_ux.Maps.PageFault.{fault_at}
use scal_ux.Prelude.{Bool, Option, false, none, some, true, ℕ, ◌≡◌, ◌≢◌, ◌⊎◌}
use scal_ux.Vm.{Object, Vm, anonymous}
use scal_ux.Vm.Fault.Served.{Faultable, Served}
use scal_ux.Maps.{Entry, Space, World, map_entry_for_addr}

-- The state after a fault, with the mark of a fault off.
abbrev pub after_fault : World → Vm → World
after_fault w vm = record w { vm = vm; in_pagefault = false }

-- What vm_fault does to a map: it panics in a second fault; it gives an error because no object is there, or
-- the one that is there is of another kind, or its page would have to be paged in; or the address shows the
-- page of the object.
pub data FaultOutcome (m vaddr flags : ℕ) (space : Space) (w : World)
    : Option (Bool × World) → Type 0 where
  nested : w.in_pagefault ≡ true → FaultOutcome m vaddr flags space w none
  unmapped :
      map_entry_for_addr vaddr space.entries ≡ none
      → FaultOutcome m vaddr flags space w (some (false, after_fault w w.vm))
  unfaultable :
      (entry : Entry) (object : Object)
      → map_entry_for_addr vaddr space.entries ≡ some entry
      → w.vm.objects entry.obj ≡ some object
      → object.type_of ≢ anonymous
      → FaultOutcome m vaddr flags space w (some (false, after_fault w w.vm))
  unpaged :
      (entry : Entry) (object : Object) (vm : Vm)
      → map_entry_for_addr vaddr space.entries ≡ some entry
      → w.vm.objects entry.obj ≡ some object
      → object.type_of ≡ anonymous
      → NeedsPaging (fault_at m vaddr flags entry) w.vm object
      → Refused w.vm vm
      → FaultOutcome m vaddr flags space w (some (false, after_fault w vm))
  shown :
      (entry : Entry) (vm : Vm)
      → map_entry_for_addr vaddr space.entries ≡ some entry
      → Served (fault_at m vaddr flags entry) w.vm vm
      → FaultOutcome m vaddr flags space w (some (true, after_fault w vm))

-- The object of the entry that covers the address, if it is anonymous, can serve the fault or would have to
-- page in.
abbrev pub EntryFaultable : ℕ → ℕ → ℕ → Space → World → Type 0
EntryFaultable m vaddr flags space w =
    (entry : Entry)
    → map_entry_for_addr vaddr space.entries ≡ some entry
    → (object : Object) × (w.vm.objects entry.obj ≡ some object)
      × (object.type_of ≡ anonymous
          → Faultable (fault_at m vaddr flags entry) w.vm object
            ⊎ NeedsPaging (fault_at m vaddr flags entry) w.vm object)
