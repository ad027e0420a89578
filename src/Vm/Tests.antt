-- ===== src/Vm/Tests.antt =====
-- A page that two objects share, written by one of them.
use scal_ux.Vm.Copy.Correct.{Copied, vm_object_copy-Copied}
use scal_ux.Vm.Fault.Correct.{fault_aobj-Served}
use scal_ux.Vm.Fault.Served.{Faultable, Served}
use scal_ux.Vm.Fault.Slot.{object_number}
use scal_ux.Vm.Refine.{
  Command, Contents, ObjectSteps, Refines, copy, create, done, fault_step, next, run_spec, serve,
  store, vm_aobj_new_step, vm_object_copy_step, write_entry, write_frame, write_step,
}
use scal_ux.Vm.Refine.Correct.{vm_aobj_new-Inv, vm_objects-refine}
use scal_ux.Vm.View.{byte, object_weight, references, slot, weight}
use scal_ux.Vm.View.Objects.{references_one}
use scal_ux.Vm.Anons.{amap_anon_at, anon_new, grow, set_slot}
use scal_ux.Vm.Enter.{pmap_enter}
use scal_ux.Vm.Invariant.{Inv, count_of, held_by, places, sharing_limit}
use scal_ux.Vm.Fault.{
  Fault, Result, fault_aobj, no_anon_fault, ok, put_slot, slot_fault, zero_fault,
}
use scal_ux.Vm.Objects.{no_chunks, vm_aobj_new, vm_object_copy}
use scal_ux.Prelude.{
  Bool, List, Option, [], ap, arith, false, if◌then◌else◌, none, refl, some, subst, sym, total,
  true, ℕ, ◌+◌, ◌<◌, ◌==◌, ◌∙◌, ◌∷◌, ◌≡◌, ◌≤◌,
}
use scal_ux.Page.{
  Pages, first_page, free_queue, put_on, take_off, vm_page_changequeue, vm_pagealloc,
}
use scal_ux.Vm.{Object, Vm, anonymous, kernel_heap}

abbrev free_list : ℕ → List ℕ
free_list q = if q == 0 then 3 ∷ 4 ∷ 5 ∷ [] else []

abbrev some_pages : Pages
some_pages = record {
  queue = free_list;
  npages = λ q. if q == 0 then 3 else 0;
  queue_of = λ page. 0;
  contents = λ page offset. 0;
}

abbrev empty_vm : Vm
empty_vm = record {
  objects = λ o. none;
  next_object = 0;
  anons = λ a. none;
  next_anon = 0;
  pages = some_pages;
  tables = λ map vaddr. none;
  pv_table = λ page. [];
}

abbrev state_of : Option Result → Vm
state_of (some (ok t)) = t
state_of _ = empty_vm

abbrev vm_of : Option Vm → Vm
vm_of (some t) = t
vm_of _ = empty_vm

abbrev copy_of : Option (ℕ × Vm) → Vm
copy_of (some (new, t)) = t
copy_of _ = empty_vm

-- A write to page 1 of object 0 that nothing maps yet, and one that is mapped read only.
abbrev first_write : Fault
first_write = record { map_of = 0; object = 0; vaddr = 4096; page = 1; flags = 2 }

abbrev second_write : Fault
second_write = record { map_of = 0; object = 0; vaddr = 4096; page = 1; flags = 3 }

abbrev made : Vm
made = (vm_aobj_new 8192 empty_vm).1

abbrev faulted : Vm
faulted = state_of (fault_aobj first_write made)

abbrev the_object : Option Object → Object
the_object (some object) = object
the_object none = record {
  refcnt = 0;
  type_of = kernel_heap;
  bytes = 0;
  amap = record { chunks = no_chunks; curnchunk = 0 };
  parent = none;
}

abbrev is_live : Option Object → Bool
is_live none = false
is_live (some object) = true

the_object-eq : (o : Option Object) → is_live o ≡ true → o ≡ some (the_object o)
the_object-eq none h = cc
the_object-eq (some object) h = refl

-- What the first fault leaves, as far as the next operations ask.
record Then : Type 0 where
  live : is_live (faulted.objects 0) ≡ true
  kind : (the_object (faulted.objects 0)).type_of ≡ anonymous
  chunks : (the_object (faulted.objects 0)).amap.curnchunk ≡ 1
  counts : (a : ℕ) → count_of (faulted.anons a) ≤ 1

then_it_is : Then
unfolding fault_aobj slot_fault no_anon_fault zero_fault put_slot amap_anon_at grow anon_new
    vm_pagealloc vm_page_changequeue first_page vm_aobj_new set_slot pmap_enter put_on take_off
then_it_is = record { live = refl; kind = refl; chunks = refl; counts = λ a. ground arith }

empty_vm-Inv : Inv empty_vm
unfolding places references total
empty_vm-Inv = record {
  fresh = record { anons = λ a h. refl; objects = λ o h. refl };
  counts = record { counted = λ a. refl; in_range = λ a. omega arith };
  frames = record {
    queues = record { counted = refl; once = λ page. ground arith; alone = λ page q. ground arith };
    taken = λ a r is. cc;
    apart = λ a b r t is is' same. cc;
  };
  mapped = record {
    listed = λ map vaddr page. refl;
    in_use = λ map vaddr e h. cc;
    exclusive = λ map vaddr a e r h w is same. cc;
  };
}

made-Inv : Inv made
made-Inv = vm_aobj_new-Inv empty_vm 8192 empty_vm-Inv

made_object : Object
made_object = record {
  refcnt = 1;
  type_of = anonymous;
  bytes = 8192;
  amap = record { chunks = no_chunks; curnchunk = 0 };
  parent = none;
}

first_write-Faultable : Faultable first_write made made_object
unfolding made_object vm_aobj_new slot
first_write-Faultable = record {
  live = refl;
  orphan = refl;
  resident = λ a r h is. cc;
  flag_tells = refl;
  on_write_only = λ h. cc;
  current = λ e h. cc;
}

made_free : made.pages.queue free_queue ≡ 3 ∷ 4 ∷ 5 ∷ []
unfolding vm_aobj_new
made_free = refl

fault_aobj-Served_example :
    (t : Vm) × (fault_aobj first_write made ≡ some (ok t)) × Served first_write made t
fault_aobj-Served_example =
    fault_aobj-Served first_write made made_object 3 (4 ∷ 5 ∷ []) made-Inv first_write-Faultable
      made_free

first_fault : (fault_aobj first_write made ≡ some (ok faulted)) × Served first_write made faulted
first_fault =
    let (t, run, served) =
      fault_aobj-Served first_write made made_object 3 (4 ∷ 5 ∷ []) made-Inv first_write-Faultable
        made_free in
    let e : t ≡ faulted = sym (ap state_of run) in
    (run ∙ ap (λ u. some (ok u)) e, subst (λ u. Served first_write made u) e served)

faulted_room :
    (a : ℕ) → held_by faulted a + weight a (the_object (faulted.objects 0)).amap < sharing_limit
faulted_room a =
    let inv : Inv faulted = first_fault.1.inv in
    omega (
      arith,
      then_it_is.counts a,
      inv.counts.counted a,
      references_one a 0 faulted.next_object faulted.objects (
          object_number faulted inv 0 (the_object (faulted.objects 0))
            (the_object-eq (faulted.objects 0) then_it_is.live)),
      ap (object_weight a) (the_object-eq (faulted.objects 0) then_it_is.live),
    )

vm_object_copy-Copied_example :
    (new : ℕ) × (t : Vm) × (vm_object_copy 0 faulted ≡ some (new, t)) × Copied 0 faulted new t
vm_object_copy-Copied_example =
    vm_object_copy-Copied faulted 0 (the_object (faulted.objects 0)) first_fault.1.inv
      (the_object-eq (faulted.objects 0) then_it_is.live) then_it_is.kind
      (omega (arith, then_it_is.chunks)) faulted_room

made_number : vm_aobj_new 8192 empty_vm ≡ (0, made)
unfolding vm_aobj_new
made_number = refl

abbrev zeros : Contents
zeros o page offset = 0

empty_vm-Refines : Refines empty_vm zeros
unfolding byte
empty_vm-Refines = record { inv = empty_vm-Inv; agrees = λ o page offset. refl }

abbrev commands : List Command
commands = store 0 1 5 7 ∷ serve ∷ create 0 ∷ []

abbrev filled : Vm
filled = vm_of (write_entry (faulted.tables 0 4096) 5 7 faulted)

first_store : write_entry (faulted.tables 0 4096) 5 7 faulted ≡ some filled
unfolding fault_aobj slot_fault no_anon_fault zero_fault put_slot amap_anon_at grow anon_new
    vm_pagealloc vm_page_changequeue first_page vm_aobj_new set_slot pmap_enter put_on take_off
    write_entry write_frame
first_store = refl

two_steps : ObjectSteps empty_vm (serve ∷ create 0 ∷ []) faulted
two_steps =
    next serve (create 0 ∷ []) made faulted
      (next (create 0) [] empty_vm made done (vm_aobj_new_step 8192 0 made made_number))
      (fault_step first_write made_object 3 (4 ∷ 5 ∷ []) faulted first_write-Faultable made_free
        first_fault.0)

three_steps : ObjectSteps empty_vm commands filled
three_steps =
    next (store 0 1 5 7) (serve ∷ create 0 ∷ []) faulted filled two_steps
      (write_step first_write 5 7 filled first_fault.1.shows first_store)

-- What the write leaves, as far as a copy asks.
record Ready : Type 0 where
  live : is_live (filled.objects 0) ≡ true
  kind : (the_object (filled.objects 0)).type_of ≡ anonymous
  chunks : (the_object (filled.objects 0)).amap.curnchunk ≡ 1
  counts : (a : ℕ) → count_of (filled.anons a) ≤ 1

filled_is_ready : Ready
unfolding fault_aobj slot_fault no_anon_fault zero_fault put_slot amap_anon_at grow anon_new
    vm_pagealloc vm_page_changequeue first_page vm_aobj_new set_slot pmap_enter put_on take_off
    write_entry write_frame
filled_is_ready = record { live = refl; kind = refl; chunks = refl; counts = λ a. ground arith }

filled-Refines : Refines filled (run_spec commands zeros)
filled-Refines = vm_objects-refine empty_vm commands filled zeros three_steps empty_vm-Refines

filled_room :
    (a : ℕ) → held_by filled a + weight a (the_object (filled.objects 0)).amap < sharing_limit
filled_room a =
    let inv : Inv filled = filled-Refines.inv in
    omega (
      arith,
      filled_is_ready.counts a,
      inv.counts.counted a,
      references_one a 0 filled.next_object filled.objects (
          object_number filled inv 0 (the_object (filled.objects 0))
            (the_object-eq (filled.objects 0) filled_is_ready.live)),
      ap (object_weight a) (the_object-eq (filled.objects 0) filled_is_ready.live),
    )

copied_filled :
    (new : ℕ) × (t : Vm) × (vm_object_copy 0 filled ≡ some (new, t)) × Copied 0 filled new t
copied_filled =
    vm_object_copy-Copied filled 0 (the_object (filled.objects 0)) filled-Refines.inv
      (the_object-eq (filled.objects 0) filled_is_ready.live) filled_is_ready.kind
      (omega (arith, filled_is_ready.chunks)) filled_room

abbrev with_copy : List Command
with_copy = copy 0 copied_filled.0 ∷ commands

four_steps : ObjectSteps empty_vm with_copy copied_filled.1
four_steps = next (copy 0 copied_filled.0) commands filled copied_filled.1 three_steps (
    vm_object_copy_step 0 copied_filled.0 (the_object (filled.objects 0)) copied_filled.1
      (the_object-eq (filled.objects 0) filled_is_ready.live) filled_is_ready.kind
      (omega (arith, filled_is_ready.chunks)) filled_room copied_filled.2)

-- An object is made, written to and copied.
vm_objects-refine_example : Refines copied_filled.1 (run_spec with_copy zeros)
vm_objects-refine_example =
    vm_objects-refine empty_vm with_copy copied_filled.1 zeros four_steps empty_vm-Refines
