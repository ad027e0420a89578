-- ===== src/Vm/Refine.antt =====
-- vm/vm.c: memory objects as what they stand for, separate arrays of bytes.
use scal_ux.Vm.Fault.{Fault, fault_aobj, ok}
use scal_ux.Vm.Invariant.{Inv, held_by, sharing_limit}
use scal_ux.Vm.Objects.{vm_aobj_new, vm_object_copy}
use scal_ux.Vm.View.{byte, weight}
mod Write
pub mod Correct
use scal_ux.Prelude.{List, Option, [], none, some, update, ℕ, ◌+◌, ◌<◌, ◌∷◌, ◌≡◌}
use scal_ux.Page.{free_queue}
use scal_ux.Vm.{Mapping, Object, Protection, Vm, all, anonymous, read_execute}
use scal_ux.Vm.Fault.Served.{Faultable, Shows}

unfoldable pub write_frame : Protection → ℕ → ℕ → ℕ → Vm → Option Vm
write_frame read_execute page offset value s = none
write_frame all page offset value s = some (record s {
  pages = record s.pages {
    contents = update s.pages.contents page (update (s.pages.contents page) offset value);
  };
})

-- What the processor does with a write to an offset of a mapped page.
unfoldable pub write_entry : Option Mapping → ℕ → ℕ → Vm → Option Vm
write_entry none offset value s = none
write_entry (some entry) offset value s = write_frame entry.protection entry.frame offset value s

-- The abstract view: bytes by object, page and offset.
abbrev pub Contents : Type 0
Contents = ℕ → ℕ → ℕ → ℕ

pub data Command : Type 0 where
  create : ℕ → Command
  copy : ℕ → ℕ → Command
  serve : Command
  store : ℕ → ℕ → ℕ → ℕ → Command

abbrev pub spec : Command → Contents → Contents
spec (create new) c = update c new (λ page offset. 0)
spec (copy o new) c = update c new (c o)
spec serve c = c
spec (store o page offset value) c = update c o (update (c o) page (update (c o page) offset value))

-- A step of the code, with what it is given.
pub data ObjectStep (s : Vm) : Command → Vm → Type 0 where
  vm_aobj_new_step :
      (size new : ℕ) (t : Vm) → vm_aobj_new size s ≡ (new, t) → ObjectStep s (create new) t
  vm_object_copy_step :
      (o new : ℕ) (object : Object) (t : Vm)
      → s.objects o ≡ some object
      → object.type_of ≡ anonymous
      → 0 < object.amap.curnchunk
      → ((a : ℕ) → held_by s a + weight a object.amap < sharing_limit)
      → vm_object_copy o s ≡ some (new, t)
      → ObjectStep s (copy o new) t
  fault_step :
      (f : Fault) (object : Object) (page : ℕ) (rest : List ℕ) (t : Vm)
      → Faultable f s object
      → s.pages.queue free_queue ≡ page ∷ rest
      → fault_aobj f s ≡ some (ok t)
      → ObjectStep s serve t
  write_step :
      (f : Fault) (offset value : ℕ) (t : Vm)
      → Shows f s
      → write_entry (s.tables f.map_of f.vaddr) offset value s ≡ some t
      → ObjectStep s (store f.object f.page offset value) t

pub data ObjectSteps (s : Vm) : List Command → Vm → Type 0 where
  done : ObjectSteps s [] s
  next :
      (x : Command) (l : List Command) (t u : Vm)
      → ObjectSteps s l t
      → ObjectStep t x u
      → ObjectSteps s (x ∷ l) u

-- The commands of a list, the last one first.
abbrev pub run_spec : List Command → Contents → Contents
run_spec [] c = c
run_spec (x ∷ l) c = spec x (run_spec l c)

-- The bytes of the objects are the abstract ones.
pub record Refines (s : Vm) (c : Contents) : Type 0 where
  pub inv : Inv s
  pub agrees : (o page offset : ℕ) → byte s o page offset ≡ c o page offset
