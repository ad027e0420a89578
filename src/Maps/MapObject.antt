-- ===== src/Maps/MapObject.antt =====
-- vm/vm.c: mapping objects, new objects and the copies of a fork.
pub mod Correct
use scal_ux.Prelude.{
  Bool, List, Option, [], add64, assert, false, if◌then◌else◌, none, not, some, sub64, suc, true, ℕ,
  ◌%◌, ◌++◌, ◌-◌, ◌==◌, ◌>>=◌, ◌>>◌, ◌^◌, ◌∷◌,
}
use scal_ux.Page.{page_bytes}
use scal_ux.Vm.{Vm}
use scal_ux.Vm.Objects.{
  is_anonymous, vm_aobj_new, vm_object_copy, vm_object_release, vm_object_retain,
}
use scal_ux.Vmem.Arena.{Flags, Result, State, err, ok}
use scal_ux.Vmem.Alloc.{vmem_xalloc}
use scal_ux.Vmem.Init.{vmem_init}
use scal_ux.Maps.{Entry, Space, World, arena_state, kmap, with_arena}

-- VADDR_MAX asks for any address.
abbrev pub vaddr_max : ℕ
vaddr_max = 2 ^ 64 - 1

abbrev pub is_exact : ℕ → Bool
is_exact vaddr = not (vaddr == vaddr_max)

abbrev pub map_flags : Bool → Flags
map_flags exact = record { no_sleep = false; exact = exact; bootstrap = false }

-- The object that the map will refer to: a copy, or the object with one more reference.
unfoldable pub take_object : Bool → ℕ → Vm → Option (ℕ × Vm)
take_object true o s = vm_object_copy o s
take_object false o s = do s' ← vm_object_retain o s; some (o, s')

-- A map that has no room leaves the reference taken.
unfoldable pub add_entry :
    ℕ → ℕ → ℕ → ℕ → Space → Result × State (Unit {0}) → World → Result × World
add_entry m o size offset space (ok addr, st) w = (
  ok addr,
  with_arena m
      (space.entries
        ++ (record { start = addr; end = add64 addr size; offset = offset; obj = o } ∷ []))
      st w,
)
add_entry m o size offset space (err e, st) w = (err e, with_arena m space.entries st w)

module _ (kalloc : ℕ → State (Unit {0}) → Option (Option (List ℕ) × State (Unit {0}))) where
  unfoldable pub vm_map_object : ℕ → ℕ → ℕ → ℕ → ℕ → Bool → World → Option (Result × World)
  vm_map_object m o vaddr size offset copy w = do
    space ← w.spaces m
    assert (size % page_bytes == 0)
    (obj, vm) ← take_object copy o w.vm
    r ←
        vmem_xalloc kalloc size 0 0 0 (if is_exact vaddr then vaddr else 0) 0
          (map_flags (is_exact vaddr)) (arena_state space w)
    some (add_entry m obj size offset space r (record w { vm = vm }))

  -- The result of vm_map_object is not passed on.
  unfoldable pub vm_allocate : ℕ → ℕ → ℕ → World → Option World
  vm_allocate m vaddr size w = do
    assert (size % page_bytes == 0)
    (o, vm) ← some (vm_aobj_new size w.vm)
    (r, w') ← vm_map_object m o vaddr size 0 false (record w { vm = vm })
    vm' ← vm_object_release o w'.vm
    some (record w' { vm = vm' })

  -- USER_BASE and USER_SIZE.
  unfoldable pub vm_map_new : World → Option (ℕ × World)
  vm_map_new w = do
    st ← vmem_init 0x1000 0x100000000 page_bytes none (map_flags false) w.pool tt
    some (w.next_map, with_arena w.next_map [] st (record w { next_map = suc w.next_map }))

  unfoldable pub is_mapped_at : Result → Bool
  is_mapped_at (ok addr) = true
  is_mapped_at (err e) = false

  -- One entry of the map that is forked.
  unfoldable pub fork_entry : ℕ → Entry → World → Option World
  fork_entry new entry w = do
    object ← w.vm.objects entry.obj
    assert (is_anonymous object.type_of)
    (copy, vm) ← vm_object_copy entry.obj w.vm
    (r, w') ←
        vm_map_object new copy entry.start (sub64 entry.end entry.start) entry.offset false
          (record w { vm = vm })
    assert (is_mapped_at r)
    vm' ← vm_object_release copy w'.vm
    some (record w' { vm = vm' })

  unfoldable pub fork_entries : ℕ → List Entry → World → Option World
  fork_entries new [] w = some w
  fork_entries new (entry ∷ rest) w = do w' ← fork_entry new entry w; fork_entries new rest w'

  unfoldable pub vm_map_fork : ℕ → World → Option (ℕ × World)
  vm_map_fork m w = do
    (new, w1) ← vm_map_new w
    space ← w.spaces m
    w2 ← if m == kmap then some w1 else fork_entries new space.entries w1
    some (new, w2)
