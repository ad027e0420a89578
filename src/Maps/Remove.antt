-- ===== src/Maps/Remove.antt =====
-- vm/vm.c: taking entries out of a map.
use scal_ux.Prelude.{
  List, Option, [], add64, assert, if◌then◌else◌, is_negative, leb, ltb, none, not, some, suc,
  update, zero, ℕ, ◌&&◌, ◌+◌, ◌-◌, ◌/◌, ◌==◌, ◌>>=◌, ◌>>◌, ◌||◌, ◌∷◌,
}
use scal_ux.Page.{page_bytes}
use scal_ux.Vm.{Vm}
use scal_ux.Vm.Objects.{vm_object_release}
use scal_ux.Vm.Enter.{pmap_unenter}
use scal_ux.Vmem.Init.{vmem_destroy}
use scal_ux.Vmem.Free.{vmem_xfree}
use scal_ux.Maps.{Entry, World, arena_state, with_arena}

-- The loop over `n` pages from an address on.
unfoldable pub unenter_pages : ℕ → ℕ → ℕ → Vm → Option Vm
unenter_pages m vaddr zero s = some s
unenter_pages m vaddr (suc n) s = do
  s' ← pmap_unenter m none vaddr s
  unenter_pages m (vaddr + page_bytes) n s'

-- The rounds of the loop: a page that the entry holds a part of counts.
abbrev pub page_rounds : Entry → ℕ
page_rounds entry = (entry.end - entry.start + page_bytes - 1) / page_bytes

-- TAILQ_REMOVE of the entry that begins at an address.
abbrev pub drop_entry : ℕ → List Entry → List Entry
drop_entry start [] = []
drop_entry start (entry ∷ rest) =
    let dropped = drop_entry start rest in if entry.start == start then rest else entry ∷ dropped

unfoldable pub unmap_entry : ℕ → Entry → World → Option World
unmap_entry m entry w = do
  space ← w.spaces m
  (r, st) ← vmem_xfree entry.start (arena_state space w)
  assert (not (is_negative r))
  vm1 ← unenter_pages m entry.start (page_rounds entry) w.vm
  vm2 ← vm_object_release entry.obj vm1
  some (with_arena m (drop_entry entry.start space.entries) st (record w { vm = vm2 }))

-- The tests of the loop in their order; the third repeats the second.
unfoldable pub deallocate_entry : ℕ → ℕ → ℕ → Entry → World → Option World
deallocate_entry m start end entry w =
    if (ltb entry.start start && leb entry.end start) || leb end entry.start
    then some w
    else if leb start entry.start && leb entry.end end
    then unmap_entry m entry w
    else if leb start entry.start && leb entry.end end
    then none
    else if ltb entry.start start && ltb entry.end end
    then none
    else some w

unfoldable pub deallocate_entries : ℕ → ℕ → ℕ → List Entry → World → Option World
deallocate_entries m start end [] w = some w
deallocate_entries m start end (entry ∷ rest) w = do
  w' ← deallocate_entry m start end entry w
  deallocate_entries m start end rest w'

unfoldable pub vm_deallocate : ℕ → ℕ → ℕ → World → Option World
vm_deallocate m start size w = do
  space ← w.spaces m
  deallocate_entries m start (add64 start size) space.entries w

unfoldable pub vm_map_release : ℕ → World → Option World
vm_map_release m w = do
  w1 ← vm_deallocate m 0x1000 0x100000000 w
  space ← w1.spaces m
  st ← vmem_destroy (arena_state space w1)
  some (record w1 { spaces = update w1.spaces m none; pool = st.pool })
