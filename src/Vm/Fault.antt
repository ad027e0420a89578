-- ===== src/Vm/Fault.antt =====
-- vm/vm.c: a fault on a page of an anonymous object.
use scal_ux.Vm.Anons.{amap_anon_at, anon_copy, anon_new, field_down, field_more, set_anon, set_slot}
use scal_ux.Vm.Enter.{pmap_enter, pmap_reenter, pmap_unenter}
use scal_ux.Vm.Objects.{set_object}
pub mod Slot
mod Resident
pub mod Correct
pub mod Refused
mod Fill
pub mod Duplicate
mod NewPage
pub mod Served
mod Adopt
use scal_ux.Prelude.{
  Bool, Option, assert, false, if◌then◌else◌, map, none, not, some, true, ℕ, ◌%◌, ◌/◌, ◌==◌, ◌>>=◌,
  ◌>>◌,
}
use scal_ux.Vm.{Anon, Vm, all, read_execute}

-- kVMFaultPresent and kVMFaultWrite in the flags of a fault.
abbrev pub on_present : ℕ → Bool
on_present flags = flags % 2 == 1

abbrev pub on_write : ℕ → Bool
on_write flags = flags / 2 % 2 == 1

-- What a fault is given: the map, the object, the address, the page of the object, and the flags.
pub record Fault : Type 0 where
  pub map_of : ℕ
  pub object : ℕ
  pub vaddr : ℕ
  pub page : ℕ
  pub flags : ℕ

-- 0, and a new state, or the error -1.
pub data Result : Type 0 where
  ok : Vm → Result
  failed : Vm → Result

-- `*pAnon = anon`
unfoldable pub put_slot : ℕ → ℕ → Option ℕ → Vm → Option Vm
put_slot o page anon s = do
  object ← s.objects o
  some (set_object o (some (record object { amap = set_slot object.amap page anon })) s)

-- The mapping of the old page is read only and must go first.
unfoldable pub unenter_if : Bool → ℕ → ℕ → ℕ → Vm → Option Vm
unenter_if false map page vaddr s = some s
unenter_if true map page vaddr s = pmap_unenter map (some page) vaddr s

-- A write to an anon that is shared: it is duplicated, and the copy is this object's alone.
unfoldable pub write_shared : Fault → ℕ → Anon → Vm → Option Vm
write_shared f a anon s = do
  (new, s1) ← anon_copy a (set_anon a (some (record anon { refcnt = field_down anon.refcnt })) s)
  s2 ← put_slot f.object f.page (some new) s1
  s3 ← unenter_if (on_present f.flags) f.map_of anon.physpage f.vaddr s2
  copied ← s3.anons new
  some (pmap_enter f.map_of copied.physpage f.vaddr all s3)

unfoldable pub read_shared : Fault → Anon → Vm → Option Vm
read_shared f anon s = do
  assert (not (on_present f.flags))
  some (pmap_enter f.map_of anon.physpage f.vaddr read_execute s)

unfoldable pub sole_present : Fault → Anon → Vm → Option Vm
sole_present f anon s = do
  assert (on_write f.flags)
  some (pmap_reenter f.map_of anon.physpage f.vaddr all s)

unfoldable pub resident_fault : Fault → ℕ → Anon → Vm → Option Vm
resident_fault f a anon s =
    if field_more anon.refcnt 1
    then if on_write f.flags then write_shared f a anon s else read_shared f anon s
    else if on_present f.flags
    then sole_present f anon s
    else some (pmap_enter f.map_of anon.physpage f.vaddr all s)

-- An anon that is not resident would have to be paged in.
unfoldable pub absent_fault : Fault → Vm → Option Result
absent_fault f s = do assert (not (on_present f.flags)); some (failed s)

unfoldable pub anon_fault : Fault → ℕ → Anon → Vm → Option Result
anon_fault f a anon s =
    if anon.resident then (do s' ← resident_fault f a anon s; some (ok s')) else absent_fault f s

-- No anon yet: a page of zeros.
unfoldable pub zero_fault : Fault → Vm → Option Vm
zero_fault f s = do
  (new, s1) ← anon_new s
  s2 ← put_slot f.object f.page (some new) s1
  anon ← s2.anons new
  some (pmap_enter f.map_of anon.physpage f.vaddr all s2)

unfoldable pub no_anon_fault : Fault → Option ℕ → Vm → Option Result
no_anon_fault f none s = do s' ← zero_fault f s; some (ok s')
no_anon_fault f (some parent) s = some (failed s)

unfoldable pub slot_fault : Fault → Option ℕ → Option ℕ → Vm → Option Result
slot_fault f none parent s = no_anon_fault f parent s
slot_fault f (some a) parent s = do anon ← s.anons a; anon_fault f a anon s

unfoldable pub fault_aobj : Fault → Vm → Option Result
fault_aobj f s = do
  object ← s.objects f.object
  (amap, anon) ← some (amap_anon_at object.amap f.page)
  slot_fault f anon object.parent (set_object f.object (some (record object { amap = amap })) s)
