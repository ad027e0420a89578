-- ===== src/Vm/Objects.antt =====
-- vm/vm.c: memory objects, made anew, copied, retained and released.
use scal_ux.Vm.Anons.{anon_release, chunk_pages, empty_chunk, field_up, set_anon}
use scal_ux.Vm.Enter.{pmap_reenter_all_readonly}
use scal_ux.Prelude.{
  Bool, Option, assert, false, if◌then◌else◌, int32, is_negative, ltb, none, not, some, suc, true,
  update, zero, ℕ, ◌&&◌, ◌+◌, ◌-◌, ◌>>=◌, ◌>>◌, ◌^◌,
}
use scal_ux.Vm.{Amap, Chunk, Kind, Object, Vm, anonymous}

abbrev pub no_chunks : ℕ → Option Chunk
no_chunks i = none

abbrev pub is_anonymous : Kind → Bool
is_anonymous anonymous = true
is_anonymous _ = false

abbrev pub set_object : ℕ → Option Object → Vm → Vm
set_object o object s = record s { objects = update s.objects o object }

-- kmem_alloc of an object, with what the caller fills in.
abbrev pub add_object : Object → Vm → ℕ × Vm
add_object object s = (
  s.next_object,
  record s {
    objects = update s.objects s.next_object (some object);
    next_object = suc s.next_object;
  },
)

unfoldable pub vm_aobj_new : ℕ → Vm → ℕ × Vm
vm_aobj_new size s =
    add_object
      (record {
        refcnt = 1;
        type_of = anonymous;
        bytes = size;
        amap = record { chunks = no_chunks; curnchunk = 0 };
        parent = none;
      })
      s

-- One more reference to an anon, which may then be read only through every mapping.
unfoldable pub share : Option ℕ → Vm → Option Vm
share none s = some s
share (some a) s = do
  anon ← s.anons a
  some (
      pmap_reenter_all_readonly anon.physpage
        (set_anon a (some (record anon { refcnt = field_up anon.refcnt })) s))

unfoldable pub copy_slots : Chunk → ℕ → Vm → Option (Chunk × Vm)
copy_slots old zero s = some (empty_chunk, s)
copy_slots old (suc n) s = do
  (new, s1) ← copy_slots old n s
  s2 ← share (old n) s1
  some (update new n (old n), s2)

unfoldable pub copy_chunk : Option Chunk → Vm → Option (Option Chunk × Vm)
copy_chunk none s = some (none, s)
copy_chunk (some old) s = do (new, s') ← copy_slots old chunk_pages s; some (some new, s')

unfoldable pub copy_chunks : (ℕ → Option Chunk) → ℕ → Vm → Option ((ℕ → Option Chunk) × Vm)
copy_chunks old zero s = some (no_chunks, s)
copy_chunks old (suc n) s = do
  (new, s1) ← copy_chunks old n s
  (chunk, s2) ← copy_chunk (old n) s1
  some (update new n chunk, s2)

-- kmem_alloc asserts that the size of the array is not 0.
unfoldable pub amap_copy : Amap → Vm → Option (Amap × Vm)
amap_copy amap s = do
  assert (ltb 0 amap.curnchunk)
  (new, s') ← copy_chunks amap.chunks amap.curnchunk s
  some (record { chunks = new; curnchunk = amap.curnchunk }, s')

unfoldable pub vm_object_copy : ℕ → Vm → Option (ℕ × Vm)
vm_object_copy o s = do
  object ← s.objects o
  assert (is_anonymous object.type_of)
  (amap, s') ← amap_copy object.amap s
  some (
      add_object
        (record {
          refcnt = 1;
          type_of = object.type_of;
          bytes = object.bytes;
          amap = amap;
          parent = object.parent;
        })
        s')

unfoldable pub vm_object_retain : ℕ → Vm → Option Vm
vm_object_retain o s = do
  object ← s.objects o
  some (set_object o (some (record object { refcnt = int32 (object.refcnt + 1) })) s)

unfoldable pub release_slot : Option ℕ → Vm → Option Vm
release_slot none s = some s
release_slot (some a) s = anon_release a s

unfoldable pub release_slots : Chunk → ℕ → Vm → Option Vm
release_slots chunk zero s = some s
release_slots chunk (suc n) s = do s1 ← release_slots chunk n s; release_slot (chunk n) s1

unfoldable pub release_chunk : Option Chunk → Vm → Option Vm
release_chunk none s = some s
release_chunk (some chunk) s = release_slots chunk chunk_pages s

unfoldable pub release_chunks : (ℕ → Option Chunk) → ℕ → Vm → Option Vm
release_chunks chunks zero s = some s
release_chunks chunks (suc n) s = do s1 ← release_chunks chunks n s; release_chunk (chunks n) s1

unfoldable pub amap_release : Amap → Vm → Option Vm
amap_release amap s = release_chunks amap.chunks amap.curnchunk s

-- The count of an object after `--`, as a signed int.
abbrev pub still_held : ℕ → Bool
still_held refcnt = ltb 0 refcnt && not (is_negative refcnt)

unfoldable pub drop_object : ℕ → Object → Vm → Option Vm
drop_object o object s = do
  assert (is_anonymous object.type_of)
  s' ← amap_release object.amap s
  some (set_object o none s')

unfoldable pub unreference : ℕ → Object → Vm → Option Vm
unreference o fewer s =
    if still_held fewer.refcnt
    then some (set_object o (some fewer) s)
    else drop_object o fewer (set_object o (some fewer) s)

unfoldable pub vm_object_release : ℕ → Vm → Option Vm
vm_object_release o s = do
  object ← s.objects o
  unreference o (record object { refcnt = int32 (object.refcnt + 2 ^ 32 - 1) }) s
