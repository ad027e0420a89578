-- ===== src/Vm/View.antt =====
-- What the memory objects of vm/vm.c mean: the bytes of each, and how often each anon is referenced.
pub mod Slots
pub mod References
pub mod Objects
use scal_ux.Vm.Anons.{chunk_or_empty, chunk_pages}
use scal_ux.Prelude.{Option, bit, if◌then◌else◌, ltb, none, owns, some, total, ℕ, ◌%◌, ◌/◌}
use scal_ux.Page.{Pages}
use scal_ux.Vm.{Amap, Anon, Chunk, Object, Vm}

-- What the slot of a page holds.
unfoldable pub slot : Amap → ℕ → Option ℕ
slot amap page =
    if ltb (page / chunk_pages) amap.curnchunk
    then chunk_or_empty (amap.chunks (page / chunk_pages)) (page % chunk_pages)
    else none

-- How many slots hold the anon `a`.
unfoldable pub chunk_weight : ℕ → Option Chunk → ℕ
chunk_weight a chunk = total (λ i. bit (owns a (chunk_or_empty chunk i))) chunk_pages

unfoldable pub weight : ℕ → Amap → ℕ
weight a amap = total (λ i. chunk_weight a (amap.chunks i)) amap.curnchunk

abbrev pub object_weight : ℕ → Option Object → ℕ
object_weight a none = 0
object_weight a (some object) = weight a object.amap

unfoldable pub references : ℕ → (ℕ → Option Object) → ℕ → ℕ
references a objects n = total (λ o. object_weight a (objects o)) n

-- The anon that holds a page of an object.
abbrev pub object_slot : Option Object → ℕ → Option ℕ
object_slot none page = none
object_slot (some object) page = slot object.amap page

-- A byte of a page of an object. A page that has no anon is all zeros.
abbrev pub anon_byte : Pages → Option Anon → ℕ → ℕ
anon_byte pages none offset = 0
anon_byte pages (some anon) offset = pages.contents anon.physpage offset

abbrev pub slot_byte : Pages → (ℕ → Option Anon) → Option ℕ → ℕ → ℕ
slot_byte pages anons none offset = 0
slot_byte pages anons (some a) offset = anon_byte pages (anons a) offset

unfoldable pub byte : Vm → ℕ → ℕ → ℕ → ℕ
byte s o page offset = slot_byte s.pages s.anons (object_slot (s.objects o) page) offset
