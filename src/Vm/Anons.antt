-- ===== src/Vm/Anons.antt =====
-- vm/vm.c: anons and the sparse arrays of them.
use scal_ux.Prelude.{
  Bool, Option, assert, if◌then◌else◌, ltb, none, some, suc, true, update, ℕ, ◌%◌, ◌&&◌, ◌+◌, ◌-◌,
  ◌/◌, ◌>>=◌, ◌>>◌, ◌^◌,
}
use scal_ux.Vm.{Amap, Anon, Chunk, Vm}
use scal_ux.Page.{active_queue, vm_page_free, vm_pagealloc}

-- kAMapChunkNPages
abbrev pub chunk_pages : ℕ
chunk_pages = 32

-- The 24-bit field, read as signed: whether it is greater than `n`, for a small `n`.
abbrev pub field_more : ℕ → ℕ → Bool
field_more refcnt n = ltb n refcnt && ltb refcnt (2 ^ 23)

abbrev pub field_up : ℕ → ℕ
field_up refcnt = (refcnt + 1) % 2 ^ 24

abbrev pub field_down : ℕ → ℕ
field_down refcnt = (refcnt + 2 ^ 24 - 1) % 2 ^ 24

abbrev pub set_anon : ℕ → Option Anon → Vm → Vm
set_anon a anon s = record s { anons = update s.anons a anon }

unfoldable pub anon_new : Vm → Option (ℕ × Vm)
anon_new s = do
  (page, pages) ← vm_pagealloc active_queue s.pages
  some (
    s.next_anon,
    record s {
      anons =
          update s.anons s.next_anon
            (some (record { refcnt = 1; resident = true; physpage = page }));
      next_anon = suc s.next_anon;
      pages = pages;
    },
  )

unfoldable pub copyphyspage : ℕ → ℕ → Vm → Vm
copyphyspage dst src s = record s {
  pages = record s.pages { contents = update s.pages.contents dst (s.pages.contents src) };
}

unfoldable pub anon_copy : ℕ → Vm → Option (ℕ × Vm)
anon_copy a s = do
  (new, s') ← anon_new s
  old ← s'.anons a
  copied ← s'.anons new
  some (new, copyphyspage copied.physpage old.physpage s')

-- An anon whose last reference goes gives its page back; one that is not resident is fatal.
unfoldable pub free_anon : ℕ → Anon → Vm → Option Vm
free_anon a anon s = do
  assert anon.resident
  pages ← vm_page_free anon.physpage s.pages
  some (record (set_anon a none s) { pages = pages })

unfoldable pub drop_anon : ℕ → Anon → Vm → Option Vm
drop_anon a anon s =
    if field_more (field_down anon.refcnt) 0
    then some (set_anon a (some (record anon { refcnt = field_down anon.refcnt })) s)
    else free_anon a anon s

unfoldable pub anon_release : ℕ → Vm → Option Vm
anon_release a s = do anon ← s.anons a; drop_anon a anon s

-- kmem_zalloc of a chunk.
abbrev pub empty_chunk : Chunk
empty_chunk slot = none

abbrev pub chunk_or_empty : Option Chunk → Chunk
chunk_or_empty none = empty_chunk
chunk_or_empty (some chunk) = chunk

-- kmem_realloc of the array, and the loop that clears what is new.
unfoldable pub grow : Amap → ℕ → Amap
grow amap minnchunk = record {
  chunks = λ i. if ltb i amap.curnchunk then amap.chunks i else none;
  curnchunk = minnchunk;
}

-- The amap that has the slot of a page, and what the slot holds.
unfoldable pub amap_anon_at : Amap → ℕ → Amap × Option ℕ
amap_anon_at amap page =
    let grown =
      if ltb amap.curnchunk (page / chunk_pages + 1)
      then grow amap (page / chunk_pages + 1)
      else amap in
    let chunk = chunk_or_empty (grown.chunks (page / chunk_pages)) in
    (
      record grown { chunks = update grown.chunks (page / chunk_pages) (some chunk) },
      chunk (page % chunk_pages),
    )

-- A store through the pointer to a slot that amap_anon_at returns.
unfoldable pub set_slot : Amap → ℕ → Option ℕ → Amap
set_slot amap page anon = record amap {
  chunks =
      update amap.chunks (page / chunk_pages) (
        some
          (update (chunk_or_empty (amap.chunks (page / chunk_pages))) (page % chunk_pages) anon));
}
