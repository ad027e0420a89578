-- ===== src/Vmem/Alloc.antt =====
-- vmem.c: adding spans, importing them from a backing arena, and vmem_xalloc.
pub mod Search
use scal_ux.Prelude.{
  Bool, List, Option, [], add64, assert, if◌then◌else◌, inl, inr, leb, ltb, none, not, some, sub64,
  suc, zero, ℕ, ◌&&◌, ◌+◌, ◌-◌, ◌==◌, ◌>>=◌, ◌>>◌, ◌||◌, ◌∷◌, ◌⊎◌,
}
use scal_ux.Vmem.Segment.{
  Seg, SegType, allocated, assign, free, insert_after, insert_before, insert_tail, is_free, seg_at,
  span, span_imported,
}
use scal_ux.Vmem.Arena.{
  Arena, Flags, Result, State, err, freelist_index, freelist_insert, hashtab_insert, list_remove,
  nfreelists, ok, resource_exhausted, seg_alloc, seg_free, seg_refill,
}

-- The walk over the span list: the last span before `base`, and the one that follows it.
unfoldable pub find_spans : ℕ → List Seg → Option ℕ → List ℕ → Option (Option ℕ × Option ℕ)
find_spans base q afterspan [] = some (afterspan, none)
find_spans base q afterspan (i ∷ l) =
    let rest = find_spans base q (some i) l in
    do iter ← seg_at i q; if leb base iter.base then some (afterspan, some i) else rest

-- LIST_INSERT_AFTER on a list of pointers.
abbrev pub link_after : ℕ → ℕ → List ℕ → List ℕ
link_after i n [] = []
link_after i n (j ∷ l) = if i == j then j ∷ n ∷ l else j ∷ link_after i n l

module _ {W : Type 0} where
  -- The span marker goes in front of the next span, to the tail, or to the head of the queue.
  unfoldable pub place_span : Option ℕ → Option ℕ → Seg → Arena W → Arena W
  place_span none next new a = record a {
    spanlist = new.id ∷ a.spanlist;
    segqueue = new ∷ a.segqueue;
  }
  place_span (some i) none new a = record a {
    spanlist = link_after i new.id a.spanlist;
    segqueue = insert_tail new a.segqueue;
  }
  place_span (some i) (some j) new a = record a {
    spanlist = link_after i new.id a.spanlist;
    segqueue = insert_before j new a.segqueue;
  }

  -- Returns the free segment that covers the new span.
  unfoldable pub vmem_add_internal : SegType → ℕ → ℕ → State W → Option (Seg × State W)
  unfolding place_span
  vmem_add_internal spantype base size s = do
    (afterspan, nextspan) ← find_spans base s.arena.segqueue none s.arena.spanlist
    (span_id, s1) ← seg_alloc s
    (free_id, s2) ← seg_alloc s1
    let newspan : Seg = record { id = span_id; type = spantype; base = base; size = size }
    let newfree : Seg = record { id = free_id; type = free; base = base; size = size }
    let placed = place_span afterspan nextspan newspan s2.arena
    let queued = record placed { segqueue = insert_after span_id newfree placed.segqueue }
    some (newfree, record s2 { arena = freelist_insert newfree queued })

  unfoldable pub vmem_add : ℕ → ℕ → State W → Option (State W)
  vmem_add base size s = do (newfree, s') ← vmem_add_internal span base size s; some s'

  -- An error leaves the arena as the source left it.
  unfoldable pub imported : ℕ → State W → Result → Option ((Seg × State W) ⊎ (ℕ × State W))
  imported size s (err e) = some (inr (e, s))
  imported size s (ok addr) = do
    (newfree, s') ← vmem_add_internal span_imported addr size s
    some (inl (newfree, s'))

  unfoldable pub try_import : ℕ → Flags → State W → Option ((Seg × State W) ⊎ (ℕ × State W))
  unfolding imported
  try_import size flags s = elim s.arena.source [
    | none ↦ some (inr (resource_exhausted, s))
    | some source ↦ do
      (r, (pool, backing)) ← source.allocfn size flags (s.pool, s.backing)
      imported size (record s { pool = pool; backing = backing }) r
  ]

  -- The part of `seg` to the left of an allocation at `addr`, on the preallocated `left`.
  unfoldable pub split_left : Seg → ℕ → ℕ → State W → State W
  split_left seg left addr s =
      if ltb seg.base addr
      then record s { arena = freelist_insert new (record s.arena { segqueue = queue }) }
      else seg_free left s
    where
      new : Seg
      new = record { id = left; type = free; base = seg.base; size = sub64 addr seg.base }

      queue : List Seg
      queue = insert_before seg.id new s.arena.segqueue

  unfoldable pub split_right : Seg → ℕ → ℕ → ℕ → State W → State W
  split_right seg right addr size s =
      if ltb end (add64 seg.base seg.size)
      then record s { arena = freelist_insert new (record s.arena { segqueue = queue }) }
      else seg_free right s
    where
      end : ℕ
      end = add64 addr size

      new : Seg
      new = record {
        id = right;
        type = free;
        base = end;
        size = sub64 (add64 seg.base seg.size) end;
      }

      queue : List Seg
      queue = insert_after seg.id new s.arena.segqueue

  unfoldable pub take_middle : Seg → ℕ → ℕ → Arena W → Arena W
  take_middle seg addr size a =
      hashtab_insert new (record a { segqueue = assign seg.id new a.segqueue })
    where
      new : Seg
      new = record { id = seg.id; type = allocated; base = addr; size = size }

  unfoldable pub carve : Seg → ℕ → ℕ → ℕ → ℕ → State W → State W
  unfolding split_left split_right take_middle
  carve seg left right addr size s =
      let s1 = split_left seg left addr (record s { arena = list_remove seg.id s.arena }) in
      let s2 = split_right seg right addr size s1 in
      record s2 { arena = take_middle seg addr size s2.arena }

  unfoldable pub split_seg : Seg → ℕ → ℕ → ℕ → ℕ → State W → Option (State W)
  split_seg seg left right addr size s = do
    assert (is_free seg.type)
    some (carve seg left right addr size s)

-- Where an allocation fits into a free segment, if it does.
unfoldable pub fit_addr : ℕ → Bool → Seg → Option ℕ
fit_addr min exact seg =
    if leb seg.base min then some min else if exact && ltb min seg.base then none else some seg.base

unfoldable pub fit : ℕ → ℕ → Bool → Seg → Option ℕ
unfolding fit_addr
fit size min exact seg = do
  addr ← fit_addr min exact seg
  if ltb (add64 seg.base seg.size) (add64 addr size) then none else some addr

-- LIST_FOREACH over one freelist.
unfoldable pub search_list : ℕ → ℕ → Bool → List Seg → List ℕ → Option (Option (Seg × ℕ))
search_list size min exact q [] = some none
search_list size min exact q (i ∷ l) =
    let rest = search_list size min exact q l in
    do
      seg ← seg_at i q
      elim (fit size min exact seg) [ none ↦ rest | some addr ↦ some (some (seg, addr)) ]

-- The loop over the freelists from `idx` on, `rounds` of which are left.
unfoldable pub search_lists :
    ℕ → ℕ → ℕ → ℕ → Bool → (ℕ → List ℕ) → List Seg → Option (Option (Seg × ℕ))
search_lists zero idx size min exact lists q = some none
search_lists (suc rounds) idx size min exact lists q =
    let rest = search_lists rounds (idx + 1) size min exact lists q in
    do
      found ← search_list size min exact q (lists idx)
      elim found [ none ↦ rest | some hit ↦ some (some hit) ]

module _ {W : Type 0} where
  unfoldable pub finish : ℕ → ℕ → ℕ → (Seg × ℕ) × State W → Option (Result × State W)
  finish size left right ((seg, addr), s) = do
    s' ← split_seg seg left right addr size s
    some (ok addr, s')

  unfoldable pub after_import :
      ℕ → ℕ → ℕ → (Seg × State W) ⊎ (ℕ × State W) → Option (Result × State W)
  unfolding finish
  after_import size left right (inl (seg, s)) = finish size left right ((seg, seg.base), s)
  after_import size left right (inr (e, s)) = some (err e, s)

  -- The part of vmem_xalloc behind `search:`.
  unfoldable pub search_or_import : ℕ → ℕ → Flags → ℕ → ℕ → State W → Option (Result × State W)
  unfolding after_import
  search_or_import size min flags left right s = do
    found ←
        search_lists (nfreelists - freelist_index size) (freelist_index size) size min flags.exact
          s.arena.freelist s.arena.segqueue
    elim found [
      | some hit ↦ finish size left right (hit, s)
      | none ↦ do r ← try_import size flags s; after_import size left right r
    ]

  unfoldable pub vmem_xalloc :
      (ℕ → State W → Option (Option (List ℕ) × State W))
      → (size align phase nocross min max : ℕ) → Flags
      → State W
      → Option (Result × State W)
  vmem_xalloc kalloc size align phase nocross min max flags s = do
    assert (align == 0)
    assert (phase == 0)
    assert (min == 0 || flags.exact)
    assert (max == 0)
    s0 ← if flags.bootstrap then some s else seg_refill kalloc flags s
    assert (not (size == 0))
    (left, s1) ← seg_alloc s0
    (right, s2) ← seg_alloc s1
    search_or_import size min flags left right s2
