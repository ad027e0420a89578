-- ===== src/Vmem/Free.antt =====
-- vmem.c: vmem_xfree, which coalesces the freed segment with its free neighbours.
use scal_ux.Prelude.{
  Bool, List, Option, [], add64, assert, false, if◌then◌else◌, int32, none, some, true, ℕ, ◌&&◌,
  ◌==◌, ◌>>=◌, ◌>>◌, ◌∷◌,
}
use scal_ux.Vmem.Segment.{Seg, assign, is_free, is_imported, next_seg, prev_seg, remove, seg_at}
use scal_ux.Vmem.Arena.{
  Arena, Source, State, freelist_index, freelist_insert, hashbucket_for_addr, list_remove, seg_free,
}

-- LIST_FOREACH over a hash bucket.
unfoldable pub find_base : ℕ → List Seg → List ℕ → Option (Option Seg)
find_base addr q [] = some none
find_base addr q (i ∷ l) =
    let rest = find_base addr q l in
    do seg ← seg_at i q; if seg.base == addr then some (some seg) else rest

abbrev pub resized : Seg → ℕ → ℕ → Seg
resized seg base size = record { id = seg.id; type = seg.type; base = base; size = size }

-- `!right || right->type == kVMemSegSpanImported`
unfoldable pub at_end : Option Seg → Bool
at_end none = true
at_end (some right) = is_imported right.type

module _ {W : Type 0} where
  unfoldable pub freeseg_expand : Seg → ℕ → ℕ → Arena W → Arena W
  freeseg_expand seg base size a =
      if freelist_index size == freelist_index seg.size
      then record a { segqueue = queue }
      else freelist_insert (resized seg base size)
          (list_remove seg.id (record a { segqueue = queue }))
    where
      queue : List Seg
      queue = assign seg.id (resized seg base size) a.segqueue

  abbrev pub queue_remove : ℕ → Arena W → Arena W
  queue_remove i a = record a { segqueue = remove i a.segqueue }

  -- `left` is what stands in front of `seg`; a pointer to nothing is dereferenced where it is NULL.
  -- The free neighbour `n` takes in `seg`, which leaves the queue, and its freelist if it is on one.
  unfoldable pub absorb : Seg → Seg → ℕ → ℕ → Bool → State W → State W
  absorb seg n base size on_a_list s = seg_free seg.id (record s { arena = unlinked })
    where
      queued : Arena W
      queued = queue_remove seg.id (freeseg_expand n base size s.arena)

      unlinked : Arena W
      unlinked = if on_a_list then list_remove seg.id queued else queued

  unfoldable pub merge_left : Seg → Seg → State W → Option (Seg × Seg × Bool × State W)
  merge_left seg left s = do
    let size = add64 left.size seg.size
    let merged = absorb seg left left.base size false s
    before ← prev_seg left.id merged.arena.segqueue
    some (resized left left.base size, before, true, merged)

  -- The segment in hand, what stands in front of it, and whether it was coalesced.
  unfoldable pub coalesce_left : Seg → State W → Option (Seg × Seg × Bool × State W)
  coalesce_left seg s = do
    left ← prev_seg seg.id s.arena.segqueue
    if is_free left.type then merge_left seg left s else some (seg, left, false, s)

  -- A segment that was coalesced to the left remains on a freelist.
  unfoldable pub merge_right : Seg → Seg → Bool → State W → Seg × Bool × State W
  merge_right seg right coalesced_left s =
      (resized right seg.base size, true, absorb seg right seg.base size coalesced_left s)
    where
      size : ℕ
      size = add64 right.size seg.size

  unfoldable pub coalesce_right : Seg → Bool → State W → Seg × Bool × State W
  coalesce_right seg coalesced s = elim (next_seg seg.id s.arena.segqueue) [
    | none ↦ (seg, coalesced, s)
    | some right ↦
        if is_free right.type then merge_right seg right coalesced s else (seg, coalesced, s)
  ]

  unfoldable pub freefn_call : Option (Source W) → ℕ → ℕ → State W → Option (State W)
  freefn_call none base size s = none
  freefn_call (some source) base size s = do
    (pool, backing) ← source.freefn base size (s.pool, s.backing)
    some (record s { pool = pool; backing = backing })

  -- The whole imported span is free: it goes back to its source.
  unfoldable pub release_span : Seg → Seg → Bool → State W → Option (State W)
  release_span seg left coalesced s = do
    assert (at_end (next_seg seg.id s.arena.segqueue))
    s1 ← freefn_call s.arena.source left.base left.size s
    let a1 : Arena W = if coalesced then list_remove seg.id s1.arena else s1.arena
    let s2 : State W = seg_free seg.id (record s1 { arena = queue_remove seg.id a1 })
    let a2 : Arena W = queue_remove left.id (list_remove left.id s2.arena)
    some (seg_free left.id (record s2 { arena = a2 }))

  unfoldable pub settle : Seg → Seg → Bool → State W → Option (State W)
  settle seg left coalesced s =
      if is_imported left.type && seg.size == left.size
      then release_span seg left coalesced s
      else some (
          if coalesced
          then s
          else seg_free seg.id (record s { arena = queue_remove seg.id s.arena }))

  unfoldable pub free_seg : Seg → State W → Option (ℕ × State W)
  free_seg seg s = do
    (seg1, left, coalesced_left, s1) ←
        coalesce_left seg (record s { arena = list_remove seg.id s.arena })
    let (seg2, coalesced, s2) = coalesce_right seg1 coalesced_left s1
    s3 ← settle seg2 left coalesced s2
    some (int32 seg.size, s3)

  -- Returns the size of the freed segment as an `int`; an address that is no segment's is fatal.
  unfoldable pub vmem_xfree : ℕ → State W → Option (ℕ × State W)
  vmem_xfree addr s = do
    found ← find_base addr s.arena.segqueue (s.arena.hashtab (hashbucket_for_addr addr))
    seg ← found
    free_seg seg s
