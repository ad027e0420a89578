-- ===== src/Vmem/Xalloc/Search.antt =====
-- The part of vmem_xalloc behind `search:`, with the two structures in hand.
use scal_ux.Vmem.Segment.Chain.{At-end-lt-word}
use scal_ux.Vmem.Arena.{Flags, State, freelist_index, nfreelists, resource_exhausted}
use scal_ux.Vmem.Arena.Index.{freelist_index-lt, freelist_index_mono}
use scal_ux.Vmem.Invariant.Lookup.{FreeSeg, on_freelist-FreeSeg, on_freelist_pos}
use scal_ux.Vmem.Invariant.Split.{Holds, Ready, allocated_at-carve, carve-Inv, free_at-carve}
use scal_ux.Vmem.Segment.Surgery.{At, is_id, occ, seg_at-At}
use scal_ux.Prelude.{
  Option, arith, count, inr, none, refl, some, subst, true, ℕ, ◌-◌, ◌<◌, ◌>>=◌, ◌≡◌, ◌≤◌,
}
use scal_ux.Vmem.Alloc.{
  after_import, carve, finish, fit, search_lists, search_or_import, split_seg, try_import,
}
use scal_ux.Vmem.Segment.{Seg, is_free, seg_at}
use scal_ux.Vmem.Alloc.Search.{Found, Found-search_lists, Leads, On, OnLists, hit, missed}
use scal_ux.Vmem.Xalloc.{Allocated, NoWrap, Outcome, exhausted, fit-Holds, success}

module _ {W : Type 0} where
  pub try_import-none :
      (size : ℕ) (flags : Flags) (s : State W)
      → s.arena.source ≡ none
      → try_import size flags s ≡ some (inr (resource_exhausted, s))
  unfolding try_import
  try_import-none size flags s h = ground arith

module _ {W : Type 0} (left right : ℕ) (s : State W) (r : Ready left right s) where
  unique-queue : (i : ℕ) → occ (is_id i) s.arena.segqueue ≤ 1
  unique-queue i = omega (arith, r.unique i)

  pub freelist-FreeSeg : (i n : ℕ) → 0 < count i (s.arena.freelist n) → FreeSeg s.arena.segqueue i n
  freelist-FreeSeg i n p =
      on_freelist-FreeSeg s.arena.segqueue i n (omega (arith, r.linked.free_lists i n))
        (unique-queue i)

  pub freelists-Leads :
      (idx rounds : ℕ) → Leads s.arena.segqueue (OnLists s.arena.freelist idx rounds)
  freelists-Leads idx rounds i (n, a, b, p) = let f = freelist-FreeSeg i n p in (f.0, f.1)

  -- A free segment of at least `size` bytes is on one of the lists that are searched.
  pub free-OnLists :
      (size i : ℕ) (seg : Seg)
      → seg_at i s.arena.segqueue ≡ some seg
      → is_free seg.type ≡ true
      → size ≤ seg.size
      → OnLists s.arena.freelist (freelist_index size) (nfreelists - freelist_index size) i
  free-OnLists size i seg e f h = (
    freelist_index seg.size,
    freelist_index_mono size seg.size h,
    omega (arith, freelist_index-lt seg.size, freelist_index-lt size),
    omega (
      arith,
      r.linked.free_lists i (freelist_index seg.size),
      on_freelist_pos s.arena.segqueue i seg e f,
    ),
  )

  module _ (size min : ℕ) (flags : Flags) (pos : 0 < size)
      (w : NoWrap size min s.arena.segqueue) where
    hit-Allocated :
        (seg : Seg) (addr : ℕ) (at : At seg.id seg s.arena.segqueue)
        → is_free seg.type ≡ true
        → Holds seg addr size
        → (flags.exact ≡ true → addr ≡ min)
        → Allocated size min flags addr s (carve seg left right addr size s)
    hit-Allocated seg addr at f v exact = record {
      inv = carve-Inv seg left right addr size s at.before at.after at.whole v r;
      now_allocated = allocated_at-carve seg left right addr size s at.before at.after at.whole v r;
      was_free = free_at-carve seg left right addr size s at.before at.after at.whole v r;
      at_min = exact;
    }

    finish-Outcome :
        (i n : ℕ) (seg : Seg) (addr : ℕ)
        → On (s.arena.freelist n) i
        → seg_at i s.arena.segqueue ≡ some seg
        → fit size min flags.exact seg ≡ some addr
        → Outcome 0 size min flags s (finish size left right ((seg, addr), s))
    unfolding finish split_seg
    finish-Outcome i n seg addr p e f =
        let (t, a, free_t, b, c) = freelist-FreeSeg i n p in
        let same : t ≡ seg = ground arith in
        let free_seg : is_free seg.type ≡ true =
          subst (λ (x : Seg). is_free x.type ≡ true) same free_t in
        let at : At seg.id seg s.arena.segqueue =
          seg_at-At seg.id s.arena.segqueue seg (ground arith) in
        let held =
          fit-Holds size min flags.exact seg addr f free_seg pos w.at_min (w.at_seg i seg e)
            (At-end-lt-word seg.id seg s.arena.segqueue r.chained at) in
        rw free_seg (success addr _ (hit-Allocated seg addr at free_seg held.0 held.1))

    abbrev searched : Option (Option (Seg × ℕ))
    searched =
        search_lists (nfreelists - freelist_index size) (freelist_index size) size min flags.exact
          s.arena.freelist s.arena.segqueue

    search_cases :
        (found : Option (Option (Seg × ℕ)))
        → searched ≡ found
        → s.arena.source ≡ none
        → Found size min flags.exact s.arena.segqueue
            (OnLists s.arena.freelist (freelist_index size) (nfreelists - freelist_index size))
            found
        → Outcome 0 size min flags s (search_or_import size min flags left right s)
    unfolding search_or_import after_import
    search_cases found e none_behind (missed h) = rw e (
        rw (try_import-none size flags s none_behind, ◌>>=◌)
          (exhausted s refl (omega arith)
            (λ i seg at free_seg fits. h i seg (free-OnLists size i seg at free_seg fits) at)))
    search_cases found e none_behind (hit i seg addr (n, a, b, p) at f) =
        rw e (finish-Outcome i n seg addr p at f)

    pub search-Outcome :
        s.arena.source ≡ none
        → Outcome 0 size min flags s (search_or_import size min flags left right s)
    search-Outcome none_behind = search_cases searched refl none_behind (
        Found-search_lists size min flags.exact s.arena.segqueue s.arena.freelist
          (nfreelists - freelist_index size) (freelist_index size)
          (freelists-Leads (freelist_index size) (nfreelists - freelist_index size)))
