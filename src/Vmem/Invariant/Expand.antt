-- ===== src/Vmem/Invariant/Expand.antt =====
-- freeseg_expand and the removal of a segment: what they do to each list.
use scal_ux.Vmem.Arena.{Arena, State, freelist_index, freelist_insert, list_remove, pool_free}
use scal_ux.Vmem.Free.{absorb, freeseg_expand, resized}
use scal_ux.Vmem.Invariant.{markers, on_bucket, on_freelist}
use scal_ux.Vmem.Segment.Chain.{Chain}
use scal_ux.Vmem.Segment.Surgery.{is_id, occ}
use scal_ux.Prelude.{
  Bool, arith, bit, count, count-erase, erase_absent, if◌then◌else◌, length, not, refl, ℕ, ◌&&◌,
  ◌+◌, ◌==◌, ◌≡◌, ◌≤◌,
}
use scal_ux.Vmem.Segment.{Seg, assign, remove}

-- The invariant in the course of vmem_xfree: unless `listed`, the segment `i` is on the queue and
-- on no list.
pub record Held {W : Type 0} (listed : Bool) (i : ℕ) (s : State W) : Type 0 where
  pub free_lists :
      (j n : ℕ)
      → count j (s.arena.freelist n)
        ≡ (if not listed && i == j then 0 else occ (on_freelist j n) s.arena.segqueue)
  pub hash_lists :
      (j n : ℕ)
      → count j (s.arena.hashtab n)
        ≡ (if not listed && i == j then 0 else occ (on_bucket j n) s.arena.segqueue)
  pub span_list : s.arena.spanlist ≡ markers s.arena.segqueue
  pub unique : (j : ℕ) → count j s.pool.free_segs + occ (is_id j) s.arena.segqueue ≤ 1
  pub counted : s.pool.nfreesegs ≡ length s.pool.free_segs
  pub chained : Chain 0 0 s.arena.segqueue

module _ {W : Type 0} (n : Seg) (base size : ℕ) (a : Arena W) where
  pub free_lists-expand :
      ((k : ℕ) → count n.id (a.freelist k) ≡ bit (k == freelist_index n.size))
      → (j k : ℕ)
      → count j ((freeseg_expand n base size a).freelist k)
        ≡ (if n.id == j then bit (k == freelist_index size) else count j (a.freelist k))
  unfolding freeseg_expand freelist_insert list_remove
  free_lists-expand h j k = ground (
    arith,
    h k,
    h (freelist_index size),
    count-erase n.id j (a.freelist k),
    count-erase n.id j (a.freelist (freelist_index size)),
  )

  pub hash_lists-expand :
      ((k : ℕ) → count n.id (a.hashtab k) ≡ 0)
      → (j k : ℕ) → count j ((freeseg_expand n base size a).hashtab k) ≡ count j (a.hashtab k)
  unfolding freeseg_expand freelist_insert list_remove
  hash_lists-expand h j k = ground (arith, h k, count-erase n.id j (a.hashtab k))

  pub span_list-expand :
      count n.id a.spanlist ≡ 0 → (freeseg_expand n base size a).spanlist ≡ a.spanlist
  unfolding freeseg_expand freelist_insert list_remove
  span_list-expand h = ground (arith, erase_absent n.id a.spanlist)

  pub segqueue-expand :
      (freeseg_expand n base size a).segqueue ≡ assign n.id (resized n base size) a.segqueue
  unfolding freeseg_expand freelist_insert list_remove
  segqueue-expand = ground arith

module _ {W : Type 0} (seg n : Seg) (base size : ℕ) (listed : Bool) (s : State W) where
  abbrev pub expanded : Arena W
  expanded = freeseg_expand n base size s.arena

  pub segqueue-absorb_raw :
      (absorb seg n base size listed s).arena.segqueue
      ≡ remove seg.id (assign n.id (resized n base size) s.arena.segqueue)
  unfolding absorb list_remove
  segqueue-absorb_raw = ground (arith, segqueue-expand n base size s.arena)

  pub free_lists-absorb_raw :
      (j k : ℕ)
      → count j ((absorb seg n base size listed s).arena.freelist k)
        ≡ (if listed && seg.id == j then 0 else count j (expanded.freelist k))
  unfolding absorb list_remove
  free_lists-absorb_raw j k = ground (arith, count-erase seg.id j (expanded.freelist k))

  pub hash_lists-absorb_raw :
      (j k : ℕ)
      → count j ((absorb seg n base size listed s).arena.hashtab k)
        ≡ (if listed && seg.id == j then 0 else count j (expanded.hashtab k))
  unfolding absorb list_remove
  hash_lists-absorb_raw j k = ground (arith, count-erase seg.id j (expanded.hashtab k))

  pub span_list-absorb_raw :
      count seg.id expanded.spanlist ≡ 0
      → (absorb seg n base size listed s).arena.spanlist ≡ expanded.spanlist
  unfolding absorb list_remove
  span_list-absorb_raw h = ground (arith, erase_absent seg.id expanded.spanlist)

  pub pool-absorb : (absorb seg n base size listed s).pool ≡ pool_free seg.id s.pool
  unfolding absorb
  pool-absorb = refl
