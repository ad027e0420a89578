-- ===== src/Vmem/Xalloc.antt =====
-- vmem_xalloc on an arena without a backing source: what it returns and what it leaves.
pub mod Search
pub mod Correct
use scal_ux.Vmem.Arena.{Flags, Result, State, err, ok, resource_exhausted}
use scal_ux.Vmem.Invariant.{Inv}
use scal_ux.Vmem.Invariant.Split.{Holds}
use scal_ux.Vmem.Segment.Chain.{allocated_at, end_of, free_at}
use scal_ux.Prelude.{
  Bool, List, Option, arith, bit, leb, length, ltb, none, some, true, word, ℕ, ◌&&◌, ◌+◌, ◌<◌, ◌≡◌,
  ◌≤◌,
}
use scal_ux.Vmem.Alloc.{fit}
use scal_ux.Vmem.Segment.{Seg, is_free, seg_at}

-- No sum of the search wraps around: neither at `min` nor at the base of a segment.
pub record NoWrap (size min : ℕ) (q : List Seg) : Type 0 where
  pub at_min : min + size < word
  pub at_seg : (i : ℕ) (seg : Seg) → seg_at i q ≡ some seg → seg.base + size < word

-- What a successful allocation has done.
pub record Allocated {W : Type 0} (size min : ℕ) (flags : Flags) (addr : ℕ) (s t : State W)
    : Type 0 where
  pub inv : Inv t
  pub now_allocated :
      (x : ℕ)
      → allocated_at x t.arena.segqueue
        ≡ allocated_at x s.arena.segqueue + bit (leb addr x && ltb x (addr + size))
  pub was_free :
      (x : ℕ)
      → free_at x t.arena.segqueue + bit (leb addr x && ltb x (addr + size))
        ≡ free_at x s.arena.segqueue
  pub at_min : flags.exact ≡ true → addr ≡ min

-- What the call returns, with what that says; `lost` structures are gone from the pool when it fails.
pub data Outcome {W : Type 0} (lost size min : ℕ) (flags : Flags) (s : State W)
    : Option (Result × State W) → Type 0 where
  success :
      (addr : ℕ) (t : State W)
      → Allocated size min flags addr s t
      → Outcome lost size min flags s (some (ok addr, t))
  exhausted :
      (t : State W)
      → t.arena ≡ s.arena
      → length t.pool.free_segs + lost ≡ length s.pool.free_segs
      → ((i : ℕ) (seg : Seg)
          → seg_at i s.arena.segqueue ≡ some seg
          → is_free seg.type ≡ true
          → size ≤ seg.size
          → fit size min flags.exact seg ≡ none)
      → Outcome lost size min flags s (some (err resource_exhausted, t))

-- An address that fits lies in the segment, when no sum wraps.
pub fit-Holds :
    (size min : ℕ) (exact : Bool) (seg : Seg) (addr : ℕ)
    → fit size min exact seg ≡ some addr
    → is_free seg.type ≡ true
    → 0 < size
    → min + size < word
    → seg.base + size < word
    → end_of seg < word
    → Holds seg addr size × (exact ≡ true → addr ≡ min)
unfolding fit
fit-Holds size min exact seg addr e f p a b c = ground arith
