-- ===== src/Vmem/Xalloc/Correct.antt =====
-- vmem_xalloc as a whole, on an arena without a backing source and with a filled pool.
use scal_ux.Vmem.Segment.{Seg, is_free, seg_at}
use scal_ux.Vmem.Segment.Chain.{At-end-lt-word, end_of}
use scal_ux.Vmem.Segment.Surgery.{seg_at-At}
use scal_ux.Vmem.Alloc.{fit, search_or_import, vmem_xalloc}
use scal_ux.Vmem.Arena.{Flags, Result, State, ok, seg_alloc, seg_refill}
use scal_ux.Vmem.Invariant.{Inv}
use scal_ux.Vmem.Invariant.Split.{Ready}
use scal_ux.Vmem.Xalloc.{Allocated, NoWrap, Outcome, exhausted, success}
use scal_ux.Vmem.Xalloc.Search.{search-Outcome}
use scal_ux.Prelude.{
  Bool, List, Option, [], ap, arith, count, false, inl, length, none, refl, some, subst, sym, true,
  word, ℕ, ◌-◌, ◌<◌, ◌∷◌, ◌≡◌, ◌≢◌, ◌≤◌, ◌⊎◌,
}

-- seg_refill does nothing: it is not called, or finds enough structures.
abbrev pub PoolIsFull : {W : Type 0} → Flags → State W → Type 0
PoolIsFull flags s = (flags.bootstrap ≡ true) ⊎ (128 ≤ s.pool.nfreesegs)

module _ {W : Type 0} (kalloc : ℕ → State W → Option (Option (List ℕ) × State W)) where
  -- The state once the two structures are taken.
  abbrev taken : List ℕ → State W → State W
  taken rest s = record s {
    pool = record { free_segs = rest; nfreesegs = s.pool.nfreesegs - 1 - 1 };
  }

  xalloc-search :
      (size nocross min left right : ℕ) (rest : List ℕ) (flags : Flags) (s : State W)
      → s.pool.free_segs ≡ left ∷ right ∷ rest
      → PoolIsFull flags s
      → 0 < size
      → (min ≡ 0) ⊎ (flags.exact ≡ true)
      → vmem_xalloc kalloc size 0 0 nocross min 0 flags s
        ≡ search_or_import size min flags left right (taken rest s)
  unfolding vmem_xalloc seg_alloc seg_refill
  xalloc-search size nocross min left right rest flags s p full pos m = ground arith

  taken-Ready :
      (left right : ℕ) (rest : List ℕ) (s : State W)
      → s.pool.free_segs ≡ left ∷ right ∷ rest
      → Inv s
      → Ready left right (taken rest s)
  taken-Ready left right rest s p v = record {
    linked = record {
      free_lists = v.linked.free_lists;
      hash_lists = v.linked.hash_lists;
      span_list = v.linked.span_list;
    };
    unique = λ i. omega (arith, v.unique i, ap (count i) p);
    counted = omega (arith, v.counted, ap length p);
    chained = v.chained;
  }

  Outcome-taken :
      (size min left right : ℕ) (rest : List ℕ) (flags : Flags) (s : State W)
      → s.pool.free_segs ≡ left ∷ right ∷ rest
      → (r : Option (Result × State W)) → Outcome 0 size min flags (taken rest s) r
      → Outcome 2 size min flags s r
  Outcome-taken size min left right rest flags s p r (success addr t a) = success addr t (record {
    inv = a.inv;
    now_allocated = a.now_allocated;
    was_free = a.was_free;
    at_min = a.at_min;
  })
  Outcome-taken size min left right rest flags s p r (exhausted t a b c) =
      exhausted t a (omega (arith, b, ap length p)) c

  xalloc-Outcome :
      (size nocross min : ℕ) (flags : Flags) (s : State W) (l : List ℕ)
      → s.pool.free_segs ≡ l
      → 2 ≤ length l
      → Inv s
      → s.arena.source ≡ none
      → PoolIsFull flags s
      → 0 < size
      → (min ≡ 0) ⊎ (flags.exact ≡ true)
      → NoWrap size min s.arena.segqueue
      → Outcome 2 size min flags s (vmem_xalloc kalloc size 0 0 nocross min 0 flags s)
  xalloc-Outcome size nocross min flags s [] p two v none_behind full pos m w = absurd (omega arith)
  xalloc-Outcome size nocross min flags s (left ∷ []) p two v none_behind full pos m w =
      absurd (omega arith)
  xalloc-Outcome size nocross min flags s (left ∷ right ∷ rest) p two v none_behind full pos m w =
      rw (xalloc-search size nocross min left right rest flags s p full pos m) (
        Outcome-taken size min left right rest flags s p _ (
          search-Outcome left right (taken rest s) (taken-Ready left right rest s p v) size min
            flags pos (record { at_min = w.at_min; at_seg = w.at_seg }) none_behind))

  pub vmem_xalloc-Outcome :
      (size nocross min : ℕ) (flags : Flags) (s : State W)
      → Inv s
      → 2 ≤ length s.pool.free_segs
      → s.arena.source ≡ none
      → PoolIsFull flags s
      → 0 < size
      → (min ≡ 0) ⊎ (flags.exact ≡ true)
      → NoWrap size min s.arena.segqueue
      → Outcome 2 size min flags s (vmem_xalloc kalloc size 0 0 nocross min 0 flags s)
  vmem_xalloc-Outcome size nocross min flags s v two none_behind full pos m w =
      xalloc-Outcome size nocross min flags s s.pool.free_segs refl two v none_behind full pos m w

  -- An allocation that would not wrap and fits somewhere is made.
  fits_somewhere :
      (size min : ℕ) (flags : Flags) (s : State W) (i : ℕ) (seg : Seg)
      (r : Option (Result × State W))
      → seg_at i s.arena.segqueue ≡ some seg
      → is_free seg.type ≡ true
      → size ≤ seg.size
      → fit size min flags.exact seg ≢ none
      → Outcome 2 size min flags s r
      → (addr : ℕ) × (t : State W) × (r ≡ some (ok addr, t)) × Allocated size min flags addr s t
  fits_somewhere size min flags s i seg r at f h n (success addr t a) = (addr, t, refl, a)
  fits_somewhere size min flags s i seg r at f h n (exhausted t a b c) = absurd (n (c i seg at f h))

  fit_anywhere :
      (size : ℕ) (seg : Seg) → size ≤ seg.size → end_of seg < word → fit size 0 false seg ≢ none
  unfolding fit
  fit_anywhere size seg h w e = ground arith

  -- On an arena with the invariant and without a backing source, with two structures in the pool, where the
  -- pool is not refilled (the flag for the start, or 128 structures), and where no base of a segment plus
  -- the size wraps, a call that is not exact, for a size that is not 0, succeeds whenever some free segment
  -- is large enough, with what an allocation does.
  pub vmem_xalloc_succeeds :
      (size nocross : ℕ) (flags : Flags) (s : State W) (i : ℕ) (seg : Seg)
      → Inv s
      → 2 ≤ length s.pool.free_segs
      → s.arena.source ≡ none
      → PoolIsFull flags s
      → flags.exact ≡ false
      → 0 < size
      → NoWrap size 0 s.arena.segqueue
      → seg_at i s.arena.segqueue ≡ some seg
      → is_free seg.type ≡ true
      → size ≤ seg.size
      → (addr : ℕ) × (t : State W) × (vmem_xalloc kalloc size 0 0 nocross 0 0 flags s
          ≡ some (ok addr, t))
        × Allocated size 0 flags addr s t
  vmem_xalloc_succeeds size nocross flags s i seg v two none_behind full plain pos w at f h =
      fits_somewhere size 0 flags s i seg _ at f h
        (subst (λ (b : Bool). fit size 0 b seg ≢ none) (sym plain)
          (fit_anywhere size seg h (
            At-end-lt-word i seg s.arena.segqueue v.chained (seg_at-At i s.arena.segqueue seg at))))
        (vmem_xalloc-Outcome size nocross 0 flags s v two none_behind full pos (inl refl) w)
