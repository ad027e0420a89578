-- ===== src/Vmem/Xfree/Correct.antt =====
-- vmem_xfree as a whole.
use scal_ux.Vmem.Alloc.Search.{On}
use scal_ux.Vmem.Invariant.Lookup.{HashSeg, on_bucket_pos, on_bucket-HashSeg}
use scal_ux.Vmem.Xfree.{FoundBase, absent, find_base-FoundBase, imported_spans, present}
use scal_ux.Vmem.Xfree.Coalesce.{LeftDone, coalesce_left-LeftDone, coalesce_right-Stage}
use scal_ux.Vmem.Arena.{State, hashbucket_for_addr, list_remove, seg_free}
use scal_ux.Vmem.Free.{
  coalesce_left, coalesce_right, find_base, free_seg, queue_remove, settle, vmem_xfree,
}
use scal_ux.Vmem.Invariant.{
  Inv, markers, markers-append, on_bucket, on_bucket-le, on_freelist, on_freelist-le,
}
use scal_ux.Vmem.Segment.Chain.{Chain, Chain-drop, Chain-replace, allocated_at, within}
use scal_ux.Vmem.Segment.Surgery.{At, is_id, occ, occ-append, remove_lem, seg_at-At}
use scal_ux.Prelude.{
  Bool, List, Option, [], ap, append_assoc, arith, bit, count, false, int32, none, refl, some,
  subst, suc, sym, true, ℕ, ◌&&◌, ◌++◌, ◌+◌, ◌==◌, ◌>>=◌, ◌∙◌, ◌∷◌, ◌≡◌, ◌≢◌, ◌≤◌,
}
use scal_ux.Vmem.Segment.{Seg, is_allocated, is_imported, remove, seg_at}
use scal_ux.Vmem.Xfree.Stages.{Held-Inv, Stage, Stage-bytes, start-Stage}

-- What freeing the segment `seg` does.
pub record Freed {W : Type 0} (seg : Seg) (s t : State W) : Type 0 where
  pub inv : Inv t
  pub no_longer_allocated :
      (x : ℕ)
      → allocated_at x t.arena.segqueue + bit (within x seg) ≡ allocated_at x s.arena.segqueue

-- What the call returns, with what that says. It panics exactly where nothing is allocated.
pub data FreeOutcome {W : Type 0} (addr : ℕ) (s : State W) : Option (ℕ × State W) → Type 0 where
  freed :
      (seg : Seg) (t : State W)
      → seg_at seg.id s.arena.segqueue ≡ some seg
      → is_allocated seg.type ≡ true
      → seg.base ≡ addr
      → Freed seg s t
      → FreeOutcome addr s (some (int32 seg.size, t))
  unknown :
      ((i : ℕ) (seg : Seg)
        → seg_at i s.arena.segqueue ≡ some seg
        → is_allocated seg.type ≡ true
        → seg.base ≢ addr)
      → FreeOutcome addr s none

module _ {W : Type 0} (seg0 : Seg) (s0 : State W) (seg before : Seg) (s : State W)
    (g : Stage false seg0 s0 seg before s) where
  abbrev dropped : State W
  dropped = seg_free seg.id (record s { arena = queue_remove seg.id s.arena })

  front : List Seg
  front = g.front ++ (before ∷ [])

  whole : s.arena.segqueue ≡ front ++ (seg ∷ g.back)
  unfolding front
  whole = g.whole ∙ sym (append_assoc g.front (before ∷ []) (seg ∷ g.back))

  parts :
      (j : ℕ)
      → count j s.pool.free_segs
          + (occ (is_id j) front + (bit (j == seg.id) + occ (is_id j) g.back))
        ≤ 1
  parts j =
      omega (
        arith,
        g.held.unique j,
        ap (occ (is_id j)) whole,
        occ-append (is_id j) front (seg ∷ g.back),
      )

  queue_dropped : dropped.arena.segqueue ≡ front ++ g.back
  queue_dropped =
      ap (remove seg.id) whole
      ∙ remove_lem seg.id seg seg g.back refl front (ground (arith, parts seg.id))

  occ_dropped :
      (p : Seg → Bool) → occ p s.arena.segqueue ≡ occ p dropped.arena.segqueue + bit (p seg)
  occ_dropped p = omega (
    arith,
    ap (occ p) whole,
    ap (occ p) queue_dropped,
    occ-append p front (seg ∷ g.back),
    occ-append p front g.back,
  )

  markers_dropped : markers s.arena.segqueue ≡ markers dropped.arena.segqueue
  markers_dropped =
      ap markers whole
      ∙ (markers-append front (seg ∷ g.back)
          ∙ (ap (◌++◌ (markers front)) (ground (arith, g.plain))
              ∙ sym (ap markers queue_dropped ∙ markers-append front g.back)))

  pub dropped-Inv : Inv dropped
  dropped-Inv = record {
    linked = record {
      free_lists = λ j n. ground (
        arith,
        g.held.free_lists j n,
        occ_dropped (on_freelist j n),
        on_freelist-le j n front,
        on_freelist-le j n g.back,
        parts j,
        ap (occ (on_freelist j n)) queue_dropped,
        occ-append (on_freelist j n) front g.back,
      );
      hash_lists = λ j n. ground (
        arith,
        g.held.hash_lists j n,
        occ_dropped (on_bucket j n),
        on_bucket-le j n front,
        on_bucket-le j n g.back,
        parts j,
        ap (occ (on_bucket j n)) queue_dropped,
        occ-append (on_bucket j n) front g.back,
      );
      span_list = g.held.span_list ∙ markers_dropped;
    };
    unique = λ j. omega (arith, g.held.unique j, occ_dropped (is_id j));
    counted = ap suc g.held.counted;
    chained = rw queue_dropped (
        Chain-replace front (seg ∷ g.back) g.back 0 0 (omega arith) (omega arith)
          (λ l h m w c. Chain-drop seg g.back l h g.plain c)
          (subst (Chain 0 0) whole g.held.chained));
  }

  pub dropped_bytes :
      (x : ℕ)
      → allocated_at x dropped.arena.segqueue + bit (within x seg0)
        ≡ allocated_at x s0.arena.segqueue
  dropped_bytes x =
      Stage-bytes seg0 s0 false seg before s g x _
        (sym (occ_dropped (λ t. is_allocated t.type && within x t)))

module _ {W : Type 0} (seg0 : Seg) (s0 : State W) where
  settle_cases :
      (listed : Bool) (seg before : Seg) (s : State W)
      → Stage listed seg0 s0 seg before s
      → is_imported before.type ≡ false
      → (t : State W) × (settle seg before listed s ≡ some t) × Freed seg0 s0 t
  unfolding settle
  settle_cases true seg before s g local = (
    s,
    rw local refl,
    record { inv = Held-Inv seg0 s0 seg.id s g.held; no_longer_allocated = g.bytes },
  )
  settle_cases false seg before s g local = (
    seg_free seg.id (record s { arena = queue_remove seg.id s.arena }),
    rw local refl,
    record {
      inv = dropped-Inv seg0 s0 seg before s g;
      no_longer_allocated = dropped_bytes seg0 s0 seg before s g;
    },
  )

  -- The segment in front is no imported marker, since there is none.
  local_before :
      (listed : Bool) (seg before : Seg) (s : State W)
      → Stage listed seg0 s0 seg before s
      → is_imported before.type ≡ false
  local_before listed seg before s g = ground (
    arith,
    g.no_imports,
    ap (occ (λ t. is_imported t.type)) g.whole,
    occ-append (λ t. is_imported t.type) g.front (before ∷ seg ∷ g.back),
  )

  -- The rest of the call, once the left side is done.
  right_and_settle :
      (l : LeftDone seg0 s0
        (coalesce_left seg0 (record s0 { arena = list_remove seg0.id s0.arena })))
      → (t : State W) × (free_seg seg0 s0 ≡ some (int32 seg0.size, t)) × Freed seg0 s0 t
  unfolding free_seg
  right_and_settle l =
      let h : Stage (coalesce_right l.seg l.listed l.state).1 seg0 s0
          (coalesce_right l.seg l.listed l.state).0 l.before
          (coalesce_right l.seg l.listed l.state).2 =
        coalesce_right-Stage seg0 s0 l.listed l.seg l.before l.state l.stage in
      let (t, f, done) = settle_cases _ _ l.before _ h (local_before _ _ l.before _ h) in
      (t, rw (l.result, ◌>>=◌) (rw (f, ◌>>=◌) refl), done)

module _ {W : Type 0} (s : State W) (v : Inv s) (local : imported_spans s.arena.segqueue ≡ 0) where
  pub free_seg-Freed :
      (seg : Seg)
      → At seg.id seg s.arena.segqueue
      → is_allocated seg.type ≡ true
      → (t : State W) × (free_seg seg s ≡ some (int32 seg.size, t)) × Freed seg s t
  free_seg-Freed seg at busy =
      let (left, e, g) = start-Stage seg s v at busy local in
      right_and_settle seg s (coalesce_left-LeftDone seg s seg left _ e g)

  bucket-Leads : (n : ℕ) (i : ℕ) → On (s.arena.hashtab n) i → HashSeg s.arena.segqueue i n
  bucket-Leads n i p =
      on_bucket-HashSeg s.arena.segqueue i n (omega (arith, v.linked.hash_lists i n))
        (omega (arith, v.unique i))

  xfree_found :
      (addr : ℕ) (r : Option (Option Seg))
      → find_base addr s.arena.segqueue (s.arena.hashtab (hashbucket_for_addr addr)) ≡ r
      → FoundBase addr s.arena.segqueue (s.arena.hashtab (hashbucket_for_addr addr)) r
      → FreeOutcome addr s (vmem_xfree addr s)
  unfolding vmem_xfree
  xfree_found addr r e (absent h) = rw e (
      unknown (λ i seg at busy same.
        h i seg
          (subst (λ (a : ℕ). On (s.arena.hashtab (hashbucket_for_addr a)) i) same
            (omega (
              arith,
              v.linked.hash_lists i (hashbucket_for_addr seg.base),
              on_bucket_pos s.arena.segqueue i seg at busy,
            )))
          at same))
  xfree_found addr r e (present i seg p at same) =
      let (t, a, busy, b, c) = bucket-Leads (hashbucket_for_addr addr) i p in
      let here : t ≡ seg = ground arith in
      let busy_seg : is_allocated seg.type ≡ true =
        subst (λ (u : Seg). is_allocated u.type ≡ true) here busy in
      let at_id : seg_at seg.id s.arena.segqueue ≡ some seg = ground arith in
      let (u, f, done) =
        free_seg-Freed seg (seg_at-At seg.id s.arena.segqueue seg at_id) busy_seg in
      rw e (rw (f, ◌>>=◌) (freed seg u at_id busy_seg same done))

  -- In an arena with the invariant and without imported spans, the call panics only when no
  -- allocated segment starts at the address. Otherwise it returns that segment's size, cut to the
  -- 32 bits of an int; exactly the segment's bytes are no longer allocated, and the invariant holds.
  pub vmem_xfree-FreeOutcome : (addr : ℕ) → FreeOutcome addr s (vmem_xfree addr s)
  vmem_xfree-FreeOutcome addr = xfree_found addr _ refl (
      find_base-FoundBase addr s.arena.segqueue (s.arena.hashtab (hashbucket_for_addr addr))
        (λ i p. let (t, a, busy, b, c) = bucket-Leads (hashbucket_for_addr addr) i p in (t, a)))
