-- ===== src/Vmem/Invariant/Split.antt =====
-- split_seg keeps the invariant.
use scal_ux.Vmem.Alloc.{carve}
use scal_ux.Vmem.Arena.{State}
use scal_ux.Vmem.Invariant.{
  Inv, IsLinked, markers, markers-append, markers-le, on_bucket, on_bucket-le, on_freelist,
  on_freelist-le,
}
use scal_ux.Vmem.Invariant.Carve.{
  counted-carve, free_lists-carve, hash_lists-carve, left_part, middle, pieces, pooled-carve,
  right_part, segqueue-carve, span_list-carve,
}
use scal_ux.Vmem.Segment.{Seg, is_allocated, is_free}
use scal_ux.Vmem.Segment.Chain.{
  Chain, Chain-part, Chain-replace, allocated_at, end_of, free_at, within,
}
use scal_ux.Vmem.Segment.Surgery.{is_id, occ, occ-append}
use scal_ux.Prelude.{
  Bool, List, ap, arith, bit, count, count-append, erase_absent, leb, length, ltb, subst, true,
  word, ℕ, ◌&&◌, ◌++◌, ◌+◌, ◌<◌, ◌==◌, ◌∙◌, ◌∷◌, ◌≡◌, ◌≢◌, ◌≤◌,
}

-- Between the allocation of the two structures and their use they are in neither place.
pub record Ready {W : Type 0} (left right : ℕ) (s : State W) : Type 0 where
  pub linked : IsLinked s.arena
  pub unique :
      (i : ℕ)
      → count i s.pool.free_segs
          + bit (i == left)
          + bit (i == right)
          + occ (is_id i) s.arena.segqueue
        ≤ 1
  pub counted : s.pool.nfreesegs ≡ length s.pool.free_segs
  pub chained : Chain 0 0 s.arena.segqueue

-- The segment holds the allocation.
pub record Holds (seg : Seg) (addr size : ℕ) : Type 0 where
  pub is_free_seg : is_free seg.type ≡ true
  pub low : seg.base ≤ addr
  pub high : addr + size ≤ end_of seg
  pub nonempty : 0 < size

pub Chain-pieces :
    (seg : Seg) (left right addr size : ℕ) (ys : List Seg) (l h : ℕ)
    → Holds seg addr size
    → h < word
    → Chain l h (seg ∷ ys)
    → Chain l h (pieces seg left right addr size ++ ys)
Chain-pieces seg left right addr size ys l h v b c = ground arith

-- A segment and the queue around it, and the two structures to split it with.
module _ {W : Type 0} (seg : Seg) (left right addr size : ℕ) (s : State W) (xs ys : List Seg)
    (q : s.arena.segqueue ≡ xs ++ (seg ∷ ys)) (v : Holds seg addr size)
    (r : Ready left right s) where
  abbrev split_state : State W
  split_state = carve seg left right addr size s

  -- How often an address is counted around the segment.
  Ready-parts :
      (i : ℕ)
      → count i s.pool.free_segs
          + bit (i == left)
          + bit (i == right)
          + (occ (is_id i) xs + (bit (i == seg.id) + occ (is_id i) ys))
        ≤ 1
  Ready-parts i =
      subst (λ n. count i s.pool.free_segs + bit (i == left) + bit (i == right) + n ≤ 1)
        (ap (occ (is_id i)) q ∙ occ-append (is_id i) xs (seg ∷ ys)) (r.unique i)

  fresh_before : occ (is_id seg.id) xs ≡ 0
  fresh_before = ground (arith, Ready-parts seg.id)

  left_fresh : left ≢ seg.id
  left_fresh e = ground (arith, Ready-parts seg.id)

  whole : split_state.arena.segqueue ≡ xs ++ (pieces seg left right addr size ++ ys)
  whole = segqueue-carve seg left right addr size s xs ys q fresh_before left_fresh

  occ-whole :
      (p : Seg → Bool)
      → occ p split_state.arena.segqueue
        ≡ occ p xs
          + (occ p (left_part seg left addr)
              + (bit (p (middle seg addr size)) + occ p (right_part seg right addr size))
              + occ p ys)
  occ-whole p = rw (
    whole,
    occ-append p xs (pieces seg left right addr size ++ ys),
    occ-append p (pieces seg left right addr size) ys,
    occ-append p (left_part seg left addr) (middle seg addr size ∷ right_part seg right addr size),
  )

  occ-old : (p : Seg → Bool) → occ p s.arena.segqueue ≡ occ p xs + (bit (p seg) + occ p ys)
  occ-old p = rw q (occ-append p xs (seg ∷ ys))

  free_lists-split :
      (i n : ℕ)
      → count i (split_state.arena.freelist n) ≡ occ (on_freelist i n) split_state.arena.segqueue
  free_lists-split i n = ground (
    arith,
    free_lists-carve seg left right addr size s i n,
    occ-whole (on_freelist i n),
    occ-old (on_freelist i n),
    r.linked.free_lists i n,
    Ready-parts i,
    on_freelist-le i n xs,
    on_freelist-le i n ys,
    v.is_free_seg,
  )

  hash_lists-split :
      (i n : ℕ)
      → count i (split_state.arena.hashtab n) ≡ occ (on_bucket i n) split_state.arena.segqueue
  hash_lists-split i n = ground (
    arith,
    hash_lists-carve seg left right addr size s i n,
    occ-whole (on_bucket i n),
    occ-old (on_bucket i n),
    r.linked.hash_lists i n,
    Ready-parts i,
    on_bucket-le i n xs,
    on_bucket-le i n ys,
    v.is_free_seg,
  )

  markers-old : markers s.arena.segqueue ≡ markers xs ++ markers ys
  markers-old = rw (q, markers-append xs (seg ∷ ys)) (ground (arith, v.is_free_seg))

  markers-whole : markers split_state.arena.segqueue ≡ markers xs ++ markers ys
  markers-whole =
      rw (whole, markers-append xs (pieces seg left right addr size ++ ys))
        (ap (◌++◌ (markers xs)) (ground arith))

  span_list-split : split_state.arena.spanlist ≡ markers split_state.arena.segqueue
  span_list-split =
      rw
        (span_list-carve seg left right addr size s, markers-whole, r.linked.span_list, markers-old)
        (erase_absent seg.id (markers xs ++ markers ys) (
          ground (
            arith,
            count-append seg.id (markers xs) (markers ys),
            markers-le seg.id xs,
            markers-le seg.id ys,
            Ready-parts seg.id,
          )))

  unique-split :
      (i : ℕ) → count i split_state.pool.free_segs + occ (is_id i) split_state.arena.segqueue ≤ 1
  unique-split i =
      omega (arith, pooled-carve seg left right addr size s i, occ-whole (is_id i), Ready-parts i)

  chained-split : Chain 0 0 split_state.arena.segqueue
  chained-split = rw whole (
      Chain-replace xs (seg ∷ ys) (pieces seg left right addr size ++ ys) 0 0 (omega arith)
        (omega arith) (λ l h m w c. Chain-pieces seg left right addr size ys l h v w c)
        (subst (Chain 0 0) q r.chained))

  -- The split keeps the invariant.
  pub carve-Inv : Inv split_state
  carve-Inv = record {
    linked = record {
      free_lists = free_lists-split;
      hash_lists = hash_lists-split;
      span_list = span_list-split;
    };
    unique = unique-split;
    counted = counted-carve seg left right addr size s r.counted;
    chained = chained-split;
  }

  end-lt-word : end_of seg < word
  end-lt-word =
      Chain-part xs (seg ∷ ys) 0 0 (omega arith) (omega arith) (λ l h m w c. ground arith)
        (subst (Chain 0 0) q r.chained)

  -- The bytes of the allocation, and no others, change from free to allocated.
  pub allocated_at-carve :
      (x : ℕ)
      → allocated_at x split_state.arena.segqueue
        ≡ allocated_at x s.arena.segqueue + bit (leb addr x && ltb x (addr + size))
  allocated_at-carve x = ground (
    arith,
    occ-whole (λ t. is_allocated t.type && within x t),
    occ-old (λ t. is_allocated t.type && within x t),
    end-lt-word,
    v.low,
    v.high,
    v.is_free_seg,
  )

  pub free_at-carve :
      (x : ℕ)
      → free_at x split_state.arena.segqueue + bit (leb addr x && ltb x (addr + size))
        ≡ free_at x s.arena.segqueue
  free_at-carve x = ground (
    arith,
    occ-whole (λ t. is_free t.type && within x t),
    occ-old (λ t. is_free t.type && within x t),
    end-lt-word,
    v.low,
    v.high,
    v.is_free_seg,
  )
