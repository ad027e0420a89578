-- ===== src/Vmem/Invariant/Absorb.antt =====
-- Coalescing: a free neighbour takes in a segment.
use scal_ux.Vmem.Invariant.Expand.{
  Held, free_lists-absorb_raw, free_lists-expand, hash_lists-absorb_raw, hash_lists-expand,
  pool-absorb, segqueue-absorb_raw, span_list-absorb_raw, span_list-expand,
}
use scal_ux.Vmem.Arena.{State, freelist_index}
use scal_ux.Vmem.Free.{absorb, freeseg_expand, resized}
use scal_ux.Vmem.Invariant.{
  Inv, markers, markers-append, markers-le, on_bucket, on_bucket-le, on_freelist, on_freelist-le,
}
use scal_ux.Vmem.Segment.Chain.{Chain, Chain-mono, Chain-replace, allocated_at, end_of, within}
use scal_ux.Vmem.Segment.Surgery.{assign_lem, is_id, occ, occ-append, remove_lem}
use scal_ux.Prelude.{
  Bool, List, [], add64, ap, append_assoc, arith, bit, count, count-append, false, inl, inr, refl,
  subst, suc, sym, true, word, ℕ, ◌&&◌, ◌++◌, ◌+◌, ◌<◌, ◌==◌, ◌∙◌, ◌∷◌, ◌≡◌, ◌≢◌, ◌≤◌, ◌⊎◌,
}
use scal_ux.Vmem.Segment.{Seg, assign, is_allocated, is_free, is_imported, is_marker, remove}

-- The segment and its neighbour, in the order in which they stand on the queue.
abbrev pub pair : Bool → Seg → Seg → List Seg
pair true n seg = n ∷ seg ∷ []
pair false n seg = seg ∷ n ∷ []

remove-assign :
    (left : Bool) (n n' seg : Seg) (xs ys : List Seg)
    → n'.id ≡ n.id
    → n.id ≢ seg.id
    → occ (is_id n.id) xs ≡ 0
    → occ (is_id seg.id) xs ≡ 0
    → remove seg.id (assign n.id n' (xs ++ (pair left n seg ++ ys))) ≡ xs ++ (n' ∷ ys)
remove-assign true n n' seg xs ys same other fn fs =
    rw (assign_lem n.id n n' (seg ∷ ys) refl xs fn, ← append_assoc xs (n' ∷ []) (seg ∷ ys))
      (remove_lem seg.id seg n' ys refl (xs ++ n' ∷ [])
          (ground (arith, occ-append (is_id seg.id) xs (n' ∷ [])))
        ∙ append_assoc xs (n' ∷ []) ys)
remove-assign false n n' seg xs ys same other fn fs =
    rw
      (
        ← append_assoc xs (seg ∷ []) (n ∷ ys),
        assign_lem n.id n n' ys refl (xs ++ seg ∷ [])
            (ground (arith, occ-append (is_id n.id) xs (seg ∷ []))),
        append_assoc xs (seg ∷ []) (n' ∷ ys),
      )
      (remove_lem seg.id seg n' (n' ∷ ys) refl xs fs)

occ-pair :
    (p : Seg → Bool) (left : Bool) (n seg : Seg) (ys : List Seg)
    → occ p (pair left n seg ++ ys) ≡ bit (p n) + bit (p seg) + occ p ys
occ-pair p true n seg ys = omega arith
occ-pair p false n seg ys = omega arith

-- Where the merged segment lies.
abbrev pub merged_base : Bool → Seg → Seg → ℕ
merged_base true n seg = n.base
merged_base false n seg = seg.base

Chain-merge :
    (left : Bool) (n seg : Seg) (ys : List Seg) (l h : ℕ)
    → l ≤ h
    → h < word
    → is_free n.type ≡ true
    → is_marker seg.type ≡ false
    → Chain l h (pair left n seg ++ ys)
    → Chain l h (resized n (merged_base left n seg) (add64 n.size seg.size) ∷ ys)
Chain-merge true n seg ys l h m w f k c =
    ground (arith, Chain-mono ys (end_of seg) (n.base + add64 n.size seg.size) h)
Chain-merge false n seg ys l h m w f k c =
    ground (arith, Chain-mono ys (end_of n) (seg.base + add64 n.size seg.size) h)

markers-pair_plain :
    (left : Bool) (n seg : Seg) (ys : List Seg)
    → is_free n.type ≡ true
    → is_marker seg.type ≡ false
    → markers (pair left n seg ++ ys) ≡ markers ys
markers-pair_plain true n seg ys f k = ground arith
markers-pair_plain false n seg ys f k = ground arith

-- A segment, its free neighbour, and the queue around the two.
module _ {W : Type 0} (seg n : Seg) (left listed : Bool) (s : State W) (xs ys : List Seg)
    (q : s.arena.segqueue ≡ xs ++ (pair left n seg ++ ys)) (v : Held listed seg.id s)
    (free_n : is_free n.type ≡ true) (plain_seg : is_marker seg.type ≡ false)
    (kind : is_free seg.type ≡ listed) where
  abbrev merged : Seg
  merged = resized n (merged_base left n seg) (add64 n.size seg.size)

  abbrev merged_state : State W
  merged_state = absorb seg n (merged_base left n seg) (add64 n.size seg.size) listed s

  occ-before :
      (p : Seg → Bool) → occ p s.arena.segqueue ≡ occ p xs + (bit (p n) + bit (p seg) + occ p ys)
  occ-before p =
      rw q
        (occ-append p xs (pair left n seg ++ ys) ∙ ap (◌+◌ (occ p xs)) (occ-pair p left n seg ys))

  Held-parts :
      (j : ℕ)
      → count j s.pool.free_segs
          + (occ (is_id j) xs + (bit (j == n.id) + bit (j == seg.id) + occ (is_id j) ys))
        ≤ 1
  Held-parts j = omega (arith, v.unique j, occ-before (is_id j))

  apart : n.id ≢ seg.id
  apart e = ground (arith, Held-parts seg.id)

  before_fresh : (occ (is_id n.id) xs ≡ 0) × (occ (is_id seg.id) xs ≡ 0)
  before_fresh = ground (arith, Held-parts n.id, Held-parts seg.id)

  segqueue-absorb : merged_state.arena.segqueue ≡ xs ++ (merged ∷ ys)
  segqueue-absorb =
      segqueue-absorb_raw seg n (merged_base left n seg) (add64 n.size seg.size) listed s
      ∙ (ap (λ (l : List Seg). remove seg.id (assign n.id merged l)) q
          ∙ remove-assign left n merged seg xs ys refl apart before_fresh.0 before_fresh.1)

  occ-after :
      (p : Seg → Bool) → occ p merged_state.arena.segqueue ≡ occ p xs + (bit (p merged) + occ p ys)
  occ-after p = rw segqueue-absorb (occ-append p xs (merged ∷ ys))

  -- How often `n` is on the freelists and in the buckets.
  listed_n : (k : ℕ) → count n.id (s.arena.freelist k) ≡ bit (k == freelist_index n.size)
  listed_n k = ground (
    arith,
    v.free_lists n.id k,
    occ-before (on_freelist n.id k),
    Held-parts n.id,
    on_freelist-le n.id k xs,
    on_freelist-le n.id k ys,
    apart,
  )

  unhashed_n : (k : ℕ) → count n.id (s.arena.hashtab k) ≡ 0
  unhashed_n k = ground (
    arith,
    v.hash_lists n.id k,
    occ-before (on_bucket n.id k),
    Held-parts n.id,
    on_bucket-le n.id k xs,
    on_bucket-le n.id k ys,
    apart,
  )

  free_lists-absorb :
      (j k : ℕ)
      → count j (merged_state.arena.freelist k) ≡ occ (on_freelist j k) merged_state.arena.segqueue
  free_lists-absorb j k = ground (
    arith,
    free_lists-absorb_raw seg n (merged_base left n seg) (add64 n.size seg.size) listed s j k,
    free_lists-expand n (merged_base left n seg) (add64 n.size seg.size) s.arena listed_n j k,
    v.free_lists j k,
    occ-before (on_freelist j k),
    occ-after (on_freelist j k),
    Held-parts j,
    on_freelist-le j k xs,
    on_freelist-le j k ys,
    apart,
  )

  hash_lists-absorb :
      (j k : ℕ)
      → count j (merged_state.arena.hashtab k) ≡ occ (on_bucket j k) merged_state.arena.segqueue
  hash_lists-absorb j k = ground (
    arith,
    hash_lists-absorb_raw seg n (merged_base left n seg) (add64 n.size seg.size) listed s j k,
    hash_lists-expand n (merged_base left n seg) (add64 n.size seg.size) s.arena unhashed_n j k,
    v.hash_lists j k,
    occ-before (on_bucket j k),
    occ-after (on_bucket j k),
    Held-parts j,
    on_bucket-le j k xs,
    on_bucket-le j k ys,
    apart,
  )

  unique-absorb :
      (j : ℕ) → count j merged_state.pool.free_segs + occ (is_id j) merged_state.arena.segqueue ≤ 1
  unique-absorb j =
      rw (pool-absorb seg n (merged_base left n seg) (add64 n.size seg.size) listed s)
        (omega (arith, occ-after (is_id j), Held-parts j))

  chained-absorb : Chain 0 0 merged_state.arena.segqueue
  chained-absorb = rw segqueue-absorb (
      Chain-replace xs (pair left n seg ++ ys) (merged ∷ ys) 0 0 (omega arith) (omega arith)
        (λ l h m w c. Chain-merge left n seg ys l h m w free_n plain_seg c)
        (subst (Chain 0 0) q v.chained))

  markers-pair : markers (pair left n seg ++ ys) ≡ markers ys
  markers-pair = markers-pair_plain left n seg ys free_n plain_seg

  markers-before : markers s.arena.segqueue ≡ markers xs ++ markers ys
  markers-before =
      rw q (markers-append xs (pair left n seg ++ ys) ∙ ap (◌++◌ (markers xs)) markers-pair)

  markers-after : markers merged_state.arena.segqueue ≡ markers xs ++ markers ys
  markers-after =
      rw segqueue-absorb
        (markers-append xs (merged ∷ ys) ∙ ap (◌++◌ (markers xs)) (ground (arith, free_n)))

  unmarked : (j : ℕ) → (j ≡ n.id) ⊎ (j ≡ seg.id) → count j s.arena.spanlist ≡ 0
  unmarked j e =
      rw (v.span_list, markers-before)
        (ground (
          arith,
          count-append j (markers xs) (markers ys),
          markers-le j xs,
          markers-le j ys,
          Held-parts j,
        ))

  span_list-absorb : merged_state.arena.spanlist ≡ markers merged_state.arena.segqueue
  span_list-absorb =
      span_list-absorb_raw seg n (merged_base left n seg) (add64 n.size seg.size) listed s
        (ap (count seg.id) kept ∙ unmarked seg.id (inr refl))
      ∙ (kept ∙ (v.span_list ∙ (markers-before ∙ sym markers-after)))
    where
      kept :
          (freeseg_expand n (merged_base left n seg) (add64 n.size seg.size) s.arena).spanlist
          ≡ s.arena.spanlist
      kept =
          span_list-expand n (merged_base left n seg) (add64 n.size seg.size) s.arena
            (unmarked n.id (inl refl))

  -- A merge ends with everything on its list.
  pub absorb-Inv : Inv merged_state
  absorb-Inv = record {
    linked = record {
      free_lists = free_lists-absorb;
      hash_lists = hash_lists-absorb;
      span_list = span_list-absorb;
    };
    unique = unique-absorb;
    counted =
        rw (pool-absorb seg n (merged_base left n seg) (add64 n.size seg.size) listed s)
          (ap suc v.counted);
    chained = chained-absorb;
  }

  pub segqueue-merged : merged_state.arena.segqueue ≡ xs ++ (merged ∷ ys)
  segqueue-merged = segqueue-absorb

  -- The bytes of an allocated segment are no longer allocated.
  pub allocated_at-absorb :
      (x : ℕ)
      → allocated_at x merged_state.arena.segqueue + bit (is_allocated seg.type && within x seg)
        ≡ allocated_at x s.arena.segqueue
  allocated_at-absorb x = ground (
    arith,
    occ-before (λ t. is_allocated t.type && within x t),
    occ-after (λ t. is_allocated t.type && within x t),
    free_n,
  )

  -- Span markers are left alone.
  pub imported-absorb :
      occ (λ t. is_imported t.type) merged_state.arena.segqueue
      ≡ occ (λ t. is_imported t.type) s.arena.segqueue
  imported-absorb = ground (
    arith,
    occ-before (λ t. is_imported t.type),
    occ-after (λ t. is_imported t.type),
    free_n,
    plain_seg,
  )
