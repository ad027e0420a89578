-- ===== src/Vmem/Invariant/Carve.antt =====
-- split_seg: what it makes of the queue and the lists.
use scal_ux.Vmem.Invariant.{on_bucket, on_freelist}
use scal_ux.Prelude.{
  Bool-cases, List, [], add64, append-nil, append_assoc, arith, bit, count, count-erase, erase,
  if◌then◌else◌, inl, inr, length, ltb, refl, sub64, sym, ℕ, ◌++◌, ◌+◌, ◌==◌, ◌∙◌, ◌∷◌, ◌≡◌, ◌≢◌,
}
use scal_ux.Vmem.Segment.Surgery.{
  assign_lem, insert_after_lem, insert_before_lem, is_id, occ, occ-append,
}
use scal_ux.Vmem.Segment.{Seg, allocated, free}
use scal_ux.Vmem.Arena.{State, freelist_insert, hashtab_insert, list_remove}
use scal_ux.Vmem.Alloc.{carve, split_left, split_right, take_middle}

-- The parts that stay free.
abbrev pub left_part : Seg → ℕ → ℕ → List Seg
left_part seg left addr =
    if ltb seg.base addr
    then (record { id = left; type = free; base = seg.base; size = sub64 addr seg.base }) ∷ []
    else []

abbrev pub right_part : Seg → ℕ → ℕ → ℕ → List Seg
right_part seg right addr size =
    if ltb (add64 addr size) (add64 seg.base seg.size)
    then (record {
      id = right;
      type = free;
      base = add64 addr size;
      size = sub64 (add64 seg.base seg.size) (add64 addr size);
    })
      ∷ []
    else []

abbrev pub middle : Seg → ℕ → ℕ → Seg
middle seg addr size = record { id = seg.id; type = allocated; base = addr; size = size }

-- The pieces that take the place of the segment.
abbrev pub pieces : Seg → ℕ → ℕ → ℕ → ℕ → List Seg
pieces seg left right addr size =
    left_part seg left addr ++ (middle seg addr size ∷ right_part seg right addr size)

left_part_fresh :
    (seg : Seg) (left addr : ℕ) (xs : List Seg)
    → occ (is_id seg.id) xs ≡ 0
    → left ≢ seg.id
    → occ (is_id seg.id) (xs ++ left_part seg left addr) ≡ 0
left_part_fresh seg left addr xs f l =
    ground (arith, occ-append (is_id seg.id) xs (left_part seg left addr))

module _ {W : Type 0} where
  pub segqueue-split_left :
      (seg : Seg) (left addr : ℕ) (s : State W) (xs ys : List Seg)
      → s.arena.segqueue ≡ xs ++ (seg ∷ ys)
      → occ (is_id seg.id) xs ≡ 0
      → (split_left seg left addr s).arena.segqueue ≡ (xs ++ left_part seg left addr) ++ (seg ∷ ys)
  unfolding split_left freelist_insert
  segqueue-split_left seg left addr s xs ys q f = elim (Bool-cases (ltb seg.base addr)) [
    | inl e ↦ rw (e, q) (insert_before_lem seg.id seg _ ys refl xs f ∙ sym (append_assoc xs _ _))
    | inr e ↦ rw (e, append-nil) q
  ]

  pub segqueue-split_right :
      (seg : Seg) (right addr size : ℕ) (s : State W) (xs ys : List Seg)
      → s.arena.segqueue ≡ xs ++ (seg ∷ ys)
      → occ (is_id seg.id) xs ≡ 0
      → (split_right seg right addr size s).arena.segqueue
        ≡ xs ++ (seg ∷ (right_part seg right addr size ++ ys))
  unfolding split_right freelist_insert
  segqueue-split_right seg right addr size s xs ys q f =
      elim (Bool-cases (ltb (add64 addr size) (add64 seg.base seg.size))) [
        | inl e ↦ rw (e, q) (insert_after_lem seg.id seg _ ys refl xs f)
        | inr e ↦ rw e q
      ]

  pub segqueue-carve :
      (seg : Seg) (left right addr size : ℕ) (s : State W) (xs ys : List Seg)
      → s.arena.segqueue ≡ xs ++ (seg ∷ ys)
      → occ (is_id seg.id) xs ≡ 0
      → left ≢ seg.id
      → (carve seg left right addr size s).arena.segqueue
        ≡ xs ++ (pieces seg left right addr size ++ ys)
  unfolding carve list_remove take_middle hashtab_insert
  segqueue-carve seg left right addr size s xs ys q f l = rw q2 (
      assign_lem seg.id seg mid (right_part seg right addr size ++ ys) refl lefts fresh
      ∙ simp append_assoc)
    where
      mid : Seg
      mid = middle seg addr size

      lefts : List Seg
      lefts = xs ++ left_part seg left addr

      fresh : occ (is_id seg.id) lefts ≡ 0
      fresh = left_part_fresh seg left addr xs f l

      s1 : State W
      s1 = split_left seg left addr (record s { arena = list_remove seg.id s.arena })

      q2 :
          (split_right seg right addr size s1).arena.segqueue
          ≡ lefts ++ (seg ∷ (right_part seg right addr size ++ ys))
      q2 =
          segqueue-split_right seg right addr size s1 lefts ys
            (segqueue-split_left seg left addr _ xs ys q f) fresh

-- What a split does to the lists and the pool, when `spare` is the structure that it was given and
-- `new` what it put on the queue.
pub record Adds {W : Type 0} (new : List Seg) (spare : ℕ) (s t : State W) : Type 0 where
  pub free_lists :
      (i n : ℕ)
      → count i (t.arena.freelist n) ≡ count i (s.arena.freelist n) + occ (on_freelist i n) new
  pub hash_lists : t.arena.hashtab ≡ s.arena.hashtab
  pub span_list : t.arena.spanlist ≡ s.arena.spanlist
  pub pooled :
      (i : ℕ)
      → count i t.pool.free_segs + occ (is_id i) new ≡ count i s.pool.free_segs + bit (i == spare)
  pub counted :
      s.pool.nfreesegs ≡ length s.pool.free_segs → t.pool.nfreesegs ≡ length t.pool.free_segs

module _ {W : Type 0} where
  pub Adds-split_left :
      (seg : Seg) (left addr : ℕ) (s : State W)
      → Adds (left_part seg left addr) left s (split_left seg left addr s)
  unfolding split_left freelist_insert
  Adds-split_left seg left addr s = record {
    free_lists = λ i n. ground arith;
    hash_lists = ground arith;
    span_list = ground arith;
    pooled = λ i. ground arith;
    counted = λ h. ground arith;
  }

  pub Adds-split_right :
      (seg : Seg) (right addr size : ℕ) (s : State W)
      → Adds (right_part seg right addr size) right s (split_right seg right addr size s)
  unfolding split_right freelist_insert
  Adds-split_right seg right addr size s = record {
    free_lists = λ i n. ground arith;
    hash_lists = ground arith;
    span_list = ground arith;
    pooled = λ i. ground arith;
    counted = λ h. ground arith;
  }

  module _ (seg : Seg) (left right addr size : ℕ) (s : State W) where
    abbrev unlinked : State W
    unlinked = record s { arena = list_remove seg.id s.arena }

    abbrev one_side : State W
    one_side = split_left seg left addr unlinked

    pub free_lists-carve :
        (i n : ℕ)
        → count i ((carve seg left right addr size s).arena.freelist n)
          ≡ (if seg.id == i then 0 else count i (s.arena.freelist n))
            + occ (on_freelist i n) (left_part seg left addr)
            + occ (on_freelist i n) (right_part seg right addr size)
    unfolding carve list_remove take_middle hashtab_insert
    free_lists-carve i n = omega (
      arith,
      (Adds-split_right seg right addr size one_side).free_lists i n,
      (Adds-split_left seg left addr unlinked).free_lists i n,
      count-erase seg.id i (s.arena.freelist n),
    )

    pub hash_lists-carve :
        (i n : ℕ)
        → count i ((carve seg left right addr size s).arena.hashtab n)
          ≡ (if seg.id == i then 0 else count i (s.arena.hashtab n))
            + bit (on_bucket i n (middle seg addr size))
    unfolding carve list_remove take_middle hashtab_insert
    hash_lists-carve i n =
        rw
          (
            (Adds-split_right seg right addr size one_side).hash_lists,
            (Adds-split_left seg left addr unlinked).hash_lists,
          )
          (ground (arith, count-erase seg.id i (s.arena.hashtab n)))

    pub span_list-carve :
        (carve seg left right addr size s).arena.spanlist ≡ erase seg.id s.arena.spanlist
    unfolding carve list_remove take_middle hashtab_insert
    span_list-carve =
        (Adds-split_right seg right addr size one_side).span_list
        ∙ (Adds-split_left seg left addr unlinked).span_list

    pub pooled-carve :
        (i : ℕ)
        → count i (carve seg left right addr size s).pool.free_segs
            + occ (is_id i) (left_part seg left addr)
            + occ (is_id i) (right_part seg right addr size)
          ≡ count i s.pool.free_segs + bit (i == left) + bit (i == right)
    unfolding carve
    pooled-carve i = omega (
      arith,
      (Adds-split_right seg right addr size one_side).pooled i,
      (Adds-split_left seg left addr unlinked).pooled i,
    )

    pub counted-carve :
        s.pool.nfreesegs ≡ length s.pool.free_segs
        → (carve seg left right addr size s).pool.nfreesegs
          ≡ length (carve seg left right addr size s).pool.free_segs
    unfolding carve
    counted-carve h =
        (Adds-split_right seg right addr size one_side).counted
          ((Adds-split_left seg left addr unlinked).counted h)
