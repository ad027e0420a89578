-- ===== src/Vmem/Invariant/Lookup.antt =====
-- From a pointer on a list of the arena to the structure on the queue, and back.
use scal_ux.Vmem.Arena.{freelist_index, hashbucket_for_addr}
use scal_ux.Vmem.Invariant.{
  markers, markers-append, markers-le, on_bucket, on_bucket-le, on_freelist, on_freelist-le,
}
use scal_ux.Vmem.Segment.Surgery.{At, is_id, occ, occ-append}
use scal_ux.Prelude.{
  Bool-cases, List, [], ap, arith, count, count-append, false, inl, inr, refl, some, true, ℕ, ◌<◌,
  ◌==◌, ◌∷◌, ◌≡◌, ◌≤◌,
}
use scal_ux.Vmem.Segment.{Seg, is_allocated, is_free, is_marker, seg_at}

-- The structure at `i`, on freelist `n`.
abbrev pub FreeSeg : List Seg → ℕ → ℕ → Type 0
FreeSeg q i n =
    (s : Seg) × (seg_at i q ≡ some s)
    × (is_free s.type ≡ true)
    × (n ≡ freelist_index s.size)
    × (i ≡ s.id)

FreeSeg-cons :
    (x : Seg) (q : List Seg) (i n : ℕ) → (i == x.id) ≡ false → FreeSeg q i n → FreeSeg (x ∷ q) i n
FreeSeg-cons x q i n e (s, a, b, c, d) = (s, rw e a, b, c, d)

pub on_freelist-FreeSeg :
    (q : List Seg) (i n : ℕ) → 0 < occ (on_freelist i n) q → occ (is_id i) q ≤ 1 → FreeSeg q i n
on_freelist-FreeSeg [] i n p u = absurd (omega arith)
on_freelist-FreeSeg (x ∷ q) i n p u = elim (Bool-cases (i == x.id)) [
  | inl e ↦
      let here : (is_free x.type ≡ true) × (n ≡ freelist_index x.size) × (i ≡ x.id) =
        ground (arith, on_freelist-le i n q) in
      (x, rw e refl, here.0, here.1, here.2)
  | inr e ↦ FreeSeg-cons x q i n e (on_freelist-FreeSeg q i n (ground arith) (ground arith))
]

pub on_freelist_pos :
    (q : List Seg) (i : ℕ) (s : Seg)
    → seg_at i q ≡ some s
    → is_free s.type ≡ true
    → 0 < occ (on_freelist i (freelist_index s.size)) q
on_freelist_pos [] i s e f = cc
on_freelist_pos (x ∷ q) i s e f = ground (arith, on_freelist_pos q i s)

-- The structure at `i`, in hash bucket `n`.
abbrev pub HashSeg : List Seg → ℕ → ℕ → Type 0
HashSeg q i n =
    (s : Seg) × (seg_at i q ≡ some s)
    × (is_allocated s.type ≡ true)
    × (n ≡ hashbucket_for_addr s.base)
    × (i ≡ s.id)

HashSeg-cons :
    (x : Seg) (q : List Seg) (i n : ℕ) → (i == x.id) ≡ false → HashSeg q i n → HashSeg (x ∷ q) i n
HashSeg-cons x q i n e (s, a, b, c, d) = (s, rw e a, b, c, d)

pub on_bucket-HashSeg :
    (q : List Seg) (i n : ℕ) → 0 < occ (on_bucket i n) q → occ (is_id i) q ≤ 1 → HashSeg q i n
on_bucket-HashSeg [] i n p u = absurd (omega arith)
on_bucket-HashSeg (x ∷ q) i n p u = elim (Bool-cases (i == x.id)) [
  | inl e ↦
      let here : (is_allocated x.type ≡ true) × (n ≡ hashbucket_for_addr x.base) × (i ≡ x.id) =
        ground (arith, on_bucket-le i n q) in
      (x, rw e refl, here.0, here.1, here.2)
  | inr e ↦ HashSeg-cons x q i n e (on_bucket-HashSeg q i n (ground arith) (ground arith))
]

pub on_bucket_pos :
    (q : List Seg) (i : ℕ) (s : Seg)
    → seg_at i q ≡ some s
    → is_allocated s.type ≡ true
    → 0 < occ (on_bucket i (hashbucket_for_addr s.base)) q
on_bucket_pos [] i s e f = cc
on_bucket_pos (x ∷ q) i s e f = ground (arith, on_bucket_pos q i s)

-- A segment that is no marker is not on the span list.
pub At-unmarked :
    (s : Seg) (q : List Seg)
    → At s.id s q
    → is_marker s.type ≡ false
    → occ (is_id s.id) q ≤ 1
    → count s.id (markers q) ≡ 0
At-unmarked s q a plain u =
    rw (a.whole, markers-append a.before (s ∷ a.after))
      (ground (
        arith,
        count-append s.id (markers a.before) (markers (s ∷ a.after)),
        markers-le s.id a.before,
        markers-le s.id a.after,
        ap (occ (is_id s.id)) a.whole,
        occ-append (is_id s.id) a.before (s ∷ a.after),
        a.fresh,
      ))
