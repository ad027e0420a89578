-- ===== src/Vmem/Invariant.antt =====
-- What holds of an arena and the pool between operations.
pub mod Carve
pub mod Split
pub mod Expand
pub mod Absorb
pub mod Lookup
use scal_ux.Prelude.{
  Bool, List, [], arith, count, if◌then◌else◌, length, refl, ℕ, ◌&&◌, ◌++◌, ◌+◌, ◌==◌, ◌∷◌, ◌≡◌,
  ◌≤◌,
}
use scal_ux.Vmem.Segment.Surgery.{is_id, occ}
use scal_ux.Vmem.Segment.Chain.{Chain}
use scal_ux.Vmem.Segment.{Seg, is_allocated, is_free, is_marker}
use scal_ux.Vmem.Arena.{Arena, State, freelist_index, hashbucket_for_addr}

abbrev pub on_freelist : ℕ → ℕ → Seg → Bool
on_freelist i n s = i == s.id && (is_free s.type && n == freelist_index s.size)

abbrev pub on_bucket : ℕ → ℕ → Seg → Bool
on_bucket i n s = i == s.id && (is_allocated s.type && n == hashbucket_for_addr s.base)

-- The span markers of a queue, in its order.
abbrev pub markers : List Seg → List ℕ
markers [] = []
markers (s ∷ q) = let rest = markers q in if is_marker s.type then s.id ∷ rest else rest

pub record IsLinked {W : Type 0} (a : Arena W) : Type 0 where
  -- A freelist holds the free segments of its sizes, each once.
  pub free_lists : (i n : ℕ) → count i (a.freelist n) ≡ occ (on_freelist i n) a.segqueue
  -- A hash bucket holds the allocated segments of its addresses, each once.
  pub hash_lists : (i n : ℕ) → count i (a.hashtab n) ≡ occ (on_bucket i n) a.segqueue
  -- The span list holds the span markers in the order of the queue.
  pub span_list : a.spanlist ≡ markers a.segqueue

pub record Inv {W : Type 0} (s : State W) : Type 0 where
  pub linked : IsLinked s.arena
  -- No structure is in use twice, or in use and in the pool.
  pub unique : (i : ℕ) → count i s.pool.free_segs + occ (is_id i) s.arena.segqueue ≤ 1
  pub counted : s.pool.nfreesegs ≡ length s.pool.free_segs
  pub chained : Chain 0 0 s.arena.segqueue

pub markers-append : (xs ys : List Seg) → markers (xs ++ ys) ≡ markers xs ++ markers ys
markers-append [] ys = refl
markers-append (s ∷ xs) ys = ground (arith, markers-append xs ys)

-- A structure is counted under its address whatever else is asked of it.
pub on_freelist-le : (i n : ℕ) (q : List Seg) → occ (on_freelist i n) q ≤ occ (is_id i) q
on_freelist-le i n [] = omega arith
on_freelist-le i n (s ∷ q) = ground (arith, on_freelist-le i n q)

pub on_bucket-le : (i n : ℕ) (q : List Seg) → occ (on_bucket i n) q ≤ occ (is_id i) q
on_bucket-le i n [] = omega arith
on_bucket-le i n (s ∷ q) = ground (arith, on_bucket-le i n q)

pub markers-le : (i : ℕ) (q : List Seg) → count i (markers q) ≤ occ (is_id i) q
markers-le i [] = omega arith
markers-le i (s ∷ q) = ground (arith, markers-le i q)
