-- ===== src/Vmem/Init.antt =====
-- vmem.c: vmem_earlyinit, vmem_init and vmem_destroy.
use scal_ux.Prelude.{
  Bool, List, Option, [], assert, false, if◌then◌else◌, none, not, some, suc, true, zero, ℕ, ◌&&◌,
  ◌==◌, ◌>>=◌, ◌>>◌, ◌∷◌,
}
use scal_ux.Vmem.Segment.{Seg, first, span}
use scal_ux.Vmem.Arena.{Arena, Flags, SegPool, Source, State, nhashbuckets, pool_free}
use scal_ux.Vmem.Alloc.{vmem_add_internal}

-- The structures `first`, `first + 1`, … are freed one after the other.
unfoldable pub free_range : ℕ → ℕ → SegPool → SegPool
free_range zero first p = p
free_range (suc n) first p = free_range n (suc first) (pool_free first p)

-- `static_segs` are 128 structures from the address `first` on.
unfoldable pub vmem_earlyinit : ℕ → SegPool → SegPool
unfolding free_range
vmem_earlyinit first p = free_range 128 first p

no_source {ℓ} : {A : Type ℓ} → Option A → Bool
no_source none = true
no_source (some source) = false

module _ {W : Type 0} where
  abbrev pub empty_arena : ℕ → ℕ → ℕ → Option (Source W) → Flags → Arena W
  empty_arena base size quantum source flags = record {
    base = base;
    size = size;
    quantum = quantum;
    flags = flags;
    source = source;
    segqueue = [];
    freelist = λ _. [];
    hashtab = λ _. [];
    spanlist = [];
  }

  unfoldable pub vmem_init :
      (base size quantum : ℕ) → Option (Source W) → Flags → SegPool → W → Option (State W)
  unfolding no_source
  vmem_init base size quantum source flags pool backing =
      if not (size == 0) && no_source source
      then (vmem_add_internal span base size s >>= λ (_, s'). some s')
      else some s
    where
      s : State W
      s = record {
        arena = empty_arena base size quantum source flags;
        pool = pool;
        backing = backing;
      }

is_empty : List ℕ → Bool
is_empty [] = true
is_empty (i ∷ l) = false

all_empty : ℕ → (ℕ → List ℕ) → Bool
unfolding is_empty
all_empty zero t = true
all_empty (suc n) t = is_empty (t n) && all_empty n t

free_queue : List Seg → SegPool → SegPool
free_queue [] p = p
free_queue (s ∷ q) p = free_queue q (pool_free s.id p)

module _ {W : Type 0} where
  unfoldable pub vmem_destroy : State W → Option (State W)
  unfolding free_queue all_empty
  vmem_destroy s = do
    assert (all_empty nhashbuckets s.arena.hashtab)
    some (record s { pool = free_queue s.arena.segqueue s.pool })
