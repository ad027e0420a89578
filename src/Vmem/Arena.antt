-- ===== src/Vmem/Arena.antt =====
-- The arena of vmem_impl.h, its freelists, hash table and span list, and the pool of segment
-- structures (`free_segs` and `nfreesegs` of vmem.c). A LIST_REMOVE takes a structure off the one
-- list that links it, so here it is taken off every list of the arena.
pub mod Index
use scal_ux.Prelude.{
  ◌>>◌, Bool, List, Option, [], bit_xor, erase, if◌then◌else◌, leb, mul64, none, some, suc, update,
  zero, ℕ, ◌%◌, ◌-◌, ◌/◌, ◌==◌, ◌>>=◌, ◌^◌, ◌∷◌,
}
use scal_ux.Vmem.Segment.{Seg}

-- kNFreeLists and kNHashBuckets.
abbrev pub nfreelists : ℕ
nfreelists = 64

abbrev pub nhashbuckets : ℕ
nhashbuckets = 16

-- ERESOURCEEXHAUSTED
abbrev pub resource_exhausted : ℕ
resource_exhausted = 1200

-- vmem_flag_t, a set of bits; kVMemSleep is the empty set.
pub record Flags : Type 0 where
  pub no_sleep : Bool
  pub exact : Bool
  pub bootstrap : Bool

-- A call returns 0 with an address, or minus an error number.
pub data Result : Type 0 where
  ok : ℕ → Result
  err : ℕ → Result

pub record SegPool : Type 0 where
  pub free_segs : List ℕ
  pub nfreesegs : ℕ

-- allocfn, freefn and the arena behind them, of type `W`. They share the pool.
pub record Source (W : Type 0) : Type 0 where
  pub allocfn : ℕ → Flags → SegPool × W → Option (Result × (SegPool × W))
  pub freefn : ℕ → ℕ → SegPool × W → Option (SegPool × W)

pub record Arena (W : Type 0) : Type 0 where
  pub base : ℕ
  pub size : ℕ
  pub quantum : ℕ
  pub flags : Flags
  pub source : Option (Source W)
  pub segqueue : List Seg
  pub freelist : ℕ → List ℕ
  pub hashtab : ℕ → List ℕ
  pub spanlist : List ℕ

-- What an operation may change: its arena, the pool, and the backing arena.
pub record State (W : Type 0) : Type 0 where
  pub arena : Arena W
  pub pool : SegPool
  pub backing : W

-- The number of binary digits, for the compiler's __builtin_clzl on 64-bit words.
unfoldable pub bit_length : ℕ → ℕ → ℕ
bit_length zero n = 0
bit_length (suc f) n = let rest = bit_length f (n / 2) in if n == 0 then 0 else suc rest

unfoldable pub clzl : ℕ → ℕ
unfolding bit_length
clzl n = 64 - bit_length 64 n

unfoldable pub freelist_index : ℕ → ℕ
unfolding clzl
freelist_index size = 64 - clzl size - 1

abbrev shift_mix : ℕ → ℕ
shift_mix h = bit_xor h (h / 2 ^ 33)

unfoldable pub murmur64 : ℕ → ℕ
murmur64 h =
    shift_mix (mul64 (shift_mix (mul64 (shift_mix h) 0xff51afd7ed558ccd)) 0xc4ceb9fe1a85ec53)

unfoldable pub hashbucket_for_addr : ℕ → ℕ
unfolding murmur64
hashbucket_for_addr addr = murmur64 addr % nhashbuckets

module _ {W : Type 0} where
  unfoldable pub freelist_insert : Seg → Arena W → Arena W
  freelist_insert s a = record a { freelist = update a.freelist k (s.id ∷ a.freelist k) }
    where
      k : ℕ
      k = freelist_index s.size

  unfoldable pub hashtab_insert : Seg → Arena W → Arena W
  hashtab_insert s a = record a { hashtab = update a.hashtab k (s.id ∷ a.hashtab k) }
    where
      k : ℕ
      k = hashbucket_for_addr s.base

  -- LIST_REMOVE(seg, seglist)
  unfoldable pub list_remove : ℕ → Arena W → Arena W
  list_remove i a = record a {
    freelist = λ n. erase i (a.freelist n);
    hashtab = λ n. erase i (a.hashtab n);
    spanlist = erase i a.spanlist;
  }

  seg_pop : List ℕ → State W → Option (ℕ × State W)
  seg_pop [] s = none
  seg_pop (i ∷ l) s =
      some (i, record s { pool = record { free_segs = l; nfreesegs = s.pool.nfreesegs - 1 } })

  unfoldable pub seg_alloc : State W → Option (ℕ × State W)
  unfolding seg_pop
  seg_alloc s = seg_pop s.pool.free_segs s

abbrev pub pool_free : ℕ → SegPool → SegPool
pool_free i p = record { free_segs = i ∷ p.free_segs; nfreesegs = suc p.nfreesegs }

module _ {W : Type 0} where
  abbrev pub seg_free : ℕ → State W → State W
  seg_free i s = record s { pool = pool_free i s.pool }

  seg_free_all : List ℕ → State W → State W
  seg_free_all [] s = s
  seg_free_all (i ∷ l) s = seg_free_all l (seg_free i s)

  -- `kalloc` is vm_kalloc(1, flags): it returns the structures of one fresh block, or NULL.
  -- `flags & kVMemSleep` is 0 whatever the flags are.
  unfoldable pub seg_refill :
      (ℕ → State W → Option (Option (List ℕ) × State W)) → Flags → State W → Option (State W)
  unfolding seg_free_all
  seg_refill kalloc flags s =
      if leb 128 s.pool.nfreesegs
      then some s
      else do (block, s') ← kalloc 0x2 s; chunks ← block; some (seg_free_all chunks s')
