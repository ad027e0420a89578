-- ===== src/Vmem/Tests.antt =====
-- The steps of the test program at the end of vmem.c, and what they leave.
use scal_ux.Vmem.Xfree.Correct.{FreeOutcome, vmem_xfree-FreeOutcome}
use scal_ux.Vmem.Invariant.{Inv}
use scal_ux.Vmem.Xalloc.Correct.{vmem_xalloc_succeeds}
use scal_ux.Prelude.{
  List, Option, [], arith, false, if◌then◌else◌, inl, map, none, refl, some, suc, true, zero, ℕ,
  ◌==◌, ◌>>=◌, ◌∷◌, ◌≡◌,
}
use scal_ux.Vmem.Xalloc.{Allocated, NoWrap}
use scal_ux.Vmem.Segment.{Seg, SegType, allocated, free, span}
use scal_ux.Vmem.Arena.{Flags, Result, State, freelist_index, hashbucket_for_addr, ok}
use scal_ux.Vmem.Alloc.{vmem_xalloc}
use scal_ux.Vmem.Free.{vmem_xfree}
use scal_ux.Vmem.Init.{vmem_earlyinit, vmem_init}

abbrev plain : Flags
plain = record { no_sleep = false; exact = false; bootstrap = false }

abbrev exact_flags : Flags
exact_flags = record { no_sleep = false; exact = true; bootstrap = false }

-- `n` structures from the address `i` on.
abbrev chunks : ℕ → ℕ → List ℕ
chunks zero i = []
chunks (suc n) i = i ∷ chunks n (suc i)

abbrev malloc_block : ℕ → State (Unit {0}) → Option (Option (List ℕ) × State (Unit {0}))
malloc_block flags s = some (some (chunks 63 1000), s)

abbrev hello : Option (State (Unit {0}))
unfolding vmem_earlyinit vmem_init
hello =
    vmem_init 0 0x1000000 0x1000 none plain
      (vmem_earlyinit 0 (record { free_segs = []; nfreesegs = 0 })) tt

abbrev views : List Seg → List (SegType × ℕ × ℕ)
views = map λ s. (s.type, s.base, s.size)

exact_run : Option (Result × List (SegType × ℕ × ℕ))
unfolding vmem_xalloc vmem_init vmem_earlyinit
exact_run = do
  s ← hello
  (r, s1) ← vmem_xalloc malloc_block 0x2000 0 0 0 0x2000 0 exact_flags s
  (r2, s2) ← vmem_xalloc malloc_block 0x2000 0 0 0 0 0 plain s1
  (r3, s3) ← vmem_xfree 0x2000 s2
  some (r2, views s3.arena.segqueue)

-- Two pages, the first of them allocated.
abbrev boot : Flags
boot = record { no_sleep = false; exact = false; bootstrap = true }

abbrev span_seg : Seg
span_seg = record { id = 1; type = span; base = 0x1000; size = 0x2000 }

abbrev busy_seg : Seg
busy_seg = record { id = 2; type = allocated; base = 0x1000; size = 0x1000 }

abbrev free_seg : Seg
free_seg = record { id = 3; type = free; base = 0x2000; size = 0x1000 }

two_pages : State (Unit {0})
two_pages = record {
  arena = record {
    base = 0x1000;
    size = 0x2000;
    quantum = 0x1000;
    flags = plain;
    source = none;
    segqueue = span_seg ∷ busy_seg ∷ free_seg ∷ [];
    freelist = λ n. if n == freelist_index 0x1000 then 3 ∷ [] else [];
    hashtab = λ n. if n == hashbucket_for_addr 0x1000 then 2 ∷ [] else [];
    spanlist = 1 ∷ [];
  };
  pool = record { free_segs = 10 ∷ 11 ∷ []; nfreesegs = 2 };
  backing = tt;
}

two_pages-Inv : Inv two_pages
unfolding two_pages
two_pages-Inv = record {
  linked = record {
    free_lists = λ i n. ground arith;
    hash_lists = λ i n. ground arith;
    span_list = refl;
  };
  unique = λ i. ground arith;
  counted = refl;
  chained = omega arith;
}

two_pages-NoWrap : NoWrap 0x800 0 two_pages.arena.segqueue
unfolding two_pages
two_pages-NoWrap = record { at_min = omega arith; at_seg = λ i seg e. ground arith }

vmem_xalloc_succeeds_example :
    (addr : ℕ) × (t : State (Unit {0})) × (vmem_xalloc malloc_block 0x800 0 0 0 0 0 boot two_pages
      ≡ some (ok addr, t))
    × Allocated 0x800 0 boot addr two_pages t
unfolding two_pages
vmem_xalloc_succeeds_example =
    vmem_xalloc_succeeds malloc_block 0x800 0 boot two_pages 3 free_seg two_pages-Inv (omega arith)
      refl (inl refl) refl (omega arith) two_pages-NoWrap refl refl (omega arith)

vmem_xfree-FreeOutcome_example : FreeOutcome 0x1000 two_pages (vmem_xfree 0x1000 two_pages)
unfolding two_pages
vmem_xfree-FreeOutcome_example = vmem_xfree-FreeOutcome two_pages two_pages-Inv refl 0x1000
