-- ===== src/Vm/Fault/Duplicate.antt =====
-- vm/vm.c: a write to a page that several objects share gives this object a copy of it.
use scal_ux.Vm.Copy.{page_of}
use scal_ux.Vm.Fault.{Fault, on_present, unenter_if}
use scal_ux.Vm.Invariant.{Frames, Mapped}
use scal_ux.Vm.Invariant.Entering.{is_at, placed}
use scal_ux.Vm.Invariant.Leaving.{pmap_unenter-Mapped}
use scal_ux.Prelude.{
  ==_iff, Bool-cases, List, Option, ap, arith, false, inl, inr, none, refl, some, sym, update, ℕ,
  ◌==◌, ◌∙◌, ◌≡◌, ◌≢◌,
}
use scal_ux.Page.{Pages}
use scal_ux.Vm.{Anon, Mapping, PvEntry, Vm}
use scal_ux.Vm.Fault.Served.{is_mapped, is_some_mapping, not_mapped, placed_elsewhere, placed_here}

-- An anon with several references has no mapping that may be written, whatever its count becomes.
pub recount-Mapped :
    (s : Vm) (a n : ℕ) (r : Anon)
    → Mapped s.tables s.pv_table s.anons s.pages
    → s.anons a ≡ some r
    → r.refcnt ≢ 1
    → Mapped s.tables s.pv_table (update s.anons a (some (record r { refcnt = n }))) s.pages
recount-Mapped s a n r m is many = record {
  listed = m.listed;
  in_use = m.in_use;
  exclusive = λ map vaddr b e t h w owner same. elim (Bool-cases (a == b)) [
    | inl this ↦ absurd (many (m.exclusive map vaddr a e r h w is (ground (arith, owner, same))))
    | inr other ↦ m.exclusive map vaddr b e t h w (ground (arith, owner)) same
  ];
}

pub recount_page :
    (s : Vm) (a n : ℕ) (r : Anon)
    → s.anons a ≡ some r
    → (b : ℕ) → page_of (update s.anons a (some (record r { refcnt = n })) b) ≡ page_of (s.anons b)
recount_page s a n r is b = elim (Bool-cases (a == b)) [
  | inl this ↦ ground (arith, ap s.anons ((==_iff a b).0 this), is)
  | inr other ↦ ground arith
]

-- What a page holds is not a part of the invariant.
pub recopied-Frames :
    (A : ℕ → Option Anon) (P : Pages) (contents : ℕ → ℕ → ℕ)
    → Frames A P
    → Frames A (record P { contents = contents })
recopied-Frames A P contents f = record {
  queues = record { counted = f.queues.counted; once = f.queues.once; alone = f.queues.alone };
  taken = f.taken;
  apart = f.apart;
}

pub recopied-Mapped :
    (T : ℕ → ℕ → Option Mapping) (pv : ℕ → List PvEntry) (A : ℕ → Option Anon) (P : Pages)
    (contents : ℕ → ℕ → ℕ)
    → Mapped T pv A P
    → Mapped T pv A (record P { contents = contents })
recopied-Mapped T pv A P contents m = record {
  listed = m.listed;
  in_use = m.in_use;
  exclusive = m.exclusive;
}

-- The tables and lists from which the old mapping has gone, if there was one.
pub record Cleared (f : Fault) (page : ℕ) (s t : Vm) (T : ℕ → ℕ → Option Mapping)
    (pv : ℕ → List PvEntry) : Type 0 where
  pub run :
      unenter_if (on_present f.flags) f.map_of page f.vaddr t
      ≡ some (record t { tables = T; pv_table = pv })
  pub mapped : Mapped T pv t.anons t.pages
  pub nothing : T f.map_of f.vaddr ≡ none
  pub others :
      (map vaddr : ℕ) → is_at f.map_of f.vaddr map vaddr ≡ false → T map vaddr ≡ s.tables map vaddr

pub clear_old :
    (f : Fault) (page : ℕ) (s t : Vm)
    → t.tables ≡ s.tables
    → Mapped t.tables t.pv_table t.anons t.pages
    → on_present f.flags ≡ is_mapped (s.tables f.map_of f.vaddr)
    → ((e : Mapping) → s.tables f.map_of f.vaddr ≡ some e → e.frame ≡ page)
    → (T : ℕ → ℕ → Option Mapping) × (pv : ℕ → List PvEntry) × Cleared f page s t T pv
unfolding unenter_if
clear_old f page s t same m flag frame = elim (Bool-cases (on_present f.flags)) [
  | inl present ↦
      let (e, there) = is_some_mapping (s.tables f.map_of f.vaddr) (sym flag ∙ present) in
      let there' : t.tables f.map_of f.vaddr ≡ some e = ap (λ T. T f.map_of f.vaddr) same ∙ there in
      let (pv, run, m') =
        pmap_unenter-Mapped t m f.map_of f.vaddr (some page) e there' (sym (frame e there)) in
      (
        placed t.tables f.map_of f.vaddr none,
        pv,
        record {
          run = rw present run;
          mapped = m';
          nothing = placed_here t.tables f.map_of f.vaddr none;
          others = λ map vaddr other.
              placed_elsewhere t.tables f.map_of f.vaddr map vaddr none other
              ∙ ap (λ T. T map vaddr) same;
        },
      )
  | inr absent ↦ (
    t.tables,
    t.pv_table,
    record {
      run = rw absent refl;
      mapped = m;
      nothing =
          ap (λ T. T f.map_of f.vaddr) same
          ∙ not_mapped (s.tables f.map_of f.vaddr) (sym flag ∙ absent);
      others = λ map vaddr other. ap (λ T. T map vaddr) same;
    },
  )
]
