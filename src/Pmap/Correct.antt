-- ===== src/Pmap/Correct.antt =====
-- x86_64/vm.c: entering a page and taking it out, as pmap_trans sees it.
use scal_ux.Pmap.Descend.{Descended, pmap_descend-Descended}
use scal_ux.Pmap.Translate.{find-same_page, same_page, same_page-place}
use scal_ux.Prelude.{
  ==_iff, Bool-cases, ap, arith, false, if◌then◌else◌, inl, inr, length, refl, some, suc, sym, true,
  update, ℕ, ◌&&◌, ◌/◌, ◌==◌, ◌>>=◌, ◌∙◌, ◌≡◌, ◌≤◌,
}
use scal_ux.Page.{Pages, free_queue, page_bytes}
use scal_ux.Pmap.{index, is_present, pmap_enter_kern, pte_set, pte_value, vm_prot_to_i386}
use scal_ux.Pmap.Walk.{Homes, OnWay, Tree, above, find, find_elsewhere, frame}

-- A store to an entry of a table of level 0.
module _ (root : ℕ) (home : Homes) (s : Pages) (tree : Tree root home s) (table virt word : ℕ)
    (leaf : OnWay home 0 (table / page_bytes) virt) where
  abbrev pub stored : Pages
  stored = record s {
    contents =
        update s.contents (table / page_bytes)
          (update (s.contents (table / page_bytes)) (index 0 virt) word);
  }

  stored-others :
      (u k : ℕ)
      → ((u == table / page_bytes) && (k == index 0 virt)) ≡ false
      → stored.contents u k ≡ s.contents u k
  stored-others u k away = ground (arith, ap (λ w. s.contents w k), away)

  pub inner_kept : (u l p k : ℕ) → home u ≡ some (suc l, p) → stored.contents u k ≡ s.contents u k
  inner_kept u l p k h = stored-others u k (elim (Bool-cases (u == table / page_bytes)) [
    | inl this ↦ ground (arith, h, ap home ((==_iff u (table / page_bytes)).0 this), leaf)
    | inr other ↦ rw other refl
  ])

  pub stored-Tree : Tree root home stored
  stored-Tree = record {
    top = tree.top;
    child = λ u l p k h low present.
        let same : stored.contents u k ≡ s.contents u k = inner_kept u l p k h in
        ap (λ w. home (frame w)) same
        ∙ tree.child u l p k h low (sym (ap is_present same) ∙ present);
    taken = tree.taken;
    in_range = tree.in_range;
    free_frames = tree.free_frames;
    queues = record {
      counted = tree.queues.counted;
      once = tree.queues.once;
      alone = tree.queues.alone;
    };
  }

  pub stored-elsewhere : (v : ℕ) → same_page virt v ≡ false → find 3 root v stored ≡ find 3 root v s
  stored-elsewhere v h =
      find_elsewhere root home s stored tree (table / page_bytes) virt leaf stored-others 3 root v
        tree.top (sym (same_page-place virt v) ∙ h)

  pub stored_here : stored.contents (table / page_bytes) (index 0 virt) ≡ word
  stored_here = ground arith

-- The walk of an address whose tables are all there.
record Walk (s : Pages) (root t2 t1 t0 virt : ℕ) : Type 0 where
  present3 : is_present (s.contents root (index 3 virt)) ≡ true
  present2 : is_present (s.contents t2 (index 2 virt)) ≡ true
  present1 : is_present (s.contents t1 (index 1 virt)) ≡ true
  leads3 : frame (s.contents root (index 3 virt)) ≡ t2
  leads2 : frame (s.contents t2 (index 2 virt)) ≡ t1
  leads1 : frame (s.contents t1 (index 1 virt)) ≡ t0

Walk-find :
    (s : Pages) (root t2 t1 t0 virt : ℕ)
    → Walk s root t2 t1 t0 virt
    → find 3 root virt s ≡ s.contents t0 (index 0 virt)
unfolding find
Walk-find s root t2 t1 t0 virt w =
    rw w.present3 (rw w.leads3 (rw w.present2 (rw w.leads2 (rw w.present1 (rw w.leads1 refl)))))

-- The tables after pmap_enter_kern: a tree, in which the walks to the page end at the new entry, and all
-- others where they did.
pub record Entered (root : ℕ) (s : Pages) (phys virt prot : ℕ) (home : Homes) (t : Pages)
    : Type 0 where
  pub tree : Tree root home t
  pub finds :
      (v : ℕ)
      → find 3 root v t
        ≡ (if same_page virt v then pte_value phys (vm_prot_to_i386 prot) else find 3 root v s)

-- Three levels down, and the store of the new entry.
module _ (root : ℕ) (home home1 home2 home3 : Homes) (s s1 s2 s3 : Pages)
    (a2 a1 a0 phys virt prot : ℕ) (tree : Tree root home s)
    (d1 : Descended root home s 2 root virt a2 home1 s1)
    (d2 : Descended root home1 s1 1 (a2 / page_bytes) virt a1 home2 s2)
    (d3 : Descended root home2 s2 0 (a1 / page_bytes) virt a0 home3 s3) where
  abbrev entered : Pages
  entered = pte_set a0 (index 0 virt) phys (vm_prot_to_i386 prot) s3

  -- A link that was there after the first steps is there at the end.
  last_kept : (u l p k : ℕ) → home3 u ≡ some (suc l, p) → entered.contents u k ≡ s3.contents u k
  last_kept u l p k h =
      inner_kept root home3 s3 d3.tree a0 virt (pte_value phys (vm_prot_to_i386 prot)) d3.on_way u l
        p k h

  second_way : home2 (a2 / page_bytes) ≡ some (2, above 2 virt)
  second_way = d2.kept (a2 / page_bytes) (2, above 2 virt) d1.on_way

  root_at_end : entered.contents root (index 3 virt) ≡ s1.contents root (index 3 virt)
  root_at_end =
      last_kept root 2 0 (index 3 virt) (d3.kept root (3, 0) d2.tree.top)
      ∙ d3.older root (index 3 virt) (3, 0) d2.tree.top
          (ap is_present (d2.older root (index 3 virt) (3, 0) d1.tree.top d1.linked) ∙ d1.linked)
      ∙ d2.older root (index 3 virt) (3, 0) d1.tree.top d1.linked

  second_at_end :
      entered.contents (a2 / page_bytes) (index 2 virt)
      ≡ s2.contents (a2 / page_bytes) (index 2 virt)
  second_at_end =
      last_kept (a2 / page_bytes) 1 (above 2 virt) (index 2 virt)
        (d3.kept (a2 / page_bytes) (2, above 2 virt) second_way)
      ∙ d3.older (a2 / page_bytes) (index 2 virt) (2, above 2 virt) second_way d2.linked

  third_at_end :
      entered.contents (a1 / page_bytes) (index 1 virt)
      ≡ s3.contents (a1 / page_bytes) (index 1 virt)
  third_at_end =
      last_kept (a1 / page_bytes) 0 (above 1 virt) (index 1 virt)
        (d3.kept (a1 / page_bytes) (1, above 1 virt) d2.on_way)

  entered-Walk : Walk entered root (a2 / page_bytes) (a1 / page_bytes) (a0 / page_bytes) virt
  entered-Walk = record {
    present3 = ap is_present root_at_end ∙ d1.linked;
    present2 = ap is_present second_at_end ∙ d2.linked;
    present1 = ap is_present third_at_end ∙ d3.linked;
    leads3 = ap frame root_at_end ∙ d1.leads;
    leads2 = ap frame second_at_end ∙ d2.leads;
    leads1 = ap frame third_at_end ∙ d3.leads;
  }

  found_here : find 3 root virt entered ≡ pte_value phys (vm_prot_to_i386 prot)
  found_here =
      Walk-find entered root (a2 / page_bytes) (a1 / page_bytes) (a0 / page_bytes) virt entered-Walk
      ∙ stored_here root home3 s3 d3.tree a0 virt (pte_value phys (vm_prot_to_i386 prot)) d3.on_way

  entered-Entered : Entered root s phys virt prot home3 entered
  entered-Entered = record {
    tree =
        stored-Tree root home3 s3 d3.tree a0 virt (pte_value phys (vm_prot_to_i386 prot)) d3.on_way;
    finds = λ v. elim (Bool-cases (same_page virt v)) [
      | inl same ↦ rw same (find-same_page virt v 3 root entered same ∙ found_here)
      | inr other ↦ rw other (
          stored-elsewhere root home3 s3 d3.tree a0 virt (pte_value phys (vm_prot_to_i386 prot))
            d3.on_way v other
          ∙ d3.finds 3 root v d2.tree.top
          ∙ d2.finds 3 root v d1.tree.top
          ∙ d1.finds 3 root v tree.top)
    ];
  }

pub pmap_enter_kern-Entered :
    (pml4 : ℕ) (home : Homes) (s : Pages) (phys virt prot : ℕ)
    → Tree (pml4 / page_bytes) home s
    → 3 ≤ length (s.queue free_queue)
    → (t : Pages) × (home' : Homes) × (pmap_enter_kern pml4 phys virt prot s ≡ some t)
      × Entered (pml4 / page_bytes) s phys virt prot home' t
unfolding pmap_enter_kern
pmap_enter_kern-Entered pml4 home s phys virt prot tree room =
    let root : ℕ = pml4 / page_bytes in
    let (a2, s1, home1, run1, d1) =
      pmap_descend-Descended root home s tree 2 pml4 virt tree.top (omega arith) in
    let (a1, s2, home2, run2, d2) =
      pmap_descend-Descended root home1 s1 d1.tree 1 a2 virt d1.on_way
        (omega (arith, d1.free_left)) in
    let (a0, s3, home3, run3, d3) =
      pmap_descend-Descended root home2 s2 d2.tree 0 a1 virt d2.on_way
        (omega (arith, d1.free_left, d2.free_left)) in
    (
      entered root home home1 home2 home3 s s1 s2 s3 a2 a1 a0 phys virt prot tree d1 d2 d3,
      home3,
      rw (run1, ◌>>=◌) (rw (run2, ◌>>=◌) (rw (run3, ◌>>=◌) refl)),
      entered-Entered root home home1 home2 home3 s s1 s2 s3 a2 a1 a0 phys virt prot tree d1 d2 d3,
    )
