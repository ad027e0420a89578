-- ===== src/Pmap/Descend.antt =====
-- x86_64/vm.c: going down one level, with a new table where there is none.
use scal_ux.Pmap.Grow.{new_low, no_home, grown-Tree, not_new, home_with, kept_home}
use scal_ux.Prelude.{
  ==_iff, Bool-cases, ap, arith, false, inl, inr, length, refl, some, subst, suc, sym, true, ℕ,
  ◌&&◌, ◌*◌, ◌+◌, ◌/◌, ◌<◌, ◌==◌, ◌>>=◌, ◌^◌, ◌∙◌, ◌≡◌, ◌≢◌, ◌≤◌,
}
use scal_ux.Page.{Pages, free_queue, page_bytes}
use scal_ux.Page.Correct.{Given, has_first, vm_pagealloc-Given}
use scal_ux.Pmap.{
  alloc_table, default_prot, entry, index, is_present, pmap_descend, pmap_queue, pte_get_addr,
  pte_set, pte_value,
}
use scal_ux.Pmap.Walk.{Homes, OnWay, Tree, above, above_step, down_way, find, find_unchanged, frame}

-- One level down from the table of frame `u` towards an address: the tables are still a tree, and all
-- walks end where they did.
pub record Descended (root : ℕ) (home : Homes) (s : Pages) (l u virt addr : ℕ) (home' : Homes)
    (t : Pages) : Type 0 where
  pub tree : Tree root home' t
  pub on_way : OnWay home' l (addr / page_bytes) virt
  pub kept : (v : ℕ) (place : ℕ × ℕ) → home v ≡ some place → home' v ≡ some place
  pub finds : (m v virt' : ℕ) → OnWay home m v virt' → find m v virt' t ≡ find m v virt' s
  pub linked : is_present (t.contents u (index (suc l) virt)) ≡ true
  pub leads : frame (t.contents u (index (suc l) virt)) ≡ addr / page_bytes
  pub older :
      (v k : ℕ) (place : ℕ × ℕ)
      → home v ≡ some place
      → is_present (s.contents v k) ≡ true
      → t.contents v k ≡ s.contents v k
  pub free_left : length (s.queue free_queue) ≤ suc (length (t.queue free_queue))

new_entry :
    (page : ℕ)
    → page < 2 ^ 40
    → (is_present (pte_value (page_bytes * page) default_prot) ≡ true)
      × (frame (pte_value (page_bytes * page) default_prot) ≡ page)
new_entry page low = (ground arith, omega arith)

whole_page : (page : ℕ) → page ≡ page_bytes * page / page_bytes
whole_page page = omega arith

module _ (root : ℕ) (home : Homes) (s : Pages) (tree : Tree root home s) (l table virt : ℕ)
    (on : OnWay home (suc l) (table / page_bytes) virt) where
  abbrev i : ℕ
  i = index (suc l) virt

  stay-Descended :
      is_present (entry table i s) ≡ true
      → Descended root home s l (table / page_bytes) virt (pte_get_addr (entry table i s)) home s
  stay-Descended present = record {
    tree = tree;
    on_way = down_way root home s l (table / page_bytes) virt tree on present;
    kept = λ v place h. h;
    finds = λ m v virt' h. refl;
    linked = present;
    leads = refl;
    older = λ v k place h p. refl;
    free_left = omega arith;
  }

  module _ (absent : is_present (entry table i s) ≡ false) (page : ℕ) (P : Pages)
      (g : Given pmap_queue page s P) where
    abbrev after : Pages
    after = pte_set table i (page_bytes * page) default_prot P

    abbrev home_after : Homes
    home_after = home_with root home s tree page P g (l, above l virt)

    points_at :
        (is_present (after.contents (table / page_bytes) i) ≡ true)
        × (frame (after.contents (table / page_bytes) i) ≡ page)
    points_at =
        let here_it_is : after.contents (table / page_bytes) i
            ≡ pte_value (page_bytes * page) default_prot =
          ground arith in
        let low : page < 2 ^ 40 = new_low root home s tree page P g in
        rw here_it_is (new_entry page low)

    unchanged :
        (v k : ℕ)
        → v ≢ page
        → ((v == table / page_bytes) && (k == i)) ≡ false
        → after.contents v k ≡ s.contents v k
    unchanged v k other away =
        let c : P.contents v ≡ s.contents v = g.others_kept v (ground (arith, other)) in
        ground (arith, ap (λ f. f k) c, ap (λ w. P.contents w k))

    cleared : (k : ℕ) → after.contents page k ≡ 0
    cleared k = ground (
      arith,
      g.cleared k,
      not_new root home s tree page P g (table / page_bytes) (suc l, above (suc l) virt) on,
    )

    child_here :
        (v m p k : ℕ)
        → home v ≡ some (suc m, p)
        → (v == table / page_bytes) && (k == i) ≡ true
        → home_after (frame (after.contents v k)) ≡ some (m, p * 512 + k)
    child_here v m p k h this =
        let e : v ≡ table / page_bytes = (==_iff v (table / page_bytes)).0 (ground (arith, this)) in
        let e' : k ≡ i = (==_iff k i).0 (ground (arith, this)) in
        let level : m ≡ l = ground (arith, h, on, ap home e) in
        let prefix : p ≡ above (suc l) virt = ground (arith, h, on, ap home e) in
        let to_page : frame (after.contents v k) ≡ page =
          ap (λ w. frame (after.contents w k)) e
          ∙ ap (λ w. frame (after.contents (table / page_bytes) w)) e'
          ∙ points_at.1 in
        let lands : home_after page ≡ some (l, above l virt) = ground arith in
        ap home_after to_page ∙ lands ∙ ground (arith, level, prefix, e', above_step l virt)

    not_the_entry :
        (v k : ℕ)
        → is_present (s.contents v k) ≡ true
        → ((v == table / page_bytes) && (k == i)) ≡ false
    not_the_entry v k present = elim (Bool-cases ((v == table / page_bytes) && (k == i))) [
      | inl this ↦
          let e : v ≡ table / page_bytes =
            (==_iff v (table / page_bytes)).0 (ground (arith, this)) in
          let e' : k ≡ i = (==_iff k i).0 (ground (arith, this)) in
          ground (
            arith,
            ap (λ w. is_present (s.contents w k)) e,
            ap (λ w. is_present (s.contents (table / page_bytes) w)) e',
            present,
            absent,
          )
      | inr other ↦ other
    ]

    after-child :
        (v m p k : ℕ)
        → home_after v ≡ some (suc m, p)
        → k < 512
        → is_present (after.contents v k) ≡ true
        → home_after (frame (after.contents v k)) ≡ some (m, p * 512 + k)
    after-child v m p k h low present = elim (Bool-cases (page == v)) [
      | inl new ↦
          let e : page ≡ v = (==_iff page v).0 new in
          let zero_word : after.contents v k ≡ 0 =
            subst (λ w. after.contents w k ≡ 0) e (cleared k) in
          ground (arith, present, ap is_present zero_word)
      | inr old ↦ elim (Bool-cases ((v == table / page_bytes) && (k == i))) [
        | inl this ↦ child_here v m p k (rw old at h) this
        | inr away ↦
            let same : after.contents v k ≡ s.contents v k =
              unchanged v k (ground (arith, old)) away in
            let was : is_present (s.contents v k) ≡ true = sym (ap is_present same) ∙ present in
            ap (λ w. home_after (frame w)) same
            ∙ kept_home root home s tree page P g (l, above l virt) (frame (s.contents v k))
                (m, p * 512 + k) (tree.child v m p k (rw old at h) low was)
      ]
    ]

    after-Tree : Tree root home_after after
    after-Tree =
        grown-Tree root home s tree page P g (l, above l virt) root after.contents
          (kept_home root home s tree page P g (l, above l virt) root (3, 0) tree.top) after-child

    after-Descended :
        Descended root home s l (table / page_bytes) virt (page_bytes * page) home_after after
    after-Descended = record {
      tree = after-Tree;
      on_way = subst (λ w. home_after w ≡ some (l, above l virt)) (whole_page page) (ground arith);
      kept = kept_home root home s tree page P g (l, above l virt);
      finds = λ m v virt' h.
          find_unchanged root home s after tree (table / page_bytes) l i page
            (above (suc l) virt, on) absent (no_home root home s tree page P g) cleared points_at.1
            unchanged m v virt' h;
      linked = points_at.0;
      leads = points_at.1 ∙ whole_page page;
      older = λ v k place h present.
          unchanged v k (ground (arith, not_new root home s tree page P g v place h))
            (not_the_entry v k present);
      free_left = omega (arith, ap length g.was_first);
    }

  -- pmap_descend, when it may allocate and a page is free, does not panic.
  pub pmap_descend-Descended :
      0 < length (s.queue free_queue)
      → (addr : ℕ) × (t : Pages) × (home' : Homes) × (pmap_descend table i true default_prot s
          ≡ some (addr, t))
        × Descended root home s l (table / page_bytes) virt addr home' t
  unfolding pmap_descend alloc_table
  pmap_descend-Descended room = elim (Bool-cases (is_present (entry table i s))) [
    | inl present ↦
        (pte_get_addr (entry table i s), s, home, rw present refl, stay-Descended present)
    | inr absent ↦
        let (page, rest, q) = has_first (s.queue free_queue) room in
        let (P, run, g) = vm_pagealloc-Given pmap_queue page rest s tree.queues (omega arith) q in
        (
          page_bytes * page,
          after absent page P g,
          home_after absent page P g,
          rw absent (rw (run, ◌>>=◌) refl),
          after-Descended absent page P g,
        )
  ]
