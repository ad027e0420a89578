-- ===== src/Pmap/Share.antt =====
-- x86_64/vm.c: pmap_new makes tables that share the upper half of the kernel's.
use scal_ux.Pmap.Translate.{pmap_trans-find, translated}
use scal_ux.Pmap.Grow.{grown-Tree, home_with, kept_home, not_new}
use scal_ux.Pmap.Walk.{
  Homes, OnWay, Tree, above, down_way, find, find_down, find_end, frame, index-lt,
}
use scal_ux.Prelude.{
  ==_iff, Bool, Bool-cases, ap, arith, false, if◌then◌else◌, inl, inr, leb, length, ltb, refl, some,
  subst, suc, sym, true, zero, ℕ, ◌&&◌, ◌*◌, ◌+◌, ◌/◌, ◌<◌, ◌==◌, ◌>>=◌, ◌∙◌, ◌≡◌, ◌≤◌,
}
use scal_ux.Page.{Pages, free_queue, page_bytes}
use scal_ux.Page.Correct.{Given, has_first, vm_pagealloc-Given}
use scal_ux.Pmap.{
  copy_upper, default_prot, entry, index, is_present, pmap_new, pmap_queue, pmap_trans, pte_set,
  pte_value, upper_entries,
}

-- Whether the entry `k` of the new table has been copied after `n` rounds.
abbrev is_copied : ℕ → ℕ → ℕ → ℕ → Bool
is_copied pml4 n u k = (u == pml4 / page_bytes) && (leb 255 k && ltb k (255 + n))

copy_upper_lem :
    (pml4 kpml4 n : ℕ) (s : Pages)
    → (pml4 / page_bytes == kpml4 / page_bytes) ≡ false
    → (u k : ℕ)
    → (copy_upper pml4 kpml4 n s).contents u k ≡ (
        if is_copied pml4 n u k
        then pte_value (s.contents (kpml4 / page_bytes) k) default_prot
        else s.contents u k)
unfolding copy_upper
copy_upper_lem pml4 kpml4 zero s other u k = ground arith
copy_upper_lem pml4 kpml4 (suc n) s other u k = ground (
  arith,
  copy_upper_lem pml4 kpml4 n s other u k,
  copy_upper_lem pml4 kpml4 n s other (kpml4 / page_bytes) (255 + n),
)

-- The loop changes contents alone.
copy_upper-contents :
    (pml4 kpml4 n : ℕ) (s : Pages)
    → copy_upper pml4 kpml4 n s ≡ record s { contents = (copy_upper pml4 kpml4 n s).contents }
unfolding copy_upper
copy_upper-contents pml4 kpml4 zero s = refl
copy_upper-contents pml4 kpml4 (suc n) s =
    ap
      (λ t.
        pte_set pml4 (255 + n) (entry kpml4 (255 + n) (copy_upper pml4 kpml4 n s)) default_prot
          (record t { contents = (copy_upper pml4 kpml4 n s).contents }))
      (copy_upper-contents pml4 kpml4 n s)

-- Tables that hold the same in every table of a tree have the same walks.
find_same :
    (root : ℕ) (home : Homes) (s t : Pages)
    → Tree root home s
    → ((u : ℕ) (place : ℕ × ℕ) → home u ≡ some place → (k : ℕ) → t.contents u k ≡ s.contents u k)
    → (m u v : ℕ) → OnWay home m u v
    → find m u v t ≡ find m u v s
unfolding find
find_same root home s t tree same zero u v on = same u (0, above 0 v) on (index 0 v)
find_same root home s t tree same (suc m) u v on =
    let e : t.contents u (index (suc m) v) ≡ s.contents u (index (suc m) v) =
      same u (suc m, above (suc m) v) on (index (suc m) v) in
    elim (Bool-cases (is_present (s.contents u (index (suc m) v)))) [
      | inl present ↦ rw e (
          rw present (
            find_same root home s t tree same m (frame (s.contents u (index (suc m) v))) v
              (down_way root home s m u v tree on present)))
      | inr gone ↦ rw e (rw gone refl)
    ]

module _ (kpml4 : ℕ) (home : Homes) (s : Pages) (tree : Tree (kpml4 / page_bytes) home s)
    (upper : (k : ℕ) → 255 ≤ k → k < 512 → is_present (entry kpml4 k s) ≡ true) (page : ℕ)
    (P : Pages) (g : Given pmap_queue page s P) where
  abbrev kroot : ℕ
  kroot = kpml4 / page_bytes

  abbrev made : Pages
  made = copy_upper (page_bytes * page) kpml4 upper_entries P

  abbrev made_home : Homes
  made_home = home_with kroot home s tree page P g (3, 0)

  not_made : (u : ℕ) (place : ℕ × ℕ) → home u ≡ some place → (page == u) ≡ false
  not_made = not_new kroot home s tree page P g

  own_frame : page_bytes * page / page_bytes ≡ page
  own_frame = omega arith

  copied :
      (u k : ℕ)
      → made.contents u k ≡ (
          if is_copied (page_bytes * page) upper_entries u k
          then pte_value (P.contents kroot k) default_prot
          else P.contents u k)
  copied =
      copy_upper_lem (page_bytes * page) kpml4 upper_entries P
        (ground (arith, not_made kroot (3, 0) tree.top))

  old_tables : (u k : ℕ) → (page == u) ≡ false → made.contents u k ≡ s.contents u k
  old_tables u k other = ground (arith, copied u k, ap (λ f. f k) (g.others_kept u other))

  upper_entry :
      (k : ℕ)
      → 255 ≤ k
      → k < 512
      → made.contents page k ≡ pte_value (s.contents kroot k) default_prot
  upper_entry k low high =
      ground
        (arith, copied page k, ap (λ f. f k) (g.others_kept kroot (not_made kroot (3, 0) tree.top)))

  lower_entry : (k : ℕ) → k < 255 → made.contents page k ≡ 0
  lower_entry k low = ground (arith, copied page k, g.cleared k)

  same_target :
      (pte : ℕ)
      → (frame (pte_value pte default_prot) ≡ frame pte)
        × (is_present (pte_value pte default_prot) ≡ true)
  same_target pte = (omega arith, ground arith)

  made-child :
      (u l p k : ℕ)
      → made_home u ≡ some (suc l, p)
      → k < 512
      → is_present (made.contents u k) ≡ true
      → made_home (frame (made.contents u k)) ≡ some (l, p * 512 + k)
  made-child u l p k h low present = elim (Bool-cases (page == u)) [
    | inl new ↦
        let e : page ≡ u = (==_iff page u).0 new in
        let level : l ≡ 2 = ground (arith, h, new) in
        let prefix : p ≡ 0 = ground (arith, h, new) in
        elim (Bool-cases (leb 255 k)) [
          | inl high ↦
              let above_half : 255 ≤ k = ground (arith, high) in
              let is : made.contents u k ≡ pte_value (s.contents kroot k) default_prot =
                sym (ap (λ w. made.contents w k) e) ∙ upper_entry k above_half low in
              let old_child : home (frame (s.contents kroot k)) ≡ some (2, 0 * 512 + k) =
                tree.child kroot 2 0 k tree.top low (upper k above_half low) in
              ap (λ w. made_home (frame w)) is
              ∙ ap made_home (same_target (s.contents kroot k)).0
              ∙ kept_home kroot home s tree page P g (3, 0) (frame (s.contents kroot k))
                  (2, 0 * 512 + k) old_child
              ∙ ground (arith, level, prefix)
          | inr low_half ↦
              let is : made.contents u k ≡ 0 =
                sym (ap (λ w. made.contents w k) e) ∙ lower_entry k (ground (arith, low_half)) in
              ground (arith, present, ap is_present is)
        ]
    | inr old ↦
        let same : made.contents u k ≡ s.contents u k = old_tables u k old in
        ap (λ w. made_home (frame w)) same
        ∙ kept_home kroot home s tree page P g (3, 0) (frame (s.contents u k)) (l, p * 512 + k)
            (tree.child u l p k (rw old at h) low (sym (ap is_present same) ∙ present))
  ]

  made-Tree : Tree page made_home made
  made-Tree =
      subst (λ t. Tree page made_home t)
        (sym (copy_upper-contents (page_bytes * page) kpml4 upper_entries P))
        (grown-Tree kroot home s tree page P g (3, 0) page made.contents (ground arith) made-child)

  -- A walk from the new table goes on as from the kernel's, or ends.
  made-find : (v : ℕ) → find 3 page v made ≡ (if leb 255 (index 3 v) then find 3 kroot v s else 0)
  made-find v = elim (Bool-cases (leb 255 (index 3 v))) [
    | inl high ↦
        let above_half : 255 ≤ index 3 v = ground (arith, high) in
        let e : made.contents page (index 3 v)
            ≡ pte_value (s.contents kroot (index 3 v)) default_prot =
          upper_entry (index 3 v) above_half (index-lt 3 v) in
        let there : is_present (s.contents kroot (index 3 v)) ≡ true =
          upper (index 3 v) above_half (index-lt 3 v) in
        let (target, on_now) = same_target (s.contents kroot (index 3 v)) in
        let same : find 2 (frame (s.contents kroot (index 3 v))) v made
            ≡ find 2 (frame (s.contents kroot (index 3 v))) v s =
          find_same kroot home s made tree (λ u place h k. old_tables u k (not_made u place h)) 2
            (frame (s.contents kroot (index 3 v))) v
            (down_way kroot home s 2 kroot v tree tree.top there) in
        let there' : is_present (made.contents page (index 3 v)) ≡ true =
          ap is_present e ∙ on_now in
        rw high (
          find_down 2 page v made there'
          ∙ ap (λ w. find 2 w v made) (ap frame e ∙ target)
          ∙ same
          ∙ sym (find_down 2 kroot v s there))
    | inr low ↦
        let e : made.contents page (index 3 v) ≡ 0 =
          lower_entry (index 3 v) (ground (arith, low)) in
        rw low (find_end 2 page v made (ap is_present e))
  ]

-- pmap_new, while a page is free and where every entry of the kernel's table from 255 on is present, does
-- not panic. The new tables form a tree; pmap_trans gives the same with them as with the kernel's for an
-- address whose first index is 255 or more, and nothing for any other.
pub pmap_new-shares :
    (kpml4 : ℕ) (home : Homes) (s : Pages)
    → Tree (kpml4 / page_bytes) home s
    → ((k : ℕ) → 255 ≤ k → k < 512 → is_present (entry kpml4 k s) ≡ true)
    → 0 < length (s.queue free_queue)
    → (pml4 : ℕ) × (t : Pages) × (home' : Homes) × (pmap_new kpml4 s ≡ some (pml4, t))
      × Tree (pml4 / page_bytes) home' t
      × ((v : ℕ) → pmap_trans pml4 v t ≡ (if leb 255 (index 3 v) then pmap_trans kpml4 v s else 0))
unfolding pmap_new
pmap_new-shares kpml4 home s tree upper room =
    let (page, rest, q) = has_first (s.queue free_queue) room in
    let (P, run, g) = vm_pagealloc-Given pmap_queue page rest s tree.queues (omega arith) q in
    let own : page ≡ page_bytes * page / page_bytes = omega arith in
    let new_tree : Tree (page_bytes * page / page_bytes)
        (made_home kpml4 home s tree upper page P g) (made kpml4 home s tree upper page P g) =
      subst
        (λ r.
          Tree r (made_home kpml4 home s tree upper page P g)
            (made kpml4 home s tree upper page P g))
        own (made-Tree kpml4 home s tree upper page P g) in
    (
      page_bytes * page,
      made kpml4 home s tree upper page P g,
      made_home kpml4 home s tree upper page P g,
      rw (run, ◌>>=◌) refl,
      new_tree,
      λ v.
          let after : pmap_trans (page_bytes * page) v (made kpml4 home s tree upper page P g)
              ≡ translated (find 3 page v (made kpml4 home s tree upper page P g)) v =
            pmap_trans-find page (made_home kpml4 home s tree upper page P g)
              (made kpml4 home s tree upper page P g) (made-Tree kpml4 home s tree upper page P g)
              (page_bytes * page) v (sym own) in
          let before : pmap_trans kpml4 v s ≡ translated (find 3 (kpml4 / page_bytes) v s) v =
            pmap_trans-find (kpml4 / page_bytes) home s tree kpml4 v refl in
          let found : find 3 page v (made kpml4 home s tree upper page P g)
              ≡ (if leb 255 (index 3 v) then find 3 (kpml4 / page_bytes) v s else 0) =
            made-find kpml4 home s tree upper page P g v in
          after ∙ ground (arith, found, before),
    )
