-- ===== src/Pmap/Roundtrip.antt =====
-- x86_64/vm.c: what pmap_trans answers after pmap_enter_kern and pmap_unenter_kern.
use scal_ux.Pmap.Translate.{
  EntryAt, find-same_page, pmap_fully_descend-EntryAt, pmap_trans-find, same_page, translated,
}
use scal_ux.Prelude.{
  Bool-cases, List, ap, arith, false, if◌then◌else◌, inl, inr, length, refl, some, sym, true, ℕ,
  ◌%◌, ◌+◌, ◌/◌, ◌<◌, ◌==◌, ◌>>=◌, ◌^◌, ◌∙◌, ◌≡◌, ◌≢◌, ◌≤◌,
}
use scal_ux.Page.{Pages, Region, free_queue, page_bytes, vm_page_from_paddr}
use scal_ux.Pmap.{
  clear_entry, entry, index, pmap_enter_kern, pmap_fully_descend, pmap_trans, pmap_unenter_kern,
  pte_get_addr, pte_value, take_translation, vm_prot_to_i386,
}
use scal_ux.Pmap.Walk.{Homes, Tree, find}
use scal_ux.Pmap.Correct.{
  inner_kept, pmap_enter_kern-Entered, stored-Tree, stored-elsewhere, stored_here,
}

-- The address that a page mapped at `phys` gives to an offset, if its protection allows reading.
abbrev pub reads_at : ℕ → ℕ → ℕ → ℕ
reads_at phys prot v = if prot % 2 == 1 then phys + v % 2 ^ 12 else 0

-- A page-aligned physical address that an entry can hold.
abbrev pub IsFrame : ℕ → Type 0
IsFrame phys = (phys % 2 ^ 12 ≡ 0) × (phys < 2 ^ 52)

new_pte :
    (phys prot v : ℕ)
    → IsFrame phys
    → (translated (pte_value phys (vm_prot_to_i386 prot)) v ≡ reads_at phys prot v)
      × (pte_get_addr (pte_value phys (vm_prot_to_i386 prot)) ≡ phys)
      × (pte_value phys (vm_prot_to_i386 prot) ≢ 0)
new_pte phys prot v frame_ok =
    let aligned : phys % 2 ^ 12 ≡ 0 = frame_ok.0 in
    let low : phys < 2 ^ 52 = frame_ok.1 in (ground arith, ground arith, λ h. ground (arith, h))

-- pmap_enter_kern, on tables that form a tree and with three pages free, does not panic. Afterwards the
-- tables form a tree, pmap_trans gives the addresses of the page their places in the physical page, if
-- the protection allows reading, and it gives every other address what it gave before.
pub pmap_enter_kern-translates :
    (pml4 : ℕ) (home : Homes) (s : Pages) (phys virt prot : ℕ)
    → Tree (pml4 / page_bytes) home s
    → 3 ≤ length (s.queue free_queue)
    → IsFrame phys
    → (t : Pages) × (home' : Homes) × (pmap_enter_kern pml4 phys virt prot s ≡ some t)
      × Tree (pml4 / page_bytes) home' t
      × ((v : ℕ)
          → pmap_trans pml4 v t
            ≡ (if same_page virt v then reads_at phys prot v else pmap_trans pml4 v s))
pmap_enter_kern-translates pml4 home s phys virt prot tree room frame_ok =
    let (t, home', run, e) = pmap_enter_kern-Entered pml4 home s phys virt prot tree room in
    (
      t,
      home',
      run,
      e.tree,
      λ v.
          let after : pmap_trans pml4 v t ≡ translated (find 3 (pml4 / page_bytes) v t) v =
            pmap_trans-find (pml4 / page_bytes) home' t e.tree pml4 v refl in
          let before : pmap_trans pml4 v s ≡ translated (find 3 (pml4 / page_bytes) v s) v =
            pmap_trans-find (pml4 / page_bytes) home s tree pml4 v refl in
          elim (Bool-cases (same_page virt v)) [
            | inl same ↦ rw same (
                after
                ∙ ap (λ w. translated w v) (e.finds v ∙ rw same refl)
                ∙ (new_pte phys prot v frame_ok).0)
            | inr other ↦
                rw other (after ∙ ap (λ w. translated w v) (e.finds v ∙ rw other refl) ∙ sym before)
          ],
    )

module _ (pml4 : ℕ) (home : Homes) (s : Pages) (tree : Tree (pml4 / page_bytes) home s) (virt : ℕ)
    (regions : List Region) (page : ℕ) where
  -- Where the entry of an address is not 0 and its page is known, pmap_unenter_kern gives the page, and
  -- the walk to the address ends at 0.
  unentered :
      find 3 (pml4 / page_bytes) virt s ≢ 0
      → vm_page_from_paddr (pte_get_addr (find 3 (pml4 / page_bytes) virt s)) regions ≡ some page
      → (t : Pages) × (pmap_unenter_kern pml4 virt regions s ≡ some (page, t))
        × Tree (pml4 / page_bytes) home t
        × ((v : ℕ)
            → find 3 (pml4 / page_bytes) v t
              ≡ (if same_page virt v then 0 else find 3 (pml4 / page_bytes) v s))
  unfolding pmap_unenter_kern take_translation
  unentered mapped known =
      let root : ℕ = pml4 / page_bytes in
      let r : EntryAt root home s tree virt (find 3 root virt) (pmap_fully_descend pml4 virt s) =
        pmap_fully_descend-EntryAt root home s tree pml4 virt refl mapped in
      let some_word : (entry r.table (index 0 virt) s == 0) ≡ false =
        ground (arith, mapped, r.reads s (λ u l p k h. refl)) in
      let its_page : vm_page_from_paddr (pte_get_addr (entry r.table (index 0 virt) s)) regions
          ≡ some page =
        sym (ap (λ w. vm_page_from_paddr (pte_get_addr w) regions) (r.reads s (λ u l p k h. refl)))
        ∙ known in
      (
        clear_entry r.table (index 0 virt) s,
        rw (r.is, ◌>>=◌) (rw some_word (rw (its_page, ◌>>=◌) refl)),
        stored-Tree root home s tree r.table virt 0 r.leaf,
        λ v. elim (Bool-cases (same_page virt v)) [
          | inl same ↦ rw same (
              find-same_page virt v 3 root (clear_entry r.table (index 0 virt) s) same
              ∙ r.reads (clear_entry r.table (index 0 virt) s)
                  (inner_kept root home s tree r.table virt 0 r.leaf)
              ∙ stored_here root home s tree r.table virt 0 r.leaf)
          | inr other ↦ rw other (stored-elsewhere root home s tree r.table virt 0 r.leaf v other)
        ],
      )

-- pmap_enter_kern at an address that was not mapped, then pmap_unenter_kern, gives the page back, and
-- every address is translated as it was before.
pub pmap_unenter_kern-enter_kern :
    (pml4 : ℕ) (home : Homes) (s : Pages) (phys virt prot page : ℕ) (regions : List Region)
    → Tree (pml4 / page_bytes) home s
    → 3 ≤ length (s.queue free_queue)
    → IsFrame phys
    → vm_page_from_paddr phys regions ≡ some page
    → ((v : ℕ) → same_page virt v ≡ true → pmap_trans pml4 v s ≡ 0)
    → (t u : Pages) × (pmap_enter_kern pml4 phys virt prot s ≡ some t)
      × (pmap_unenter_kern pml4 virt regions t ≡ some (page, u))
      × ((v : ℕ) → pmap_trans pml4 v u ≡ pmap_trans pml4 v s)
pmap_unenter_kern-enter_kern pml4 home s phys virt prot page regions tree room frame_ok known
      unmapped =
    let (t, home', run, e) = pmap_enter_kern-Entered pml4 home s phys virt prot tree room in
    let (zero_trans, its_frame, nonzero) = new_pte phys prot virt frame_ok in
    let here_now : find 3 (pml4 / page_bytes) virt t ≡ pte_value phys (vm_prot_to_i386 prot) =
      e.finds virt ∙ ground arith in
    let (u, run', tree', finds) =
      unentered pml4 home' t e.tree virt regions page (λ z. nonzero (sym here_now ∙ z))
        (ap (λ w. vm_page_from_paddr (pte_get_addr w) regions) here_now
          ∙ ap (λ w. vm_page_from_paddr w regions) its_frame
          ∙ known) in
    (
      t,
      u,
      run,
      run',
      λ v.
          let after : pmap_trans pml4 v u ≡ translated (find 3 (pml4 / page_bytes) v u) v =
            pmap_trans-find (pml4 / page_bytes) home' u tree' pml4 v refl in
          let before : pmap_trans pml4 v s ≡ translated (find 3 (pml4 / page_bytes) v s) v =
            pmap_trans-find (pml4 / page_bytes) home s tree pml4 v refl in
          elim (Bool-cases (same_page virt v)) [
            | inl same ↦
                let gone : find 3 (pml4 / page_bytes) v u ≡ 0 = finds v ∙ rw same refl in
                after ∙ ap (λ w. translated w v) gone ∙ sym (unmapped v same)
            | inr other ↦
                let kept : find 3 (pml4 / page_bytes) v u ≡ find 3 (pml4 / page_bytes) v t =
                  finds v ∙ rw other refl in
                let kept' : find 3 (pml4 / page_bytes) v t ≡ find 3 (pml4 / page_bytes) v s =
                  e.finds v ∙ rw other refl in
                after ∙ ap (λ w. translated w v) (kept ∙ kept') ∙ sym before
          ],
    )
