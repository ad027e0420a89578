-- ===== src/Pmap/Tests.antt =====
-- A table of the highest level with nothing in it, and one with an upper half.
use scal_ux.Pmap.Roundtrip.{
  IsFrame, pmap_enter_kern-translates, pmap_unenter_kern-enter_kern, reads_at,
}
use scal_ux.Pmap.Share.{pmap_new-shares}
use scal_ux.Pmap.Translate.{same_page}
use scal_ux.Pmap.Walk.{Homes, Tree, frame}
use scal_ux.Prelude.{
  Bool-cases, List, Option, [], ap, arith, if◌then◌else◌, inl, inr, leb, ltb, none, refl, some, suc,
  true, ℕ, ◌&&◌, ◌*◌, ◌+◌, ◌-◌, ◌/◌, ◌<◌, ◌==◌, ◌∙◌, ◌∷◌, ◌≡◌, ◌≤◌,
}
use scal_ux.Page.{
  Pages, Region, first_page, page_bytes, put_on, take_off, vm_page_changequeue, vm_page_from_paddr,
  vm_pagealloc,
}
use scal_ux.Pmap.{
  alloc_table, default_prot, entry, index, is_present, pmap_descend, pmap_enter_kern, pmap_new,
  pmap_trans, pmap_unenter_kern, pte_value,
}

abbrev free_list : ℕ → List ℕ
free_list q = if q == 0 then 5 ∷ 6 ∷ 7 ∷ [] else []

abbrev no_tables : Pages
no_tables = record {
  queue = free_list;
  npages = λ q. if q == 0 then 3 else 0;
  queue_of = λ page. 0;
  contents = λ page k. 0;
}

-- The table in frame 2.
abbrev pml4 : ℕ
pml4 = 8192

abbrev root_only : Homes
root_only u = if u == 2 then some (3, 0) else none

no_tables-Tree : Tree 2 root_only no_tables
no_tables-Tree = record {
  top = refl;
  child = λ t l p i h low present. cc;
  taken = λ t place h. ground (arith, h);
  in_range = λ t place h. ground (arith, h);
  free_frames = λ t h. (ground (arith, h), ground (arith, h));
  queues = record { counted = refl; once = λ page. ground arith; alone = λ page q. ground arith };
}

pages_of : Option Pages → Pages
pages_of (some s) = s
pages_of none = no_tables

entered_then :
    pmap_trans pml4 0x403123 (pages_of (pmap_enter_kern pml4 0x9000 0x403000 7 no_tables)) ≡ 0x9123
unfolding pages_of pmap_trans pmap_enter_kern pmap_descend alloc_table vm_pagealloc
    vm_page_changequeue first_page put_on take_off
entered_then = refl

page_nine : IsFrame 0x9000
page_nine = (refl, omega arith)

pmap_enter_kern-translates_example :
    (t : Pages) × (home : Homes) × (pmap_enter_kern pml4 0x9000 0x403000 7 no_tables ≡ some t)
    × Tree 2 home t
    × ((v : ℕ)
        → pmap_trans pml4 v t
          ≡ (if same_page 0x403000 v then reads_at 0x9000 7 v else pmap_trans pml4 v no_tables))
pmap_enter_kern-translates_example =
    pmap_enter_kern-translates pml4 root_only no_tables 0x9000 0x403000 7 no_tables-Tree
      (omega arith) page_nine

abbrev one_region : List Region
one_region = record { base = 0; npages = 16; pages = 0 } ∷ []

known_page : vm_page_from_paddr 0x9000 one_region ≡ some 9
unfolding vm_page_from_paddr
known_page = refl

nothing_mapped : (v : ℕ) → pmap_trans pml4 v no_tables ≡ 0
unfolding pmap_trans
nothing_mapped v = refl

pmap_unenter_kern-enter_kern_example :
    (t u : Pages) × (pmap_enter_kern pml4 0x9000 0x403000 7 no_tables ≡ some t)
    × (pmap_unenter_kern pml4 0x403000 one_region t ≡ some (9, u))
    × ((v : ℕ) → pmap_trans pml4 v u ≡ pmap_trans pml4 v no_tables)
pmap_unenter_kern-enter_kern_example =
    pmap_unenter_kern-enter_kern pml4 root_only no_tables 0x9000 0x403000 7 9 one_region
      no_tables-Tree (omega arith) page_nine known_page (λ v same. nothing_mapped v)

-- Each upper entry leads to a table of its own, in frame 1000 and its index.
abbrev upper_half : ℕ → ℕ → ℕ
upper_half u k =
    if (u == 2) && leb 255 k && ltb k 512
    then pte_value (page_bytes * (1000 + k)) default_prot
    else 0

abbrev kernel_tables : Pages
kernel_tables = record no_tables { contents = upper_half }

abbrev upper_homes : Homes
upper_homes u =
    if u == 2 then some (3, 0) else if leb 1255 u && ltb u 1512 then some (2, u - 1000) else none

upper_frame : (k : ℕ) → 255 ≤ k → k < 512 → frame (upper_half 2 k) ≡ 1000 + k
upper_frame k low high = ground arith

upper_child :
    (t l p i : ℕ)
    → upper_homes t ≡ some (suc l, p)
    → i < 512
    → is_present (upper_half t i) ≡ true
    → upper_homes (frame (upper_half t i)) ≡ some (l, p * 512 + i)
upper_child t l p i h low present = elim (Bool-cases ((t == 2) && leb 255 i)) [
  | inl this ↦
      let e : t ≡ 2 = ground (arith, this) in
      let high : 255 ≤ i = ground (arith, this) in
      let target : frame (upper_half t i) ≡ 1000 + i =
        ap (λ u. frame (upper_half u i)) e ∙ upper_frame i high low in
      let level : l ≡ 2 = ground (arith, h, e) in
      let prefix : p ≡ 0 = ground (arith, h, e) in
      ap upper_homes target ∙ ground (arith, level, prefix, high)
  | inr other ↦ ground (arith, present, other)
]

kernel_tables-Tree : Tree 2 upper_homes kernel_tables
kernel_tables-Tree = record {
  top = refl;
  child = upper_child;
  taken = λ t place h. ground (arith, h);
  in_range = λ t place h. ground (arith, h);
  free_frames = λ t h. (ground (arith, h), ground (arith, h));
  queues = record { counted = refl; once = λ page. ground arith; alone = λ page q. ground arith };
}

upper_present : (k : ℕ) → 255 ≤ k → k < 512 → is_present (entry pml4 k kernel_tables) ≡ true
upper_present k low high = ground arith

pmap_new-shares_example :
    (new : ℕ) × (t : Pages) × (home : Homes) × (pmap_new pml4 kernel_tables ≡ some (new, t))
    × Tree (new / page_bytes) home t
    × ((v : ℕ)
        → pmap_trans new v t ≡ (if leb 255 (index 3 v) then pmap_trans pml4 v kernel_tables else 0))
pmap_new-shares_example =
    pmap_new-shares pml4 upper_homes kernel_tables kernel_tables-Tree upper_present (omega arith)
