-- ===== src/Page/Tests.antt =====
-- Three free pages in one region.
use scal_ux.Prelude.{[], arith, if◌then◌else◌, refl, some, ◌+◌, ◌<◌, ◌==◌, ◌∷◌, ◌≡◌, ◌≤◌}
use scal_ux.Page.{
  Mdl, Pages, Region, free_queue, kmem_queue, page_bytes, vm_mdl_capacity, vm_mdl_new_with_capacity,
  vm_page_free, vm_page_from_paddr, vm_pagealloc,
}
use scal_ux.Page.Correct.{
  Filled, Given, Inv, Looked, Miscounted, vm_mdl_new_with_capacity_lem, vm_page_free-pagealloc,
  vm_page_from_paddr-Looked, vm_pagealloc-Given,
}

abbrev three_pages : Pages
three_pages = record {
  queue = λ q. if q == free_queue then 0 ∷ 1 ∷ 2 ∷ [] else [];
  npages = λ q. if q == free_queue then 3 else 0;
  queue_of = λ page. free_queue;
  contents = λ page offset. 1;
}

three_pages-Inv : Inv three_pages
three_pages-Inv = record {
  counted = refl;
  once = λ page. ground arith;
  alone = λ page q. ground arith;
}

abbrev region : Region
region = record { base = 0x100000; npages = 3; pages = 0 }

vm_pagealloc-Given_example :
    (t : Pages) × (vm_pagealloc kmem_queue three_pages ≡ some (0, t))
    × Given kmem_queue 0 three_pages t
vm_pagealloc-Given_example =
    vm_pagealloc-Given kmem_queue 0 (1 ∷ 2 ∷ []) three_pages three_pages-Inv (omega arith) refl

vm_page_free-pagealloc_example :
    (t u : Pages) × (vm_pagealloc kmem_queue three_pages ≡ some (0, t))
    × (vm_page_free 0 t ≡ some u)
    × Miscounted kmem_queue 0 three_pages u
vm_page_free-pagealloc_example =
    vm_page_free-pagealloc kmem_queue 0 (1 ∷ 2 ∷ []) three_pages three_pages-Inv (omega arith) refl
      refl

vm_mdl_new_with_capacity_lem_example :
    (mdl : Mdl) × (t : Pages) × (vm_mdl_new_with_capacity 5000 three_pages ≡ some (mdl, t))
    × Filled mdl.npages mdl.pages three_pages t
    × (5000 ≤ vm_mdl_capacity mdl)
    × (vm_mdl_capacity mdl < 5000 + page_bytes)
vm_mdl_new_with_capacity_lem_example =
    vm_mdl_new_with_capacity_lem 5000 three_pages three_pages-Inv (omega arith)

vm_page_from_paddr-Looked_example :
    Looked 0x101234 (region ∷ []) (vm_page_from_paddr 0x101234 (region ∷ []))
vm_page_from_paddr-Looked_example = vm_page_from_paddr-Looked 0x101234 (region ∷ [])
