-- ===== src/Page.antt =====
-- vm_page.c: physical pages, their queues, and memory descriptor lists. A page is known by its number.
-- Every page is on one queue. TAILQ_REMOVE unlinks a page from the queue that it is on, whatever queue is
-- named; the tail pointers, which no function here reads, are left out.
pub mod Correct
mod Tests
use scal_ux.Prelude.{
  List, Option, [], add64, assert, erase, if◌then◌else◌, leb, ltb, mul64, none, some, sub64, suc,
  update, zero, ℕ, ◌%◌, ◌&&◌, ◌*◌, ◌++◌, ◌+◌, ◌-◌, ◌/◌, ◌==◌, ◌>>=◌, ◌>>◌, ◌∷◌,
}

-- enum vm_page_queue
abbrev pub free_queue : ℕ
free_queue = 0

abbrev pub kmem_queue : ℕ
kmem_queue = 1

abbrev pub wired_queue : ℕ
wired_queue = 2

abbrev pub active_queue : ℕ
active_queue = 3

abbrev pub inactive_queue : ℕ
inactive_queue = 4

abbrev pub page_bytes : ℕ
page_bytes = 4096

-- vm_pregion_t, whose pages are numbered from `pages` on.
pub record Region : Type 0 where
  pub base : ℕ
  pub npages : ℕ
  pub pages : ℕ

-- The queues with their counters, the field `queue` of each page, and what the pages hold.
pub record Pages : Type 0 where
  pub queue : ℕ → List ℕ
  pub npages : ℕ → ℕ
  pub queue_of : ℕ → ℕ
  pub contents : ℕ → ℕ → ℕ

unfoldable pub vm_page_from_paddr : ℕ → List Region → Option ℕ
vm_page_from_paddr paddr [] = none
vm_page_from_paddr paddr (preg ∷ l) =
    let rest = vm_page_from_paddr paddr l in
    if leb preg.base paddr && ltb paddr (add64 preg.base (mul64 page_bytes preg.npages))
    then some (preg.pages + (paddr - preg.base) / page_bytes)
    else rest

-- The number of the queue that the switch selects; wired pages are sent to the active queue.
unfoldable pub vm_page_queue : ℕ → Option ℕ
vm_page_queue q =
    if q == free_queue
    then some free_queue
    else if q == kmem_queue
    then some kmem_queue
    else if q == wired_queue
    then some active_queue
    else if q == active_queue
    then some active_queue
    else if q == inactive_queue
    then some inactive_queue
    else none

-- TAILQ_REMOVE with the counter of the queue that is named, then TAILQ_INSERT_HEAD with the counter.
unfoldable pub take_off : ℕ → ℕ → Pages → Pages
take_off page from s = record s {
  queue = λ q. erase page (s.queue q);
  npages = update s.npages from (sub64 (s.npages from) 1);
}

unfoldable pub put_on : ℕ → ℕ → Pages → Pages
put_on page to s = record s {
  queue = update s.queue to (page ∷ s.queue to);
  npages = update s.npages to (add64 (s.npages to) 1);
}

abbrev pub from_or_own : Option ℕ → ℕ → Option ℕ
from_or_own (some from) own = some from
from_or_own none own = vm_page_queue own

unfoldable pub vm_page_changequeue : ℕ → Option ℕ → ℕ → Pages → Option Pages
vm_page_changequeue page from to s = do
  q ← from_or_own from (s.queue_of page)
  some (put_on page to (take_off page q s))

-- An empty queue is fatal.
unfoldable pub first_page : List ℕ → Option ℕ
first_page [] = none
first_page (page ∷ l) = some page

unfoldable pub vm_pagealloc : ℕ → Pages → Option (ℕ × Pages)
vm_pagealloc to s = do
  page ← first_page (s.queue free_queue)
  s' ← vm_page_changequeue page (some free_queue) to s
  some (page, record s' { contents = update s'.contents page (λ offset. 0) })

unfoldable pub vm_page_free : ℕ → Pages → Option Pages
vm_page_free page s = vm_page_changequeue page none free_queue s

-- vm_mdl_t
pub record Mdl : Type 0 where
  pub offset : ℕ
  pub nbytes : ℕ
  pub npages : ℕ
  pub pages : List ℕ

abbrev pub pages_for : ℕ → ℕ
pages_for bytes = (bytes + page_bytes - 1 - (bytes + page_bytes - 1) % page_bytes) / page_bytes

-- The loops that allocate the pages of a list.
unfoldable pub alloc_wired : ℕ → Pages → Option (List ℕ × Pages)
alloc_wired zero s = some ([], s)
alloc_wired (suc n) s = do
  (page, s1) ← vm_pagealloc wired_queue s
  (pages, s2) ← alloc_wired n s1
  some (page ∷ pages, s2)

unfoldable pub vm_mdl_new_with_capacity : ℕ → Pages → Option (Mdl × Pages)
vm_mdl_new_with_capacity bytes s = do
  (pages, s') ← alloc_wired (pages_for bytes) s
  some (record { offset = 0; nbytes = bytes; npages = pages_for bytes; pages = pages }, s')

-- The old pages are kept. A list that is longer than asked for is copied past the end of the new one,
-- which is a panic here.
unfoldable pub vm_mdl_expand : Mdl → ℕ → Pages → Option (Mdl × Pages)
vm_mdl_expand mdl bytes s = do
  assert (leb mdl.npages (pages_for bytes))
  (pages, s') ← alloc_wired (pages_for bytes - mdl.npages) s
  some (
    record { offset = 0; nbytes = bytes; npages = pages_for bytes; pages = mdl.pages ++ pages },
    s',
  )

unfoldable pub vm_mdl_capacity : Mdl → ℕ
vm_mdl_capacity mdl = mdl.npages * page_bytes
