-- ===== src/Page/Correct.antt =====
-- vm_page.c: pages stay on one queue each, and a list has the room that was asked for.
use scal_ux.Prelude.{
  ==_iff, Bool, Bool-cases, List, Option, [], add64, ap, arith, bit, count, count-erase, erase,
  erase_absent, false, inl, inr, leb, length, ltb, mul64, none, refl, some, suc, sym, true, update,
  word, zero, ℕ, ◌%◌, ◌&&◌, ◌*◌, ◌++◌, ◌+◌, ◌-◌, ◌/◌, ◌<◌, ◌==◌, ◌>>=◌, ◌||◌, ◌∙◌, ◌∷◌, ◌≡◌, ◌≢◌,
  ◌≤◌,
}
use scal_ux.Page.{
  Mdl, Pages, Region, alloc_wired, first_page, free_queue, page_bytes, pages_for, put_on, take_off,
  vm_mdl_capacity, vm_mdl_new_with_capacity, vm_page_changequeue, vm_page_free, vm_page_from_paddr,
  vm_page_queue, vm_pagealloc, wired_queue,
}

-- The counter of the free queue counts it, no page is on it twice, and none is on another queue too.
pub record Inv (s : Pages) : Type 0 where
  pub counted : s.npages free_queue ≡ length (s.queue free_queue) % word
  pub once : (page : ℕ) → count page (s.queue free_queue) ≤ 1
  pub alone :
      (page q : ℕ)
      → q ≢ free_queue
      → 0 < count page (s.queue free_queue)
      → count page (s.queue q) ≡ 0

-- The page `page` has gone from the free queue to the front of another, with nothing in it.
pub record Given (to page : ℕ) (s t : Pages) : Type 0 where
  pub inv : Inv t
  pub was_first : s.queue free_queue ≡ page ∷ t.queue free_queue
  pub now_first : t.queue to ≡ page ∷ s.queue to
  pub counts_one : t.npages to ≡ add64 (s.npages to) 1
  pub field_kept : t.queue_of ≡ s.queue_of
  pub cleared : (offset : ℕ) → t.contents page offset ≡ 0
  pub others_kept : (p : ℕ) → (page == p) ≡ false → t.contents p ≡ s.contents p

abbrev given : ℕ → ℕ → Pages → Pages
given to page s = record (put_on page to (take_off page free_queue s)) {
  contents = update (put_on page to (take_off page free_queue s)).contents page (λ offset. 0);
}

self : (a : ℕ) → (a == a) ≡ true
self a = ground arith

given_alone :
    (to page p k : ℕ) (s : Pages)
    → count p (s.queue k) ≡ 0
    → (p == page) ≡ false
    → count p ((given to page s).queue k) ≡ 0
unfolding take_off put_on
given_alone to page p k s h other = elim (Bool-cases (to == k)) [
  | inl same ↦ rw same (
      ground (
        arith,
        h,
        other,
        count-erase page p (s.queue to),
        ap (λ x. count p (s.queue x)) ((==_iff to k).0 same),
      ))
  | inr apart ↦ rw apart (ground (arith, h, count-erase page p (s.queue k)))
]

given-Given :
    (to page : ℕ) (rest : List ℕ) (s : Pages)
    → Inv s
    → to ≢ free_queue
    → s.queue free_queue ≡ page ∷ rest
    → Given to page s (given to page s)
unfolding take_off put_on
given-Given to page rest s inv other q =
    let c : count page rest ≡ 0 = ground (arith, rw q at inv.once page) in
    let gone : erase page (s.queue free_queue) ≡ rest =
      rw q (ground (arith, erase_absent page rest c)) in
    let absent : count page (s.queue to) ≡ 0 = inv.alone page to other (rw q (ground arith)) in
    let apart : (to == free_queue) ≡ false = ground (arith, other) in
    let apart' : (free_queue == to) ≡ false = ground (arith, other) in
    record {
      inv = record {
        counted = rw (apart, gone) (ground (arith, rw q at inv.counted));
        once = λ p. rw (apart, gone) (ground (arith, rw q at inv.once p));
        alone = λ p k busy free.
            let free' : 0 < count p rest = rw (apart, gone) at free in
            let before : 0 < count p (s.queue free_queue) = ground (arith, ap (count p) q, free') in
            given_alone to page p k s (inv.alone p k busy before) (ground (arith, c, free'));
      };
      was_first = rw (apart, gone) q;
      now_first = rw (self to) (ap (λ l. page ∷ l) (erase_absent page (s.queue to) absent));
      counts_one = rw (self to, apart') refl;
      field_kept = refl;
      cleared = λ offset. rw (self page) refl;
      others_kept = λ p other. rw other refl;
    }

-- vm_pagealloc to another queue, when the free queue is not empty, does not panic: it moves the first
-- free page to the front of that queue and clears it, and the counters follow.
pub vm_pagealloc-Given :
    (to page : ℕ) (rest : List ℕ) (s : Pages)
    → Inv s
    → to ≢ free_queue
    → s.queue free_queue ≡ page ∷ rest
    → (t : Pages) × (vm_pagealloc to s ≡ some (page, t)) × Given to page s t
unfolding vm_pagealloc vm_page_changequeue first_page
vm_pagealloc-Given to page rest s inv other q =
    let f : first_page (s.queue free_queue) ≡ some page = rw q refl in
    (given to page s, rw (f, ◌>>=◌) refl, given-Given to page rest s inv other q)

-- A page that is not free does not become so, and is not the one that is given.
pub still_taken :
    (to page p : ℕ) (s t : Pages)
    → Given to page s t
    → count p (s.queue free_queue) ≡ 0
    → (count p (t.queue free_queue) ≡ 0) × ((page == p) ≡ false)
still_taken to page p s t g h =
    let c : count p (s.queue free_queue) ≡ bit (p == page) + count p (t.queue free_queue) =
      ap (count p) g.was_first in
    (omega arith, ground (arith, h, c))

pub now_taken :
    (to page : ℕ) (s t : Pages) → Inv s → Given to page s t → count page (t.queue free_queue) ≡ 0
now_taken to page s t inv g =
    let c : count page (s.queue free_queue) ≡ bit (page == page) + count page (t.queue free_queue) =
      ap (count page) g.was_first in
    ground (arith, c, inv.once page)

-- The page is back, but the counters are those of a page that was never given back.
pub record Miscounted (to page : ℕ) (s u : Pages) : Type 0 where
  pub free_again : u.queue free_queue ≡ s.queue free_queue
  pub taken_off : u.queue to ≡ s.queue to
  pub counts_one_less : add64 (u.npages free_queue) 1 ≡ s.npages free_queue
  pub counts_one_more : u.npages to ≡ add64 (s.npages to) 1

abbrev freed : ℕ → Pages → Pages
freed page t = put_on page free_queue (take_off page free_queue t)

freed-Miscounted :
    (to page : ℕ) (rest : List ℕ) (s t : Pages)
    → Inv s
    → to ≢ free_queue
    → s.queue free_queue ≡ page ∷ rest
    → Given to page s t
    → Miscounted to page s (freed page t)
unfolding take_off put_on
freed-Miscounted to page rest s t inv other q g =
    let apart : (free_queue == to) ≡ false = ground (arith, other) in
    let here : (page == page) ≡ true = self page in
    let off : count page (t.queue free_queue) ≡ 0 = now_taken to page s t inv g in
    let absent : count page (s.queue to) ≡ 0 = inv.alone page to other (rw q (ground arith)) in
    record {
      free_again =
          ap (λ l. page ∷ l) (erase_absent page (t.queue free_queue) off) ∙ sym g.was_first;
      taken_off =
          rw apart (ap (erase page) g.now_first ∙ rw here (erase_absent page (s.queue to) absent));
      counts_one_less = ground (arith, g.inv.counted, inv.counted, ap length g.was_first);
      counts_one_more = rw apart g.counts_one;
    }

-- A page that vm_pagealloc has given, whose field still said that it was free, as the function leaves it, is
-- put back by vm_page_free: both queues are as before. But the counter of the free queue stays one too low,
-- and that of the other queue one too high.
pub vm_page_free-pagealloc :
    (to page : ℕ) (rest : List ℕ) (s : Pages)
    → Inv s
    → to ≢ free_queue
    → s.queue free_queue ≡ page ∷ rest
    → s.queue_of page ≡ free_queue
    → (t u : Pages) × (vm_pagealloc to s ≡ some (page, t))
      × (vm_page_free page t ≡ some u)
      × Miscounted to page s u
unfolding vm_page_free vm_page_changequeue vm_page_queue
vm_page_free-pagealloc to page rest s inv other q field =
    let (t, run, g) = vm_pagealloc-Given to page rest s inv other q in
    let own : t.queue_of page ≡ free_queue = ap (λ f. f page) g.field_kept ∙ field in
    (t, freed page t, run, rw own refl, freed-Miscounted to page rest s t inv other q g)

-- What the loops that allocate pages leave, when there are enough.
pub record Filled (n : ℕ) (pages : List ℕ) (s t : Pages) : Type 0 where
  pub inv : Inv t
  pub as_many : length pages ≡ n
  pub fewer_free : length (t.queue free_queue) + n ≡ length (s.queue free_queue)

pub has_first : (l : List ℕ) → 0 < length l → (x : ℕ) × (rest : List ℕ) × (l ≡ x ∷ rest)
has_first [] h = absurd (omega arith)
has_first (x ∷ rest) h = (x, rest, refl)

alloc_wired-Filled :
    (n : ℕ) (s : Pages)
    → Inv s
    → n ≤ length (s.queue free_queue)
    → (pages : List ℕ) × (t : Pages) × (alloc_wired n s ≡ some (pages, t)) × Filled n pages s t
unfolding alloc_wired
alloc_wired-Filled zero s inv room =
    ([], s, refl, record { inv = inv; as_many = refl; fewer_free = omega arith })
alloc_wired-Filled (suc n) s inv room =
    let (page, rest, q) = has_first (s.queue free_queue) (omega arith) in
    let (s1, run, g) = vm_pagealloc-Given wired_queue page rest s inv (omega arith) q in
    let total : length (s.queue free_queue) ≡ suc (length (s1.queue free_queue)) =
      ap length g.was_first in
    let (pages, t, run', f) = alloc_wired-Filled n s1 g.inv (omega arith) in
    (
      page ∷ pages,
      t,
      rw (run, ◌>>=◌) (rw (run', ◌>>=◌) refl),
      record { inv = f.inv; as_many = ap suc f.as_many; fewer_free = omega (arith, f.fewer_free) },
    )

-- With enough free pages, vm_mdl_new_with_capacity does not panic: the list has as many pages as its
-- counter says, from the free queue, and room for the bytes with less than a page to spare.
pub vm_mdl_new_with_capacity_lem :
    (bytes : ℕ) (s : Pages)
    → Inv s
    → pages_for bytes ≤ length (s.queue free_queue)
    → (mdl : Mdl) × (t : Pages) × (vm_mdl_new_with_capacity bytes s ≡ some (mdl, t))
      × Filled mdl.npages mdl.pages s t
      × (bytes ≤ vm_mdl_capacity mdl)
      × (vm_mdl_capacity mdl < bytes + page_bytes)
unfolding vm_mdl_new_with_capacity vm_mdl_capacity
vm_mdl_new_with_capacity_lem bytes s inv room =
    let (pages, t, run, f) = alloc_wired-Filled (pages_for bytes) s inv room in
    (
      record { offset = 0; nbytes = bytes; npages = pages_for bytes; pages = pages },
      t,
      rw (run, ◌>>=◌) refl,
      f,
      ground arith,
      ground arith,
    )

-- A region that holds the address, and the page of it that does.
pub record InRegion (paddr page : ℕ) (preg : Region) : Type 0 where
  pub low : preg.base + page_bytes * (page - preg.pages) ≤ paddr
  pub high : paddr < preg.base + page_bytes * (page - preg.pages) + page_bytes
  pub member : page - preg.pages < preg.npages

abbrev pub covers : ℕ → Region → Bool
covers paddr preg =
    leb preg.base paddr && ltb paddr (add64 preg.base (mul64 page_bytes preg.npages))

abbrev pub any_covers : ℕ → List Region → Bool
any_covers paddr [] = false
any_covers paddr (preg ∷ l) = covers paddr preg || any_covers paddr l

-- What the walk over the regions finds.
pub data Looked (paddr : ℕ) (l : List Region) : Option ℕ → Type 0 where
  page_of :
      (page : ℕ) (a b : List Region) (preg : Region)
      → l ≡ a ++ preg ∷ b
      → any_covers paddr a ≡ false
      → InRegion paddr page preg
      → Looked paddr l (some page)
  outside : any_covers paddr l ≡ false → Looked paddr l none

in_region :
    (paddr : ℕ) (preg : Region)
    → covers paddr preg ≡ true
    → InRegion paddr (preg.pages + (paddr - preg.base) / page_bytes) preg
in_region paddr preg h = record {
  low = ground (arith, h);
  high = ground (arith, h);
  member = ground (arith, h);
}

Looked-cons :
    (paddr : ℕ) (preg : Region) (l : List Region) (r : Option ℕ)
    → covers paddr preg ≡ false
    → Looked paddr l r
    → Looked paddr (preg ∷ l) r
Looked-cons paddr preg l r miss (page_of page a b p e before i) =
    page_of page (preg ∷ a) b p (ap (λ x. preg ∷ x) e) (rw miss before) i
Looked-cons paddr preg l r miss (outside h) = outside (rw miss h)

-- vm_page_from_paddr finds the page that holds an address, in the first region that does, and
-- nothing when no region does.
pub vm_page_from_paddr-Looked :
    (paddr : ℕ) (l : List Region) → Looked paddr l (vm_page_from_paddr paddr l)
unfolding vm_page_from_paddr
vm_page_from_paddr-Looked paddr [] = outside refl
vm_page_from_paddr-Looked paddr (preg ∷ l) = elim (Bool-cases (covers paddr preg)) [
  | inl hit ↦ rw hit (page_of _ [] l preg refl refl (in_region paddr preg hit))
  | inr miss ↦ rw miss (Looked-cons paddr preg l _ miss (vm_page_from_paddr-Looked paddr l))
]
