-- ===== src/Kmem/Zone/Return.antt =====
-- kmem_slab.c: what kmem_zonefree takes back.
use scal_ux.Prelude.{
  ==_iff, Bool, Bool-cases, List, Option, [], ap, arith, bit, count, count-erase, erase, false,
  if◌then◌else◌, inl, inr, refl, some, true, update, ℕ, ◌+◌, ◌<◌, ◌==◌, ◌||◌, ◌∙◌, ◌∷◌, ◌≡◌, ◌≢◌,
}
use scal_ux.Kmem.Zone.{
  Slab, Zone, find_entry, inc32, is_large, kmem_zonefree, push_entry, put_back, small_slab_hdr,
}
use scal_ux.Kmem.Zone.Freelist.{Chained, Chained-frame, Slabs, Slabs-frame, free_count}
use scal_ux.Kmem.Zone.Stock.{Free}
use scal_ux.Kmem.Sizes.{page_size, round_down}

abbrev pub has_slab : ℕ → List Slab → Bool
has_slab header [] = false
has_slab header (s ∷ l) = (header == s.header) || has_slab header l

update_self : (f : ℕ → Option ℕ) (i : ℕ) (v : Option ℕ) → update f i v i ≡ v
update_self f i v = ground arith

push_entry-Slabs :
    (header e : ℕ) (next : ℕ → Option ℕ) (ss : List Slab) (frees : List (List ℕ))
    → has_slab header ss ≡ true
    → Slabs next ss frees
    → free_count e frees ≡ 0
    → (next' : ℕ → Option ℕ) × (ss' : List Slab) × (grown : List (List ℕ)) × (push_entry header e
          next ss
        ≡ some (next', ss'))
      × Slabs next' ss' grown
      × ((i : ℕ) → i ≢ e → next' i ≡ next i)
      × ((i : ℕ) → free_count i grown ≡ free_count i frees + bit (i == e))
unfolding push_entry Slabs Chained free_count
push_entry-Slabs header e next [] frees has h absent = cc
push_entry-Slabs header e next (s ∷ ss) [] has h absent = absurd h
push_entry-Slabs header e next (s ∷ ss) (l ∷ ls) has h absent =
    elim (Bool-cases (header == s.header)) [
      | inl here ↦ rw here (
        update next e s.firstfree,
        record s { nfree = inc32 s.nfree; firstfree = some e } ∷ ss,
        (e ∷ l) ∷ ls,
        refl,
        (
          (
            refl,
            rw (update_self next e s.firstfree) (
                Chained-frame next (update next e s.firstfree) s.firstfree l
                  (λ i c. ground (arith, absent)) h.0),
          ),
          ground (arith, h.1),
          Slabs-frame next (update next e s.firstfree) ss ls (λ i c. ground (arith, absent)) h.2,
        ),
        λ i d. ground (arith, d),
        λ i. ground arith,
      )
      | inr there ↦
          let (next', ss', grown, run, h', other, counts) =
            push_entry-Slabs header e next ss ls (ground (arith, has)) h.2 (omega arith) in
          rw there (
            next',
            s ∷ ss',
            l ∷ grown,
            rw run refl,
            (
              Chained-frame next next' s.firstfree l
                  (λ i c. other i λ q. let z : count i l ≡ 0 = rw q (omega arith) in omega arith)
                  h.0,
              h.1,
              h',
            ),
            other,
            λ i. omega (arith, counts i),
          )
    ]

-- The entry of an allocated object: on the list of allocated entries in a large slab, the object
-- itself in a small one, and in neither case free.
pub data Allocated (z : Zone) (frees : List (List ℕ)) (ptr : ℕ) : ℕ → Type 0 where
  in_large :
      {e : ℕ}
      → is_large z.size ≡ true
      → find_entry ptr z.base z.bufctllist ≡ some e
      → Allocated z frees ptr e
  in_small :
      is_large z.size ≡ false
      → free_count ptr frees ≡ 0
      → count ptr z.bufctllist ≡ 0
      → Allocated z frees ptr ptr

-- The header of the slab that an object belongs to.
abbrev pub header_of : Zone → ℕ → ℕ → ℕ
header_of z ptr e = if is_large z.size then z.slab e else small_slab_hdr (round_down ptr page_size)

-- The zone `t` is the zone `z` with the entry `e` free again.
pub record Returned (z : Zone) (frees : List (List ℕ)) (e : ℕ) (t : Zone) : Type 0 where
  pub grown : List (List ℕ)
  pub inv : Free t grown
  pub one_more : (i : ℕ) → free_count i grown ≡ free_count i frees + bit (i == e)
  pub not_allocated : (i : ℕ) → count i t.bufctllist ≡ (if i == e then 0 else count i z.bufctllist)

find_entry-count :
    (ptr e : ℕ) (base : ℕ → ℕ) (l : List ℕ) → find_entry ptr base l ≡ some e → 0 < count e l
find_entry-count ptr e base [] h = cc
find_entry-count ptr e base (x ∷ l) h = elim (Bool-cases (base x == ptr)) [
  | inl t ↦ ground arith
  | inr f ↦
      let r : 0 < count e l = find_entry-count ptr e base l (ground (arith, h)) in ground (arith, r)
]

count_absent :
    (i e : ℕ) (l : List ℕ) → count e l ≡ 0 → count i l ≡ (if i == e then 0 else count i l)
count_absent i e l h = elim (Bool-cases (i == e)) [
  | inl t ↦ rw t (ap (λ x. count x l) ((==_iff _ _).0 t) ∙ h)
  | inr f ↦ rw f refl
]

put_back-Returned :
    (z : Zone) (frees : List (List ℕ)) (header e : ℕ) (bufctls : List ℕ)
    → Free z frees
    → has_slab header z.slablist ≡ true
    → free_count e frees ≡ 0
    → ((i : ℕ) → count i bufctls ≡ (if i == e then 0 else count i z.bufctllist))
    → (t : Zone) × (put_back header e (record z { bufctllist = bufctls }) ≡ some t)
      × Returned z frees e t
unfolding put_back
put_back-Returned z frees header e bufctls inv has absent counts =
    let (next, ss, grown, run, h, other, more) =
      push_entry-Slabs header e z.sle_next z.slablist frees has inv.listed absent in
    (
      record z { bufctllist = bufctls; sle_next = next; slablist = ss },
      rw run refl,
      record {
        grown = grown;
        inv = record {
          listed = h;
          once = λ i. ground (arith, more i, counts i, inv.once i, absent);
        };
        one_more = more;
        not_allocated = counts;
      },
    )

-- kmem_zonefree of an allocated object whose slab is in the zone does not panic: exactly its entry
-- becomes free, and the zone stays well-formed.
pub kmem_zonefree-Returned :
    (z : Zone) (frees : List (List ℕ)) (ptr e : ℕ)
    → Free z frees
    → Allocated z frees ptr e
    → has_slab (header_of z ptr e) z.slablist ≡ true
    → (t : Zone) × (kmem_zonefree ptr z ≡ some t) × Returned z frees e t
unfolding kmem_zonefree
kmem_zonefree-Returned z frees ptr e inv (in_large t found) has =
    let absent : free_count e frees ≡ 0 =
      omega (arith, inv.once e, find_entry-count ptr e z.base z.bufctllist found) in
    rw t (
      rw found (
        put_back-Returned z frees (z.slab e) e (erase e z.bufctllist) inv (rw t at has) absent
          (λ i. ground (arith, count-erase e i z.bufctllist))))
kmem_zonefree-Returned z frees ptr _ inv (in_small f absent free) has = rw f (
    put_back-Returned z frees (small_slab_hdr (round_down ptr page_size)) ptr z.bufctllist inv
      (rw f at has) absent (λ i. count_absent i ptr z.bufctllist free))
