-- ===== src/Kmem/Zone/Take.antt =====
-- kmem_slab.c: what kmem_zonealloc hands out.
use scal_ux.Prelude.{
  Bool-cases, List, [], ap, arith, bit, false, if◌then◌else◌, inl, inr, none, refl, some, subst,
  sym, true, ℕ, ◌++◌, ◌+◌, ◌<◌, ◌==◌, ◌∷◌, ◌≡◌,
}
use scal_ux.Kmem.Zone.{
  Slab, Supply, Zone, dec32, hand_out, is_large, kmem_zonealloc, needs_slab, requeue, take_entry,
  with_slab,
}
use scal_ux.Kmem.Zone.Freelist.{
  Chained, Slabs, Slabs-append, Slabs-frame, free_count, free_count-append,
}
use scal_ux.Kmem.Zone.Stock.{Free, Fresh, stock, with_slab-Free}

-- The zone `t` is the zone `z` with the entry `e` taken, whose object is at `ptr`.
pub record Taken (z : Zone) (frees : List (List ℕ)) (e ptr : ℕ) (t : Zone) : Type 0 where
  pub left : List (List ℕ)
  pub inv : Free t left
  pub one_less : (i : ℕ) → free_count i left + bit (i == e) ≡ free_count i frees
  pub listed : t.bufctllist ≡ (if is_large z.size then e ∷ z.bufctllist else z.bufctllist)
  pub same_size : t.size ≡ z.size
  pub object : ptr ≡ (if is_large z.size then z.base e else e)

hand_out-Taken :
    (z : Zone) (e : ℕ) (frees left : List (List ℕ)) (slabs : List Slab)
    → Free z frees
    → Slabs z.sle_next slabs left
    → ((i : ℕ) → free_count i left + bit (i == e) ≡ free_count i frees)
    → (ptr : ℕ) × (t : Zone) × (hand_out e (record z { slablist = slabs }) ≡ (ptr, t))
      × Taken z frees e ptr t
unfolding hand_out
hand_out-Taken z e frees left slabs inv h less = elim (Bool-cases (is_large z.size)) [
  | inl big ↦ rw big (
    _,
    _,
    refl,
    record {
      left = left;
      inv = record {
        listed = Slabs-frame z.sle_next _ slabs left (λ i c. ground (arith, less e, inv.once e)) h;
        once = λ i. ground (arith, less i, inv.once i);
      };
      one_less = less;
      listed = rw big refl;
      same_size = refl;
      object = rw big refl;
    },
  )
  | inr little ↦ rw little (
    _,
    _,
    refl,
    record {
      left = left;
      inv = record { listed = h; once = λ i. ground (arith, less i, inv.once i) };
      one_less = less;
      listed = rw little refl;
      same_size = refl;
      object = rw little refl;
    },
  )
]

-- The first slab has a free entry.
take_head-Taken :
    (z : Zone) (s : Slab) (rest : List Slab) (frees ls : List (List ℕ))
    → (s.nfree == 0) ≡ false
    → Free z frees
    → Slabs z.sle_next (s ∷ rest) ls
    → ls ≡ frees
    → (e ptr : ℕ) × (t : Zone) × (take_entry z (s ∷ rest) ≡ some (ptr, t)) × Taken z frees e ptr t
unfolding Slabs Chained take_entry free_count requeue
take_head-Taken z s rest frees [] full inv h q = absurd h
take_head-Taken z s rest frees ([] ∷ ls) full inv h q = absurd (ground (arith, h.1))
take_head-Taken z s rest frees ((e ∷ []) ∷ ls) full inv h q =
    let emptied : Slab = record s { nfree = dec32 s.nfree; firstfree = none } in
    let (first, next) = h.0 in
    let (ptr, t, run, taken) =
      hand_out-Taken z e frees (ls ++ [] ∷ []) (rest ++ emptied ∷ []) inv
        (Slabs-append z.sle_next rest ls emptied [] h.2 (refl, rw h.1 refl, tt))
        (λ i. ground (arith, q, free_count-append i ls [])) in
    (e, ptr, t, rw first (rw next (ap some run)), taken)
take_head-Taken z s rest frees ((e ∷ n ∷ l) ∷ ls) full inv h q =
    let (first, tail) = h.0 in
    let (next, more) = tail in
    let (ptr, t, run, taken) =
      hand_out-Taken z e frees ((n ∷ l) ∷ ls)
        (record s { nfree = dec32 s.nfree; firstfree = some n } ∷ rest) inv
        ((refl, more), ground (arith, h.1), h.2) (λ i. ground (arith, q)) in
    (e, ptr, t, rw first (rw next (ap some run)), taken)

take_entry-Taken :
    (z : Zone) (frees : List (List ℕ))
    → Free z frees
    → needs_slab z.slablist ≡ false
    → (e ptr : ℕ) × (t : Zone) × (take_entry z z.slablist ≡ some (ptr, t)) × Taken z frees e ptr t
unfolding needs_slab
take_entry-Taken z frees inv h = go z frees inv h z.slablist refl
  where
    go :
        (z : Zone) (frees : List (List ℕ))
        → Free z frees
        → needs_slab z.slablist ≡ false
        → (slabs : List Slab) → slabs ≡ z.slablist
        → (e ptr : ℕ) × (t : Zone) × (take_entry z z.slablist ≡ some (ptr, t))
          × Taken z frees e ptr t
    go z frees inv h [] q =
        let h' : true ≡ false = subst (λ l. needs_slab l ≡ false) (sym q) h in absurd cc
    go z frees inv h (s ∷ rest) q =
        subst
          (λ l. (e ptr : ℕ) × (t : Zone) × (take_entry z l ≡ some (ptr, t)) × Taken z frees e ptr t)
          q
          (take_head-Taken z s rest frees frees (subst (λ l. needs_slab l ≡ false) (sym q) h) inv
            (subst (λ l. Slabs z.sle_next l frees) (sym q) inv.listed) refl)

-- kmem_zonealloc, on a well-formed zone and with a supply of new entries, does not panic: it takes
-- exactly one free entry, of the zone's or of a new slab's, and the zone stays well-formed.
pub kmem_zonealloc-Taken :
    (supply : Supply) (z : Zone) (frees : List (List ℕ))
    → 0 < z.size
    → Free z frees
    → Fresh supply z frees
    → (e ptr : ℕ) × (t : Zone) × (kmem_zonealloc supply z ≡ some (ptr, t))
      × Taken (with_slab supply z) (stock supply z frees) e ptr t
unfolding kmem_zonealloc
kmem_zonealloc-Taken supply z frees pos inv fresh =
    let (inv', same, size, room) = with_slab-Free supply z frees pos inv fresh in
    take_entry-Taken (with_slab supply z) (stock supply z frees) inv' room
