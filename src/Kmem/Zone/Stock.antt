-- ===== src/Kmem/Zone/Stock.antt =====
-- kmem_slab.c: the well-formed zone, and the new slab that kmem_zonealloc makes when it needs one.
use scal_ux.Prelude.{
  Bool-cases, List, Nat-cases, ap, arith, count, false, if◌then◌else◌, inl, inr, none, refl, some,
  subst, true, ℕ, ◌%◌, ◌*◌, ◌+◌, ◌-◌, ◌<◌, ◌==◌, ◌^◌, ◌∙◌, ◌∷◌, ◌≡◌, ◌≢◌, ◌≤◌,
}
use scal_ux.Kmem.Zone.{
  Supply, Zone, is_large, large_slab_new, link_small, needs_slab, small_slab_new, with_slab,
}
use scal_ux.Kmem.Zone.Freelist.{
  Slabs, Slabs-new, count-entries-le, count-entries-zero, entries, free_count,
}
use scal_ux.Kmem.Zone.Fill.{
  link_large-Linked, link_large-other, link_large-zone, link_small-linked, link_small-other, mul-lt,
}
use scal_ux.Kmem.Sizes.{slabcapacity, slabcapacity_bound, slabcapacity_pos}

-- The freelists of the slabs, no entry of which is free twice or free and allocated.
pub record Free (z : Zone) (frees : List (List ℕ)) : Type 0 where
  pub listed : Slabs z.sle_next z.slablist frees
  pub once : (i : ℕ) → free_count i frees + count i z.bufctllist ≤ 1

-- The entries of the slab that a supply makes.
unfoldable pub new_entry : Supply → Zone → ℕ → ℕ
new_entry supply z k = if is_large z.size then supply.entry k else supply.pages + k * z.size

-- A supply of entries that the zone does not have yet.
pub record Fresh (supply : Supply) (z : Zone) (frees : List (List ℕ)) : Type 0 where
  pub distinct : (j k : ℕ) → j < k → k < slabcapacity z.size → supply.entry j ≢ supply.entry k
  pub unused :
      (k : ℕ)
      → k < slabcapacity z.size
      → free_count (new_entry supply z k) frees + count (new_entry supply z k) z.bufctllist ≡ 0

-- The freelists from which kmem_zonealloc takes an entry.
unfoldable pub stock : Supply → Zone → List (List ℕ) → List (List ℕ)
stock supply z frees =
    if needs_slab z.slablist
    then entries (new_entry supply z) 0 (slabcapacity z.size) ∷ frees
    else frees

new_entry_small :
    (supply : Supply) (z : Zone) (k : ℕ)
    → is_large z.size ≡ false
    → new_entry supply z k ≡ supply.pages + k * z.size
unfolding new_entry
new_entry_small supply z k h = rw h refl

new_entry_large :
    (supply : Supply) (z : Zone) (k : ℕ)
    → is_large z.size ≡ true
    → new_entry supply z k ≡ supply.entry k
unfolding new_entry
new_entry_large supply z k h = rw h refl

new_entry-distinct :
    (supply : Supply) (z : Zone) (frees : List (List ℕ))
    → 0 < z.size
    → Fresh supply z frees
    → (j k : ℕ) → 0 ≤ j
    → j < k
    → k < 0 + slabcapacity z.size
    → new_entry supply z j ≢ new_entry supply z k
unfolding new_entry
new_entry-distinct supply z frees pos fresh j k low lt top e = elim (Bool-cases (is_large z.size)) [
  | inl t ↦ fresh.distinct j k lt (omega arith) (ground arith)
  | inr f ↦ let m : j * z.size < k * z.size = mul-lt z.size j k pos lt in ground arith
]

-- The new entries do not repeat each other or the old ones.
new_slab-once :
    (supply : Supply) (z : Zone) (frees : List (List ℕ))
    → 0 < z.size
    → Free z frees
    → Fresh supply z frees
    → (i : ℕ)
    → free_count i (entries (new_entry supply z) 0 (slabcapacity z.size) ∷ frees)
        + count i z.bufctllist
      ≤ 1
unfolding free_count
new_slab-once supply z frees pos inv fresh i =
    elim (Nat-cases (free_count i frees + count i z.bufctllist)) [
      | inl none_yet ↦ omega (
        arith,
        count-entries-le i (new_entry supply z) (slabcapacity z.size) 0
            (new_entry-distinct supply z frees pos fresh),
      )
      | inr some_yet ↦ omega (
        arith,
        inv.once i,
        count-entries-zero i (new_entry supply z) (slabcapacity z.size) 0 λ k a b e.
            let u : free_count i frees + count i z.bufctllist ≡ 0 =
              subst (λ x. free_count x frees + count x z.bufctllist ≡ 0) e
                (fresh.unused k (omega arith)) in
            omega arith,
      )
    ]

small_slab_new-Slabs :
    (supply : Supply) (z : Zone) (frees : List (List ℕ))
    → 0 < z.size
    → is_large z.size ≡ false
    → Free z frees
    → Fresh supply z frees
    → Slabs
        (small_slab_new supply z).sle_next
        (small_slab_new supply z).slablist
        (entries (new_entry supply z) 0 (slabcapacity z.size) ∷ frees)
unfolding small_slab_new
small_slab_new-Slabs supply z frees pos small inv fresh =
    let e : (k : ℕ) → new_entry supply z k ≡ supply.pages + k * z.size =
      λ k. new_entry_small supply z k small in
    let d : (j k : ℕ) → j < k → supply.pages + j * z.size < supply.pages + k * z.size =
      λ j k lt. omega (arith, mul-lt z.size j k pos lt) in
    let cap : 0 < slabcapacity z.size = slabcapacity_pos z.size pos in
    Slabs-new z.sle_next (small_slab_new supply z).sle_next (new_entry supply z)
      (slabcapacity z.size) _ z.slablist frees cap (rw (e 0) (ap some (omega arith))) refl
      (λ k lt.
        rw (e k, e (k + 1))
          (let l : link_small (slabcapacity z.size) 0 supply.pages z.size z.sle_next
                  (supply.pages + k * z.size)
                ≡ some (supply.pages + (k + 1) * z.size) =
              link_small-linked (slabcapacity z.size) 0 supply.pages z.size z.sle_next k pos
                (omega arith) (omega arith) in
            let a : supply.pages + k * z.size < supply.pages + (slabcapacity z.size - 1) * z.size =
              d k (slabcapacity z.size - 1) (omega arith) in
            ground (arith, l)))
      (rw (e (slabcapacity z.size - 1)) (ground arith))
      (λ x h.
        let last : supply.pages + (slabcapacity z.size - 1) * z.size ≢ x =
          λ q. h (slabcapacity z.size - 1) (omega arith) (e (slabcapacity z.size - 1) ∙ q) in
        let o : link_small (slabcapacity z.size) 0 supply.pages z.size z.sle_next x ≡ z.sle_next x =
          link_small-other (slabcapacity z.size) 0 supply.pages z.size z.sle_next x
            (λ k a b q. h k (omega arith) (e k ∙ q)) in
        ground (arith, last, o))
      (λ k lt. omega (arith, fresh.unused k lt)) inv.listed

large_slab_new-Slabs :
    (supply : Supply) (z : Zone) (frees : List (List ℕ))
    → 0 < z.size
    → is_large z.size ≡ true
    → Free z frees
    → Fresh supply z frees
    → Slabs
        (large_slab_new supply z).sle_next
        (large_slab_new supply z).slablist
        (entries (new_entry supply z) 0 (slabcapacity z.size) ∷ frees)
unfolding large_slab_new
large_slab_new-Slabs supply z frees pos large inv fresh =
    let e : (k : ℕ) → new_entry supply z k ≡ supply.entry k =
      λ k. new_entry_large supply z k large in
    let cap : 0 < slabcapacity z.size = slabcapacity_pos z.size pos in
    let linked =
      link_large-Linked (slabcapacity z.size) 0 none supply z
        (λ j k a b c. fresh.distinct j k b (omega arith)) in
    Slabs-new z.sle_next (large_slab_new supply z).sle_next (new_entry supply z)
      (slabcapacity z.size) _ z.slablist frees cap (rw (e 0) refl) refl
      (λ k lt.
        rw (e k, e (k + 1))
          (let a : supply.entry k ≢ supply.entry (slabcapacity z.size - 1) =
              fresh.distinct k (slabcapacity z.size - 1) (omega arith) (omega arith) in
            ground (arith, linked.links k (omega arith) (omega arith), a)))
      (rw (e (slabcapacity z.size - 1)) (ground arith))
      (λ x h.
        let last : supply.entry (slabcapacity z.size - 1) ≢ x =
          λ q. h (slabcapacity z.size - 1) (omega arith) (e (slabcapacity z.size - 1) ∙ q) in
        ground (
          arith,
          last,
          (link_large-other (slabcapacity z.size) 0 none supply z x
                (λ k a b q. h k (omega arith) (e k ∙ q))).2
              (λ q. cc),
        ))
      (λ k lt. omega (arith, fresh.unused k lt)) inv.listed

-- kmem_zonealloc has a well-formed zone to take an entry from, and one that is not full at its
-- head, with or without a new slab.
pub with_slab-Free :
    (supply : Supply) (z : Zone) (frees : List (List ℕ))
    → 0 < z.size
    → Free z frees
    → Fresh supply z frees
    → Free (with_slab supply z) (stock supply z frees)
      × ((with_slab supply z).bufctllist ≡ z.bufctllist)
      × ((with_slab supply z).size ≡ z.size)
      × (needs_slab (with_slab supply z).slablist ≡ false)
unfolding with_slab stock small_slab_new large_slab_new needs_slab
with_slab-Free supply z frees pos inv fresh =
    let counter : (slabcapacity z.size % 2 ^ 32 == 0) ≡ false =
      ground (arith, slabcapacity_pos z.size pos, slabcapacity_bound z.size pos) in
    let same = link_large-zone (slabcapacity z.size) 0 none supply z in
    elim (Bool-cases (needs_slab z.slablist)) [
      | inl needs ↦ elim (Bool-cases (is_large z.size)) [
        | inl t ↦
            rw (needs, t)
              (
                record {
                  listed = large_slab_new-Slabs supply z frees pos t inv fresh;
                  once = rw same.2 (new_slab-once supply z frees pos inv fresh);
                },
                same.2,
                same.0,
                counter,
              )
        | inr f ↦
            rw (needs, f)
              (
                record {
                  listed = small_slab_new-Slabs supply z frees pos f inv fresh;
                  once = new_slab-once supply z frees pos inv fresh;
                },
                refl,
                refl,
                counter,
              )
      ]
      | inr enough ↦ rw enough (inv, refl, refl, enough)
    ]
