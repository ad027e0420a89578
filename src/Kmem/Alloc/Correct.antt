-- ===== src/Kmem/Alloc/Correct.antt =====
-- kmem_slab.c: kmem_alloc over well-formed zones, and the zones that strings go through.
use scal_ux.Kmem.Zone.Freelist.{Slabs, free_count}
use scal_ux.Prelude.{
  ==_iff, Bool, Bool-cases, List, Option, [], ap, arith, false, first_failure, inl, inr, ltb,
  ltb→lt, lt→ltb, none, refl, some, table_passes, true, update, ℕ, ◌&&◌, ◌+◌, ◌<◌, ◌==◌, ◌∙◌, ◌≡◌,
  ◌≤◌,
}
use scal_ux.Kmem.Alloc.{
  Heap, from_zone, kmem_alloc, kmem_free, kmem_init, kmem_strfree, kmem_vasprintf, kmem_zone_init,
  to_zone,
}
use scal_ux.Kmem.Sizes.{zone_size, zonenum, zonenum_best_fit}
use scal_ux.Kmem.Zone.{Supply, Zone, with_slab}
use scal_ux.Kmem.Zone.Stock.{Free, Fresh, stock, with_slab-Free}
use scal_ux.Kmem.Zone.Take.{Taken, kmem_zonealloc-Taken}

-- Every zone of kmem_alloc has its size and well-formed slabs, whose freelists `frees` gives.
pub record Zones {S : Type 0} (frees : ℕ → List (List ℕ)) (h : Heap S) : Type 0 where
  pub sized : (i : ℕ) → (h.zones i).size ≡ zone_size i
  pub well_formed : (i : ℕ) → Free (h.zones i) (frees i)

pub kmem_init-Zones : {S : Type 0} (vm : S) → Zones (λ _. []) (kmem_init vm)
unfolding kmem_init kmem_zone_init Slabs free_count
kmem_init-Zones vm = record {
  sized = λ i. refl;
  well_formed = λ i. record { listed = tt; once = λ j. omega arith };
}

update_zone :
    {S : Type 0} (frees : ℕ → List (List ℕ)) (h : Heap S) (i : ℕ) (z : Zone) (left : List (List ℕ))
    → Zones frees h
    → z.size ≡ zone_size i
    → Free z left
    → Zones (update frees i left) (record h { zones = update h.zones i z })
update_zone frees h i z left ok same inv = record {
  sized = λ j. elim (Bool-cases (i == j)) [
    | inl t ↦ rw t (same ∙ ap zone_size ((==_iff _ _).0 t))
    | inr f ↦ rw f (ok.sized j)
  ];
  well_formed =
      λ j. elim (Bool-cases (i == j)) [ inl t ↦ rw t inv | inr f ↦ rw f (ok.well_formed j) ];
}

-- kmem_alloc of 1 to 4096 bytes, 4096 included, over well-formed zones and with a supply of new entries, does not
-- panic: it takes one free object of the first zone whose objects hold the size, and every zone
-- stays well-formed.
pub kmem_alloc-Taken :
    {S : Type 0} (vm_kalloc : ℕ → S → Option (ℕ × S)) (supply : Supply) (size : ℕ)
    (frees : ℕ → List (List ℕ)) (h : Heap S)
    → 0 < size
    → size ≤ 4096
    → Zones frees h
    → ((i : ℕ) → Fresh supply (h.zones i) (frees i))
    → (i e ptr : ℕ) × (t : Zone) × (left : List (List ℕ)) × (kmem_alloc vm_kalloc supply size h
        ≡ some (ptr, record h { zones = update h.zones i t }))
      × (size ≤ t.size)
      × ((j : ℕ) → j < i → zone_size j < size)
      × Taken (with_slab supply (h.zones i)) (stock supply (h.zones i) (frees i)) e ptr t
      × Zones (update frees i left) (record h { zones = update h.zones i t })
unfolding kmem_alloc from_zone
kmem_alloc-Taken vm_kalloc supply size frees h pos top ok fresh =
    let (i, zone, low, fits, first) = zonenum_best_fit size pos top in
    let sized : 0 < (h.zones i).size = rw (ok.sized i) (omega arith) in
    let (e, ptr, t, run, taken) =
      kmem_zonealloc-Taken supply (h.zones i) (frees i) sized (ok.well_formed i) (fresh i) in
    let kept : t.size ≡ zone_size i =
      taken.same_size
      ∙ (with_slab-Free supply (h.zones i) (frees i) sized (ok.well_formed i) (fresh i)).2
      ∙ ok.sized i in
    (
      i,
      e,
      ptr,
      t,
      taken.left,
      rw (lt→ltb 0 size pos, zone, run) refl,
      omega arith,
      first,
      taken,
      update_zone frees h i t taken.left ok kept taken.inv,
    )

abbrev is_zone : Option ℕ → ℕ → Bool
is_zone none i = false
is_zone (some j) i = j == i

is_zone_sound : (z : Option ℕ) (i : ℕ) → is_zone z i ≡ true → z ≡ some i
is_zone_sound none i h = cc
is_zone_sound (some j) i h = ap some ((==_iff _ _).0 h)

abbrev strings_split : ℕ → Bool
strings_split i =
    is_zone (zonenum (zone_size i)) i
    && is_zone (zonenum (zone_size i + 1)) (i + 1)
    && ltb 0 (zone_size i)

zonenum_table : first_failure strings_split 31 ≡ false
unfolding first_failure zonenum zone_size
zonenum_table = refl

zonenum_at :
    (i : ℕ)
    → i < 31
    → (zonenum (zone_size i) ≡ some i)
      × (zonenum (zone_size i + 1) ≡ some (i + 1))
      × (0 < zone_size i)
zonenum_at i lt =
    let t : strings_split i ≡ true = table_passes strings_split 31 i lt zonenum_table in
    (
      is_zone_sound _ i (ground (arith, t)),
      is_zone_sound _ (i + 1) (ground (arith, t)),
      ltb→lt _ _ (ground (arith, t)),
    )

-- For a string as long as the objects of a zone but the last, kmem_vasprintf allocates from the
-- next zone, and kmem_strfree frees to that zone.
pub kmem_strfree_zone :
    {S : Type 0} (vm_kalloc : ℕ → S → Option (ℕ × S)) (vm_kfree : ℕ → ℕ → S → Option S)
    (supply : Supply) (i str : ℕ) (h : Heap S)
    → i < 31
    → (kmem_vasprintf vm_kalloc supply (zone_size i) h
        ≡ from_zone vm_kalloc supply (zone_size i + 1) (some (i + 1)) h)
      × (kmem_strfree vm_kfree str (zone_size i) h ≡ to_zone vm_kfree str (zone_size i) (some i) h)
unfolding kmem_vasprintf kmem_strfree kmem_alloc kmem_free
kmem_strfree_zone vm_kalloc vm_kfree supply i str h lt =
    let (a, b, c) = zonenum_at i lt in
    (rw (lt→ltb 0 (zone_size i + 1) (omega arith), b) refl, rw (lt→ltb 0 (zone_size i) c, a) refl)
