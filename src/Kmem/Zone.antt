-- ===== src/Kmem/Zone.antt =====
-- kmem_slab.c: zones, their slabs and buffer control entries (struct kmem_bufctl). An entry is known
-- by its address; in a small slab that is the address of the free object itself.
pub mod Freelist
pub mod Fill
pub mod Stock
pub mod Take
pub mod Return
use scal_ux.Prelude.{
  Bool, List, Option, [], erase, if◌then◌else◌, ltb, none, some, suc, true, update, zero, ℕ, ◌%◌,
  ◌*◌, ◌++◌, ◌+◌, ◌-◌, ◌==◌, ◌>>=◌, ◌^◌, ◌∷◌,
}
use scal_ux.Kmem.Sizes.{page_size, round_down, slab_header_size, slabcapacity, small_slab_max}

pub record Slab : Type 0 where
  -- The address of the header, and that of the first object.
  pub header : ℕ
  pub data_base : ℕ
  pub nfree : ℕ
  pub firstfree : Option ℕ

pub record Zone : Type 0 where
  pub size : ℕ
  pub slablist : List Slab
  pub bufctllist : List ℕ
  -- The fields of the entries.
  pub sle_next : ℕ → Option ℕ
  pub slab : ℕ → ℕ
  pub base : ℕ → ℕ

-- What the other allocators hand out for one new slab: pages, and for a large slab a header and
-- the entries.
pub record Supply : Type 0 where
  pub pages : ℕ
  pub header : ℕ
  pub entry : ℕ → ℕ

abbrev pub is_large : ℕ → Bool
is_large size = ltb small_slab_max size

-- SMALL_SLAB_HDR
abbrev pub small_slab_hdr : ℕ → ℕ
small_slab_hdr base = base + page_size - slab_header_size

-- `uint32_t nfree`, one less and one more.
abbrev pub dec32 : ℕ → ℕ
dec32 n = (n + (2 ^ 32 - 1)) % 2 ^ 32

abbrev pub inc32 : ℕ → ℕ
inc32 n = (n + 1) % 2 ^ 32

-- The loop that sets up the freelist of a small slab.
unfoldable pub link_small : ℕ → ℕ → ℕ → ℕ → (ℕ → Option ℕ) → ℕ → Option ℕ
link_small zero i base size next = next
link_small (suc rounds) i base size next =
    link_small rounds (i + 1) base size
      (update next (base + i * size) (some (base + (i + 1) * size)))

unfoldable pub small_slab_new : Supply → Zone → Zone
small_slab_new supply z = record z { slablist = new ∷ z.slablist; sle_next = linked }
  where
    capacity : ℕ
    capacity = slabcapacity z.size

    new : Slab
    new = record {
      header = small_slab_hdr supply.pages;
      data_base = supply.pages;
      nfree = capacity % 2 ^ 32;
      firstfree = some supply.pages;
    }

    linked : ℕ → Option ℕ
    linked =
        update (link_small capacity 0 supply.pages z.size z.sle_next)
          (supply.pages + (capacity - 1) * z.size) none

-- The entry before, if there is one, is linked to the next.
abbrev pub link_prev : Option ℕ → ℕ → (ℕ → Option ℕ) → ℕ → Option ℕ
link_prev none e next = next
link_prev (some p) e next = update next p (some e)

-- The loop that sets up the entries of a large slab.
unfoldable pub link_large : ℕ → ℕ → Option ℕ → Supply → Zone → Zone
link_large zero i prev supply z = z
link_large (suc rounds) i prev supply z =
    link_large rounds (i + 1) (some (supply.entry i)) supply (record z {
      slab = update z.slab (supply.entry i) supply.header;
      base = update z.base (supply.entry i) (supply.pages + z.size * i);
      sle_next = link_prev prev (supply.entry i) z.sle_next;
    })

unfoldable pub large_slab_new : Supply → Zone → Zone
large_slab_new supply z = record filled {
  slablist = new ∷ z.slablist;
  sle_next = update filled.sle_next (supply.entry (capacity - 1)) none;
}
  where
    capacity : ℕ
    capacity = slabcapacity z.size

    filled : Zone
    filled = link_large capacity 0 none supply z

    new : Slab
    new = record {
      header = supply.header;
      data_base = supply.pages;
      nfree = capacity % 2 ^ 32;
      firstfree = some (supply.entry 0);
    }

-- No slab, or all are full: full slabs are at the tail of the queue.
unfoldable pub needs_slab : List Slab → Bool
needs_slab [] = true
needs_slab (s ∷ l) = s.nfree == 0

unfoldable pub with_slab : Supply → Zone → Zone
with_slab supply z =
    if needs_slab z.slablist
    then if is_large z.size then large_slab_new supply z else small_slab_new supply z
    else z

-- A slab whose last entry is taken goes to the back of the queue.
unfoldable pub requeue : Slab → Option ℕ → List Slab → List Slab
requeue s none rest = rest ++ (record s { nfree = dec32 s.nfree; firstfree = none }) ∷ []
requeue s (some n) rest = record s { nfree = dec32 s.nfree; firstfree = some n } ∷ rest

abbrev pub head_of : List ℕ → Option ℕ
head_of [] = none
head_of (x ∷ l) = some x

-- An entry of a large slab goes on the list of allocated entries, by the link that it had on the
-- freelist.
unfoldable pub hand_out : ℕ → Zone → ℕ × Zone
hand_out e z =
    if is_large z.size
    then (
      z.base e,
      record z {
        bufctllist = e ∷ z.bufctllist;
        sle_next = update z.sle_next e (head_of z.bufctllist);
      },
    )
    else (e, z)

unfoldable pub take_entry : Zone → List Slab → Option (ℕ × Zone)
take_entry z [] = none
take_entry z (s ∷ rest) = do
  e ← s.firstfree
  some (hand_out e (record z { slablist = requeue s (z.sle_next e) rest }))

unfoldable pub kmem_zonealloc : Supply → Zone → Option (ℕ × Zone)
kmem_zonealloc supply z = let z' = with_slab supply z in take_entry z' z'.slablist

-- The entry goes to the front of the freelist of the slab with that header.
unfoldable pub push_entry : ℕ → ℕ → (ℕ → Option ℕ) → List Slab → Option ((ℕ → Option ℕ) × List Slab)
push_entry header e next [] = none
push_entry header e next (s ∷ l) =
    let rest = push_entry header e next l in
    if header == s.header
    then some
        (update next e s.firstfree, record s { nfree = inc32 s.nfree; firstfree = some e } ∷ l)
    else (do (next', l') ← rest; some (next', s ∷ l'))

abbrev pub find_entry : ℕ → (ℕ → ℕ) → List ℕ → Option ℕ
find_entry ptr base [] = none
find_entry ptr base (e ∷ l) = if base e == ptr then some e else find_entry ptr base l

unfoldable pub put_back : ℕ → ℕ → Zone → Option Zone
put_back header e z = do
  (next, slabs) ← push_entry header e z.sle_next z.slablist
  some (record z { sle_next = next; slablist = slabs })

unfoldable pub kmem_zonefree : ℕ → Zone → Option Zone
kmem_zonefree ptr z =
    if is_large z.size
    then (do
      e ← find_entry ptr z.base z.bufctllist
      put_back (z.slab e) e (record z { bufctllist = erase e z.bufctllist }))
    else put_back (small_slab_hdr (round_down ptr page_size)) ptr z
