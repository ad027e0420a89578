-- ===== src/Vm/Enter.antt =====
-- x86_64/vm.c: entering and taking out the mappings of a page, with the list of places that map it.
-- The four levels of tables under an entry are in scal_ux.Pmap.
use scal_ux.Prelude.{
  Bool, List, Option, [], if◌then◌else◌, map, none, some, update, ℕ, ◌&&◌, ◌==◌, ◌>>=◌, ◌∷◌,
}
use scal_ux.Vm.{Mapping, PvEntry, Protection, Vm, read_execute}

abbrev pub set_entry : ℕ → ℕ → Option Mapping → Vm → Vm
set_entry map vaddr entry s = record s {
  tables = update s.tables map (update (s.tables map) vaddr entry);
}

unfoldable pub pmap_enter : ℕ → ℕ → ℕ → Protection → Vm → Vm
pmap_enter map page vaddr prot s =
    record (set_entry map vaddr (some (record { frame = page; protection = prot })) s) {
      pv_table = update s.pv_table page (record { map_of = map; vaddr = vaddr } ∷ s.pv_table page);
    }

unfoldable pub pmap_reenter : ℕ → ℕ → ℕ → Protection → Vm → Vm
pmap_reenter map page vaddr prot s =
    set_entry map vaddr (some (record { frame = page; protection = prot })) s

unfoldable pub reenter_places : ℕ → List PvEntry → Vm → Vm
reenter_places page [] s = s
reenter_places page (pv ∷ rest) s =
    reenter_places page rest (pmap_reenter pv.map_of page pv.vaddr read_execute s)

unfoldable pub pmap_reenter_all_readonly : ℕ → Vm → Vm
pmap_reenter_all_readonly page s = reenter_places page (s.pv_table page) s

abbrev pub is_place : ℕ → ℕ → PvEntry → Bool
is_place map vaddr pv = (map == pv.map_of) && (vaddr == pv.vaddr)

-- The list without the first entry for a place, which the source looks for; `none` when there is none.
unfoldable pub drop_place : ℕ → ℕ → List PvEntry → Option (List PvEntry)
drop_place map vaddr [] = none
drop_place map vaddr (pv ∷ rest) =
    let dropped = drop_place map vaddr rest in
    if is_place map vaddr pv then some rest else (do l ← dropped; some (pv ∷ l))

abbrev pub page_or : Option ℕ → ℕ → ℕ
page_or none frame = frame
page_or (some page) frame = page

-- Without a page from the caller, the page is the one whose frame the entry holds.
unfoldable pub unenter_entry : ℕ → Option ℕ → ℕ → Option Mapping → Vm → Option Vm
unenter_entry map given vaddr none s = some s
unenter_entry map given vaddr (some entry) s = do
  places ← drop_place map vaddr (s.pv_table (page_or given entry.frame))
  some (record (set_entry map vaddr none s) {
    pv_table = update s.pv_table (page_or given entry.frame) places;
  })

unfoldable pub pmap_unenter : ℕ → Option ℕ → ℕ → Vm → Option Vm
pmap_unenter map given vaddr s = unenter_entry map given vaddr (s.tables map vaddr) s
