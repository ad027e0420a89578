-- ===== src/Vm/Invariant/Places.antt =====
-- x86_64/vm.c: what entering, re-entering and taking out do to the mappings and the lists of places.
use scal_ux.Vm.Enter.{pmap_reenter, reenter_places}
use scal_ux.Vm.Invariant.{places}
use mathlib.Core.Path.{fun_ext}
use scal_ux.Prelude.{
  List, Option, [], ap, arith, if◌then◌else◌, ltb, map, refl, some, ℕ, ◌∙◌, ◌∷◌, ◌≡◌,
}
use scal_ux.Vm.{Mapping, PvEntry, Vm, read_execute}

-- All mappings of the places on a list, made read only.
abbrev pub readonly : ℕ → List PvEntry → (ℕ → ℕ → Option Mapping) → ℕ → ℕ → Option Mapping
readonly page l tables map vaddr =
    if ltb 0 (places map vaddr l)
    then some (record { frame = page; protection = read_execute })
    else tables map vaddr

-- What re-entering the places of a list changes: the tables alone.
reenter_places_pointwise :
    (page : ℕ) (l : List PvEntry) (s : Vm)
    → (T : ℕ → ℕ → Option Mapping) × (reenter_places page l s ≡ record s { tables = T })
      × ((map vaddr : ℕ) → T map vaddr ≡ readonly page l s.tables map vaddr)
unfolding reenter_places pmap_reenter places
reenter_places_pointwise page [] s = (s.tables, refl, λ map vaddr. refl)
reenter_places_pointwise page (pv ∷ rest) s =
    let (T, run, is) =
      reenter_places_pointwise page rest (pmap_reenter pv.map_of page pv.vaddr read_execute s) in
    (T, run, λ map vaddr. ground (arith, is map vaddr))

pub reenter_places_lem :
    (page : ℕ) (l : List PvEntry) (s : Vm)
    → reenter_places page l s ≡ record s { tables = readonly page l s.tables }
reenter_places_lem page l s =
    let (T, run, is) = reenter_places_pointwise page l s in
    run ∙ ap (λ tables. record s { tables = tables }) (fun_ext λ map. fun_ext λ vaddr. is map vaddr)
