-- ===== src/Vm/Invariant/Entering.antt =====
-- x86_64/vm.c: entering a page where nothing is mapped, and changing the right to write it.
use scal_ux.Vm.Invariant.{Mapped, on_free, places}
use scal_ux.Prelude.{
  ==_iff, Bool, Bool-cases, List, Option, ap, arith, if◌then◌else◌, inl, inr, map, none, refl, some,
  subst, sym, true, update, ℕ, ◌&&◌, ◌==◌, ◌∙◌, ◌∷◌, ◌≡◌,
}
use scal_ux.Page.{Pages}
use scal_ux.Vm.{Anon, Mapping, PvEntry, Protection, all}

-- The entry at one place, replaced.
abbrev pub placed : (ℕ → ℕ → Option Mapping) → ℕ → ℕ → Option Mapping → ℕ → ℕ → Option Mapping
placed tables map vaddr entry = update tables map (update (tables map) vaddr entry)

abbrev pub is_at : ℕ → ℕ → ℕ → ℕ → Bool
is_at map vaddr map' vaddr' = (map' == map) && (vaddr' == vaddr)

pub placed_lem :
    (tables : ℕ → ℕ → Option Mapping) (map vaddr map' vaddr' : ℕ) (entry : Option Mapping)
    → placed tables map vaddr entry map' vaddr'
      ≡ (if is_at map vaddr map' vaddr' then entry else tables map' vaddr')
placed_lem tables map vaddr map' vaddr' entry = elim (Bool-cases (map' == map)) [
  | inl same ↦ ground (arith, ap tables ((==_iff map' map).0 same))
  | inr other ↦ ground arith
]

-- The place that is given is this one.
pub at_place :
    (tables : ℕ → ℕ → Option Mapping) (map vaddr map' vaddr' : ℕ)
    → is_at map vaddr map' vaddr' ≡ true
    → tables map' vaddr' ≡ tables map vaddr
at_place tables map vaddr map' vaddr' h =
    let e : map' ≡ map = (==_iff map' map).0 (ground arith) in
    let e' : vaddr' ≡ vaddr = (==_iff vaddr' vaddr).0 (ground arith) in
    ap (λ k. tables k vaddr') e ∙ ap (tables map) e'

-- A page that only anons with one reference hold.
abbrev pub Sole : (ℕ → Option Anon) → ℕ → Type 0
Sole anons page = (a : ℕ) (r : Anon) → anons a ≡ some r → r.physpage ≡ page → r.refcnt ≡ 1

module _ (tables : ℕ → ℕ → Option Mapping) (pv_table : ℕ → List PvEntry) (anons : ℕ → Option Anon)
    (pages : Pages) (m : Mapped tables pv_table anons pages) (map page vaddr : ℕ)
    (prot : Protection) (sole : prot ≡ all → Sole anons page) where
  abbrev entry : Mapping
  entry = record { frame = page; protection = prot }

  placed-in_use :
      on_free page pages ≡ 0
      → (map' vaddr' : ℕ) (e : Mapping) → placed tables map vaddr (some entry) map' vaddr' ≡ some e
      → on_free e.frame pages ≡ 0
  placed-in_use taken map' vaddr' e h = elim (Bool-cases (is_at map vaddr map' vaddr')) [
    | inl same ↦ ground (arith, placed_lem tables map vaddr map' vaddr' (some entry))
    | inr other ↦
        m.in_use map' vaddr' e
          (sym (placed_lem tables map vaddr map' vaddr' (some entry) ∙ rw other refl) ∙ h)
  ]

  placed-exclusive :
      (map' vaddr' a : ℕ) (e : Mapping) (r : Anon)
      → placed tables map vaddr (some entry) map' vaddr' ≡ some e
      → e.protection ≡ all
      → anons a ≡ some r
      → r.physpage ≡ e.frame
      → r.refcnt ≡ 1
  placed-exclusive map' vaddr' a e r h p is f = elim (Bool-cases (is_at map vaddr map' vaddr')) [
    | inl same ↦
        let here_it_is : some entry ≡ some e =
          sym (placed_lem tables map vaddr map' vaddr' (some entry) ∙ rw same refl) ∙ h in
        sole (cc) a r is (cc)
    | inr other ↦
        m.exclusive map' vaddr' a e r
          (sym (placed_lem tables map vaddr map' vaddr' (some entry) ∙ rw other refl) ∙ h) p is f
  ]

  pub enter-Mapped :
      tables map vaddr ≡ none
      → on_free page pages ≡ 0
      → Mapped
          (placed tables map vaddr (some entry))
          (update pv_table page (record { map_of = map; vaddr = vaddr } ∷ pv_table page))
          anons
          pages
  unfolding places
  enter-Mapped nothing taken = record {
    listed = λ map' vaddr' p. ground (
      arith,
      placed_lem tables map vaddr map' vaddr' (some entry),
      at_place tables map vaddr map' vaddr',
      m.listed map' vaddr' p,
      m.listed map' vaddr' page,
      nothing,
    );
    in_use = placed-in_use taken;
    exclusive = placed-exclusive;
  }

  pub reenter-Mapped :
      (e : Mapping)
      → tables map vaddr ≡ some e
      → e.frame ≡ page
      → Mapped (placed tables map vaddr (some entry)) pv_table anons pages
  reenter-Mapped e was f = record {
    listed = λ map' vaddr' p. ground (
      arith,
      placed_lem tables map vaddr map' vaddr' (some entry),
      at_place tables map vaddr map' vaddr',
      m.listed map' vaddr' p,
      was,
      f,
    );
    in_use = placed-in_use (subst (λ k. on_free k pages ≡ 0) f (m.in_use map vaddr e was));
    exclusive = placed-exclusive;
  }
