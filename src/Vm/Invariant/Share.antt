-- ===== src/Vm/Invariant/Share.antt =====
-- vm/vm.c: one more reference to an anon takes the right to write its page from every mapping.
use scal_ux.Vm.Invariant.{Mapped, maps_to}
use scal_ux.Prelude.{
  ==_iff, Bool-cases, List, Option, ap, arith, bit, count, false, inl, inr, map, none, refl, some,
  sym, true, update, ℕ, ◌==◌, ◌∙◌, ◌≡◌, ◌⊎◌,
}
use scal_ux.Page.{Pages}
use scal_ux.Vm.{Anon, Mapping, PvEntry, read_execute}
use scal_ux.Vm.Invariant.Places.{readonly}

mapped_frame :
    (page : ℕ) (entry : Option Mapping)
    → maps_to page entry ≡ true
    → (e : Mapping) × (entry ≡ some e) × (page ≡ e.frame)
mapped_frame page none h = cc
mapped_frame page (some e) h = (e, refl, (==_iff page e.frame).0 h)

module _ (tables : ℕ → ℕ → Option Mapping) (pv_table : ℕ → List PvEntry) (anons : ℕ → Option Anon)
    (pages : Pages) (m : Mapped tables pv_table anons pages) (a page : ℕ) where
  abbrev pub now : ℕ → ℕ → Option Mapping
  now = readonly page (pv_table page) tables

  -- Either the place maps the page, and is read only now, or its entry has not changed.
  now-cases :
      (map vaddr : ℕ)
      → ((e : Mapping) × (tables map vaddr ≡ some e)
          × (page ≡ e.frame)
          × (now map vaddr ≡ some (record { frame = page; protection = read_execute })))
        ⊎ ((maps_to page (tables map vaddr) ≡ false) × (now map vaddr ≡ tables map vaddr))
  now-cases map vaddr = elim (Bool-cases (maps_to page (tables map vaddr))) [
    | inl yes_it_does ↦
        let (e, is, f) = mapped_frame page (tables map vaddr) yes_it_does in
        inl (e, is, f, ground (arith, m.listed map vaddr page))
    | inr elsewhere ↦ inr (elsewhere, ground (arith, m.listed map vaddr page))
  ]

  now-maps_to : (map vaddr p : ℕ) → maps_to p (now map vaddr) ≡ maps_to p (tables map vaddr)
  now-maps_to map vaddr p = elim (now-cases map vaddr) [
    | inl (e, is, f, new) ↦ rw new (rw is (ap (λ k. p == k) f))
    | inr (elsewhere, same) ↦ ap (maps_to p) same
  ]

  pub readonly-Mapped :
      (r : Anon)
      → anons a ≡ some r
      → r.physpage ≡ page
      → (count : ℕ)
      → Mapped now pv_table (update anons a (some (record r { refcnt = count }))) pages
  readonly-Mapped r is at count = record {
    listed = λ map vaddr p. m.listed map vaddr p ∙ ap bit (sym (now-maps_to map vaddr p));
    in_use = λ map vaddr entry h. elim (now-cases map vaddr) [
      | inl (e, was, f, new) ↦ ground (arith, m.in_use map vaddr e was, f, new, h)
      | inr (elsewhere, same) ↦ m.in_use map vaddr entry (sym same ∙ h)
    ];
    exclusive = λ map vaddr b entry t h prot owner frame. elim (now-cases map vaddr) [
      | inl (e, was, f, new) ↦ cc
      | inr (elsewhere, same) ↦ ground (arith, m.exclusive map vaddr b entry t (sym same ∙ h) prot)
    ];
  }
