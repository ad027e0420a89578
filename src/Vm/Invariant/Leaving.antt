-- ===== src/Vm/Invariant/Leaving.antt =====
-- x86_64/vm.c: taking out the mapping at a place.
use scal_ux.Vm.Enter.{is_place, drop_place, pmap_unenter, unenter_entry, page_or}
use scal_ux.Vm.Invariant.{places, Mapped}
use scal_ux.Prelude.{
  ==_iff, Bool-cases, List, Option, [], arith, bit, inl, inr, map, none, refl, some, sym, true,
  update, ℕ, ◌+◌, ◌<◌, ◌>>=◌, ◌∙◌, ◌∷◌, ◌≡◌,
}
use scal_ux.Vm.{Mapping, PvEntry, Vm}
use scal_ux.Vm.Invariant.Entering.{at_place, is_at, placed, placed_lem}

-- The list with one entry for a place fewer.
Dropped : ℕ → ℕ → List PvEntry → List PvEntry → Type 0
Dropped map vaddr l rest =
    (map' vaddr' : ℕ)
    → places map' vaddr' rest + bit (is_at map vaddr map' vaddr') ≡ places map' vaddr' l

is_place-is_at :
    (map vaddr map' vaddr' : ℕ) (pv : PvEntry)
    → is_place map vaddr pv ≡ true
    → is_place map' vaddr' pv ≡ is_at map vaddr map' vaddr'
is_place-is_at map vaddr map' vaddr' pv h =
    let e : map ≡ pv.map_of = (==_iff map pv.map_of).0 (ground arith) in
    let e' : vaddr ≡ pv.vaddr = (==_iff vaddr pv.vaddr).0 (ground arith) in rw (sym e, sym e') refl

drop_place_lem :
    (map vaddr : ℕ) (l : List PvEntry)
    → 0 < places map vaddr l
    → (rest : List PvEntry) × (drop_place map vaddr l ≡ some rest) × Dropped map vaddr l rest
unfolding drop_place places Dropped
drop_place_lem map vaddr [] h = absurd (omega arith)
drop_place_lem map vaddr (pv ∷ l) h = elim (Bool-cases (is_place map vaddr pv)) [
  | inl found ↦ (
    l,
    ground arith,
    λ map' vaddr'. ground (arith, is_place-is_at map vaddr map' vaddr' pv found),
  )
  | inr other ↦
      let (rest, run, d) = drop_place_lem map vaddr l (ground arith) in
      (pv ∷ rest, rw other (rw (run, ◌>>=◌) refl), λ map' vaddr'. omega (arith, d map' vaddr'))
]

module _ (s : Vm) (m : Mapped s.tables s.pv_table s.anons s.pages) where
  -- Where something is mapped, pmap_unenter finds it on the list of its page, and takes it out.
  pub pmap_unenter-Mapped :
      (map vaddr : ℕ) (given : Option ℕ) (e : Mapping)
      → s.tables map vaddr ≡ some e
      → page_or given e.frame ≡ e.frame
      → (pv : ℕ → List PvEntry) × (pmap_unenter map given vaddr s
          ≡ some (record s { tables = placed s.tables map vaddr none; pv_table = pv }))
        × Mapped (placed s.tables map vaddr none) pv s.anons s.pages
  unfolding pmap_unenter unenter_entry Dropped
  pmap_unenter-Mapped map vaddr given e is f =
      let (rest, run, d) =
        drop_place_lem map vaddr (s.pv_table e.frame)
          (ground (arith, m.listed map vaddr e.frame)) in
      (
        update s.pv_table e.frame rest,
        rw is (rw f (rw (run, ◌>>=◌) refl)),
        record {
          listed = λ map' vaddr' p. ground (
            arith,
            placed_lem s.tables map vaddr map' vaddr' none,
            at_place s.tables map vaddr map' vaddr',
            m.listed map' vaddr' p,
            d map' vaddr',
          );
          in_use = λ map' vaddr' e' h. elim (Bool-cases (is_at map vaddr map' vaddr')) [
            | inl same ↦ ground (arith, placed_lem s.tables map vaddr map' vaddr' none)
            | inr other ↦
                m.in_use map' vaddr' e'
                  (sym (placed_lem s.tables map vaddr map' vaddr' none ∙ rw other refl) ∙ h)
          ];
          exclusive = λ map' vaddr' a e' r h p i o.
              elim (Bool-cases (is_at map vaddr map' vaddr')) [
                | inl same ↦ ground (arith, placed_lem s.tables map vaddr map' vaddr' none)
                | inr other ↦
                    m.exclusive map' vaddr' a e' r
                      (sym (placed_lem s.tables map vaddr map' vaddr' none ∙ rw other refl) ∙ h) p i
                      o
              ];
        },
      )
