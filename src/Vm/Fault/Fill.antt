-- ===== src/Vm/Fault/Fill.antt =====
-- vm/vm.c: a fault on a page that the object does not have gives it a page of zeros.
use scal_ux.Vm.Enter.{pmap_enter}
use scal_ux.Vm.Fault.{Fault, put_slot, zero_fault}
use scal_ux.Vm.Fault.Adopt.{adopted}
use scal_ux.Vm.Fault.NewPage.{new_mapping, result-Served}
use scal_ux.Vm.Invariant.{Inv}
use scal_ux.Vm.Invariant.Entering.{placed}
use scal_ux.Vm.Invariant.NewAnon.{with_new, anon_new-NewAnon, new_anon}
use scal_ux.Vm.View.{byte, slot}
use scal_ux.Prelude.{
  List, Option-cases, arith, inl, inr, none, refl, some, update, ℕ, ◌>>=◌, ◌∙◌, ◌∷◌, ◌≡◌,
}
use scal_ux.Page.{free_queue}
use scal_ux.Vm.{Object, Vm}
use scal_ux.Vm.View.Slots.{HasSlot}
use scal_ux.Vm.Fault.Served.{Faultable, Served}

nothing_there :
    (f : Fault) (s : Vm) (object : Object)
    → Faultable f s object
    → slot object.amap f.page ≡ none
    → s.tables f.map_of f.vaddr ≡ none
nothing_there f s object c empty = elim (Option-cases (s.tables f.map_of f.vaddr)) [
  | inl unmapped_yet ↦ unmapped_yet
  | inr (e, there) ↦ let (a, r, holds, is, same) = c.current e there in ground (arith, empty, holds)
]

pub zero_fault-Served :
    (f : Fault) (s : Vm) (object : Object) (page : ℕ) (rest : List ℕ)
    → Inv s
    → Faultable f s object
    → HasSlot object.amap f.page
    → slot object.amap f.page ≡ none
    → s.pages.queue free_queue ≡ page ∷ rest
    → (t : Vm) × (zero_fault f s ≡ some t) × Served f s t
unfolding zero_fault put_slot pmap_enter byte
zero_fault-Served f s object page rest inv c room empty q =
    let (P, run, n) = anon_new-NewAnon s inv.frames inv.mapped page rest q in
    let mine : with_new s page s.next_anon ≡ some (new_anon page) = ground arith in
    (
      adopted s f.object object f.page s.anons page P
          (placed s.tables f.map_of f.vaddr (some (new_mapping page)))
          (update s.pv_table page
            (record { map_of = f.map_of; vaddr = f.vaddr } ∷ s.pv_table page)),
      rw (run, ◌>>=◌) (rw (c.live, ◌>>=◌) (rw (mine, ◌>>=◌) refl)),
      result-Served f s inv object c room s.anons (λ a. refl) (λ a. rw empty (omega arith)) page P
          n.frames s.tables s.pv_table n.mapped (nothing_there f s object c empty)
          (λ map vaddr other. refl) n.taken (λ offset. n.zeros offset ∙ rw c.live (rw empty refl))
          (λ a r is. n.kept r.physpage (n.new_page a r is)),
    )
