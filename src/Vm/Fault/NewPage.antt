-- ===== src/Vm/Fault/NewPage.antt =====
-- vm/vm.c: the faults that give an object a new page, of zeros or with a copy of the shared one.
use scal_ux.Vm.Copy.{page_of}
use scal_ux.Vm.Fault.{Fault}
use scal_ux.Vm.Fault.Adopt.{adopted, adopted-Inv, adopted-byte, adopted-slot, adopted_anons}
use scal_ux.Vm.Invariant.{Frames, Inv, Mapped, count_of, on_free}
use scal_ux.Vm.View.{byte, slot}
use scal_ux.Prelude.{
  List, Option, ap, arith, bit, false, none, owns, refl, some, update, ℕ, ◌+◌, ◌∙◌, ◌∷◌, ◌≡◌,
}
use scal_ux.Page.{Pages}
use scal_ux.Vm.{Anon, Mapping, Object, PvEntry, Vm, all}
use scal_ux.Vm.View.Slots.{HasSlot}
use scal_ux.Vm.Invariant.Entering.{Sole, enter-Mapped, is_at, placed}
use scal_ux.Vm.Invariant.NewAnon.{new_anon}
use scal_ux.Vm.Fault.Served.{Faultable, Served, placed_elsewhere, placed_here}

abbrev pub new_mapping : ℕ → Mapping
new_mapping page = record { frame = page; protection = all }

module _ (f : Fault) (s : Vm) (inv : Inv s) (object : Object) (c : Faultable f s object)
    (room : HasSlot object.amap f.page) (A : ℕ → Option Anon)
    (pages_kept : (a : ℕ) → page_of (A a) ≡ page_of (s.anons a))
    (one_fewer : (a : ℕ)
      → count_of (A a) + bit (owns a (slot object.amap f.page)) ≡ count_of (s.anons a))
    (new : ℕ) (P : Pages) (frames : Frames (adopted_anons s A new) P) (T : ℕ → ℕ → Option Mapping)
    (pv : ℕ → List PvEntry) (m : Mapped T pv (adopted_anons s A new) P)
    (nothing : T f.map_of f.vaddr ≡ none)
    (others : (map vaddr : ℕ)
      → is_at f.map_of f.vaddr map vaddr ≡ false
      → T map vaddr ≡ s.tables map vaddr)
    (taken : on_free new P ≡ 0)
    (filled : (offset : ℕ) → P.contents new offset ≡ byte s f.object f.page offset)
    (kept : (a : ℕ) (r : Anon)
      → s.anons a ≡ some r
      → P.contents r.physpage ≡ s.pages.contents r.physpage) where
  abbrev result : Vm
  result =
      adopted s f.object object f.page A new P (placed T f.map_of f.vaddr (some (new_mapping new)))
        (update pv new (record { map_of = f.map_of; vaddr = f.vaddr } ∷ pv new))

  one_holder : Sole (adopted_anons s A new) new
  one_holder a r is same =
      let mine : adopted_anons s A new s.next_anon ≡ some (new_anon new) = ground arith in
      let e : a ≡ s.next_anon = frames.apart a s.next_anon r (new_anon new) is mine same in
      ground (arith, ap (adopted_anons s A new) e, is, mine)

  pub result-Served : Served f s result
  result-Served = record {
    inv =
        adopted-Inv s inv f.object object c.live f.page room A pages_kept one_fewer new P
          (placed T f.map_of f.vaddr (some (new_mapping new)))
          (update pv new (record { map_of = f.map_of; vaddr = f.vaddr } ∷ pv new)) frames
          (enter-Mapped T pv (adopted_anons s A new) P m f.map_of new f.vaddr all (λ w. one_holder)
            nothing taken);
    shows = record {
      anon = s.next_anon;
      held = new_anon new;
      entry = new_mapping new;
      in_slot =
          adopted-slot s inv f.object object c.live f.page room A pages_kept one_fewer f.object
            f.page
          ∙ ground arith;
      is = ground arith;
      mapped = placed_here T f.map_of f.vaddr (some (new_mapping new));
      its_page = refl;
      writable = λ w. refl;
    };
    bytes_kept =
        adopted-byte s inv f.object object c.live f.page room A pages_kept one_fewer new P
          (placed T f.map_of f.vaddr (some (new_mapping new)))
          (update pv new (record { map_of = f.map_of; vaddr = f.vaddr } ∷ pv new)) filled kept;
    elsewhere = λ map vaddr other.
        placed_elsewhere T f.map_of f.vaddr map vaddr (some (new_mapping new)) other
        ∙ others map vaddr other;
  }
