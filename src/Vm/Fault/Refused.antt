-- ===== src/Vm/Fault/Refused.antt =====
-- vm/vm.c: fault_aobj refuses a fault that would need a page from a parent or from a store.
use scal_ux.Vm.{Anon, Object, Vm}
use scal_ux.Vm.Anons.{amap_anon_at}
use scal_ux.Vm.Fault.{
  Fault, absent_fault, anon_fault, failed, fault_aobj, no_anon_fault, on_present, slot_fault,
}
use scal_ux.Vm.Fault.Correct.{fault_run}
use scal_ux.Vm.Fault.Slot.{regrown, regrown-Inv, regrown-byte}
use scal_ux.Vm.Invariant.{Inv}
use scal_ux.Vm.View.{byte, slot}
use scal_ux.Vm.View.Slots.{Found, amap_anon_at-Found}
use scal_ux.Prelude.{Option, false, none, refl, some, sym, ℕ, ◌>>=◌, ◌∙◌, ◌≡◌}

-- The object has no page of its own there but has a parent, or its page is not resident.
pub data NeedsPaging (f : Fault) (s : Vm) (object : Object) : Type 0 where
  from_parent :
      (parent : ℕ)
      → object.parent ≡ some parent
      → slot object.amap f.page ≡ none
      → NeedsPaging f s object
  not_resident :
      (a : ℕ) (r : Anon)
      → slot object.amap f.page ≡ some a
      → s.anons a ≡ some r
      → r.resident ≡ false
      → on_present f.flags ≡ false
      → NeedsPaging f s object

-- No byte and no mapping has changed.
pub record Refused (s t : Vm) : Type 0 where
  pub inv : Inv t
  pub bytes_kept : (o page offset : ℕ) → byte t o page offset ≡ byte s o page offset
  pub mappings_kept : t.tables ≡ s.tables

parent_run :
    (f : Fault) (above : Option ℕ) (parent : ℕ) (s : Vm)
    → above ≡ some parent
    → slot_fault f none above s ≡ some (failed s)
unfolding slot_fault no_anon_fault
parent_run f above parent s e = rw e refl

absent_run :
    (f : Fault) (a : ℕ) (r : Anon) (above : Option ℕ) (s : Vm)
    → s.anons a ≡ some r
    → r.resident ≡ false
    → on_present f.flags ≡ false
    → slot_fault f (some a) above s ≡ some (failed s)
unfolding slot_fault anon_fault absent_fault
absent_run f a r above s is away off = rw (is, ◌>>=◌) (rw away (rw off refl))

module _ (f : Fault) (s : Vm) (object : Object) (inv : Inv s)
    (live : s.objects f.object ≡ some object) where
  found : Found object.amap f.page (amap_anon_at object.amap f.page)
  found = amap_anon_at-Found object.amap f.page

  refused_run :
      NeedsPaging f s object
      → fault_aobj f s ≡ some (failed (regrown s inv f.object object live f.page))
  refused_run (from_parent parent e empty) =
      fault_run f s inv object live none _ (found.same_slots f.page ∙ sym found.holds)
        (found.same_slots f.page ∙ empty) (parent_run f object.parent parent _ e)
  refused_run (not_resident a r holds is away off) =
      fault_run f s inv object live (some a) _ (found.same_slots f.page ∙ sym found.holds)
        (found.same_slots f.page ∙ holds) (absent_run f a r object.parent _ is away off)

  -- A fault that needs paging gives an error, and changes no byte and no mapping.
  pub fault_aobj-Refused :
      NeedsPaging f s object → (t : Vm) × (fault_aobj f s ≡ some (failed t)) × Refused s t
  fault_aobj-Refused needs = (
    regrown s inv f.object object live f.page,
    refused_run needs,
    record {
      inv = regrown-Inv s inv f.object object live f.page;
      bytes_kept = regrown-byte s inv f.object object live f.page;
      mappings_kept = refl;
    },
  )
