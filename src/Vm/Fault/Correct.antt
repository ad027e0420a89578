-- ===== src/Vm/Fault/Correct.antt =====
-- vm/vm.c: fault_aobj serves a fault on a page that the object has or may have as zeros.
use scal_ux.Vm.Anons.{amap_anon_at}
use scal_ux.Vm.Fault.{
  Fault, Result, anon_fault, fault_aobj, no_anon_fault, ok, resident_fault, slot_fault, zero_fault,
}
use scal_ux.Vm.Fault.Fill.{zero_fault-Served}
use scal_ux.Vm.Fault.Resident.{resident_fault-Served}
use scal_ux.Vm.Fault.Slot.{regrown, regrown-Inv, regrown-byte, slot-has_anon}
use scal_ux.Vm.Invariant.{Inv}
use scal_ux.Vm.View.{object_slot, slot}
use scal_ux.Prelude.{
  List, Option, Option-cases, arith, inl, inr, none, refl, some, subst, sym, true, ℕ, ◌>>=◌, ◌∙◌,
  ◌∷◌, ◌≡◌,
}
use scal_ux.Vm.{Amap, Anon, Object, Vm}
use scal_ux.Vm.View.Slots.{Found, amap_anon_at-Found}
use scal_ux.Page.{free_queue}
use scal_ux.Vm.Fault.Served.{Faultable, Served}

regrown-Faultable :
    (f : Fault) (s : Vm) (inv : Inv s) (object : Object) (c : Faultable f s object)
    → Faultable f
        (regrown s inv f.object object c.live f.page)
        (record object { amap = (amap_anon_at object.amap f.page).0 })
regrown-Faultable f s inv object c =
    let same : slot (amap_anon_at object.amap f.page).0 f.page ≡ slot object.amap f.page =
      (amap_anon_at-Found object.amap f.page).same_slots f.page in
    record {
      live = ground arith;
      orphan = c.orphan;
      resident = λ a r holds is. c.resident a r (sym same ∙ holds) is;
      flag_tells = c.flag_tells;
      on_write_only = c.on_write_only;
      current = λ e there.
          let (a, r, holds, is, frame) = c.current e there in (a, r, same ∙ holds, is, frame);
    }

since_regrown :
    (f : Fault) (s : Vm) (inv : Inv s) (object : Object) (c : Faultable f s object) (t : Vm)
    → Served f (regrown s inv f.object object c.live f.page) t
    → Served f s t
since_regrown f s inv object c t served = record {
  inv = served.inv;
  shows = served.shows;
  bytes_kept = λ o page offset.
      served.bytes_kept o page offset
      ∙ regrown-byte s inv f.object object c.live f.page o page offset;
  elsewhere = served.elsewhere;
}

zero_run :
    (f : Fault) (parent : Option ℕ) (s t : Vm)
    → parent ≡ none
    → zero_fault f s ≡ some t
    → slot_fault f none parent s ≡ some (ok t)
unfolding slot_fault no_anon_fault
zero_run f parent s t orphan run = rw orphan (rw (run, ◌>>=◌) refl)

resident_run :
    (f : Fault) (a : ℕ) (r : Anon) (parent : Option ℕ) (s t : Vm)
    → s.anons a ≡ some r
    → r.resident ≡ true
    → resident_fault f a r s ≡ some t
    → slot_fault f (some a) parent s ≡ some (ok t)
unfolding slot_fault anon_fault
resident_run f a r parent s t is here_now run = rw (is, ◌>>=◌) (rw (run, ◌>>=◌) (rw here_now refl))

pub fault_run :
    (f : Fault) (s : Vm) (inv : Inv s) (object : Object) (live : s.objects f.object ≡ some object)
    (x : Option ℕ) (result : Result)
    → slot (amap_anon_at object.amap f.page).0 f.page ≡ (amap_anon_at object.amap f.page).1
    → slot (amap_anon_at object.amap f.page).0 f.page ≡ x
    → slot_fault f x object.parent (regrown s inv f.object object live f.page) ≡ some result
    → fault_aobj f s ≡ some result
unfolding fault_aobj
fault_run f s inv object live x result found holds run =
    rw (live, ◌>>=◌)
      (subst
        (λ y.
          slot_fault f y object.parent (regrown s inv f.object object live f.page) ≡ some result)
        (sym holds ∙ found) run)

in_slot_of :
    (f : Fault) (s : Vm) (object : Object)
    → Faultable f s object
    → (a : ℕ) → slot object.amap f.page ≡ some a
    → object_slot (s.objects f.object) f.page ≡ some a
in_slot_of f s object c a holds = rw c.live holds

-- fault_aobj, with the invariant, while a page is free, and for an object without a parent whose page is
-- resident if there is one, returns 0, where the flag of the fault says whether the address is mapped, and
-- an address that is mapped is written to and mapped to the page that the object has now. (The last fails
-- for a second address of an object, once a write fault at the first has replaced the page.) Afterwards the address shows the page of the object, which may be written if the
-- fault was a write; no byte of any object has changed, no other address has another page, and the
-- invariant holds, by which no page with two references may be written.
pub fault_aobj-Served :
    (f : Fault) (s : Vm) (object : Object) (page : ℕ) (rest : List ℕ)
    → Inv s
    → Faultable f s object
    → s.pages.queue free_queue ≡ page ∷ rest
    → (t : Vm) × (fault_aobj f s ≡ some (ok t)) × Served f s t
fault_aobj-Served f s object page rest inv c q =
    let s1 : Vm = regrown s inv f.object object c.live f.page in
    let inv1 : Inv s1 = regrown-Inv s inv f.object object c.live f.page in
    let found : Found object.amap f.page (amap_anon_at object.amap f.page) =
      amap_anon_at-Found object.amap f.page in
    let grown : Amap = (amap_anon_at object.amap f.page).0 in
    let c1 : Faultable f s1 (record object { amap = grown }) = regrown-Faultable f s inv object c in
    elim (Option-cases (slot grown f.page)) [
      | inl empty ↦
          let (t, run, served) =
            zero_fault-Served f s1 (record object { amap = grown }) page rest inv1 c1 found.room
              empty q in
          (
            t,
            fault_run f s inv object c.live none (ok t) (found.same_slots f.page ∙ sym found.holds)
                empty (zero_run f object.parent s1 t c.orphan run),
            since_regrown f s inv object c t served,
          )
      | inr (a, holds) ↦
          let (r, is, one) =
            slot-has_anon s1 inv1 f.object f.page a
              (in_slot_of f s1 (record object { amap = grown }) c1 a holds) in
          let (t, run, served) =
            resident_fault-Served f s1 inv1 (record object { amap = grown }) c1 found.room a r holds
              is page rest q in
          (
            t,
            fault_run f s inv object c.live (some a) (ok t)
                (found.same_slots f.page ∙ sym found.holds) holds
                (resident_run f a r object.parent s1 t is (c1.resident a r holds is) run),
            since_regrown f s inv object c t served,
          )
    ]
