-- ===== src/Vm/Refine/Correct.antt =====
-- vm/vm.c: objects that share pages behave as separate arrays of bytes.
use scal_ux.Vm.Copy.Correct.{Copied, vm_object_copy-Copied}
use scal_ux.Vm.Fault.{ok}
use scal_ux.Vm.Fault.Correct.{fault_aobj-Served}
use scal_ux.Vm.Refine.{
  Command, Contents, ObjectStep, ObjectSteps, Refines, copy, create, done, fault_step, next,
  run_spec, spec, store, vm_aobj_new_step, vm_object_copy_step, write_step,
}
use scal_ux.Vm.Refine.Write.{stored, write_entry-stored}
use scal_ux.Vm.Invariant.{Inv, held_by}
use scal_ux.Vm.Objects.{no_chunks, vm_aobj_new}
use scal_ux.Vm.View.{byte, slot, slot_byte, weight}
use scal_ux.Vm.View.Objects.{references_add}
use scal_ux.Prelude.{
  ==_iff, Bool-cases, List, Option, ap, arith, false, inl, inr, none, refl, some, subst, suc, sym,
  total, update, ℕ, ◌==◌, ◌∙◌, ◌≡◌,
}
use scal_ux.Vm.{Object, Vm, anonymous}

empty-weight : (a : ℕ) → weight a (record { chunks = no_chunks; curnchunk = 0 }) ≡ 0
unfolding weight total
empty-weight a = refl

empty-slot : (page : ℕ) → slot (record { chunks = no_chunks; curnchunk = 0 }) page ≡ none
unfolding slot
empty-slot page = ground arith

-- What a new object is.
record Created (s : Vm) (new : ℕ) (t : Vm) : Type 0 where
  inv : Inv t
  zeros : (page offset : ℕ) → byte t new page offset ≡ 0
  others_kept :
      (x page offset : ℕ) → (new == x) ≡ false → byte t x page offset ≡ byte s x page offset

module _ (s : Vm) (size : ℕ) (inv : Inv s) where
  abbrev made : Object
  made = record {
    refcnt = 1;
    type_of = anonymous;
    bytes = size;
    amap = record { chunks = no_chunks; curnchunk = 0 };
    parent = none;
  }

  abbrev with_made : Vm
  with_made = record s {
    objects = update s.objects s.next_object (some made);
    next_object = suc s.next_object;
  }

  same_references : (a : ℕ) → held_by with_made a ≡ held_by s a
  same_references a =
      omega (arith, empty-weight a, references_add a s.next_object s.objects (some made))

  with_made-Created : Created s s.next_object with_made
  unfolding byte
  with_made-Created = record {
    inv = record {
      fresh = record {
        anons = inv.fresh.anons;
        objects = λ k high. ground (arith, inv.fresh.objects k);
      };
      counts = record {
        counted = λ a. inv.counts.counted a ∙ sym (same_references a);
        in_range = λ a. omega (arith, inv.counts.in_range a, same_references a);
      };
      frames = inv.frames;
      mapped = inv.mapped;
    };
    zeros = λ page offset.
        let new : update s.objects s.next_object (some made) s.next_object ≡ some made =
          ground arith in
        rw new (ap (λ x. slot_byte s.pages s.anons x offset) (empty-slot page));
    others_kept = λ x page offset other. rw other refl;
  }

  vm_aobj_new-eq : vm_aobj_new size s ≡ (s.next_object, with_made)
  unfolding vm_aobj_new
  vm_aobj_new-eq = refl

pub vm_aobj_new-Inv : (s : Vm) (size : ℕ) → Inv s → Inv (vm_aobj_new size s).1
vm_aobj_new-Inv s size inv =
    subst (λ p. Inv p.1) (sym (vm_aobj_new-eq s size inv)) (with_made-Created s size inv).inv

-- A copy or a fault that the code has done is the one that it does.
same_run : {A : Type 0} {r : Option A} {x y : A} → r ≡ some x → r ≡ some y → x ≡ y
same_run h h' = ground (arith, h, h')

Created-Refines :
    (s : Vm) (new : ℕ) (t : Vm) (c : Contents)
    → Created s new t
    → Refines s c
    → Refines t (spec (create new) c)
Created-Refines s new t c made_now r = record {
  inv = made_now.inv;
  agrees = λ x q w. elim (Bool-cases (new == x)) [
    | inl this ↦ rw this (ap (λ k. byte t k q w) (sym ((==_iff new x).0 this)) ∙ made_now.zeros q w)
    | inr other ↦ rw other (made_now.others_kept x q w other ∙ r.agrees x q w)
  ];
}

Copied-Refines :
    (s : Vm) (o new : ℕ) (t : Vm) (c : Contents)
    → Copied o s new t
    → Refines s c
    → Refines t (spec (copy o new) c)
Copied-Refines s o new t c copied r = record {
  inv = copied.inv;
  agrees = λ x q w. elim (Bool-cases (new == x)) [
    | inl this ↦ rw this (
        ap (λ k. byte t k q w) (sym ((==_iff new x).0 this))
        ∙ copied.same_bytes q w
        ∙ r.agrees o q w)
    | inr other ↦ rw other (copied.others_kept x q w other ∙ r.agrees x q w)
  ];
}

stored-spec :
    (b c : Contents) (o page offset value x q w : ℕ)
    → ((x q w : ℕ) → b x q w ≡ c x q w)
    → stored b o page offset value x q w ≡ spec (store o page offset value) c x q w
stored-spec b c o page offset value x q w same = elim (Bool-cases (o == x)) [
  | inl this ↦ elim (Bool-cases (page == q)) [
    | inl this' ↦ ground (
      arith,
      same x q w,
      ap (λ k. c k q w) ((==_iff o x).0 this),
      ap (λ k. c o k w) ((==_iff page q).0 this'),
    )
    | inr other' ↦ ground (arith, same x q w, ap (λ k. c k q w) ((==_iff o x).0 this))
  ]
  | inr other ↦ ground (arith, same x q w)
]

-- One step of the code is one step of the abstract objects.
ObjectStep-Refines :
    (s : Vm) (x : Command) (t : Vm) (c : Contents)
    → ObjectStep s x t
    → Refines s c
    → Refines t (spec x c)
ObjectStep-Refines s _ _ c (vm_aobj_new_step size new t run) r =
    let made_now : (s.next_object, with_made s size r.inv) ≡ (new, t) =
      sym (vm_aobj_new-eq s size r.inv) ∙ run in
    subst (λ p. Refines p.1 (spec (create p.0) c)) made_now
      (Created-Refines s s.next_object (with_made s size r.inv) c (with_made-Created s size r.inv)
        r)
ObjectStep-Refines s _ _ c (vm_object_copy_step o new object t live kind some_chunk room run) r =
    let (new', t', run', copied) =
      vm_object_copy-Copied s o object r.inv live kind some_chunk room in
    let e : (new', t') ≡ (new, t) = same_run run' run in
    subst (λ p. Refines p.1 (spec (copy o p.0) c)) e (Copied-Refines s o new' t' c copied r)
ObjectStep-Refines s _ _ c (fault_step f object page rest t faultable q run) r =
    let (t', run', served) = fault_aobj-Served f s object page rest r.inv faultable q in
    let e : ok t' ≡ ok t = same_run run' run in
    let e' : t' ≡ t = ground (arith, e) in
    subst (λ u. Refines u c) e'
      (record { inv = served.inv; agrees = λ x q w. served.bytes_kept x q w ∙ r.agrees x q w })
ObjectStep-Refines s _ _ c (write_step f offset value t shows run) r =
    let (inv, bytes) = write_entry-stored s f offset value t r.inv shows run in
    record {
      inv = inv;
      agrees =
          λ x q w. bytes x q w ∙ stored-spec (byte s) c f.object f.page offset value x q w r.agrees;
    }

-- Over any sequence of new objects, copies of anonymous objects with a chunk, faults and writes, where each
-- fault meets the conditions of fault_aobj-Served, each write is at an address that shows the page that the
-- object has now, a page is free for each fault, and the counts of a copy have room, the bytes of the
-- objects are those of separate arrays. (An object that is mapped at two addresses leaves such sequences: a
-- write fault at one of them makes the other show a page that is no longer the object's.) A new object is
-- all zeros, a copy has the bytes that the old object has then, a fault changes nothing, and a write
-- changes one byte of one object.
pub vm_objects-refine :
    (s : Vm) (l : List Command) (t : Vm) (c : Contents)
    → ObjectSteps s l t
    → Refines s c
    → Refines t (run_spec l c)
vm_objects-refine s _ _ c done r = r
vm_objects-refine s _ _ c (next x l t u before step) r =
    ObjectStep-Refines t x u (run_spec l c) step (vm_objects-refine s l t c before r)
