-- ===== src/Vm/Fault/Adopt.antt =====
-- vm/vm.c: a slot that is given a new anon, with the bytes that the page had before.
use scal_ux.Prelude.{
  if◌then◌else◌, false, suc, update, List, inl, some, ◌+◌, bit, none, inr, ◌∙◌, ◌≡◌, ap, Bool-cases,
  Option, owns, ℕ, arith, sym, refl, ==_iff, ◌&&◌, Option-cases, ◌==◌,
}
use scal_ux.Vm.View.References.{set_slot-slot, set_slot-weight}
use scal_ux.Vm.Anons.{set_slot}
use scal_ux.Vm.Copy.{page_of}
use scal_ux.Vm.Fault.Slot.{
  next_is_new, slot-has_anon, with_amap, with_amap-references, with_amap-same,
}
use scal_ux.Vm.Invariant.{Frames, Inv, Mapped, count_of, held_by}
use scal_ux.Vm.View.{byte, object_slot, references, slot, slot_byte}
use scal_ux.Page.{Pages}
use scal_ux.Vm.{Anon, Mapping, Object, PvEntry, Vm}
use scal_ux.Vm.View.Slots.{HasSlot}
use scal_ux.Vm.Invariant.NewAnon.{new_anon}
use scal_ux.Vm.Copy.Correct.{same_page, same_page_none}

abbrev pub adopted_objects : Vm → ℕ → Object → ℕ → ℕ → Option Object
adopted_objects s o object page =
    with_amap s o object (set_slot object.amap page (some s.next_anon))

abbrev pub adopted_anons : Vm → (ℕ → Option Anon) → ℕ → ℕ → Option Anon
adopted_anons s A new = update A s.next_anon (some (new_anon new))

-- The state in which the slot of a page holds a new anon, which has the page `new`.
abbrev pub adopted :
    Vm
    → ℕ
    → Object
    → ℕ
    → (ℕ → Option Anon)
    → ℕ
    → Pages
    → (ℕ → ℕ → Option Mapping)
    → (ℕ → List PvEntry)
    → Vm
adopted s o object page A new pages tables pv = record {
  objects = adopted_objects s o object page;
  next_object = s.next_object;
  anons = adopted_anons s A new;
  next_anon = suc s.next_anon;
  pages = pages;
  tables = tables;
  pv_table = pv;
}

module _ (s : Vm) (inv : Inv s) (o : ℕ) (object : Object) (live : s.objects o ≡ some object)
    (page : ℕ) (room : HasSlot object.amap page)
    -- the anons, with one reference fewer to the one that the slot held
    (A : ℕ → Option Anon) (pages_kept : (a : ℕ) → page_of (A a) ≡ page_of (s.anons a))
    (one_fewer : (a : ℕ)
      → count_of (A a) + bit (owns a (slot object.amap page)) ≡ count_of (s.anons a)) where
  pub adopted-slot :
      (k q : ℕ)
      → object_slot (adopted_objects s o object page k) q
        ≡ (if (o == k) && (page == q) then some s.next_anon else object_slot (s.objects k) q)
  adopted-slot k q = elim (Bool-cases (page == q)) [
    | inl this ↦ elim (Bool-cases (o == k)) [
      | inl its ↦
          rw its (rw this (set_slot-slot object.amap page q (some s.next_anon) room ∙ rw this refl))
      | inr other ↦ rw other refl
    ]
    | inr other ↦
        with_amap-same s inv o object live (set_slot object.amap page (some s.next_anon)) k q
          (set_slot-slot object.amap page q (some s.next_anon) room ∙ rw other refl)
        ∙ ground arith
  ]

  none_yet : s.anons s.next_anon ≡ none
  none_yet = inv.fresh.anons s.next_anon (omega arith)

  adopted-count :
      (new a : ℕ)
      → count_of (adopted_anons s A new a)
        ≡ references a (adopted_objects s o object page) s.next_object
  adopted-count new a =
      let moved : references a (adopted_objects s o object page) s.next_object
            + bit (owns a (slot object.amap page))
          ≡ held_by s a + bit (owns a (some s.next_anon)) =
        with_amap-references s inv o object live (set_slot object.amap page (some s.next_anon)) a
          (bit (owns a (slot object.amap page))) (bit (owns a (some s.next_anon)))
          (set_slot-weight a object.amap page (some s.next_anon) room) in
      elim (Bool-cases (s.next_anon == a)) [
        | inl this ↦
            let e : s.next_anon ≡ a = (==_iff s.next_anon a).0 this in
            ground (
              arith,
              moved,
              one_fewer a,
              inv.counts.counted a,
              ap (λ k. count_of (s.anons k)) e,
              ap count_of none_yet,
            )
        | inr other ↦ ground (arith, moved, one_fewer a, inv.counts.counted a)
      ]

  pub adopted-Inv :
      (new : ℕ) (pages : Pages) (tables : ℕ → ℕ → Option Mapping) (pv : ℕ → List PvEntry)
      → Frames (adopted_anons s A new) pages
      → Mapped tables pv (adopted_anons s A new) pages
      → Inv (adopted s o object page A new pages tables pv)
  adopted-Inv new pages tables pv f m = record {
    fresh = record {
      anons = λ a high. elim (Bool-cases (s.next_anon == a)) [
        | inl this ↦ ground arith
        | inr other ↦
            rw other
              (same_page_none (A a) (pages_kept a ∙ ap page_of (inv.fresh.anons a (omega arith))))
      ];
      objects = λ k high. ground (arith, inv.fresh.objects k high, inv.fresh.objects o, live);
    };
    counts = record {
      counted = adopted-count new;
      in_range = λ a.
          ground
            (arith, adopted-count new a, one_fewer a, inv.counts.counted a, inv.counts.in_range a);
    };
    frames = f;
    mapped = m;
  }

  -- The bytes of a slot that leads to an old anon.
  other_byte :
      (new : ℕ) (pages : Pages)
      → ((a : ℕ) (r : Anon)
          → s.anons a ≡ some r
          → pages.contents r.physpage ≡ s.pages.contents r.physpage)
      → (k q offset : ℕ)
      → slot_byte pages (adopted_anons s A new) (object_slot (s.objects k) q) offset
        ≡ slot_byte s.pages s.anons (object_slot (s.objects k) q) offset
  other_byte new pages kept k q offset = elim (Option-cases (object_slot (s.objects k) q)) [
    | inl empty ↦ rw empty refl
    | inr (a, holds) ↦
        let (r, is, one) = slot-has_anon s inv k q a holds in
        let old : (s.next_anon == a) ≡ false = next_is_new s inv a r is in
        let (t, was, e) = same_page (s.anons a) (A a) (sym (pages_kept a)) r is in
        rw holds (
          rw old (
            rw was
              (rw is (ap (λ p. pages.contents p offset) e ∙ ap (λ c. c offset) (kept a r is)))))
  ]

  pub adopted-byte :
      (new : ℕ) (pages : Pages) (tables : ℕ → ℕ → Option Mapping) (pv : ℕ → List PvEntry)
      → ((offset : ℕ) → pages.contents new offset ≡ byte s o page offset)
      → ((a : ℕ) (r : Anon)
          → s.anons a ≡ some r
          → pages.contents r.physpage ≡ s.pages.contents r.physpage)
      → (k q offset : ℕ)
      → byte (adopted s o object page A new pages tables pv) k q offset ≡ byte s k q offset
  unfolding byte
  adopted-byte new pages tables pv filled kept k q offset =
      elim (Bool-cases ((o == k) && (page == q))) [
        | inl this ↦
            let at : object_slot (adopted_objects s o object page k) q ≡ some s.next_anon =
              adopted-slot k q ∙ rw this refl in
            let e : o ≡ k = (==_iff o k).0 (ground (arith, this)) in
            let e' : page ≡ q = (==_iff page q).0 (ground (arith, this)) in
            let mine : adopted_anons s A new s.next_anon ≡ some (new_anon new) = ground arith in
            rw at (
              rw mine (
                filled offset
                ∙ ap (λ j. slot_byte s.pages s.anons (object_slot (s.objects j) page) offset) e
                ∙ ap (λ j. slot_byte s.pages s.anons (object_slot (s.objects k) j) offset) e'))
        | inr other ↦
            let at : object_slot (adopted_objects s o object page k) q
                ≡ object_slot (s.objects k) q =
              adopted-slot k q ∙ rw other refl in
            rw at (other_byte new pages kept k q offset)
      ]
