-- ===== src/Vm/Fault/Slot.antt =====
-- vm/vm.c: an object whose amap has grown, or one of whose slots has another anon.
use scal_ux.Prelude.{
  inr, sym, ◌≤◌, ◌==◌, ◌∙◌, ◌+◌, ltb, update, ◌≢◌, ◌<◌, Bool-cases, refl, arith, Option, ◌≡◌, ℕ,
  false, ==_iff, some, inl, Option-cases, ap,
}
use scal_ux.Vm.View.Objects.{references_set, references_slot}
use scal_ux.Vm.Anons.{amap_anon_at}
use scal_ux.Vm.Invariant.{Inv, count_of, held_by}
use scal_ux.Vm.View.{byte, object_slot, object_weight, references, slot, slot_byte, weight}
use scal_ux.Vm.{Amap, Anon, Object, Vm}
use scal_ux.Vm.View.Slots.{Found, amap_anon_at-Found}

module _ (s : Vm) (inv : Inv s) where
  pub object_number : (o : ℕ) (object : Object) → s.objects o ≡ some object → o < s.next_object
  object_number o object live = elim (Bool-cases (ltb o s.next_object)) [
    | inl low ↦ ground (arith, low)
    | inr high ↦ ground (arith, inv.fresh.objects o (ground (arith, high)), live)
  ]

  -- A slot leads to an anon that has been allocated and not freed.
  pub slot-has_anon :
      (o page a : ℕ)
      → object_slot (s.objects o) page ≡ some a
      → (r : Anon) × (s.anons a ≡ some r) × (1 ≤ r.refcnt)
  slot-has_anon o page a h = elim (Option-cases (s.objects o)) [
    | inl gone ↦ absurd (ground (arith, gone, h))
    | inr (object, live) ↦
        let one : 1 ≤ held_by s a =
          references_slot a o page s.next_object s.objects (object_number o object live) h in
        elim (Option-cases (s.anons a)) [
          | inl freed ↦ absurd (omega (arith, one, inv.counts.counted a, ap count_of freed))
          | inr (r, is) ↦ (r, is, omega (arith, one, inv.counts.counted a, ap count_of is))
        ]
  ]

  -- The anon that the next allocation gives is in no slot.
  pub next_unreferenced : (o page : ℕ) → object_slot (s.objects o) page ≢ some s.next_anon
  next_unreferenced o page h =
      let (r, is, one) = slot-has_anon o page s.next_anon h in
      ground (arith, is, inv.fresh.anons s.next_anon (omega arith))

  pub next_is_new : (a : ℕ) (r : Anon) → s.anons a ≡ some r → (s.next_anon == a) ≡ false
  next_is_new a r is = elim (Bool-cases (s.next_anon == a)) [
    | inl this ↦ ground (
      arith,
      is,
      inv.fresh.anons s.next_anon (omega arith),
      ap s.anons ((==_iff s.next_anon a).0 this),
    )
    | inr other ↦ other
  ]

abbrev pub with_amap : Vm → ℕ → Object → Amap → ℕ → Option Object
with_amap s o object amap = update s.objects o (some (record object { amap = amap }))

module _ (s : Vm) (inv : Inv s) (o : ℕ) (object : Object) (live : s.objects o ≡ some object) where
  -- Where the new amap of an object has the same references, so have the objects.
  pub with_amap-references :
      (amap : Amap) (a x y : ℕ)
      → weight a amap + x ≡ weight a object.amap + y
      → references a (with_amap s o object amap) s.next_object + x ≡ held_by s a + y
  with_amap-references amap a x y h = omega (
    arith,
    h,
    references_set a o s.next_object s.objects (some (record object { amap = amap }))
        (object_number s inv o object live),
    ap (object_weight a) live,
  )

  pub with_amap-same :
      (amap : Amap) (k page : ℕ)
      → slot amap page ≡ slot object.amap page
      → object_slot (with_amap s o object amap k) page ≡ object_slot (s.objects k) page
  with_amap-same amap k page h = elim (Bool-cases (o == k)) [
    | inl this ↦ rw this (
        h
        ∙ ap (λ x. object_slot x page) (sym live)
        ∙ ap (λ j. object_slot (s.objects j) page) ((==_iff o k).0 this))
    | inr other ↦ rw other refl
  ]

  -- The state in which amap_anon_at has made room for the page.
  abbrev pub regrown : ℕ → Vm
  regrown page = record s { objects = with_amap s o object (amap_anon_at object.amap page).0 }

  pub regrown-Inv : (page : ℕ) → Inv (regrown page)
  regrown-Inv page =
      let found : Found object.amap page (amap_anon_at object.amap page) =
        amap_anon_at-Found object.amap page in
      let same : (a : ℕ) → held_by (regrown page) a ≡ held_by s a = λ a. omega (
        arith,
        with_amap-references (amap_anon_at object.amap page).0 a 0 0
            (omega (arith, found.same_weight a)),
      ) in
      record {
        fresh = record {
          anons = inv.fresh.anons;
          objects = λ k high. ground (arith, inv.fresh.objects k high, inv.fresh.objects o, live);
        };
        counts = record {
          counted = λ a. inv.counts.counted a ∙ sym (same a);
          in_range = λ a. omega (arith, same a, inv.counts.in_range a);
        };
        frames = inv.frames;
        mapped = inv.mapped;
      }

  pub regrown-slot :
      (page k q : ℕ) → object_slot ((regrown page).objects k) q ≡ object_slot (s.objects k) q
  regrown-slot page k q =
      with_amap-same (amap_anon_at object.amap page).0 k q
        ((amap_anon_at-Found object.amap page).same_slots q)

  pub regrown-byte : (page k q offset : ℕ) → byte (regrown page) k q offset ≡ byte s k q offset
  unfolding byte
  regrown-byte page k q offset =
      ap (λ x. slot_byte s.pages s.anons x offset) (regrown-slot page k q)
