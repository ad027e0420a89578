-- ===== src/Vm/Refine/Write.antt =====
-- vm/vm.c: a write through a mapping that may be written reaches one byte of one object.
use scal_ux.Vm.Fault.Duplicate.{recopied-Frames, recopied-Mapped}
use scal_ux.Vm.Fault.{Fault}
use scal_ux.Vm.Invariant.{Inv, count_of, held_by}
use scal_ux.Vm.Refine.{Contents, write_entry, write_frame}
use scal_ux.Vm.View.{byte, object_slot}
use scal_ux.Vm.View.Objects.{sole_slot}
use scal_ux.Prelude.{
  ==_iff, Bool-cases, Option-cases, ap, arith, if◌then◌else◌, inl, inr, ltb, refl, some, subst, sym,
  update, ℕ, ◌&&◌, ◌<◌, ◌==◌, ◌∙◌, ◌≡◌, ◌≤◌,
}
use scal_ux.Vm.{Anon, Protection, Vm, all, read_execute}
use scal_ux.Vm.Fault.Served.{Shows}

abbrev written : Vm → ℕ → ℕ → ℕ → Vm
written s page offset value = record s {
  pages = record s.pages {
    contents = update s.pages.contents page (update (s.pages.contents page) offset value);
  };
}

write_frame-eq :
    (prot : Protection) (page offset value : ℕ) (s t : Vm)
    → write_frame prot page offset value s ≡ some t
    → (prot ≡ all) × (t ≡ written s page offset value)
unfolding write_frame
write_frame-eq read_execute page offset value s t h = cc
write_frame-eq all page offset value s t h = (refl, ground (arith, h))

-- The byte that a store of `value` leaves at a place.
abbrev pub stored : Contents → ℕ → ℕ → ℕ → ℕ → Contents
stored c o page offset value x q w =
    if (o == x) && (page == q) && (offset == w) then value else c x q w

module _ (s : Vm) (inv : Inv s) (f : Fault) (offset value : ℕ) (shows : Shows f s)
    (writable : shows.entry.protection ≡ all) where
  abbrev after : Vm
  after = written s shows.entry.frame offset value

  one_reference : shows.held.refcnt ≡ 1
  one_reference =
      inv.mapped.exclusive f.map_of f.vaddr shows.anon shows.entry shows.held shows.mapped writable
        shows.is (sym shows.its_page)

  number : (o page a : ℕ) → object_slot (s.objects o) page ≡ some a → o < s.next_object
  number o page a h = elim (Bool-cases (ltb o s.next_object)) [
    | inl low ↦ ground (arith, low)
    | inr high ↦ ground (arith, inv.fresh.objects o (ground (arith, high)), h)
  ]

  -- A slot whose anon has the written page is the one that the mapping shows.
  same_place :
      (x q a : ℕ) (r : Anon)
      → object_slot (s.objects x) q ≡ some a
      → s.anons a ≡ some r
      → r.physpage ≡ shows.entry.frame
      → (f.object ≡ x) × (f.page ≡ q)
  same_place x q a r holds is same =
      let e : shows.anon ≡ a =
        inv.frames.apart shows.anon a shows.held r shows.is is (sym shows.its_page ∙ sym same) in
      let few : held_by s shows.anon ≤ 1 =
        omega (arith, inv.counts.counted shows.anon, ap count_of shows.is, one_reference) in
      sole_slot shows.anon f.object f.page x q s.next_object s.objects
        (number f.object f.page shows.anon shows.in_slot) (number x q a holds) few shows.in_slot
        (holds ∙ ap some (sym e))

  -- The byte at the place that is shown.
  byte_here :
      (w : ℕ)
      → byte after f.object f.page w ≡ (if offset == w then value else byte s f.object f.page w)
  unfolding byte
  byte_here w = rw shows.in_slot (
      rw shows.is (
        ap (λ p. after.pages.contents p w) (sym shows.its_page)
        ∙ ground (arith, ap (λ p. s.pages.contents p w) shows.its_page)))

  -- The bytes of another place.
  byte_away : (x q w : ℕ) → ((f.object ≡ x) × (f.page ≡ q) → ⊥) → byte after x q w ≡ byte s x q w
  unfolding byte
  byte_away x q w away = elim (Option-cases (object_slot (s.objects x) q)) [
    | inl empty ↦ rw empty refl
    | inr (a, holds) ↦ elim (Option-cases (s.anons a)) [
      | inl freed ↦ rw holds (rw freed refl)
      | inr (r, is) ↦ elim (Bool-cases (shows.entry.frame == r.physpage)) [
        | inl this ↦ absurd (
            away (same_place x q a r holds is (sym ((==_iff shows.entry.frame r.physpage).0 this))))
        | inr other ↦ rw holds (rw is (rw other refl))
      ]
    ]
  ]

  pub after-byte :
      (x q w : ℕ) → byte after x q w ≡ stored (byte s) f.object f.page offset value x q w
  after-byte x q w = elim (Bool-cases (f.object == x)) [
    | inl this ↦
        let e : f.object ≡ x = (==_iff f.object x).0 this in
        elim (Bool-cases (f.page == q)) [
          | inl this' ↦
              let e' : f.page ≡ q = (==_iff f.page q).0 this' in
              subst (λ k. byte after k q w ≡ stored (byte s) f.object f.page offset value k q w) e
                (subst
                  (λ k.
                    byte after f.object k w
                    ≡ stored (byte s) f.object f.page offset value f.object k w)
                  e' (byte_here w ∙ ground arith))
          | inr other' ↦ byte_away x q w (λ z. ground (arith, z.1, other')) ∙ ground arith
        ]
    | inr other ↦ byte_away x q w (λ z. ground (arith, z.0, other)) ∙ ground arith
  ]

  pub after-Inv : Inv after
  after-Inv = record {
    fresh = record { anons = inv.fresh.anons; objects = inv.fresh.objects };
    counts = inv.counts;
    frames = recopied-Frames s.anons s.pages after.pages.contents inv.frames;
    mapped = recopied-Mapped s.tables s.pv_table s.anons s.pages after.pages.contents inv.mapped;
  }

-- A write that does not fault changes the byte at its place, and no other.
pub write_entry-stored :
    (s : Vm) (f : Fault) (offset value : ℕ) (t : Vm)
    → Inv s
    → Shows f s
    → write_entry (s.tables f.map_of f.vaddr) offset value s ≡ some t
    → Inv t × ((x q w : ℕ) → byte t x q w ≡ stored (byte s) f.object f.page offset value x q w)
unfolding write_entry
write_entry-stored s f offset value t inv shows run =
    let run' : write_frame shows.entry.protection shows.entry.frame offset value s ≡ some t =
      sym (rw shows.mapped refl) ∙ run in
    let (writable, e) =
      write_frame-eq shows.entry.protection shows.entry.frame offset value s t run' in
    (
      subst (λ u. Inv u) (sym e) (after-Inv s inv f offset value shows writable),
      λ x q w. ap (λ u. byte u x q w) e ∙ after-byte s inv f offset value shows writable x q w,
    )
