-- ===== src/Vm/Fault/Resident.antt =====
-- vm/vm.c: faults on a page that the object has, shared or not.
use scal_ux.Vm.Anons.{field_more, field_down, anon_copy, copyphyspage}
use scal_ux.Vm.Copy.Correct.{same_page, same_pages-Frames}
use scal_ux.Vm.Enter.{pmap_enter}
use scal_ux.Vm.Fault.{
  on_present, resident_fault, on_write, Fault, sole_present, write_shared, read_shared, put_slot,
}
use scal_ux.Vm.Fault.Adopt.{adopted_objects, adopted}
use scal_ux.Vm.Fault.Duplicate.{
  recopied-Mapped, recopied-Frames, recount_page, recount-Mapped, clear_old,
}
use scal_ux.Vm.Fault.NewPage.{new_mapping, result-Served}
use scal_ux.Vm.Fault.Slot.{slot-has_anon, next_is_new}
use scal_ux.Vm.Invariant.{Mapped, Frames, Inv, sharing_limit, count_of}
use scal_ux.Vm.Invariant.Entering.{placed}
use scal_ux.Vm.View.{byte, slot}
use scal_ux.Prelude.{
  ==_iff, Bool-cases, List, Option, ap, arith, bit, false, inl, inr, owns, refl, some, subst, suc,
  sym, true, update, ℕ, ◌+◌, ◌<◌, ◌==◌, ◌>>=◌, ◌∷◌, ◌≡◌, ◌≢◌, ◌≤◌,
}
use scal_ux.Page.{Pages, free_queue}
use scal_ux.Vm.{Anon, Object, Vm, all, read_execute}
use scal_ux.Vm.View.Slots.{HasSlot}
use scal_ux.Vm.Fault.Served.{
  Faultable, Served, entered, entered-Served, in_its_frame, reentered, reentered-Served,
}
use scal_ux.Vm.Invariant.NewAnon.{anon_new-NewAnon, new_anon, with_new}

module _ (f : Fault) (s : Vm) (inv : Inv s) (object : Object) (c : Faultable f s object)
    (room : HasSlot object.amap f.page) (a : ℕ) (r : Anon)
    (holds : slot object.amap f.page ≡ some a) (is : s.anons a ≡ some r) where
  one_at_least : 1 ≤ r.refcnt
  one_at_least =
      let (t, was, one) = slot-has_anon s inv f.object f.page a (rw c.live holds) in
      ground (arith, was, is, one)

  small : r.refcnt < sharing_limit
  small = omega (arith, inv.counts.counted a, inv.counts.in_range a, ap count_of is)

  abbrev lowered : ℕ → Option Anon
  lowered = update s.anons a (some (record r { refcnt = field_down r.refcnt }))

  lowered-count :
      (b : ℕ) → count_of (lowered b) + bit (owns b (slot object.amap f.page)) ≡ count_of (s.anons b)
  lowered-count b = elim (Bool-cases (a == b)) [
    | inl this ↦
        rw holds (ground (arith, ap s.anons ((==_iff a b).0 this), is, one_at_least, small))
    | inr other ↦ rw holds (ground arith)
  ]

  write_shared-Served :
      (page : ℕ) (rest : List ℕ)
      → s.pages.queue free_queue ≡ page ∷ rest
      → r.refcnt ≢ 1
      → (t : Vm) × (write_shared f a r s ≡ some t) × Served f s t
  unfolding write_shared anon_copy copyphyspage put_slot pmap_enter byte
  write_shared-Served page rest q many =
      let down : ℕ = field_down r.refcnt in
      let sA : Vm = record s { anons = lowered } in
      let fA : Frames lowered s.pages =
        same_pages-Frames lowered s.anons s.pages (recount_page s a down r is) inv.frames in
      let mA : Mapped s.tables s.pv_table lowered s.pages =
        recount-Mapped s a down r inv.mapped is many in
      let (P, run, n) = anon_new-NewAnon sA fA mA page rest q in
      let contents : ℕ → ℕ → ℕ = update P.contents page (P.contents r.physpage) in
      let P' : Pages = record P { contents = contents } in
      let anons : ℕ → Option Anon = with_new sA page in
      let fresh : (s.next_anon == a) ≡ false = next_is_new s inv a r is in
      let old : anons a ≡ some (record r { refcnt = down }) = ground (arith, fresh) in
      let mine : anons s.next_anon ≡ some (new_anon page) = ground arith in
      let apart : (b : ℕ) (t : Anon) → s.anons b ≡ some t → (page == t.physpage) ≡ false =
        λ b t was.
          let (t', was', e) =
            same_page (s.anons b) (lowered b) (sym (recount_page s a down r is b)) t was in
          subst (λ k. (page == k) ≡ false) e (n.new_page b t' was') in
      let copied : anon_copy a sA
          ≡ some
              (s.next_anon, record s { anons = anons; next_anon = suc s.next_anon; pages = P' }) =
        rw (run, ◌>>=◌) (rw (old, ◌>>=◌) (rw (mine, ◌>>=◌) refl)) in
      let s2 : Vm = record s {
        objects = adopted_objects s f.object object f.page;
        anons = anons;
        next_anon = suc s.next_anon;
        pages = P';
      } in
      let (T, pv, k) =
        clear_old f r.physpage s s2 refl
          (recopied-Mapped s.tables s.pv_table anons P contents n.mapped) c.flag_tells
          (in_its_frame f s inv object c a r holds is) in
      (
        adopted s f.object object f.page lowered page P'
            (placed T f.map_of f.vaddr (some (new_mapping page)))
            (update pv page (record { map_of = f.map_of; vaddr = f.vaddr } ∷ pv page)),
        rw (copied, ◌>>=◌) (rw (c.live, ◌>>=◌) (rw (k.run, ◌>>=◌) (rw (mine, ◌>>=◌) refl))),
        result-Served f s inv object c room lowered (recount_page s a down r is) lowered-count page
            P' (recopied-Frames anons P contents n.frames) T pv k.mapped k.nothing k.others n.taken
            (λ offset.
              rw c.live (rw holds (rw is (ground (arith, n.kept r.physpage (apart a r is))))))
            (λ b t was. ground (arith, apart b t was, n.kept t.physpage (apart b t was))),
      )

  one_reference : field_more r.refcnt 1 ≡ false → r.refcnt ≡ 1
  one_reference h = ground (arith, h, one_at_least, small)

  several_references : field_more r.refcnt 1 ≡ true → r.refcnt ≢ 1
  several_references h one = ground (arith, h, one)

  not_present_reading : on_write f.flags ≡ false → on_present f.flags ≡ false
  not_present_reading h = elim (Bool-cases (on_present f.flags)) [
    | inl present ↦ absurd (ground (arith, c.on_write_only present, h))
    | inr absent ↦ absent
  ]

  pub resident_fault-Served :
      (page : ℕ) (rest : List ℕ)
      → s.pages.queue free_queue ≡ page ∷ rest
      → (t : Vm) × (resident_fault f a r s ≡ some t) × Served f s t
  unfolding resident_fault read_shared sole_present
  resident_fault-Served page rest q = elim (Bool-cases (field_more r.refcnt 1)) [
    | inl many ↦ elim (Bool-cases (on_write f.flags)) [
      | inl writing ↦
          let (t, run, served) = write_shared-Served page rest q (several_references many) in
          (t, rw many (rw writing run), served)
      | inr reading ↦
          let absent : on_present f.flags ≡ false = not_present_reading reading in
          (
            entered f s inv object c a r holds is read_execute (λ w. cc),
            rw many (rw reading (rw (absent, ◌>>=◌) refl)),
            entered-Served f s inv object c a r holds is read_execute (λ w. cc) absent
                (λ w. absurd (ground (arith, w, reading))),
          )
    ]
    | inr sole_one ↦ elim (Bool-cases (on_present f.flags)) [
      | inl present ↦
          let writing : on_write f.flags ≡ true = c.on_write_only present in
          (
            reentered f s inv object c a r holds is,
            rw sole_one (rw present (rw (writing, ◌>>=◌) refl)),
            reentered-Served f s inv object c a r holds is (one_reference sole_one) present,
          )
      | inr absent ↦ (
        entered f s inv object c a r holds is all (λ w. one_reference sole_one),
        rw sole_one (rw absent refl),
        entered-Served f s inv object c a r holds is all (λ w. one_reference sole_one) absent
            (λ w. refl),
      )
    ]
  ]
