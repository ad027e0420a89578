-- ===== src/Vm/Fault/Served.antt =====
-- vm/vm.c: what a fault is for, and the faults that need no new page.
use scal_ux.Vm.Enter.{pmap_enter, pmap_reenter}
use scal_ux.Vm.Fault.{Fault, on_present, on_write}
use scal_ux.Vm.Invariant.{Inv}
use scal_ux.Vm.View.{byte, object_slot, slot}
use scal_ux.Prelude.{Bool, Option, ap, arith, false, map, none, refl, some, sym, true, ℕ, ◌∙◌, ◌≡◌}
use scal_ux.Vm.{Anon, Mapping, Object, Protection, Vm, all}
use scal_ux.Vm.Invariant.Entering.{Sole, enter-Mapped, is_at, placed, placed_lem, reenter-Mapped}

abbrev pub is_mapped : Option Mapping → Bool
is_mapped none = false
is_mapped (some entry) = true

-- When the processor raises a fault that the code can serve: the flag tells whether the address is
-- mapped, a mapped address faults on a write only, its mapping shows the page that the object has there
-- now, and the object needs no paging in.
pub record Faultable (f : Fault) (s : Vm) (object : Object) : Type 0 where
  pub live : s.objects f.object ≡ some object
  pub orphan : object.parent ≡ none
  pub resident :
      (a : ℕ) (r : Anon) → slot object.amap f.page ≡ some a → s.anons a ≡ some r → r.resident ≡ true
  pub flag_tells : on_present f.flags ≡ is_mapped (s.tables f.map_of f.vaddr)
  pub on_write_only : on_present f.flags ≡ true → on_write f.flags ≡ true
  pub current :
      (e : Mapping)
      → s.tables f.map_of f.vaddr ≡ some e
      → (a : ℕ) × (r : Anon) × (slot object.amap f.page ≡ some a)
        × (s.anons a ≡ some r)
        × (e.frame ≡ r.physpage)

-- The address is mapped to the page that the object has there, and may be written if the fault was a
-- write.
pub record Shows (f : Fault) (t : Vm) : Type 0 where
  pub anon : ℕ
  pub held : Anon
  pub entry : Mapping
  pub in_slot : object_slot (t.objects f.object) f.page ≡ some anon
  pub is : t.anons anon ≡ some held
  pub mapped : t.tables f.map_of f.vaddr ≡ some entry
  pub its_page : entry.frame ≡ held.physpage
  pub writable : on_write f.flags ≡ true → entry.protection ≡ all

-- What serving a fault does: the address shows its page, no byte of any object changes, no other
-- address is mapped anew, and the invariant holds.
pub record Served (f : Fault) (s t : Vm) : Type 0 where
  pub inv : Inv t
  pub shows : Shows f t
  pub bytes_kept : (o page offset : ℕ) → byte t o page offset ≡ byte s o page offset
  pub elsewhere :
      (map vaddr : ℕ)
      → is_at f.map_of f.vaddr map vaddr ≡ false
      → t.tables map vaddr ≡ s.tables map vaddr

pub placed_here :
    (tables : ℕ → ℕ → Option Mapping) (map vaddr : ℕ) (entry : Option Mapping)
    → placed tables map vaddr entry map vaddr ≡ entry
placed_here tables map vaddr entry = placed_lem tables map vaddr map vaddr entry ∙ ground arith

pub placed_elsewhere :
    (tables : ℕ → ℕ → Option Mapping) (map vaddr map' vaddr' : ℕ) (entry : Option Mapping)
    → is_at map vaddr map' vaddr' ≡ false
    → placed tables map vaddr entry map' vaddr' ≡ tables map' vaddr'
placed_elsewhere tables map vaddr map' vaddr' entry h =
    placed_lem tables map vaddr map' vaddr' entry ∙ rw h refl

pub not_mapped : (o : Option Mapping) → is_mapped o ≡ false → o ≡ none
not_mapped none h = refl
not_mapped (some e) h = cc

pub is_some_mapping : (o : Option Mapping) → is_mapped o ≡ true → (e : Mapping) × (o ≡ some e)
is_some_mapping none h = cc
is_some_mapping (some e) h = (e, refl)

module _ (f : Fault) (s : Vm) (inv : Inv s) (object : Object) (c : Faultable f s object) (a : ℕ)
    (r : Anon) (holds : slot object.amap f.page ≡ some a) (is : s.anons a ≡ some r) where
  pub in_object : object_slot (s.objects f.object) f.page ≡ some a
  in_object = rw c.live holds

  pub unmapped : on_present f.flags ≡ false → s.tables f.map_of f.vaddr ≡ none
  unmapped h = not_mapped (s.tables f.map_of f.vaddr) (sym c.flag_tells ∙ h)

  pub in_its_frame : (e : Mapping) → s.tables f.map_of f.vaddr ≡ some e → e.frame ≡ r.physpage
  in_its_frame e h =
      let (b, t, holds', is', same) = c.current e h in
      let e' : b ≡ a = ground (arith, holds, holds') in ground (arith, ap s.anons e', is, is', same)

  sole : r.refcnt ≡ 1 → Sole s.anons r.physpage
  sole h b t is' same =
      let e : b ≡ a = inv.frames.apart b a t r is' is same in
      ground (arith, ap s.anons e, is, is', h)

  -- Mapping the page that is there, where nothing is mapped.
  module _ (prot : Protection) (safe : prot ≡ all → r.refcnt ≡ 1) where
    abbrev pub entered : Vm
    entered = pmap_enter f.map_of r.physpage f.vaddr prot s

    pub entered-Served :
        on_present f.flags ≡ false → (on_write f.flags ≡ true → prot ≡ all) → Served f s entered
    unfolding pmap_enter byte
    entered-Served absent right = record {
      inv = record {
        fresh = record { anons = inv.fresh.anons; objects = inv.fresh.objects };
        counts = inv.counts;
        frames = inv.frames;
        mapped =
            enter-Mapped s.tables s.pv_table s.anons s.pages inv.mapped f.map_of r.physpage f.vaddr
              prot (λ w. sole (safe w)) (unmapped absent) (inv.frames.taken a r is);
      };
      shows = record {
        anon = a;
        held = r;
        entry = record { frame = r.physpage; protection = prot };
        in_slot = in_object;
        is = is;
        mapped =
            placed_here s.tables f.map_of f.vaddr
              (some (record { frame = r.physpage; protection = prot }));
        its_page = refl;
        writable = right;
      };
      bytes_kept = λ o page offset. refl;
      elsewhere = λ map vaddr other.
          placed_elsewhere s.tables f.map_of f.vaddr map vaddr
            (some (record { frame = r.physpage; protection = prot })) other;
    }

  -- Mapping the page that is there once more, to be written.
  abbrev pub reentered : Vm
  reentered = pmap_reenter f.map_of r.physpage f.vaddr all s

  pub reentered-Served : r.refcnt ≡ 1 → on_present f.flags ≡ true → Served f s reentered
  unfolding pmap_reenter byte
  reentered-Served one present =
      let (e, there) = is_some_mapping (s.tables f.map_of f.vaddr) (sym c.flag_tells ∙ present) in
      record {
        inv = record {
          fresh = record { anons = inv.fresh.anons; objects = inv.fresh.objects };
          counts = inv.counts;
          frames = inv.frames;
          mapped =
              reenter-Mapped s.tables s.pv_table s.anons s.pages inv.mapped f.map_of r.physpage
                f.vaddr all (λ w. sole one) e there (in_its_frame e there);
        };
        shows = record {
          anon = a;
          held = r;
          entry = record { frame = r.physpage; protection = all };
          in_slot = in_object;
          is = is;
          mapped =
              placed_here s.tables f.map_of f.vaddr
                (some (record { frame = r.physpage; protection = all }));
          its_page = refl;
          writable = λ w. refl;
        };
        bytes_kept = λ o page offset. refl;
        elsewhere = λ map vaddr other.
            placed_elsewhere s.tables f.map_of f.vaddr map vaddr
              (some (record { frame = r.physpage; protection = all })) other;
      }
