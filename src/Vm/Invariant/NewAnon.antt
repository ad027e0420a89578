-- ===== src/Vm/Invariant/NewAnon.antt =====
-- vm/vm.c: a new anon has a page that nothing else has.
use scal_ux.Vm.Anons.{anon_new}
use scal_ux.Vm.Invariant.{Frames, Mapped, on_free}
use scal_ux.Prelude.{
  Bool-cases, List, Option, arith, false, inl, inr, refl, some, suc, true, update, ℕ, ◌==◌, ◌>>=◌,
  ◌∷◌, ◌≡◌,
}
use scal_ux.Page.{Pages, active_queue, free_queue}
use scal_ux.Page.Correct.{Given, now_taken, still_taken, vm_pagealloc-Given}
use scal_ux.Vm.{Anon, Vm}

abbrev pub new_anon : ℕ → Anon
new_anon page = record { refcnt = 1; resident = true; physpage = page }

abbrev pub with_new : Vm → ℕ → ℕ → Option Anon
with_new s page = update s.anons s.next_anon (some (new_anon page))

-- The page that a new anon has got: full of zeros, in no other anon, and mapped nowhere.
pub record NewAnon (s : Vm) (page : ℕ) (pages : Pages) : Type 0 where
  pub frames : Frames (with_new s page) pages
  pub mapped : Mapped s.tables s.pv_table (with_new s page) pages
  pub zeros : (offset : ℕ) → pages.contents page offset ≡ 0
  pub kept : (p : ℕ) → (page == p) ≡ false → pages.contents p ≡ s.pages.contents p
  pub new_page : (b : ℕ) (r : Anon) → s.anons b ≡ some r → (page == r.physpage) ≡ false
  pub taken : on_free page pages ≡ 0

module _ (s : Vm) (f : Frames s.anons s.pages)
    (m : Mapped s.tables s.pv_table s.anons s.pages) where
  module _ (page : ℕ) (P : Pages) (g : Given active_queue page s.pages P) where
    apart_from_new : (b : ℕ) (r : Anon) → s.anons b ≡ some r → (page == r.physpage) ≡ false
    apart_from_new b r is =
        (still_taken active_queue page r.physpage s.pages P g (f.taken b r is)).1

    new-Frames : Frames (with_new s page) P
    new-Frames = record {
      queues = g.inv;
      taken = λ a r is. elim (Bool-cases (s.next_anon == a)) [
        | inl new ↦ ground (arith, is, now_taken active_queue page s.pages P f.queues g)
        | inr old ↦
            let was : s.anons a ≡ some r = rw old at is in
            (still_taken active_queue page r.physpage s.pages P g (f.taken a r was)).0
      ];
      apart = λ a b r t is is' same.
          ground (arith, f.apart a b r t, apart_from_new a r, apart_from_new b t);
    }

    new-Mapped : Mapped s.tables s.pv_table (with_new s page) P
    new-Mapped = record {
      listed = m.listed;
      in_use = λ map vaddr e h.
          (still_taken active_queue page e.frame s.pages P g (m.in_use map vaddr e h)).0;
      exclusive = λ map vaddr a e r h p is owner. ground (
        arith,
        m.exclusive map vaddr a e r h p,
        still_taken active_queue page e.frame s.pages P g (m.in_use map vaddr e h),
      );
    }

  -- anon_new does not panic while a page is free.
  pub anon_new-NewAnon :
      (page : ℕ) (rest : List ℕ)
      → s.pages.queue free_queue ≡ page ∷ rest
      → (P : Pages) × (anon_new s
          ≡ some (
            s.next_anon,
            record s { anons = with_new s page; next_anon = suc s.next_anon; pages = P },
          ))
        × NewAnon s page P
  unfolding anon_new
  anon_new-NewAnon page rest q =
      let (P, run, g) =
        vm_pagealloc-Given active_queue page rest s.pages f.queues (omega arith) q in
      (
        P,
        rw (run, ◌>>=◌) refl,
        record {
          frames = new-Frames page P g;
          mapped = new-Mapped page P g;
          zeros = g.cleared;
          kept = g.others_kept;
          new_page = apart_from_new page P g;
          taken = now_taken active_queue page s.pages P f.queues g;
        },
      )
