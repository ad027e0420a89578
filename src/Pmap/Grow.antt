-- ===== src/Pmap/Grow.antt =====
-- x86_64/vm.c: a page that vm_pagealloc gives is a table that no walk has met.
use scal_ux.Prelude.{
  ==_iff, Bool-cases, Option-cases, ap, arith, count, false, inl, inr, none, some, subst, suc, true,
  update, ℕ, ◌*◌, ◌+◌, ◌<◌, ◌==◌, ◌^◌, ◌≡◌,
}
use scal_ux.Page.{Pages, free_queue}
use scal_ux.Page.Correct.{Given, now_taken, still_taken}
use scal_ux.Pmap.{is_present, pmap_queue}
use scal_ux.Pmap.Walk.{Homes, Tree, frame}

module _ (root : ℕ) (home : Homes) (s : Pages) (tree : Tree root home s) (page : ℕ) (P : Pages)
    (g : Given pmap_queue page s P) where
  was_free : 0 < count page (s.queue free_queue)
  was_free = ground (arith, ap (count page) g.was_first)

  pub new_low : page < 2 ^ 40
  new_low = (tree.free_frames page was_free).1

  pub no_home : home page ≡ none
  no_home = elim (Option-cases (home page)) [
    | inl nowhere ↦ nowhere
    | inr (place, h) ↦ absurd (omega (arith, was_free, tree.taken page place h))
  ]

  pub not_new : (v : ℕ) (place : ℕ × ℕ) → home v ≡ some place → (page == v) ≡ false
  not_new v place h = (still_taken pmap_queue page v s P g (tree.taken v place h)).1

  -- The homes with one for the new table.
  module _ (place : ℕ × ℕ) where
    abbrev pub home_with : Homes
    home_with = update home page (some place)

    pub kept_home : (v : ℕ) (old : ℕ × ℕ) → home v ≡ some old → home_with v ≡ some old
    kept_home v old h = rw (not_new v old h) h

    -- Where the links are right, the tables with the new one form a tree.
    pub grown-Tree :
        (top : ℕ) (contents : ℕ → ℕ → ℕ)
        → home_with top ≡ some (3, 0)
        → ((t l p i : ℕ)
            → home_with t ≡ some (suc l, p)
            → i < 512
            → is_present (contents t i) ≡ true
            → home_with (frame (contents t i)) ≡ some (l, p * 512 + i))
        → Tree top home_with (record P { contents = contents })
    grown-Tree top contents at_top links = record {
      top = at_top;
      child = links;
      taken = λ v old h. elim (Bool-cases (page == v)) [
        | inl new ↦
            subst (λ w. count w (P.queue free_queue) ≡ 0) ((==_iff page v).0 new)
              (now_taken pmap_queue page s P tree.queues g)
        | inr other ↦ (still_taken pmap_queue page v s P g (tree.taken v old (rw other at h))).0
      ];
      in_range = λ v old h. elim (Bool-cases (page == v)) [
        | inl new ↦ subst (λ w. 0 < w) ((==_iff page v).0 new) (tree.free_frames page was_free).0
        | inr other ↦ tree.in_range v old (rw other at h)
      ];
      free_frames = λ v h. tree.free_frames v (ground (arith, h, ap (count v) g.was_first));
      queues = record { counted = g.inv.counted; once = g.inv.once; alone = g.inv.alone };
    }
