-- ===== src/Vmem/Xfree/Coalesce.antt =====
-- coalesce_left, coalesce_right and settle, each on all of its branches.
use scal_ux.Vmem.Arena.{State}
use scal_ux.Vmem.Free.{coalesce_right, merge_left, coalesce_left, resized, absorb}
use scal_ux.Vmem.Segment.Surgery.{next_seg_lem, is_id, occ-append, occ}
use scal_ux.Prelude.{
  Bool, Bool-cases, List, Option, [], add64, ap, append_assoc, arith, false, inl, inr, refl, some,
  sym, true, ◌++◌, ◌>>=◌, ◌∙◌, ◌∷◌, ◌≡◌,
}
use scal_ux.Vmem.Segment.{Seg, first, is_free, next_seg, prev_seg}
use scal_ux.Vmem.Xfree.Stages.{Stage, left-Stage, right-Stage, right-Stage_lem}

module _ {W : Type 0} (seg0 : Seg) (s0 : State W) where
  -- A stage that `coalesce_left` has reached.
  pub record LeftDone (r : Option (Seg × Seg × Bool × State W)) : Type 0 where
    pub seg : Seg
    pub before : Seg
    pub listed : Bool
    pub state : State W
    pub result : r ≡ some (seg, before, listed, state)
    pub stage : Stage listed seg0 s0 seg before state

  pub coalesce_left-LeftDone :
      (seg left : Seg) (s : State W)
      → prev_seg seg.id s.arena.segqueue ≡ some left
      → Stage false seg0 s0 seg left s
      → LeftDone (coalesce_left seg s)
  unfolding coalesce_left merge_left
  coalesce_left-LeftDone seg left s e g = elim (Bool-cases (is_free left.type)) [
    | inl free_left ↦
        let (before, f, h) = left-Stage seg0 s0 seg left s g free_left in
        record {
          seg = resized left left.base (add64 left.size seg.size);
          before = before;
          listed = true;
          state = absorb seg left left.base (add64 left.size seg.size) false s;
          result = rw (e, ◌>>=◌) (rw free_left (rw (f, ◌>>=◌) refl));
          stage = h;
        }
    | inr busy_left ↦ record {
      seg = seg;
      before = left;
      listed = false;
      state = s;
      result = rw (e, ◌>>=◌) (rw busy_left refl);
      stage = g;
    }
  ]

  module _ (listed : Bool) (seg before : Seg) (s : State W)
      (g : Stage listed seg0 s0 seg before s) where
    fresh_front : occ (is_id seg.id) (g.front ++ (before ∷ [])) ≡ 0
    fresh_front = ground (
      arith,
      g.held.unique seg.id,
      ap (occ (is_id seg.id)) g.whole,
      occ-append (is_id seg.id) g.front (before ∷ seg ∷ g.back),
      occ-append (is_id seg.id) g.front (before ∷ []),
    )

    whole_front : s.arena.segqueue ≡ (g.front ++ (before ∷ [])) ++ (seg ∷ g.back)
    whole_front = g.whole ∙ sym (append_assoc g.front (before ∷ []) (seg ∷ g.back))

    next_back : next_seg seg.id s.arena.segqueue ≡ first g.back
    next_back =
        ap (next_seg seg.id) whole_front
        ∙ next_seg_lem seg.id seg seg g.back refl (g.front ++ (before ∷ [])) fresh_front

    abbrev RightDone : Seg × Bool × State W → Type 0
    RightDone r = Stage r.1 seg0 s0 r.0 before r.2

    right_cases : (back : List Seg) → g.back ≡ back → RightDone (coalesce_right seg listed s)
    unfolding coalesce_right
    right_cases [] e = rw (next_back ∙ ap first e, coalesce_right) g
    right_cases (right ∷ ys) e = elim (Bool-cases (is_free right.type)) [
      | inl free_right ↦
          rw (right-Stage_lem seg0 s0 listed seg before right s g ys e free_right fresh_front)
            (right-Stage seg0 s0 listed seg before right s g ys e free_right)
      | inr busy_right ↦ rw (next_back ∙ ap first e, coalesce_right) (rw busy_right g)
    ]

    pub coalesce_right-Stage : RightDone (coalesce_right seg listed s)
    coalesce_right-Stage = right_cases g.back refl
