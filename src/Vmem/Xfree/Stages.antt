-- ===== src/Vmem/Xfree/Stages.antt =====
-- The stages of vmem_xfree: the segment in hand is followed from one to the next.
use scal_ux.Vmem.Free.{absorb, coalesce_right, merge_right, resized}
use scal_ux.Vmem.Invariant.Absorb.{
  absorb-Inv, allocated_at-absorb, imported-absorb, segqueue-merged,
}
use scal_ux.Vmem.Invariant.Lookup.{At-unmarked}
use scal_ux.Vmem.Arena.{State, list_remove}
use scal_ux.Vmem.Invariant.{Inv}
use scal_ux.Vmem.Invariant.Expand.{Held}
use scal_ux.Vmem.Segment.Chain.{Chain, allocated_at, within}
use scal_ux.Vmem.Segment.Surgery.{At, is_id, next_seg_lem, occ, occ-append}
use scal_ux.Prelude.{
  Bool, List, [], add64, ap, append_assoc, arith, bit, count, count-erase, erase_absent, false,
  if◌then◌else◌, refl, some, subst, sym, true, ℕ, ◌&&◌, ◌++◌, ◌+◌, ◌∙◌, ◌∷◌, ◌≡◌,
}
use scal_ux.Vmem.Segment.{Seg, is_allocated, is_free, is_marker, next_seg, prev_seg}
use scal_ux.Vmem.Xfree.{imported_spans, prev_seg_lem}

-- `seg0` is being freed in the state `s0`; now `seg` is in hand, behind `before`.
pub record Stage {W : Type 0} (listed : Bool) (seg0 : Seg) (s0 : State W) (seg before : Seg)
    (s : State W) : Type 0 where
  pub front : List Seg
  pub back : List Seg
  pub whole : s.arena.segqueue ≡ front ++ (before ∷ seg ∷ back)
  pub held : Held listed seg.id s
  pub kind : is_free seg.type ≡ listed
  pub plain : is_marker seg.type ≡ false
  pub bytes :
      (x : ℕ)
      → allocated_at x s.arena.segqueue + (if listed then bit (within x seg0) else 0)
        ≡ allocated_at x s0.arena.segqueue
  pub no_imports : imported_spans s.arena.segqueue ≡ 0
  pub same : listed ≡ false → seg ≡ seg0

module _ {W : Type 0} (seg : Seg) (s : State W) (v : Inv s) (at : At seg.id seg s.arena.segqueue)
    (busy : is_allocated seg.type ≡ true) (local : imported_spans s.arena.segqueue ≡ 0) where
  abbrev unlinked : State W
  unlinked = record s { arena = list_remove seg.id s.arena }

  plain_type : is_marker seg.type ≡ false
  plain_type = ground (arith, busy)

  unlinked-Held : Held false seg.id unlinked
  unfolding list_remove
  unlinked-Held = record {
    free_lists =
        λ j n. ground (arith, count-erase seg.id j (s.arena.freelist n), v.linked.free_lists j n);
    hash_lists =
        λ j n. ground (arith, count-erase seg.id j (s.arena.hashtab n), v.linked.hash_lists j n);
    span_list =
        erase_absent seg.id s.arena.spanlist (
          ap (count seg.id) v.linked.span_list
          ∙ At-unmarked seg s.arena.segqueue at plain_type (omega (arith, v.unique seg.id)))
        ∙ v.linked.span_list;
    unique = v.unique;
    counted = v.counted;
    chained = v.chained;
  }

  pub start-Stage :
      (left : Seg) × (prev_seg seg.id unlinked.arena.segqueue ≡ some left)
      × Stage false seg s seg left unlinked
  unfolding list_remove
  start-Stage =
      let (ws, p, e, f) =
        prev_seg_lem seg at.before at.after (subst (Chain 0 0) at.whole v.chained) plain_type
          at.fresh in
      (
        p,
        ap (prev_seg seg.id) at.whole ∙ f,
        record {
          front = ws;
          back = at.after;
          whole =
              at.whole
              ∙ (ap (λ (l : List Seg). l ++ (seg ∷ at.after)) e
                  ∙ append_assoc ws (p ∷ []) (seg ∷ at.after));
          held = unlinked-Held;
          kind = ground (arith, busy);
          plain = plain_type;
          bytes = λ x. omega arith;
          no_imports = local;
          same = λ _. refl;
        },
      )

module _ {W : Type 0} (seg0 : Seg) (s0 : State W) where
  -- An arena that keeps the invariant holds every segment on its lists.
  Inv-Held : (i : ℕ) (s : State W) → Inv s → Held true i s
  Inv-Held i s v = record {
    free_lists = v.linked.free_lists;
    hash_lists = v.linked.hash_lists;
    span_list = v.linked.span_list;
    unique = v.unique;
    counted = v.counted;
    chained = v.chained;
  }

  pub Held-Inv : (i : ℕ) (s : State W) → Held true i s → Inv s
  Held-Inv i s v = record {
    linked = record {
      free_lists = v.free_lists;
      hash_lists = v.hash_lists;
      span_list = v.span_list;
    };
    unique = v.unique;
    counted = v.counted;
    chained = v.chained;
  }

  -- Once the segment in hand is not allocated any more, nor are the bytes to be freed.
  pub Stage-bytes :
      (listed : Bool) (seg before : Seg) (s : State W)
      → Stage listed seg0 s0 seg before s
      → (x n : ℕ)
      → n + bit (is_allocated seg.type && within x seg) ≡ allocated_at x s.arena.segqueue
      → n + bit (within x seg0) ≡ allocated_at x s0.arena.segqueue
  Stage-bytes true seg before s g x n h = ground (arith, g.bytes x, g.kind)
  Stage-bytes false seg before s g x n h =
      subst (λ (t : Seg). n + bit (within x t) ≡ allocated_at x s0.arena.segqueue) (g.same refl)
        (ground (arith, g.bytes x, g.kind, g.plain))

  module _ (seg left : Seg) (s : State W) (g : Stage false seg0 s0 seg left s)
      (free_left : is_free left.type ≡ true) where
    abbrev grown : Seg
    grown = resized left left.base (add64 left.size seg.size)

    abbrev after_left : State W
    after_left = absorb seg left left.base (add64 left.size seg.size) false s

    queue_left : after_left.arena.segqueue ≡ g.front ++ (grown ∷ g.back)
    queue_left =
        segqueue-merged seg left true false s g.front g.back g.whole g.held free_left g.plain g.kind

    Inv-left : Inv after_left
    Inv-left =
        absorb-Inv seg left true false s g.front g.back g.whole g.held free_left g.plain g.kind

    fresh_front : occ (is_id left.id) g.front ≡ 0
    fresh_front = ground (
      arith,
      Inv-left.unique left.id,
      ap (occ (is_id left.id)) queue_left,
      occ-append (is_id left.id) g.front (grown ∷ g.back),
    )

    plain_grown : is_marker left.type ≡ false
    plain_grown = ground (arith, free_left)

    bytes_left :
        (x : ℕ)
        → allocated_at x after_left.arena.segqueue + bit (within x seg0)
          ≡ allocated_at x s0.arena.segqueue
    bytes_left x = Stage-bytes false seg left s g x _ (
        allocated_at-absorb seg left true false s g.front g.back g.whole g.held free_left g.plain
          g.kind x)

    pub left-Stage :
        (before : Seg) × (prev_seg left.id after_left.arena.segqueue ≡ some before)
        × Stage true seg0 s0 grown before after_left
    left-Stage =
        let (ws, p, e, f) =
          prev_seg_lem grown g.front g.back (subst (Chain 0 0) queue_left Inv-left.chained)
            plain_grown fresh_front in
        (
          p,
          ap (prev_seg left.id) queue_left ∙ f,
          record {
            front = ws;
            back = g.back;
            whole =
                queue_left
                ∙ (ap (λ (l : List Seg). l ++ (grown ∷ g.back)) e
                    ∙ append_assoc ws (p ∷ []) (grown ∷ g.back));
            held = Inv-Held left.id after_left Inv-left;
            kind = free_left;
            plain = plain_grown;
            bytes = bytes_left;
            no_imports =
                imported-absorb seg left true false s g.front g.back g.whole g.held free_left
                  g.plain g.kind
                ∙ g.no_imports;
            same = λ e. cc;
          },
        )

  module _ (listed : Bool) (seg before right : Seg) (s : State W)
      (g : Stage listed seg0 s0 seg before s) (ys : List Seg) (e : g.back ≡ right ∷ ys)
      (free_right : is_free right.type ≡ true) where
    abbrev grown_right : Seg
    grown_right = resized right seg.base (add64 right.size seg.size)

    abbrev after_right : State W
    after_right = absorb seg right seg.base (add64 right.size seg.size) listed s

    whole_right : s.arena.segqueue ≡ (g.front ++ (before ∷ [])) ++ (seg ∷ right ∷ ys)
    whole_right =
        g.whole
        ∙ (ap (λ (l : List Seg). g.front ++ (before ∷ seg ∷ l)) e
            ∙ sym (append_assoc g.front (before ∷ []) (seg ∷ right ∷ ys)))

    bytes_right :
        (x : ℕ)
        → allocated_at x after_right.arena.segqueue + bit (within x seg0)
          ≡ allocated_at x s0.arena.segqueue
    bytes_right x = Stage-bytes listed seg before s g x _ (
        allocated_at-absorb seg right false listed s (g.front ++ (before ∷ [])) ys whole_right
          g.held free_right g.plain g.kind x)

    pub right-Stage : Stage true seg0 s0 grown_right before after_right
    right-Stage = record {
      front = g.front;
      back = ys;
      whole =
          segqueue-merged seg right false listed s (g.front ++ (before ∷ [])) ys whole_right g.held
            free_right g.plain g.kind
          ∙ append_assoc g.front (before ∷ []) (grown_right ∷ ys);
      held = Inv-Held right.id after_right (
          absorb-Inv seg right false listed s (g.front ++ (before ∷ [])) ys whole_right g.held
            free_right g.plain g.kind);
      kind = free_right;
      plain = ground (arith, free_right);
      bytes = bytes_right;
      no_imports =
          imported-absorb seg right false listed s (g.front ++ (before ∷ [])) ys whole_right g.held
            free_right g.plain g.kind
          ∙ g.no_imports;
      same = λ e. cc;
    }

    pub right-Stage_lem :
        (fresh : occ (is_id seg.id) (g.front ++ (before ∷ [])) ≡ 0)
        → coalesce_right seg listed s ≡ (grown_right, true, after_right)
    unfolding coalesce_right merge_right
    right-Stage_lem fresh =
        let found : next_seg seg.id s.arena.segqueue ≡ some right =
          rw whole_right
            (next_seg_lem seg.id seg seg (right ∷ ys) refl (g.front ++ (before ∷ [])) fresh) in
        rw (found, coalesce_right) (rw free_right refl)
