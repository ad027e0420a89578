-- ===== src/Pmap/Translate.antt =====
-- x86_64/vm.c: pmap_trans and pmap_fully_descend read the entry where the walk ends.
use scal_ux.Prelude.{
  Bool, Bool-cases, Option, ap, arith, false, if◌then◌else◌, inl, inr, none, refl, some, subst, suc,
  sym, true, zero, ℕ, ◌%◌, ◌+◌, ◌/◌, ◌<◌, ◌==◌, ◌^◌, ◌∙◌, ◌≡◌, ◌≢◌,
}
use scal_ux.Page.{Pages, page_bytes}
use scal_ux.Pmap.{
  entry, index, is_present, next_table, pmap_fully_descend, pmap_trans, pte_get_addr,
}
use scal_ux.Pmap.Walk.{Homes, OnWay, Tree, above, down_way, find, frame, same_place}

-- Two addresses of one page, as far as the tables go.
abbrev pub same_page : ℕ → ℕ → Bool
same_page virt v = virt / 2 ^ 12 % 2 ^ 36 == v / 2 ^ 12 % 2 ^ 36

pub same_page-index : (virt v l : ℕ) → same_page virt v ≡ true → index l v ≡ index l virt
same_page-index virt v zero h = ground (arith, h)
same_page-index virt v (suc zero) h = ground (arith, h)
same_page-index virt v (suc (suc zero)) h = ground (arith, h)
same_page-index virt v (suc (suc (suc zero))) h = ground (arith, h)
same_page-index virt v (suc (suc (suc (suc l)))) h = refl

pub same_page-place : (virt v : ℕ) → same_page virt v ≡ same_place 0 (above 0 virt) (index 0 virt) v
same_page-place virt v = ground arith

pub find-same_page :
    (virt v m u : ℕ) (s : Pages) → same_page virt v ≡ true → find m u v s ≡ find m u virt s
unfolding find
find-same_page virt v zero u s h = ap (s.contents u) (same_page-index virt v 0 h)
find-same_page virt v (suc m) u s h =
    rw (same_page-index virt v (suc m) h)
      (rw (find-same_page virt v m (frame (s.contents u (index (suc m) virt))) s h) refl)

-- The physical address that an entry gives to an offset of its page.
abbrev pub translated : ℕ → ℕ → ℕ
translated pte virt = if is_present pte then pte_get_addr pte + virt % 2 ^ 12 else 0

module _ (root : ℕ) (home : Homes) (s : Pages) (tree : Tree root home s) where
  next_nonzero :
      (l table virt : ℕ)
      → OnWay home (suc l) (table / page_bytes) virt
      → is_present (entry table (index (suc l) virt) s) ≡ true
      → (next_table table (index (suc l) virt) s == 0) ≡ false
  next_nonzero l table virt on present =
      let down : 0 < frame (entry table (index (suc l) virt) s) =
        tree.in_range (frame (entry table (index (suc l) virt) s)) (l, above l virt)
          (down_way root home s l (table / page_bytes) virt tree on present) in
      ground (arith, present, down)

  next_zero :
      (l table virt : ℕ)
      → is_present (entry table (index (suc l) virt) s) ≡ false
      → next_table table (index (suc l) virt) s ≡ 0
  next_zero l table virt absent = ground (arith, absent)

  next_way :
      (l table virt : ℕ)
      → OnWay home (suc l) (table / page_bytes) virt
      → is_present (entry table (index (suc l) virt) s) ≡ true
      → (next_table table (index (suc l) virt) s / page_bytes
          ≡ frame (s.contents (table / page_bytes) (index (suc l) virt)))
        × OnWay home l (next_table table (index (suc l) virt) s / page_bytes) virt
  next_way l table virt on present =
      let e : next_table table (index (suc l) virt) s / page_bytes
          ≡ frame (s.contents (table / page_bytes) (index (suc l) virt)) =
        ground (arith, present) in
      (
        e,
        subst (λ u. OnWay home l u virt) (sym e)
            (down_way root home s l (table / page_bytes) virt tree on present),
      )

  find_step :
      (l table virt : ℕ)
      → is_present (entry table (index (suc l) virt) s) ≡ true
      → find (suc l) (table / page_bytes) virt s
        ≡ find l (frame (entry table (index (suc l) virt) s)) virt s
  unfolding find
  find_step l table virt present = rw present refl

  find_stop :
      (l table virt : ℕ)
      → is_present (entry table (index (suc l) virt) s) ≡ false
      → find (suc l) (table / page_bytes) virt s ≡ 0
  unfolding find
  find_stop l table virt absent = rw absent refl

  -- The rest of pmap_trans from the table of level `l` on.
  trans_from : ℕ → ℕ → ℕ → ℕ
  trans_from zero table virt = translated (entry table (index zero virt) s) virt
  trans_from (suc l) table virt =
      let rest = trans_from l (next_table table (index (suc l) virt) s) virt in
      if next_table table (index (suc l) virt) s == 0 then 0 else rest

  trans_from-find :
      (l table virt : ℕ)
      → OnWay home l (table / page_bytes) virt
      → trans_from l table virt ≡ translated (find l (table / page_bytes) virt s) virt
  unfolding trans_from find
  trans_from-find zero table virt on = refl
  trans_from-find (suc l) table virt on =
      elim (Bool-cases (is_present (entry table (index (suc l) virt) s))) [
        | inl present ↦
            let (e, on') = next_way l table virt on present in
            let rest : trans_from l (next_table table (index (suc l) virt) s) virt
                ≡ translated (find l (next_table table (index (suc l) virt) s / page_bytes) virt s)
                    virt =
              trans_from-find l (next_table table (index (suc l) virt) s) virt on' in
            rw (next_nonzero l table virt on present) (
              rest
              ∙ ap (λ u. translated (find l u virt s) virt) e
              ∙ ap (λ w. translated w virt) (sym (find_step l table virt present)))
        | inr absent ↦ rw (find_stop l table virt absent) (rw (next_zero l table virt absent) refl)
      ]

  pub pmap_trans-find :
      (pml4 virt : ℕ)
      → pml4 / page_bytes ≡ root
      → pmap_trans pml4 virt s ≡ translated (find 3 root virt s) virt
  unfolding pmap_trans trans_from
  pmap_trans-find pml4 virt at_root =
      let on : OnWay home 3 (pml4 / page_bytes) virt =
        subst (λ u. OnWay home 3 u virt) (sym at_root) tree.top in
      let walk : pmap_trans pml4 virt s ≡ trans_from 3 pml4 virt = refl in
      walk ∙ trans_from-find 3 pml4 virt on ∙ ap (λ u. translated (find 3 u virt s) virt) at_root

  -- The rest of pmap_fully_descend.
  place_from : ℕ → ℕ → ℕ → Option (ℕ × ℕ)
  place_from zero table virt = some (table, index zero virt)
  place_from (suc l) table virt =
      let rest = place_from l (next_table table (index (suc l) virt) s) virt in
      if next_table table (index (suc l) virt) s == 0 then none else rest

  -- The tables above the last level are those of `s`.
  abbrev pub SameTables : Pages → Type 0
  SameTables t = (u l p k : ℕ) → home u ≡ some (suc l, p) → t.contents u k ≡ s.contents u k

  -- The table and the index of an entry, which the walk reads, whatever the entry holds.
  pub record EntryAt (virt : ℕ) (walk : Pages → ℕ) (found : Option (ℕ × ℕ)) : Type 0 where
    pub table : ℕ
    pub is : found ≡ some (table, index 0 virt)
    pub leaf : OnWay home 0 (table / page_bytes) virt
    pub reads : (t : Pages) → SameTables t → walk t ≡ entry table (index 0 virt) t

  place_from-EntryAt :
      (l table virt : ℕ)
      → OnWay home l (table / page_bytes) virt
      → find l (table / page_bytes) virt s ≢ 0
      → EntryAt virt (find l (table / page_bytes) virt) (place_from l table virt)
  unfolding place_from find
  place_from-EntryAt zero table virt on h = record {
    table = table;
    is = refl;
    leaf = on;
    reads = λ t same. refl;
  }
  place_from-EntryAt (suc l) table virt on h =
      elim (Bool-cases (is_present (entry table (index (suc l) virt) s))) [
        | inl present ↦
            let (e, on') = next_way l table virt on present in
            let step : find (suc l) (table / page_bytes) virt s
                ≡ find l (next_table table (index (suc l) virt) s / page_bytes) virt s =
              find_step l table virt present ∙ ap (λ u. find l u virt s) (sym e) in
            let r : EntryAt virt
                (find l (next_table table (index (suc l) virt) s / page_bytes) virt)
                (place_from l (next_table table (index (suc l) virt) s) virt) =
              place_from-EntryAt l (next_table table (index (suc l) virt) s) virt on'
                (λ z. h (step ∙ z)) in
            record {
              table = r.table;
              is = rw (next_nonzero l table virt on present) r.is;
              leaf = r.leaf;
              reads = λ t same.
                  let kept : entry table (index (suc l) virt) t
                      ≡ entry table (index (suc l) virt) s =
                    same (table / page_bytes) l (above (suc l) virt) (index (suc l) virt) on in
                  rw kept (rw present (ap (λ u. find l u virt t) (sym e) ∙ r.reads t same));
            }
        | inr absent ↦ absurd (h (find_stop l table virt absent))
      ]

  pub pmap_fully_descend-EntryAt :
      (pml4 virt : ℕ)
      → pml4 / page_bytes ≡ root
      → find 3 root virt s ≢ 0
      → EntryAt virt (find 3 root virt) (pmap_fully_descend pml4 virt s)
  unfolding pmap_fully_descend place_from
  pmap_fully_descend-EntryAt pml4 virt at_root h =
      let on : OnWay home 3 (pml4 / page_bytes) virt =
        subst (λ u. OnWay home 3 u virt) (sym at_root) tree.top in
      let same : find 3 (pml4 / page_bytes) virt s ≡ find 3 root virt s =
        ap (λ u. find 3 u virt s) at_root in
      let r : EntryAt virt (find 3 (pml4 / page_bytes) virt) (place_from 3 pml4 virt) =
        place_from-EntryAt 3 pml4 virt on (λ z. h (sym same ∙ z)) in
      record {
        table = r.table;
        is = r.is;
        leaf = r.leaf;
        reads = λ t kept. ap (λ u. find 3 u virt t) (sym at_root) ∙ r.reads t kept;
      }
