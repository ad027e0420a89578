-- ===== src/Pmap/Walk.antt =====
-- x86_64/vm.c: the walk through the tables of a virtual address, and what a change of an entry does to it.
use scal_ux.Prelude.{
  ==_iff, Bool, Bool-cases, Option, ap, arith, count, false, if◌then◌else◌, inl, inr, none, refl,
  some, subst, suc, sym, true, zero, ℕ, ◌&&◌, ◌*◌, ◌+◌, ◌/◌, ◌<◌, ◌==◌, ◌^◌, ◌∙◌, ◌≡◌, ◌≢◌,
}
use scal_ux.Page.{Pages, free_queue, page_bytes}
use scal_ux.Page.Correct
use scal_ux.Pmap.{index, is_present, pte_get_addr}

-- The indices of a virtual address above the table of level `l`, as one number.
abbrev pub above : ℕ → ℕ → ℕ
above zero virt = (index 3 virt * 512 + index 2 virt) * 512 + index 1 virt
above (suc zero) virt = index 3 virt * 512 + index 2 virt
above (suc (suc zero)) virt = index 3 virt
above (suc (suc (suc l))) virt = 0

pub above_step : (l virt : ℕ) → above l virt ≡ above (suc l) virt * 512 + index (suc l) virt
above_step zero virt = refl
above_step (suc zero) virt = refl
above_step (suc (suc zero)) virt = omega arith
above_step (suc (suc (suc l))) virt = refl

pub index-lt : (l virt : ℕ) → index l virt < 512
index-lt zero virt = omega arith
index-lt (suc zero) virt = omega arith
index-lt (suc (suc zero)) virt = omega arith
index-lt (suc (suc (suc zero))) virt = omega arith
index-lt (suc (suc (suc (suc l)))) virt = omega arith

-- The frame that an entry points at.
abbrev pub frame : ℕ → ℕ
frame pte = pte_get_addr pte / page_bytes

-- The entry that maps an address, from the table of level `l` in frame `t` down; 0 where the walk ends.
unfoldable pub find : ℕ → ℕ → ℕ → Pages → ℕ
find zero t virt s = s.contents t (index zero virt)
find (suc l) t virt s =
    let below = find l (frame (s.contents t (index (suc l) virt))) virt s in
    if is_present (s.contents t (index (suc l) virt)) then below else 0

pub find_down :
    (l t virt : ℕ) (s : Pages)
    → is_present (s.contents t (index (suc l) virt)) ≡ true
    → find (suc l) t virt s ≡ find l (frame (s.contents t (index (suc l) virt))) virt s
unfolding find
find_down l t virt s present = rw present refl

pub find_end :
    (l t virt : ℕ) (s : Pages)
    → is_present (s.contents t (index (suc l) virt)) ≡ false
    → find (suc l) t virt s ≡ 0
unfolding find
find_end l t virt s absent = rw absent refl

-- The level of each table, and the indices that lead to it.
abbrev pub Homes : Type 0
Homes = ℕ → Option (ℕ × ℕ)

-- The tables form a tree: each is reached by the indices of its place alone, and none is a free page.
pub record Tree (root : ℕ) (home : Homes) (s : Pages) : Type 0 where
  pub top : home root ≡ some (3, 0)
  pub child :
      (t l p i : ℕ)
      → home t ≡ some (suc l, p)
      → i < 512
      → is_present (s.contents t i) ≡ true
      → home (frame (s.contents t i)) ≡ some (l, p * 512 + i)
  pub taken : (t : ℕ) (place : ℕ × ℕ) → home t ≡ some place → count t (s.queue free_queue) ≡ 0
  pub in_range : (t : ℕ) (place : ℕ × ℕ) → home t ≡ some place → 0 < t
  pub free_frames : (t : ℕ) → 0 < count t (s.queue free_queue) → (0 < t) × (t < 2 ^ 40)
  pub queues : scal_ux.Page.Correct.Inv s

-- The table of frame `t` is the one of level `l` on the way to an address.
abbrev pub OnWay : Homes → ℕ → ℕ → ℕ → Type 0
OnWay home l t virt = home t ≡ some (l, above l virt)

pub down_way :
    (root : ℕ) (home : Homes) (s : Pages) (l t virt : ℕ)
    → Tree root home s
    → OnWay home (suc l) t virt
    → is_present (s.contents t (index (suc l) virt)) ≡ true
    → OnWay home l (frame (s.contents t (index (suc l) virt))) virt
down_way root home s l t virt tree on present =
    tree.child t l (above (suc l) virt) (index (suc l) virt) on (index-lt (suc l) virt) present
    ∙ ap (λ k. some (l, k)) (sym (above_step l virt))

-- Whether a walk goes through the entry `i` of the table at level `l` above `p`.
abbrev pub same_place : ℕ → ℕ → ℕ → ℕ → Bool
same_place l p i virt = (p == above l virt) && (i == index l virt)

-- A page of zeros put under an entry that was not present leads nowhere.
module _ (root : ℕ) (home : Homes) (s t : Pages) (tree : Tree root home s) (table l i new : ℕ)
    (at : (p : ℕ) × (home table ≡ some (suc l, p)))
    (absent : is_present (s.contents table i) ≡ false) (unused : home new ≡ none)
    (zeros : (k : ℕ) → t.contents new k ≡ 0) (points : frame (t.contents table i) ≡ new)
    (others : (u k : ℕ)
      → u ≢ new
      → ((u == table) && (k == i)) ≡ false
      → t.contents u k ≡ s.contents u k) where
  find_zeros : (m virt : ℕ) → find m new virt t ≡ 0
  unfolding find
  find_zeros zero virt = zeros (index zero virt)
  find_zeros (suc m) virt = ground (arith, zeros (index (suc m) virt))

  in_tree : (u : ℕ) (place : ℕ × ℕ) → home u ≡ some place → u ≢ new
  in_tree u place h e = ground (arith, h, ap home e, unused)

  -- The walk that goes through the entry ends there, before and after.
  ends_here :
      (m virt : ℕ) → index (suc m) virt ≡ i → find (suc m) table virt t ≡ find (suc m) table virt s
  unfolding find
  ends_here m virt e =
      let old : is_present (s.contents table (index (suc m) virt)) ≡ false =
        ap (λ k. is_present (s.contents table k)) e ∙ absent in
      let new_frame : frame (t.contents table (index (suc m) virt)) ≡ new =
        ap (λ k. frame (t.contents table k)) e ∙ points in
      let nothing : find m (frame (t.contents table (index (suc m) virt))) virt t ≡ 0 =
        ap (λ k. find m k virt t) new_frame ∙ find_zeros m virt in
      rw old (rw nothing (ground arith))

  not_a_leaf : (u virt : ℕ) → OnWay home 0 u virt → (u == table) ≡ false
  not_a_leaf u virt on = elim (Bool-cases (u == table)) [
    | inl this ↦ ground (arith, on, ap home ((==_iff u table).0 this), at.1)
    | inr other ↦ other
  ]

  pub find_unchanged : (m u virt : ℕ) → OnWay home m u virt → find m u virt t ≡ find m u virt s
  unfolding find
  find_unchanged zero u virt on =
      others u (index zero virt) (in_tree u (0, above 0 virt) on) (rw (not_a_leaf u virt on) refl)
  find_unchanged (suc m) u virt on = elim (Bool-cases ((u == table) && (index (suc m) virt == i))) [
    | inl this ↦
        let e : u ≡ table = (==_iff u table).0 (ground (arith, this)) in
        let e' : index (suc m) virt ≡ i =
          (==_iff (index (suc m) virt) i).0 (ground (arith, this)) in
        subst (λ k. find (suc m) k virt t ≡ find (suc m) k virt s) (sym e) (ends_here m virt e')
    | inr other ↦
        let same : t.contents u (index (suc m) virt) ≡ s.contents u (index (suc m) virt) =
          others u (index (suc m) virt) (in_tree u (suc m, above (suc m) virt) on) other in
        elim (Bool-cases (is_present (s.contents u (index (suc m) virt)))) [
          | inl present ↦
              let further : find m (frame (s.contents u (index (suc m) virt))) virt t
                  ≡ find m (frame (s.contents u (index (suc m) virt))) virt s =
                find_unchanged m (frame (s.contents u (index (suc m) virt))) virt
                  (down_way root home s m u virt tree on present) in
              rw same (rw present further)
          | inr gone ↦ rw same (rw gone refl)
        ]
  ]

-- A store to an entry of a table of level 0 is seen by the addresses of that entry alone.
module _ (root : ℕ) (home : Homes) (s t : Pages) (tree : Tree root home s) (table virt : ℕ)
    (leaf : OnWay home 0 table virt)
    (others : (u k : ℕ)
      → ((u == table) && (k == index 0 virt)) ≡ false
      → t.contents u k ≡ s.contents u k) where
  inner_same : (m u v : ℕ) → OnWay home (suc m) u v → (u == table) ≡ false
  inner_same m u v on = elim (Bool-cases (u == table)) [
    | inl this ↦ ground (arith, on, ap home ((==_iff u table).0 this), leaf)
    | inr other ↦ other
  ]

  -- Another address has another way to this table, or another index in it.
  apart_at_leaf :
      (u v : ℕ)
      → OnWay home 0 u v
      → same_place 0 (above 0 virt) (index 0 virt) v ≡ false
      → ((u == table) && (index 0 v == index 0 virt)) ≡ false
  apart_at_leaf u v on apart = elim (Bool-cases (u == table)) [
    | inl this ↦
        let e : home u ≡ home table = ap home ((==_iff u table).0 this) in
        let e' : above 0 v ≡ above 0 virt = ground (arith, on, e, leaf) in ground (arith, apart, e')
    | inr other ↦ rw other refl
  ]

  pub find_elsewhere :
      (m u v : ℕ)
      → OnWay home m u v
      → same_place 0 (above 0 virt) (index 0 virt) v ≡ false
      → find m u v t ≡ find m u v s
  unfolding find
  find_elsewhere zero u v on apart = others u (index zero v) (apart_at_leaf u v on apart)
  find_elsewhere (suc m) u v on apart =
      let same : t.contents u (index (suc m) v) ≡ s.contents u (index (suc m) v) =
        others u (index (suc m) v) (rw (inner_same m u v on) refl) in
      elim (Bool-cases (is_present (s.contents u (index (suc m) v)))) [
        | inl present ↦
            let further : find m (frame (s.contents u (index (suc m) v))) v t
                ≡ find m (frame (s.contents u (index (suc m) v))) v s =
              find_elsewhere m (frame (s.contents u (index (suc m) v))) v
                (down_way root home s m u v tree on present) apart in
            rw same (rw present further)
        | inr gone ↦ rw same (rw gone refl)
      ]
