-- ===== src/Vmem/Alloc/Search.antt =====
-- The walk over the freelists: it visits valid structures only, and misses no segment that fits.
use scal_ux.Prelude.{
  ==_iff, Bool, Bool-cases, List, Option, Option-cases, [], arith, count, inl, inr, none, refl,
  some, subst, suc, zero, ℕ, ◌+◌, ◌<◌, ◌==◌, ◌>>=◌, ◌∷◌, ◌≡◌, ◌≤◌,
}
use scal_ux.Vmem.Alloc.{fit, search_list, search_lists}
use scal_ux.Vmem.Segment.{Seg, seg_at}

-- The pointers that `on` holds of lead to structures on the queue.
abbrev pub Leads : List Seg → (ℕ → Type 0) → Type 0
Leads q on = (i : ℕ) → on i → (s : Seg) × (seg_at i q ≡ some s)

-- What a walk over the pointers that `on` holds of found.
pub data Found (size min : ℕ) (exact : Bool) (q : List Seg) (on : ℕ → Type 0)
    : Option (Option (Seg × ℕ)) → Type 0 where
  missed :
      ((i : ℕ) (s : Seg) → on i → seg_at i q ≡ some s → fit size min exact s ≡ none)
      → Found size min exact q on (some none)
  hit :
      (i : ℕ) (s : Seg) (addr : ℕ)
      → on i
      → seg_at i q ≡ some s
      → fit size min exact s ≡ some addr
      → Found size min exact q on (some (some (s, addr)))

abbrev pub On : List ℕ → ℕ → Type 0
On l i = 0 < count i l

-- A pointer on one of `rounds` lists from `idx` on.
abbrev pub OnLists : (ℕ → List ℕ) → ℕ → ℕ → ℕ → Type 0
OnLists lists idx rounds i = (n : ℕ) × (idx ≤ n) × (n < idx + rounds) × On (lists n) i

module _ (size min : ℕ) (exact : Bool) (q : List Seg) where
  Found-cons :
      (i : ℕ) (s : Seg) (l : List ℕ) (r : Option (Option (Seg × ℕ)))
      → seg_at i q ≡ some s
      → fit size min exact s ≡ none
      → Found size min exact q (On l) r
      → Found size min exact q (On (i ∷ l)) r
  Found-cons i s l r e f (missed h) = missed (λ j t p a. ground (arith, h j t))
  Found-cons i s l r e f (hit j t addr p a b) = hit j t addr (omega arith) a b

  search_list_step :
      (i : ℕ) (s : Seg) (l : List ℕ)
      → seg_at i q ≡ some s
      → Found size min exact q (On l) (search_list size min exact q l)
      → Found size min exact q (On (i ∷ l)) (search_list size min exact q (i ∷ l))
  unfolding search_list
  search_list_step i s l e rest = elim (Option-cases (fit size min exact s)) [
    | inl miss ↦ rw e (rw (miss, ◌>>=◌) (Found-cons i s l _ e miss rest))
    | inr (addr, fits) ↦ rw e (rw (fits, ◌>>=◌) (hit i s addr (ground arith) e fits))
  ]

  pub Found-search_list :
      (l : List ℕ) → Leads q (On l) → Found size min exact q (On l) (search_list size min exact q l)
  unfolding search_list
  Found-search_list [] h = missed (λ i s p e. absurd (omega arith))
  Found-search_list (i ∷ l) h =
      let (s, e) = h i (ground arith) in
      search_list_step i s l e (Found-search_list l (λ j p. h j (omega arith)))

  module _ (lists : ℕ → List ℕ) where
    missed-step :
        (rounds idx : ℕ) (r : Option (Option (Seg × ℕ)))
        → ((i : ℕ) (s : Seg) → On (lists idx) i → seg_at i q ≡ some s → fit size min exact s ≡ none)
        → Found size min exact q (OnLists lists (idx + 1) rounds) r
        → Found size min exact q (OnLists lists idx (suc rounds)) r
    missed-step rounds idx r h (missed g) = missed (λ i s (n, a, b, p) e.
        elim (Bool-cases (n == idx)) [
          | inl same ↦ h i s (subst (λ k. On (lists k) i) ((==_iff n idx).0 same) p) e
          | inr other ↦ g i s (n, ground arith, omega arith, p) e
        ])
    missed-step rounds idx r h (hit i s addr (n, a, b, p) e f) =
        hit i s addr (n, omega arith, omega arith, p) e f

    search_lists_step :
        (rounds idx : ℕ) (r : Option (Option (Seg × ℕ)))
        → search_list size min exact q (lists idx) ≡ r
        → Found size min exact q (On (lists idx)) r
        → Found size min exact q
            (OnLists lists (idx + 1) rounds)
            (search_lists rounds (idx + 1) size min exact lists q)
        → Found size min exact q
            (OnLists lists idx (suc rounds))
            (search_lists (suc rounds) idx size min exact lists q)
    unfolding search_lists
    search_lists_step rounds idx r e (missed h) rest = rw e (missed-step rounds idx _ h rest)
    search_lists_step rounds idx r e (hit i s addr p a f) rest =
        rw e (hit i s addr (idx, omega arith, omega arith, p) a f)

    pub Found-search_lists :
        (rounds idx : ℕ)
        → Leads q (OnLists lists idx rounds)
        → Found size min exact q
            (OnLists lists idx rounds)
            (search_lists rounds idx size min exact lists q)
    unfolding search_lists
    Found-search_lists zero idx h = missed (λ i s (n, a, b, p) e. absurd (omega arith))
    Found-search_lists (suc rounds) idx h =
        search_lists_step rounds idx (search_list size min exact q (lists idx)) refl
          (Found-search_list (lists idx) (λ i p. h i (idx, omega arith, omega arith, p)))
          (Found-search_lists rounds (idx + 1)
            (λ i (n, a, b, p). h i (n, omega arith, omega arith, p)))
