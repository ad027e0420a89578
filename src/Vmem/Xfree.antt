-- ===== src/Vmem/Xfree.antt =====
-- vmem_xfree in an arena without imported spans: what it returns and what it leaves.
pub mod Stages
pub mod Correct
pub mod Coalesce
use scal_ux.Vmem.Free.{find_base}
use scal_ux.Vmem.Segment.Chain.{Chain}
use scal_ux.Vmem.Segment.Surgery.{is_id, occ}
use scal_ux.Prelude.{
  ==_iff, Bool-cases, List, Option, [], ap, append_assoc, arith, false, inl, inr, none, refl, some,
  subst, ℕ, ◌++◌, ◌==◌, ◌>>=◌, ◌∷◌, ◌≡◌, ◌≢◌, ◌⊎◌,
}
use scal_ux.Vmem.Segment.{Seg, is_imported, is_marker, prev_from, prev_seg, seg_at}
use scal_ux.Vmem.Alloc.Search.{Leads, On}

abbrev pub imported_spans : List Seg → ℕ
imported_spans q = occ (λ t. is_imported t.type) q

-- What the walk over a hash bucket found.
pub data FoundBase (addr : ℕ) (q : List Seg) (l : List ℕ) : Option (Option Seg) → Type 0 where
  absent :
      ((i : ℕ) (seg : Seg) → On l i → seg_at i q ≡ some seg → seg.base ≢ addr)
      → FoundBase addr q l (some none)
  present :
      (i : ℕ) (seg : Seg)
      → On l i
      → seg_at i q ≡ some seg
      → seg.base ≡ addr
      → FoundBase addr q l (some (some seg))

module _ (addr : ℕ) (q : List Seg) where
  FoundBase-cons :
      (i : ℕ) (seg : Seg) (l : List ℕ) (r : Option (Option Seg))
      → seg_at i q ≡ some seg
      → (seg.base == addr) ≡ false
      → FoundBase addr q l r
      → FoundBase addr q (i ∷ l) r
  FoundBase-cons i seg l r e miss (absent h) = absent (λ j t p a. λ b. ground (arith, h j t))
  FoundBase-cons i seg l r e miss (present j t p a b) = present j t (omega arith) a b

  find_base_step :
      (i : ℕ) (seg : Seg) (l : List ℕ)
      → seg_at i q ≡ some seg
      → FoundBase addr q l (find_base addr q l)
      → FoundBase addr q (i ∷ l) (find_base addr q (i ∷ l))
  unfolding find_base
  find_base_step i seg l e rest = elim (Bool-cases (seg.base == addr)) [
    | inl same ↦
        rw e (rw (same, ◌>>=◌) (present i seg (ground arith) e ((==_iff seg.base addr).0 same)))
    | inr other ↦ rw e (rw (other, ◌>>=◌) (FoundBase-cons i seg l _ e other rest))
  ]

  pub find_base-FoundBase : (l : List ℕ) → Leads q (On l) → FoundBase addr q l (find_base addr q l)
  unfolding find_base
  find_base-FoundBase [] h = absent (λ i seg p e. absurd (omega arith))
  find_base-FoundBase (i ∷ l) h =
      let (seg, e) = h i (ground arith) in
      find_base_step i seg l e (find_base-FoundBase l (λ j p. h j (omega arith)))

-- A queue is empty or has a last segment.
pub last_cases : (xs : List Seg) → (xs ≡ []) ⊎ ((ws : List Seg) × (p : Seg) × (xs ≡ ws ++ (p ∷ [])))
last_cases [] = inl refl
last_cases (x ∷ xs) = elim (last_cases xs) [
  | inl e ↦ inr ([], x, ap (◌∷◌ x) e)
  | inr (ws, p, e) ↦ inr (x ∷ ws, p, ap (◌∷◌ x) e)
]

prev_from_lem :
    (i : ℕ) (o : Option Seg) (p s : Seg) (ws ys : List Seg)
    → occ (is_id i) (ws ++ (p ∷ [])) ≡ 0
    → i ≡ s.id
    → prev_from o i (ws ++ (p ∷ s ∷ ys)) ≡ some p
prev_from_lem i o p s [] ys f e = ground arith
prev_from_lem i o p s (w ∷ ws) ys f e = ground (arith, prev_from_lem i (some w) p s ws ys)

empty_front : (s : Seg) (ys : List Seg) → Chain 0 0 (s ∷ ys) → is_marker s.type ≡ false → ⊥
empty_front s ys c plain = ground arith

-- A segment that is no span marker has another in front of it.
pub prev_seg_lem :
    (s : Seg) (xs ys : List Seg)
    → Chain 0 0 (xs ++ (s ∷ ys))
    → is_marker s.type ≡ false
    → occ (is_id s.id) xs ≡ 0
    → (ws : List Seg) × (p : Seg) × (xs ≡ ws ++ (p ∷ []))
      × (prev_seg s.id (xs ++ (s ∷ ys)) ≡ some p)
prev_seg_lem s xs ys c plain f = elim (last_cases xs) [
  | inl e ↦
      absurd (empty_front s ys (subst (λ (l : List Seg). Chain 0 0 (l ++ (s ∷ ys))) e c) plain)
  | inr (ws, p, e) ↦ (
    ws,
    p,
    e,
    rw e (
        rw (append_assoc ws (p ∷ []) (s ∷ ys)) (
          prev_from_lem s.id none p s ws ys (subst (λ (l : List Seg). occ (is_id s.id) l ≡ 0) e f)
            refl)),
  )
]
