-- ===== src/Vmem/Segment/Surgery.antt =====
-- What the queue operations do to a queue that is taken apart at the segment they name.
use scal_ux.Prelude.{
  Bool, Bool-cases, List, [], ap, arith, bit, false, inl, inr, refl, some, ℕ, ◌++◌, ◌+◌, ◌==◌, ◌∷◌,
  ◌≡◌,
}
use scal_ux.Vmem.Segment.{Seg, assign, first, insert_after, insert_before, next_seg, remove, seg_at}

-- The segments that a test accepts, counted.
abbrev pub occ : (Seg → Bool) → List Seg → ℕ
occ p [] = 0
occ p (s ∷ q) = bit (p s) + occ p q

abbrev pub is_id : ℕ → Seg → Bool
is_id i s = i == s.id

pub occ-append : (p : Seg → Bool) (xs ys : List Seg) → occ p (xs ++ ys) ≡ occ p xs + occ p ys
occ-append p [] ys = omega arith
occ-append p (s ∷ xs) ys = omega (arith, occ-append p xs ys)

-- A queue at the first structure with the address `i`.
pub record At (i : ℕ) (s : Seg) (q : List Seg) : Type 0 where
  pub before : List Seg
  pub after : List Seg
  pub whole : q ≡ before ++ s ∷ after
  pub fresh : occ (is_id i) before ≡ 0
  pub here : i ≡ s.id

At-cons : (i : ℕ) (x s : Seg) (q : List Seg) → (i == x.id) ≡ false → At i s q → At i s (x ∷ q)
At-cons i x s q h a = record {
  before = x ∷ a.before;
  after = a.after;
  whole = ap (◌∷◌ x) a.whole;
  fresh = rw h (omega (arith, a.fresh));
  here = a.here;
}

pub seg_at-At : (i : ℕ) (q : List Seg) (s : Seg) → seg_at i q ≡ some s → At i s q
seg_at-At i [] s h = cc
seg_at-At i (x ∷ q) s h = elim (Bool-cases (i == x.id)) [
  | inl e ↦ record {
    before = [];
    after = q;
    whole = ground arith;
    fresh = refl;
    here = ground arith;
  }
  | inr e ↦ At-cons i x s q e (seg_at-At i q s (ground arith))
]

module _ (i : ℕ) (s n : Seg) (ys : List Seg) (here : i ≡ s.id) where
  pub seg_at_lem : (xs : List Seg) → occ (is_id i) xs ≡ 0 → seg_at i (xs ++ s ∷ ys) ≡ some s
  seg_at_lem [] f = ground arith
  seg_at_lem (x ∷ xs) f = ground (arith, seg_at_lem xs)

  pub insert_before_lem :
      (xs : List Seg) → occ (is_id i) xs ≡ 0 → insert_before i n (xs ++ s ∷ ys) ≡ xs ++ n ∷ s ∷ ys
  insert_before_lem [] f = ground arith
  insert_before_lem (x ∷ xs) f = ground (arith, insert_before_lem xs)

  pub insert_after_lem :
      (xs : List Seg) → occ (is_id i) xs ≡ 0 → insert_after i n (xs ++ s ∷ ys) ≡ xs ++ s ∷ n ∷ ys
  insert_after_lem [] f = ground arith
  insert_after_lem (x ∷ xs) f = ground (arith, insert_after_lem xs)

  pub assign_lem : (xs : List Seg) → occ (is_id i) xs ≡ 0 → assign i n (xs ++ s ∷ ys) ≡ xs ++ n ∷ ys
  assign_lem [] f = ground arith
  assign_lem (x ∷ xs) f = ground (arith, assign_lem xs)

  pub remove_lem : (xs : List Seg) → occ (is_id i) xs ≡ 0 → remove i (xs ++ s ∷ ys) ≡ xs ++ ys
  remove_lem [] f = ground arith
  remove_lem (x ∷ xs) f = ground (arith, remove_lem xs)

  pub next_seg_lem : (xs : List Seg) → occ (is_id i) xs ≡ 0 → next_seg i (xs ++ s ∷ ys) ≡ first ys
  next_seg_lem [] f = ground arith
  next_seg_lem (x ∷ xs) f = ground (arith, next_seg_lem xs)
