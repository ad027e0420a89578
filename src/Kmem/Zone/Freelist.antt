-- ===== src/Kmem/Zone/Freelist.antt =====
-- kmem_slab.c: the free entries of a zone's slabs, as the links give them.
use scal_ux.Prelude.{
  ==_iff, Bool-cases, List, Option, [], ap, arith, count, inl, inr, length, none, refl, some, subst,
  suc, sym, zero, ℕ, ◌%◌, ◌++◌, ◌+◌, ◌-◌, ◌<◌, ◌==◌, ◌^◌, ◌∙◌, ◌∷◌, ◌≡◌, ◌≢◌, ◌≤◌,
}
use scal_ux.Kmem.Zone.{Slab}

-- The entries that the links lead through from a first one.
unfoldable pub Chained : (ℕ → Option ℕ) → Option ℕ → List ℕ → Type 0
Chained next first [] = first ≡ none
Chained next first (e ∷ l) = (first ≡ some e) × Chained next (next e) l

-- The free entries of every slab, which the slab's counter counts.
unfoldable pub Slabs : (ℕ → Option ℕ) → List Slab → List (List ℕ) → Type 0
Slabs next [] [] = Unit
Slabs next [] (l ∷ ls) = ⊥
Slabs next (s ∷ ss) [] = ⊥
Slabs next (s ∷ ss) (l ∷ ls) =
    Chained next s.firstfree l × (s.nfree ≡ length l % 2 ^ 32) × Slabs next ss ls

-- How often an entry occurs on the freelists.
unfoldable pub free_count : ℕ → List (List ℕ) → ℕ
free_count i [] = 0
free_count i (l ∷ ls) = count i l + free_count i ls

-- `entry i`, …, `entry (i + n - 1)`.
unfoldable pub entries : (ℕ → ℕ) → ℕ → ℕ → List ℕ
entries entry i zero = []
entries entry i (suc n) = entry i ∷ entries entry (i + 1) n

pub Chained-frame :
    (next next' : ℕ → Option ℕ) (first : Option ℕ) (l : List ℕ)
    → ((i : ℕ) → 0 < count i l → next' i ≡ next i)
    → Chained next first l
    → Chained next' first l
unfolding Chained
Chained-frame next next' first [] same h = h
Chained-frame next next' first (e ∷ l) same h = (
  h.0,
  rw (same e (ground arith))
      (Chained-frame next next' (next e) l (λ i c. same i (ground arith)) h.1),
)

pub Slabs-frame :
    (next next' : ℕ → Option ℕ) (ss : List Slab) (ls : List (List ℕ))
    → ((i : ℕ) → 0 < free_count i ls → next' i ≡ next i)
    → Slabs next ss ls
    → Slabs next' ss ls
unfolding Slabs free_count
Slabs-frame next next' [] [] same h = h
Slabs-frame next next' [] (l ∷ ls) same h = h
Slabs-frame next next' (s ∷ ss) [] same h = h
Slabs-frame next next' (s ∷ ss) (l ∷ ls) same h = (
  Chained-frame next next' s.firstfree l (λ i c. same i (omega arith)) h.0,
  h.1,
  Slabs-frame next next' ss ls (λ i c. same i (omega arith)) h.2,
)

pub Slabs-append :
    (next : ℕ → Option ℕ) (ss : List Slab) (ls : List (List ℕ)) (s : Slab) (l : List ℕ)
    → Slabs next ss ls
    → Slabs next (s ∷ []) (l ∷ [])
    → Slabs next (ss ++ s ∷ []) (ls ++ l ∷ [])
unfolding Slabs
Slabs-append next [] [] s l h k = k
Slabs-append next [] (m ∷ ls) s l h k = absurd h
Slabs-append next (t ∷ ss) [] s l h k = absurd h
Slabs-append next (t ∷ ss) (m ∷ ls) s l h k = (h.0, h.1, Slabs-append next ss ls s l h.2 k)

pub free_count-append :
    (i : ℕ) (ls : List (List ℕ)) (l : List ℕ)
    → free_count i (ls ++ l ∷ []) ≡ free_count i ls + count i l
unfolding free_count
free_count-append i [] l = omega arith
free_count-append i (m ∷ ls) l = omega (arith, free_count-append i ls l)

pub count-entries-zero :
    (x : ℕ) (entry : ℕ → ℕ) (n i : ℕ)
    → ((k : ℕ) → i ≤ k → k < i + n → entry k ≢ x)
    → count x (entries entry i n) ≡ 0
unfolding entries
count-entries-zero x entry zero i h = refl
count-entries-zero x entry (suc n) i h =
    let first : entry i ≢ x = h i (omega arith) (omega arith) in
    ground (
      arith,
      first,
      count-entries-zero x entry n (i + 1) (λ k a b. h k (omega arith) (omega arith)),
    )

-- Entries that differ are listed once each.
pub count-entries-le :
    (x : ℕ) (entry : ℕ → ℕ) (n i : ℕ)
    → ((j k : ℕ) → i ≤ j → j < k → k < i + n → entry j ≢ entry k)
    → count x (entries entry i n) ≤ 1
unfolding entries
count-entries-le x entry zero i h = omega arith
count-entries-le x entry (suc n) i h = elim (Bool-cases (x == entry i)) [
  | inl t ↦
      let none_left : count (entry i) (entries entry (i + 1) n) ≡ 0 =
        count-entries-zero (entry i) entry n (i + 1)
          (λ k a b e. h i k (omega arith) (omega arith) (omega arith) (sym e)) in
      let e : x ≡ entry i = (==_iff _ _).0 t in
      ground (arith, none_left, ap (λ y. count y (entries entry (i + 1) n)) e)
  | inr f ↦
      ground (
        arith,
        count-entries-le x entry n (i + 1) (λ j k a b c. h j k (omega arith) b (omega arith)),
      )
]

-- Links from each entry to the next, and none from the last, lead through all of them.
pub Chained-entries :
    (next : ℕ → Option ℕ) (entry : ℕ → ℕ) (n i : ℕ)
    → ((k : ℕ) → i ≤ k → k < i + n → next (entry k) ≡ some (entry (k + 1)))
    → next (entry (i + n)) ≡ none
    → Chained next (some (entry i)) (entries entry i (suc n))
unfolding Chained entries
Chained-entries next entry zero i h last =
    (refl, subst (λ k. next (entry k) ≡ none) (omega arith) last)
Chained-entries next entry (suc n) i h last = (
  refl,
  rw (h i (omega arith) (omega arith)) (
      Chained-entries next entry n (i + 1) (λ k a b. h k (omega arith) (omega arith))
        (subst (λ k. next (entry k) ≡ none) (omega arith) last)),
)

length-entries : (entry : ℕ → ℕ) (n i : ℕ) → length (entries entry i n) ≡ n
unfolding entries
length-entries entry zero i = refl
length-entries entry (suc n) i = ap suc (length-entries entry n (i + 1))

-- A slab whose entries are linked in their order, in front of slabs whose links are kept.
pub Slabs-new :
    (next next' : ℕ → Option ℕ) (entry : ℕ → ℕ) (n : ℕ) (s : Slab) (ss : List Slab)
    (frees : List (List ℕ))
    → 0 < n
    → s.firstfree ≡ some (entry 0)
    → s.nfree ≡ n % 2 ^ 32
    → ((k : ℕ) → k + 1 < n → next' (entry k) ≡ some (entry (k + 1)))
    → next' (entry (n - 1)) ≡ none
    → ((x : ℕ) → ((k : ℕ) → k < n → entry k ≢ x) → next' x ≡ next x)
    → ((k : ℕ) → k < n → free_count (entry k) frees ≡ 0)
    → Slabs next ss frees
    → Slabs next' (s ∷ ss) (entries entry 0 n ∷ frees)
unfolding Slabs
Slabs-new next next' entry zero s ss frees pos first counted links last other unused h =
    absurd (omega arith)
Slabs-new next next' entry (suc n) s ss frees pos first counted links last other unused h = (
  rw first (
      Chained-entries next' entry n 0 (λ k a b. links k (omega arith))
        (subst (λ k. next' (entry k) ≡ none) (omega arith) last)),
  counted ∙ ap (λ m. m % 2 ^ 32) (sym (length-entries entry (suc n) 0)),
  Slabs-frame next next' ss frees
      (λ i c. other i λ k lt e.
        let u : free_count i frees ≡ 0 = subst (λ x. free_count x frees ≡ 0) e (unused k lt) in
        omega arith)
      h,
)
