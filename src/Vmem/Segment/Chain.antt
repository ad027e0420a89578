-- ===== src/Vmem/Segment/Chain.antt =====
-- The order of the queue: segments follow their span marker, in rising order, without overlap, and
-- within the span. `lo` is where the next segment may start, `hi` is the end of the span.
use scal_ux.Prelude.{
  Bool, List, [], arith, false, leb, ltb, refl, subst, suc, true, word, ℕ, ◌&&◌, ◌++◌, ◌+◌, ◌<◌,
  ◌∷◌, ◌≡◌, ◌≤◌,
}
use scal_ux.Vmem.Segment.Surgery.{At, occ}
use scal_ux.Vmem.Segment.{Seg, is_allocated, is_free, is_marker}

abbrev pub end_of : Seg → ℕ
end_of s = s.base + s.size

abbrev pub ChainFrom : Bool → ℕ → ℕ → Seg → Type 0
ChainFrom true lo hi s = (hi ≤ s.base) × (0 < s.size) × (end_of s < word)
ChainFrom false lo hi s = (lo ≤ s.base) × (0 < s.size) × (end_of s ≤ hi)

abbrev pub next_lo : Bool → Seg → ℕ
next_lo true s = s.base
next_lo false s = end_of s

abbrev pub next_hi : Bool → ℕ → Seg → ℕ
next_hi true hi s = end_of s
next_hi false hi s = hi

abbrev pub Chain : ℕ → ℕ → List Seg → Type 0
Chain lo hi [] = Unit {0}
Chain lo hi (s ∷ q) =
    ChainFrom (is_marker s.type) lo hi s
    × Chain (next_lo (is_marker s.type) s) (next_hi (is_marker s.type) hi s) q

Chain-next :
    (x : Seg) (lo hi : ℕ)
    → lo ≤ hi
    → hi < word
    → ChainFrom (is_marker x.type) lo hi x
    → (next_lo (is_marker x.type) x ≤ next_hi (is_marker x.type) hi x)
      × (next_hi (is_marker x.type) hi x < word)
Chain-next x lo hi m w c = ground arith

-- A part of the queue may be replaced by what fits wherever that part does.
pub Chain-replace :
    (xs ys zs : List Seg) (lo hi : ℕ)
    → lo ≤ hi
    → hi < word
    → ((l h : ℕ) → l ≤ h → h < word → Chain l h ys → Chain l h zs)
    → Chain lo hi (xs ++ ys)
    → Chain lo hi (xs ++ zs)
Chain-replace [] ys zs lo hi m w f c = f lo hi m w c
Chain-replace (x ∷ xs) ys zs lo hi m w f c = (
  c.0,
  Chain-replace xs ys zs (next_lo (is_marker x.type) x) (next_hi (is_marker x.type) hi x)
      (Chain-next x lo hi m w c.0).0 (Chain-next x lo hi m w c.0).1 f c.1,
)

-- What holds wherever a part of the queue fits.
pub Chain-part {ℓ} :
    {P : Type ℓ} (xs ys : List Seg) (lo hi : ℕ)
    → lo ≤ hi
    → hi < word
    → ((l h : ℕ) → l ≤ h → h < word → Chain l h ys → P)
    → Chain lo hi (xs ++ ys)
    → P
Chain-part [] ys lo hi m w f c = f lo hi m w c
Chain-part (x ∷ xs) ys lo hi m w f c =
    Chain-part xs ys (next_lo (is_marker x.type) x) (next_hi (is_marker x.type) hi x)
      (Chain-next x lo hi m w c.0).0 (Chain-next x lo hi m w c.0).1 f c.1

-- The tests for the bytes of the address space.
abbrev pub within : ℕ → Seg → Bool
within x s = leb s.base x && ltb x (end_of s)

-- How many allocated segments, and how many free ones, hold the byte `x`.
abbrev pub allocated_at : ℕ → List Seg → ℕ
allocated_at x q = occ (λ s. is_allocated s.type && within x s) q

abbrev pub free_at : ℕ → List Seg → ℕ
free_at x q = occ (λ s. is_free s.type && within x s) q

Chain-below :
    (q : List Seg) (lo hi x : ℕ)
    → Chain lo hi q
    → lo ≤ hi
    → x < lo
    → allocated_at x q + free_at x q ≡ 0
Chain-below [] lo hi x c h l = refl
Chain-below (s ∷ q) lo hi x c h l =
    ground
      (arith, Chain-below q (next_lo (is_marker s.type) s) (next_hi (is_marker s.type) hi s) x c.1)

-- No byte is in two segments.
pub Chain-at_most_once :
    (q : List Seg) (lo hi x : ℕ) → Chain lo hi q → lo ≤ hi → allocated_at x q + free_at x q ≤ 1
Chain-at_most_once [] lo hi x c h = omega arith
Chain-at_most_once (s ∷ q) lo hi x c h = ground (
  arith,
  Chain-below q (next_lo (is_marker s.type) s) (next_hi (is_marker s.type) hi s) x c.1,
  Chain-at_most_once q (next_lo (is_marker s.type) s) (next_hi (is_marker s.type) hi s) x c.1,
)

-- The byte behind an allocated one lies in the address space, too.
pub Chain-allocated :
    (q : List Seg) (lo hi x : ℕ)
    → Chain lo hi q
    → lo ≤ hi
    → hi < word
    → 1 ≤ allocated_at x q
    → suc x < word
Chain-allocated [] lo hi x c h w a = absurd (omega arith)
Chain-allocated (s ∷ q) lo hi x c h w a = ground (
  arith,
  Chain-allocated q (next_lo (is_marker s.type) s) (next_hi (is_marker s.type) hi s) x c.1,
)

-- A segment of the queue ends inside the address space.
pub At-end-lt-word : (i : ℕ) (s : Seg) (q : List Seg) → Chain 0 0 q → At i s q → end_of s < word
At-end-lt-word i s q c a =
    Chain-part a.before (s ∷ a.after) 0 0 (omega arith) (omega arith) (λ l h m w d. ground arith)
      (subst (Chain 0 0) a.whole c)

-- A queue may start earlier.
pub Chain-mono : (q : List Seg) (l l' h : ℕ) → l' ≤ l → Chain l h q → Chain l' h q
Chain-mono [] l l' h m c = tt
Chain-mono (s ∷ q) l l' h m c = (ground arith, c.1)

-- A segment that is no marker may leave.
pub Chain-drop :
    (s : Seg) (q : List Seg) (l h : ℕ) → is_marker s.type ≡ false → Chain l h (s ∷ q) → Chain l h q
Chain-drop s q l h plain c = ground (arith, Chain-mono q (end_of s) l h)
