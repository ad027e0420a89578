-- ===== src/Prelude/Total.antt =====
-- Sums over the first `n` numbers.
use Prim.Native.Nat.{ℕ, zero, suc, ◌+◌, ◌<◌, ◌≤◌}
use mathlib.Core.Path.{◌≡◌, refl, ap, sym}
use mathlib.Core.Logic.{◌≢◌, inl, inr}
use mathlib.Core.Bool.{false}
use native.Mathlib.Omega.{arith}
use scal_ux.Prelude.Tests.{Bool-cases, ==_iff, ◌==◌}

unfoldable pub total : (ℕ → ℕ) → ℕ → ℕ
total f zero = 0
total f (suc n) = total f n + f n

pub total_same : (f g : ℕ → ℕ) (n : ℕ) → ((i : ℕ) → i < n → f i ≡ g i) → total f n ≡ total g n
unfolding total
total_same f g zero h = refl
total_same f g (suc n) h =
    omega (arith, h n (omega arith), total_same f g n (λ i l. h i (omega arith)))

-- Two sums that differ in one member at most differ by what that member does.
pub total_one_changed :
    (f g : ℕ → ℕ) (k n : ℕ)
    → k < n
    → ((i : ℕ) → (k == i) ≡ false → f i ≡ g i)
    → total f n + g k ≡ total g n + f k
unfolding total
total_one_changed f g k zero low h = absurd (omega arith)
total_one_changed f g k (suc n) low h = elim (Bool-cases (k == n)) [
  | inl last ↦
      let e : k ≡ n = (==_iff k n).0 last in
      let same : total f n ≡ total g n = total_same f g n (λ i l. h i (ground arith)) in
      omega (arith, same, ap f e, ap g e)
  | inr other ↦ omega (arith, h n other, total_one_changed f g k n (ground arith) h)
]

pub total_none : (f : ℕ → ℕ) (n : ℕ) → ((i : ℕ) → i < n → f i ≡ 0) → total f n ≡ 0
unfolding total
total_none f zero h = refl
total_none f (suc n) h = omega (arith, h n (omega arith), total_none f n (λ i l. h i (omega arith)))

-- A longer sum adds nothing, where its further members are 0.
pub total_longer :
    (f : ℕ → ℕ) (m n : ℕ) → m ≤ n → ((i : ℕ) → m ≤ i → f i ≡ 0) → total f n ≡ total f m
unfolding total
total_longer f zero zero low h = refl
total_longer f (suc m) zero low h = absurd (omega arith)
total_longer f m (suc n) low h = elim (Bool-cases (m == suc n)) [
  | inl last ↦ ap (total f) (sym ((==_iff m (suc n)).0 last))
  | inr other ↦ ground (arith, h n (ground arith), total_longer f m n (ground arith) h)
]

pub total_member : (f : ℕ → ℕ) (i n : ℕ) → i < n → f i ≤ total f n
unfolding total
total_member f i zero low = absurd (omega arith)
total_member f i (suc n) low = elim (Bool-cases (i == n)) [
  | inl last ↦ omega (arith, ap f ((==_iff i n).0 last))
  | inr other ↦ omega (arith, total_member f i n (ground arith))
]

pub total_two_members : (f : ℕ → ℕ) (i j n : ℕ) → i < n → j < n → i ≢ j → f i + f j ≤ total f n
unfolding total
total_two_members f i j zero low low' d = absurd (omega arith)
total_two_members f i j (suc n) low low' d = elim (Bool-cases (i == n)) [
  | inl last ↦
      omega (
        arith,
        ap f ((==_iff i n).0 last),
        total_member f j n (ground (arith, (==_iff i n).0 last)),
      )
  | inr other ↦ elim (Bool-cases (j == n)) [
    | inl last ↦ omega (arith, ap f ((==_iff j n).0 last), total_member f i n (ground arith))
    | inr third ↦ omega (arith, total_two_members f i j n (ground arith) (ground arith) d)
  ]
]
