-- ===== src/Prelude/Tally.antt =====
-- How many of the first `n` members of a family pass a test.
use Prim.Native.Nat.{ℕ, zero, suc, ◌+◌, ◌<◌, ◌≤◌}
use mathlib.Core.Path.{◌≡◌, refl, ap}
use mathlib.Core.Logic.{◌≢◌, inl, inr}
use mathlib.Core.Bool.{Bool, false}
use native.Mathlib.Omega.{arith}
use scal_ux.Prelude.Count.{bit, update}
use scal_ux.Prelude.Tests.{Bool-cases, ==_iff, ltb, ◌==◌, if◌then◌else◌}

module _ {A : Type 0} (q : A → Bool) where
  unfoldable pub tally : (ℕ → A) → ℕ → ℕ
  tally f zero = 0
  tally f (suc n) = bit (q (f n)) + tally f n

  -- A change of one member beyond the first `n` is not seen; one among them counts once.
  tally-update_at :
      (f : ℕ → A) (i : ℕ) (v : A) (n : ℕ)
      → tally (update f i v) n + (if ltb i n then bit (q (f i)) else 0)
        ≡ tally f n + (if ltb i n then bit (q v) else 0)
  unfolding tally
  tally-update_at f i v zero = ground arith
  tally-update_at f i v (suc n) = elim (Bool-cases (i == n)) [
    | inl last ↦ ground (arith, tally-update_at f i v n, ap f ((==_iff i n).0 last))
    | inr other ↦ ground (arith, tally-update_at f i v n)
  ]

  pub tally-update :
      (f : ℕ → A) (i : ℕ) (v : A) (n : ℕ)
      → i < n
      → tally (update f i v) n + bit (q (f i)) ≡ tally f n + bit (q v)
  tally-update f i v n low = ground (arith, tally-update_at f i v n)

  pub tally_one : (f : ℕ → A) (i n : ℕ) → i < n → bit (q (f i)) ≤ tally f n
  unfolding tally
  tally_one f i zero low = absurd (omega arith)
  tally_one f i (suc n) low = elim (Bool-cases (i == n)) [
    | inl last ↦ ground (arith, ap (λ k. bit (q (f k))) ((==_iff i n).0 last))
    | inr other ↦ ground (arith, tally_one f i n)
  ]

  -- Two different members count twice.
  pub tally_two :
      (f : ℕ → A) (i j n : ℕ) → i < n → j < n → i ≢ j → bit (q (f i)) + bit (q (f j)) ≤ tally f n
  unfolding tally
  tally_two f i j zero low low' d = absurd (omega arith)
  tally_two f i j (suc n) low low' d = elim (Bool-cases (i == n)) [
    | inl last ↦
        let e : i ≡ n = (==_iff i n).0 last in
        let r : bit (q (f j)) ≤ tally f n = tally_one f j n (omega arith) in
        ground (arith, ap (λ k. bit (q (f k))) e, r)
    | inr other ↦ elim (Bool-cases (j == n)) [
      | inl last ↦
          let r : bit (q (f i)) ≤ tally f n = tally_one f i n (ground arith) in
          ground (arith, ap (λ k. bit (q (f k))) ((==_iff j n).0 last), r)
      | inr third ↦
          let r : bit (q (f i)) + bit (q (f j)) ≤ tally f n =
            tally_two f i j n (ground arith) (ground arith) d in
          ground (arith, r)
    ]
  ]

  pub tally_none : (f : ℕ → A) (n : ℕ) → ((i : ℕ) → q (f i) ≡ false) → tally f n ≡ 0
  unfolding tally
  tally_none f zero h = refl
  tally_none f (suc n) h = ground (arith, h n, tally_none f n h)
