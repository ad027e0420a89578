-- ===== src/Prelude/Count.antt =====
-- Lists of numbered structures, seen through the number of times that a number occurs.
use Prim.Native.Nat.{ℕ, suc, ◌+◌}
use mathlib.Core.Path.{◌≡◌, refl}
use mathlib.Core.Bool.{Bool}
use mathlib.Core.List.{List, [], ◌∷◌, ◌++◌}
use native.Mathlib.Omega.{arith}
use scal_ux.Prelude.Tests.{◌==◌, if◌then◌else◌}

-- The elements that a test accepts, counted.
abbrev pub bit : Bool → ℕ
bit b = if b then 1 else 0

abbrev pub length {ℓ} : {A : Type ℓ} → List A → ℕ
length [] = 0
length (x ∷ xs) = suc (length xs)

-- How often `i` is on the list.
abbrev pub count : ℕ → List ℕ → ℕ
count i [] = 0
count i (j ∷ l) = bit (i == j) + count i l

-- The list with every `i` taken out.
abbrev pub erase : ℕ → List ℕ → List ℕ
erase i [] = []
erase i (j ∷ l) = let rest = erase i l in if i == j then rest else j ∷ rest

pub count-erase : (i j : ℕ) (l : List ℕ) → count j (erase i l) ≡ (if i == j then 0 else count j l)
count-erase i j [] = ground arith
count-erase i j (k ∷ l) = ground (arith, count-erase i j l)

-- A table with one entry replaced.
abbrev pub update {ℓ} : {A : Type ℓ} → (ℕ → A) → ℕ → A → ℕ → A
update f i v j = if i == j then v else f j

pub count-append : (i : ℕ) (xs ys : List ℕ) → count i (xs ++ ys) ≡ count i xs + count i ys
count-append i [] ys = omega arith
count-append i (x ∷ xs) ys = omega (arith, count-append i xs ys)

-- A list without `i` loses nothing when `i` is taken out.
pub erase_absent : (i : ℕ) (l : List ℕ) → count i l ≡ 0 → erase i l ≡ l
erase_absent i [] h = refl
erase_absent i (j ∷ l) h = ground (arith, erase_absent i l)
